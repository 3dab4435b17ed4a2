-- ===== src/Fixtures.antt =====
-- src/fixtures.ts: wallets, trustlines and tokens written straight into the ledger.
pub mod Trust
pub mod Tokens
pub mod Established
use lite_soroban.Prelude.{ℕ, ◌+◌, ℤ, pos, Option, none, some, List, []}
use lite_soroban.Xdr.{Bytes, AccountId, Thresholds, ScAddress, account_address}
use lite_soroban.Ledger.{Ledger}
use lite_soroban.Classic.Accounts.{FundOptions, load_account, fund_account, default_to}

-- The wallet of an account; its other fields are computed from the id, and no function of the
-- ledger reads its keypair.
pub record Wallet : Type 0 where
  pub account_id : AccountId

pub record WalletOptions : Type 0 where
  pub xlm : Option ℤ
  pub seq_num : Option ℤ
  pub thresholds : Option Thresholds
  pub signers : List (Bytes × ℕ)

abbrev pub default_options : WalletOptions
default_options = record { xlm = none; seq_num = none; thresholds = none; signers = [] }

abbrev pub address : Wallet → ScAddress
address w = account_address w.account_id

-- The two readers of a wallet; `none`: it throws.
abbrev pub balance : Ledger → Wallet → Option ℤ
balance l w = elim (load_account l w.account_id) [ none ↦ none | some a ↦ some a.balance ]

abbrev pub sequence : Ledger → Wallet → Option ℤ
sequence l w = elim (load_account l w.account_id) [ none ↦ none | some a ↦ some a.seq_num ]

abbrev fund_options : WalletOptions → FundOptions
fund_options o = record {
  balance = some (default_to o.xlm (pos 100_000_000_000));
  seq_num = o.seq_num;
  thresholds = o.thresholds;
  signers = o.signers;
}

-- `random_id` is the key of `Keypair.random()`.
unfoldable pub pre_funded_wallet :
    Ledger → (random_id : AccountId) → WalletOptions → Wallet × Ledger
pre_funded_wallet l id opts = (record { account_id = id }, fund_account l id (fund_options opts))

unfoldable pub adopt_account : Ledger → AccountId → WalletOptions → Wallet × Ledger
adopt_account l id opts = (record { account_id = id }, fund_account l id (fund_options opts))

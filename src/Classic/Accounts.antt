-- ===== src/Classic/Accounts.antt =====
-- The account helpers of src/classic.ts: keys, loading and storing, funding, the reserve, the
-- signer list, and the chain of account extensions.
pub mod Loading
pub mod Extensions
use lite_soroban.Prelude.{
  ℕ, ◌+◌, ◌*◌, ℤ, pos, ◌-ℤ◌, Bool, true, false, List, [], ◌∷◌, map, Option, none, some,
  if◌then◌else◌, ◌==◌,
}
use lite_soroban.Xdr.{
  Bytes, AccountId, MuxedAccount, ed25519, med25519, key_ed25519, WeightedSigner, Thresholds,
  AccountEntryExtensionV3, AccountEntryExtensionV2, AccountEntryExtensionV1, AccountEntry,
  LedgerKey, LedgerEntryData, LedgerEntry,
}
use lite_soroban.Ledger.{Ledger, get_entry, put_entry}

abbrev pub base_fee : ℕ
base_fee = 100

abbrev pub base_reserve : ℕ
base_reserve = 5_000_000

abbrev pub account_key : AccountId → LedgerKey
account_key id = LedgerKey.account id

abbrev pub muxed_to_account_id : MuxedAccount → AccountId
muxed_to_account_id (ed25519 id) = id
muxed_to_account_id (med25519 n id) = id

abbrev pub is_muxed : MuxedAccount → Bool
is_muxed (ed25519 id) = false
is_muxed (med25519 n id) = true

-- `expectUnionVariant(data, 'account')`. An entry of another type under an account's key, on
-- which the source throws, reads as no account; a store that is `IsKeyed` has none.
abbrev pub expect_account : LedgerEntryData → Option AccountEntry
expect_account (LedgerEntryData.account a) = some a
expect_account _ = none

unfoldable pub load_account : Ledger → AccountId → Option AccountEntry
load_account l id = elim (get_entry l (account_key id)) [
  | none ↦ none
  | some e ↦ expect_account e.content
]

unfoldable pub store_account : Ledger → AccountEntry → Ledger
unfolding put_entry
store_account l a = put_entry l entry none
  where
    entry : LedgerEntry
    entry = record { last_modified = l.ledger_seq; content = LedgerEntryData.account a }

pub record FundOptions : Type 0 where
  pub balance : Option ℤ
  pub seq_num : Option ℤ
  pub thresholds : Option Thresholds
  pub signers : List (Bytes × ℕ)

abbrev pub default_to {ℓ} : {A : Type ℓ} → Option A → A → A
default_to none a = a
default_to (some b) a = b

abbrev fresh_thresholds : Thresholds
fresh_thresholds = record { master = 1; low = 0; medium = 0; high = 0 }

abbrev ed25519_signer : Bytes × ℕ → WeightedSigner
ed25519_signer (key, weight) = record { key = key_ed25519 key; weight = weight }

unfoldable pub fund_account : Ledger → AccountId → FundOptions → Ledger
fund_account l id opts = store_account l account
  where
    account : AccountEntry
    account = record {
      account_id = id;
      balance = default_to opts.balance (pos 100_000_000_000);
      seq_num = default_to opts.seq_num (pos 0);
      num_sub_entries = 0;
      inflation_dest = none;
      flags = 0;
      home_domain = [];
      thresholds = default_to opts.thresholds fresh_thresholds;
      signers = map ed25519_signer opts.signers;
      ext = none;
    }

unfoldable pub available_balance : AccountEntry → ℤ
available_balance a = a.balance -ℤ pos ((2 + a.num_sub_entries) * base_reserve)

-- The master key only when its weight is not zero, then every signer of the account.
unfoldable pub account_signers : AccountEntry → List WeightedSigner
account_signers a =
    if a.thresholds.master == 0
    then a.signers
    else record { key = key_ed25519 a.account_id; weight = a.thresholds.master } ∷ a.signers

-- The extension of level 3, if the chain reaches it.
unfoldable pub account_entry_extension_v3 : AccountEntry → Option AccountEntryExtensionV3
account_entry_extension_v3 a = elim a.ext [
  | none ↦ none
  | some v1 ↦ elim v1.ext [ none ↦ none | some v2 ↦ v2.ext ]
]

-- `accountEntryExtensionChain`: the levels 1 and 2 as they are, or zeroed.
abbrev chain_v1 : Option AccountEntryExtensionV1 → AccountEntryExtensionV1
chain_v1 (some v1) = v1
chain_v1 none = record { buying = pos 0; selling = pos 0; ext = none }

abbrev chain_v2 : List WeightedSigner → Option AccountEntryExtensionV2 → AccountEntryExtensionV2
chain_v2 signers (some v2) = v2
chain_v2 signers none = record {
  num_sponsored = 0;
  num_sponsoring = 0;
  signer_sponsoring_ids = map (λ _. none) signers;
  ext = none;
}

unfoldable pub account_entry_extension_chain :
    AccountEntry → AccountEntryExtensionV1 × AccountEntryExtensionV2
account_entry_extension_chain a = let v1 = chain_v1 a.ext in (v1, chain_v2 a.signers v1.ext)

unfoldable pub prepare_account_entry_extension_v3 : AccountEntry → AccountEntryExtensionV3
unfolding account_entry_extension_v3
prepare_account_entry_extension_v3 a =
    default_to (account_entry_extension_v3 a) (record { seq_ledger = 0; seq_time = 0 })

unfoldable pub with_account_entry_extension_v3 :
    AccountEntry → AccountEntryExtensionV3 → Option AccountEntryExtensionV1
unfolding account_entry_extension_chain
with_account_entry_extension_v3 a v3 =
    let (v1, v2) = account_entry_extension_chain a in
    some (record v1 { ext = some (record v2 { ext = some v3 }) })

-- A missing account, on which the source throws, leaves the ledger as it is: the callers have
-- loaded it.
unfoldable pub bump_sequence : Ledger → AccountId → ℤ → Ledger
unfolding with_account_entry_extension_v3 prepare_account_entry_extension_v3
bump_sequence l id to = elim (load_account l id) [
  | none ↦ l
  | some a ↦
      let v3 : AccountEntryExtensionV3 = record (prepare_account_entry_extension_v3 a) {
        seq_ledger = l.ledger_seq;
        seq_time = l.timestamp;
      } in
      store_account l (record a { seq_num = to; ext = with_account_entry_extension_v3 a v3 })
]

unfoldable pub debit : Ledger → AccountId → ℤ → Ledger
debit l id amount = elim (load_account l id) [
  | none ↦ l
  | some a ↦ store_account l (record a { balance = a.balance -ℤ amount })
]

-- ===== src/Facade.antt =====
-- The `LiteStellar` class of src/litestellar.ts: one object over the ledger, the fixtures and the
-- RPC adapter.
pub mod Signing
pub mod Calls
pub mod Failing
pub mod Isolation
pub mod Salts
pub mod Signed
pub mod Passing
use lite_soroban.Prelude.{
  ℕ, ◌+◌, ◌-◌, ◌*◌, ◌/◌, ◌%◌, ℤ, pos, Bool, true, false, List, [], ◌∷◌, ◌++◌, replicate, Option,
  none, some, if◌then◌else◌, ltb,
}
use lite_soroban.Xdr.{Bytes, AccountId, AccountEntry, Asset, TransactionEnvelope}
use lite_soroban.Ledger.{Ledger, new_ledger, advance_ledgers, snapshot, restore}
use lite_soroban.Sdk.{Sdk}
use lite_soroban.Classic.Accounts.{load_account}
use lite_soroban.Classic.Outcome.{TxOutcome}
use lite_soroban.Classic.Validate.{ValidationOptions}
use lite_soroban.Rpc.Submitting.{ledger_submit}
use lite_soroban.Settings.{ArchivalSettings, NetworkFeeSettings}
use lite_soroban.Loaders.{CostParams, set_cost_params, set_archival_settings, set_fee_settings}
use lite_soroban.Fixtures.Trust.{TrustlineOptions, establish_trustline}
use lite_soroban.Fixtures.{WalletOptions, adopt_account, Wallet, pre_funded_wallet, default_options}

pub record LiteStellar : Type 0 where
  pub ledger : Ledger
  pub validation : ValidationOptions
  pub payer_wallet : Option Wallet
  pub salt_counter : ℕ

-- A switch that is not set is on (`applyTransaction` of src/classic.ts).
abbrev pub every_check : ValidationOptions
every_check = record {
  sigverify = true;
  sequence_check = true;
  fee_charging = true;
  timebounds = true;
}

abbrev pub new_lite_stellar : (passphrase : Bytes) → (ledger_seq : ℕ) → LiteStellar
new_lite_stellar passphrase seq = record {
  ledger = new_ledger passphrase seq;
  validation = every_check;
  payer_wallet = none;
  salt_counter = 0;
}

abbrev pub with_sigverify : LiteStellar → Bool → LiteStellar
with_sigverify s on = record s { validation = record s.validation { sigverify = on } }

abbrev pub with_sequence_check : LiteStellar → Bool → LiteStellar
with_sequence_check s on = record s { validation = record s.validation { sequence_check = on } }

abbrev pub with_fee_charging : LiteStellar → Bool → LiteStellar
with_fee_charging s on = record s { validation = record s.validation { fee_charging = on } }

abbrev pub with_timebounds : LiteStellar → Bool → LiteStellar
with_timebounds s on = record s { validation = record s.validation { timebounds = on } }

abbrev pub without_classic_checks : LiteStellar → LiteStellar
without_classic_checks s =
    with_timebounds (with_sequence_check (with_sigverify s false) false) false

abbrev pub with_payer : LiteStellar → Wallet → LiteStellar
with_payer s w = record s { payer_wallet = some w }

-- The getter `payer`: created on first use, with the key `random_id`.
unfoldable pub payer : LiteStellar → (random_id : AccountId) → Wallet × LiteStellar
unfolding pre_funded_wallet
payer s random_id = elim s.payer_wallet [
  | some w ↦ (w, s)
  | none ↦
      let (w, l) = pre_funded_wallet s.ledger random_id default_options in
      (w, record s { ledger = l; payer_wallet = some w })
]

-- `none`: it throws, the ledger asked for being behind.
unfoldable pub warp_to_ledger : LiteStellar → ℕ → Option LiteStellar
warp_to_ledger s sequence =
    if ltb sequence s.ledger.ledger_seq
    then none
    else some (record s { ledger = advance_ledgers s.ledger (sequence - s.ledger.ledger_seq) })

-- A missing account has a balance of 0.
unfoldable pub get_balance : LiteStellar → AccountId → ℤ
get_balance s id = elim (load_account s.ledger id) [ none ↦ pos 0 | some a ↦ a.balance ]

unfoldable pub send_transaction : Sdk → LiteStellar → TransactionEnvelope → TxOutcome × LiteStellar
unfolding ledger_submit
send_transaction sdk s e =
    let (o, l) = ledger_submit sdk s.validation s.ledger e in (o, record s { ledger = l })

-- 28 zero bytes and the counter, as a uint32 with the most significant byte first; `none`: the
-- counter is past a uint32, on which `writeUInt32BE` throws, after the counter has gone up.
abbrev pub salt_bytes : ℕ → Bytes
salt_bytes n =
    replicate 28 0 ++ (n / 16777216 % 256) ∷ (n / 65536 % 256) ∷ (n / 256 % 256) ∷ (n % 256) ∷ []

unfoldable pub next_salt : LiteStellar → Option Bytes × LiteStellar
next_salt s = (
  if ltb s.salt_counter 4294967296 then some (salt_bytes s.salt_counter) else none,
  record s { salt_counter = s.salt_counter + 1 },
)

abbrev rolled_back {ℓ} : {A : Type ℓ} → A → LiteStellar → Option Ledger → Option A × LiteStellar
rolled_back r s none = (none, s)
rolled_back r s (some l) = (some r, record s { ledger = l })

-- `sandboxed`: the body runs, and the snapshot is restored, whether or not it threw; the rest of
-- the object stays as the body leaves it.
unfoldable pub sandboxed {ℓ} :
    {A : Type ℓ} → LiteStellar → (LiteStellar → A × LiteStellar) → Option A × LiteStellar
unfolding snapshot restore
sandboxed s body =
    let (l, snap) = snapshot s.ledger in
    let (r, s') = body (record s { ledger = l }) in rolled_back r s' (restore s'.ledger snap)

-- The methods that install settings.
abbrev pub with_network_cost_params : LiteStellar → CostParams → LiteStellar
with_network_cost_params s p = record s { ledger = set_cost_params s.ledger p }

abbrev pub with_archival_settings : LiteStellar → ArchivalSettings → LiteStellar
with_archival_settings s settings = record s { ledger = set_archival_settings s.ledger settings }

abbrev pub with_fee_settings : LiteStellar → NetworkFeeSettings → LiteStellar
with_fee_settings s settings = record s { ledger = set_fee_settings s.ledger settings }

-- The methods that write accounts and trustlines.
unfoldable pub airdrop :
    LiteStellar → (random_id : AccountId) → WalletOptions → Wallet × LiteStellar
unfolding pre_funded_wallet
airdrop s random_id opts =
    let (w, l) = pre_funded_wallet s.ledger random_id opts in (w, record s { ledger = l })

unfoldable pub fund : LiteStellar → AccountId → WalletOptions → Wallet × LiteStellar
unfolding adopt_account
fund s id opts = let (w, l) = adopt_account s.ledger id opts in (w, record s { ledger = l })

unfoldable pub trust : LiteStellar → Wallet → Asset → TrustlineOptions → LiteStellar
unfolding establish_trustline
trust s holder asset opts = record s { ledger = establish_trustline s.ledger holder asset opts }

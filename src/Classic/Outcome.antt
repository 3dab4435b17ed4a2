-- ===== src/Classic/Outcome.antt =====
-- `TxResultCode`, `TxOutcome`, the diagnostics, `fail` and `malformed` of src/classic.ts.
-- A diagnostic text is a constructor that carries the values printed in it.
use lite_soroban.Prelude.{
  ℕ, ℤ, pos, Bool, true, false, List, Option, none, some, ◌≡◌, ◌⊎◌, refl, sym, ap, inl, inr,
}
use lite_soroban.Xdr.{Bytes, AccountId, LedgerKey}
use lite_soroban.Sdk.{InvokeResult}

pub data TxResultCode : Type 0 where
  tx_success tx_failed tx_no_account tx_bad_seq tx_bad_auth tx_bad_auth_extra : TxResultCode
  tx_too_early tx_too_late tx_bad_min_seq_age_or_gap tx_missing_operation : TxResultCode
  tx_malformed tx_soroban_invalid tx_insufficient_fee tx_insufficient_balance : TxResultCode
  tx_fee_bump_inner_success tx_fee_bump_inner_failed : TxResultCode

pub data OpCode : Type 0 where
  op_bad_auth op_no_account : OpCode

pub data FootprintOpResult : Type 0 where
  extend_success extend_malformed extend_resource_limit_exceeded : FootprintOpResult
  extend_insufficient_refundable_fee : FootprintOpResult
  restore_success restore_malformed restore_resource_limit_exceeded : FootprintOpResult
  restore_insufficient_refundable_fee : FootprintOpResult

-- The resource that a diagnostic of the form `what: value > limit` names.
pub data Limit : Type 0 where
  instructions byte_read byte_write footprint_entries entry_disk_read entry_write : Limit
  footprint_key transaction_size wasm_size contract_data_size extend_to : Limit
  operation_byte_read operation_byte_write : Limit

pub data Detail : Type 0 where
  identical_extra_signers empty_signed_payload : Detail
  min_time_after min_ledger_after max_time_before max_ledger_not_after : (b now : ℕ) → Detail
  min_seq_num_unmet : (least current tx : ℤ) → Detail
  wrong_sequence : (expected got : ℤ) → Detail
  starting_sequence : Detail
  min_seq_age_unmet min_seq_ledger_gap_unmet : (least last now : ℕ) → Detail
  no_soroban_data : Detail
  resource_fee_out_of_range : ℤ → Detail
  inclusion_fee_negative : (inclusion resource full : ℤ) → Detail
  bump_fee_negative : Detail
  in_inner_transaction : Detail → Detail
  unsupported_envelope : Detail
  bump_fee_too_low : (inclusion least : ℤ) → Detail
  bump_rate_not_raised : Detail
  fee_source_missing fee_source_unsigned fee_source_cannot_pay bump_signature_unused : Detail
  classic_operation one_operation_only memo_or_muxed missing_soroban_data : Detail
  over : Limit → (value limit : ℕ) → Detail
  invalid_trustline_asset archived_not_sorted : Detail
  unsupported_key_type : (kind : ℕ) → Detail
  archived_out_of_bounds : (index bound : ℕ) → Detail
  archived_not_persistent : (index : ℕ) → Detail
  resource_fee_too_low : (declared actual : ℤ) → Detail
  source_missing : Detail
  low_threshold_unmet : ℕ → AccountId → Detail
  extra_signer_missing : Detail
  inclusion_fee_too_low : ℤ → Detail
  source_cannot_pay : Detail
  operation_threshold_unmet : AccountId → Detail
  read_write_not_empty no_ttl_key read_only_not_empty not_persistent_key : Detail
  signature_unused operation_source_missing : Detail
  rent_not_covered : (rent refundable : ℤ) → Detail
  host_detail : Bytes → Detail

pub record SorobanFee : Type 0 where
  pub non_refundable : ℤ
  pub refundable : ℤ
  pub rent : ℤ

-- `unseeded` is membership in the `WeakSet` of that name, which goes by object identity: an
-- outcome built by spreading another is not in it.
pub record TxOutcome : Type 0 where
  pub code : TxResultCode
  pub ok : Bool
  pub return_value : Option Bytes
  pub events : Option (List Bytes)
  pub changed_keys : Option (List LedgerKey)
  pub removed_keys : Option (List LedgerKey)
  pub fee_charged : ℤ
  pub soroban_fee : Option SorobanFee
  pub invoke_result : Option InvokeResult
  pub inner_code : Option TxResultCode
  pub error : Option Bytes
  pub detail : Option Detail
  pub diagnostic_events : Option (List Bytes)
  pub rejected : Bool
  pub op_code : Option OpCode
  pub footprint_op_result : Option FootprintOpResult
  pub unseeded : Bool

-- An outcome with every optional field absent.
abbrev pub plain : TxResultCode → Bool → TxOutcome
plain code ok = record {
  code = code;
  ok = ok;
  return_value = none;
  events = none;
  changed_keys = none;
  removed_keys = none;
  fee_charged = pos 0;
  soroban_fee = none;
  invoke_result = none;
  inner_code = none;
  error = none;
  detail = none;
  diagnostic_events = none;
  rejected = false;
  op_code = none;
  footprint_op_result = none;
  unseeded = false;
}

-- `fail(code, detail, feeCharged)`
abbrev pub fail_charging : TxResultCode → Option Detail → ℤ → TxOutcome
fail_charging code detail fee = record (plain code false) {
  detail = detail;
  fee_charged = fee;
  rejected = true;
}

abbrev pub fail : TxResultCode → Detail → TxOutcome
fail code detail = fail_charging code (some detail) (pos 0)

abbrev pub malformed : Detail → TxOutcome
malformed detail = record (fail tx_malformed detail) { unseeded = true }

-- A check of the validation: what it computed, or the outcome of an early return.
pub data Check {ℓ} (A : Type ℓ) : Type ℓ where
  pass : A → Check A
  reject : TxOutcome → Check A

infixl 5 ◌>>=◌ ◌>>◌
abbrev pub ◌>>=◌ {ℓ κ} : {A : Type ℓ} {B : Type κ} → Check A → (A → Check B) → Check B
pass a >>= f = f a
reject o >>= f = reject o

abbrev pub ◌>>◌ {ℓ} : {B : Type ℓ} → Check (Unit {0}) → Check B → Check B
m >> k = m >>= λ _. k

-- `if (bad) return o;`
abbrev pub refuse_if : Bool → TxOutcome → Check (Unit {0})
refuse_if true o = reject o
refuse_if false o = pass tt

-- `const d = …; if (d) return o(d);`
abbrev pub refuse_some {ℓ} : {A : Type ℓ} → Option A → (A → TxOutcome) → Check (Unit {0})
refuse_some none o = pass tt
refuse_some (some d) o = reject (o d)

-- `if (!x) return o;`
abbrev pub or_refuse {ℓ} : {A : Type ℓ} → Option A → TxOutcome → Check A
or_refuse none o = reject o
or_refuse (some a) o = pass a

-- What a check that passes has established.
pub record Ensures {ℓ κ} {A : Type ℓ} (Q : A → Type κ) (m : Check A) : Type (ℓ ⊔ κ) where
  pub at : (a : A) → m ≡ pass a → Q a

abbrev got {ℓ} : {A : Type ℓ} → A → Check A → A
got d (pass a) = a
got d (reject o) = d

pub Ensures-pass {ℓ κ} : {A : Type ℓ} {Q : A → Type κ} (a : A) → Q a → Ensures Q (pass a)
Ensures-pass a q = record { at = λ b e. rw (sym (ap (got a) e)) q }

pub Ensures-bind {ℓ κ μ} :
    {A : Type ℓ} {B : Type κ} {Q : B → Type μ} (m : Check A) (f : A → Check B)
    → ((a : A) → m ≡ pass a → Ensures Q (f a))
    → Ensures Q (m >>= f)
Ensures-bind (pass a) f h = h a refl
Ensures-bind (reject o) f h = record { at = λ b e. cc }

pub Ensures-then {ℓ κ} :
    {B : Type ℓ} {Q : B → Type κ} (m : Check (Unit {0})) (k : Check B)
    → (m ≡ pass tt → Ensures Q k)
    → Ensures Q (m >> k)
Ensures-then m k h = Ensures-bind m (λ _. k) λ u p. h p

pub Check-cases {ℓ} :
    {A : Type ℓ} (m : Check A) → ((o : TxOutcome) × (m ≡ reject o)) ⊎ ((a : A) × (m ≡ pass a))
Check-cases (pass a) = inr (a, refl)
Check-cases (reject o) = inl (o, refl)

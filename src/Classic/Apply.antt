-- ===== src/Classic/Apply.antt =====
-- `applyTransaction`, `applyEnvelope`, `applyFeeBump` and `applyInner` of src/classic.ts.
pub mod Refusal
pub mod Atomic
pub mod Course
pub mod Trail
pub mod Authority
pub mod Signed
pub mod Failed
pub mod Keyed
pub mod Replay
pub mod Bumped
pub mod Accounting
pub mod Clocked
pub mod Verdict
use lite_soroban.Prelude.{
  ℕ, suc, ◌+◌, ℤ, pos, ◌-ℤ◌, ltb_ℤ, eqb_ℤ, Bool, true, false, not, ◌&&◌, List, [], ◌∷◌, Option,
  none, some, if◌then◌else◌, length,
}
use lite_soroban.Xdr.{
  Bytes, DecoratedSignature, Transaction, V1Envelope, FeeBumpTransaction, FeeBumpEnvelope,
  TransactionEnvelope, tx_v0, tx_v1, tx_fee_bump, AccountEntry,
}
use lite_soroban.Sdk.{Sdk}
use lite_soroban.Ledger.{Ledger}
use lite_soroban.Classic.Outcome.{
  tx_no_account, tx_bad_auth, tx_bad_auth_extra, tx_insufficient_fee, tx_insufficient_balance,
  tx_fee_bump_inner_success, tx_fee_bump_inner_failed, Detail, bump_fee_negative,
  in_inner_transaction, unsupported_envelope, bump_fee_too_low, bump_rate_not_raised,
  fee_source_missing, fee_source_unsigned, fee_source_cannot_pay, bump_signature_unused, TxOutcome,
  fail_charging, fail, malformed, Check, pass, reject, ◌>>=◌, ◌>>◌, refuse_if, refuse_some,
  or_refuse,
}
use lite_soroban.Classic.Accounts.{
  muxed_to_account_id, load_account, available_balance, account_signers,
}
use lite_soroban.Classic.Signatures.{
  SignatureChecker, new_checker, check_signature, check_all_signatures_used,
}
use lite_soroban.Classic.Fees.{
  xdr_provides_valid_fee, declared_resource_fee, negative_inclusion_fee, fee_to_charge, nominal_fee,
  min_inclusion, bump_rate_problem,
}
use lite_soroban.Classic.Validate.{ValidationOptions, FeeCharge, Validated, validate_inner, require}
use lite_soroban.Classic.Commit.{commit_inner}

-- A rejection leaves the ledger; an envelope that passes is committed.
unfoldable pub apply_inner :
    Sdk
    → Ledger
    → Bytes
    → ValidationOptions
    → Transaction
    → List DecoratedSignature
    → (fee_bumped : Bool) → (tx_size : ℕ) → Option FeeCharge
    → TxOutcome × Ledger
unfolding validate_inner commit_inner
apply_inner sdk l passphrase v raw signatures fee_bumped tx_size charge =
    elim (validate_inner sdk l passphrase v raw signatures fee_bumped tx_size charge) [
      | reject o ↦ (o, l)
      | pass w ↦ commit_inner sdk l v raw charge w
    ]

-- The signatures of the fee source, at LOW; the state of the checker after it.
abbrev pub check_fee_source :
    Sdk → Option SignatureChecker → AccountEntry → Check (Option SignatureChecker)
check_fee_source sdk none a = pass none
check_fee_source sdk (some c) a = do
  c' ←
      require (check_signature sdk c (account_signers a) a.thresholds.low)
        (fail tx_bad_auth fee_source_unsigned)
  pass (some c')

abbrev pub unused_in : Option SignatureChecker → Bool
unused_in none = false
unused_in (some c) = not (check_all_signatures_used c)

abbrev pub bump_checker :
    Sdk → Bytes → ValidationOptions → FeeBumpEnvelope → Option SignatureChecker
bump_checker sdk passphrase v e =
    if v.sigverify
    then some (new_checker e.signatures (sdk.fee_bump_hash passphrase e.tx))
    else none

-- The checks of `applyFeeBump` before the inner transaction, in order.
unfoldable pub validate_fee_bump :
    Sdk → Ledger → Bytes → ValidationOptions → FeeBumpEnvelope → Check (Unit {0})
unfolding xdr_provides_valid_fee declared_resource_fee negative_inclusion_fee bump_rate_problem
validate_fee_bump sdk l passphrase v e = do
  let inner = e.tx.inner_tx.tx
  let resource = declared_resource_fee inner
  let ops = length inner.operations
  let inclusion = e.tx.fee -ℤ resource
  refuse_if (ltb_ℤ e.tx.fee (pos 0)) (malformed bump_fee_negative)
  refuse_some (xdr_provides_valid_fee inner) (λ d. malformed (in_inner_transaction d))
  refuse_some (negative_inclusion_fee e.tx.fee resource) malformed
  refuse_if (ltb_ℤ inclusion (pos (min_inclusion (ops + 1))))
      (fail tx_insufficient_fee (bump_fee_too_low inclusion (pos (min_inclusion (ops + 1)))))
  refuse_some (bump_rate_problem inclusion (pos inner.fee -ℤ resource) ops)
      (λ needed. fail_charging tx_insufficient_fee (some bump_rate_not_raised) (pos needed))
  a ←
      or_refuse (load_account l (muxed_to_account_id e.tx.fee_source))
        (fail tx_no_account fee_source_missing)
  c ← check_fee_source sdk (bump_checker sdk passphrase v e) a
  refuse_if (v.fee_charging && ltb_ℤ (available_balance a) e.tx.fee)
      (fail tx_insufficient_balance fee_source_cannot_pay)
  refuse_if (unused_in c) (fail tx_bad_auth_extra bump_signature_unused)

abbrev pub bump_charge : ValidationOptions → FeeBumpEnvelope → Option FeeCharge
bump_charge v e =
    let inner = e.tx.inner_tx.tx in
    if v.fee_charging
    then some (record {
      payer = muxed_to_account_id e.tx.fee_source;
      upfront = fee_to_charge e.tx.fee (declared_resource_fee inner) (length inner.operations + 1);
    })
    else none

-- The outer outcome of an inner one. Both arms spread the inner outcome into a new object.
unfoldable pub bump_outcome : TxOutcome → TxOutcome
bump_outcome inner =
    if inner.rejected
    then record inner {
      code = tx_fee_bump_inner_failed;
      inner_code = some inner.code;
      fee_charged = pos 0;
      unseeded = false;
    }
    else record inner {
      code = if inner.ok then tx_fee_bump_inner_success else tx_fee_bump_inner_failed;
      inner_code = some inner.code;
      unseeded = false;
    }

unfoldable pub apply_fee_bump :
    Sdk → Ledger → Bytes → ValidationOptions → FeeBumpEnvelope → TxOutcome × Ledger
unfolding validate_fee_bump bump_outcome fee_to_charge declared_resource_fee
apply_fee_bump sdk l passphrase v e = elim (validate_fee_bump sdk l passphrase v e) [
  | reject o ↦ (o, l)
  | pass u ↦
      let inner = e.tx.inner_tx in
      let (o, l') =
        apply_inner sdk l passphrase v inner.tx inner.signatures true (sdk.envelope_size inner)
          (bump_charge v e) in
      (bump_outcome o, l')
]

-- The fee checks of a plain envelope, before `applyInner`.
unfoldable pub validate_plain : Transaction → Check (Unit {0})
unfolding xdr_provides_valid_fee negative_inclusion_fee declared_resource_fee
validate_plain raw = do
  refuse_some (xdr_provides_valid_fee raw) malformed
  refuse_some (negative_inclusion_fee (pos raw.fee) (declared_resource_fee raw)) malformed

abbrev pub plain_charge : ValidationOptions → Transaction → Option FeeCharge
plain_charge v raw =
    if v.fee_charging
    then some (record {
      payer = muxed_to_account_id raw.source_account;
      upfront = fee_to_charge (pos raw.fee) (declared_resource_fee raw) (length raw.operations);
    })
    else none

unfoldable pub apply_envelope :
    Sdk → Ledger → Bytes → ValidationOptions → TransactionEnvelope → TxOutcome × Ledger
unfolding apply_fee_bump apply_inner validate_plain fee_to_charge declared_resource_fee
apply_envelope sdk l passphrase v (tx_fee_bump e) = apply_fee_bump sdk l passphrase v e
apply_envelope sdk l passphrase v (tx_v0 b) = (malformed unsupported_envelope, l)
apply_envelope sdk l passphrase v (tx_v1 e) = elim (validate_plain e.tx) [
  | reject o ↦ (o, l)
  | pass u ↦
      apply_inner sdk l passphrase v e.tx e.signatures false (sdk.envelope_size e)
        (plain_charge v e.tx)
]

abbrev or_zero : Option ℤ → ℤ
or_zero none = pos 0
or_zero (some f) = f

-- The nominal fee is filled in for a rejection that reports none.
unfoldable pub fill_fee : TransactionEnvelope → TxOutcome → TxOutcome
unfolding nominal_fee
fill_fee envelope o =
    if o.rejected && not o.unseeded && eqb_ℤ o.fee_charged (pos 0)
    then record o { fee_charged = or_zero (nominal_fee envelope) }
    else o

unfoldable pub apply_transaction :
    Sdk → Ledger → Bytes → ValidationOptions → TransactionEnvelope → TxOutcome × Ledger
unfolding apply_envelope fill_fee
apply_transaction sdk l passphrase v envelope =
    let (o, l') = apply_envelope sdk l passphrase v envelope in (fill_fee envelope o, l')

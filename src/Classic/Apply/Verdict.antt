-- ===== src/Classic/Apply/Verdict.antt =====
-- The result code of a transaction that is not rejected says whether it is ok.
use lite_soroban.Prelude.{
  ℕ, ℤ, ◌≡◌, ◌⊎◌, refl, Bool, true, false, List, Option, none, some, arith, inl, inr, if◌then◌else◌,
}
use lite_soroban.Xdr.{
  Bytes, AccountEntry, DecoratedSignature, Transaction, TransactionEnvelope, tx_v0, tx_v1,
  tx_fee_bump, OperationBody, invoke_host_function, extend_footprint_ttl, restore_footprint,
  classic,
}
use lite_soroban.Sdk.{Sdk}
use lite_soroban.Ledger.{Ledger}
use lite_soroban.Classic.Outcome.{
  TxOutcome, TxResultCode, tx_success, tx_failed, tx_fee_bump_inner_success,
  tx_fee_bump_inner_failed, Check-cases,
}
use lite_soroban.Classic.Validate.{ValidationOptions, FeeCharge, Validated, validate_inner}
use lite_soroban.Classic.Commit.{
  commit_inner, run_for, settle, footprint_outcome, host_outcome, Consumed, Arms, run_body,
  no_account_outcome, nothing_consumed,
}
use lite_soroban.Classic.Footprint.{FootprintOpApplied}
use lite_soroban.Classic.Apply.{
  apply_inner, validate_fee_bump, validate_plain, bump_charge, plain_charge, bump_outcome,
  apply_fee_bump, apply_envelope, fill_fee, apply_transaction,
}
use lite_soroban.Classic.Apply.Refusal.{
  validate_inner-Refuses, validate_fee_bump-Refuses, validate_plain-Refuses,
}

-- The code of a plain transaction that ran, and of a fee bump.
abbrev pub verdict : Bool → TxResultCode
verdict ok = if ok then tx_success else tx_failed

abbrev pub bump_verdict : Bool → TxResultCode
bump_verdict ok = if ok then tx_fee_bump_inner_success else tx_fee_bump_inner_failed

settle_coded :
    (charge : Option FeeCharge) (w : Validated) (o : TxOutcome) (c : Consumed) (l : Ledger)
    → o.code ≡ verdict o.ok
    → (settle charge w o c l).0.code ≡ verdict (settle charge w o c l).0.ok
unfolding settle
settle_coded none w o c l h = h
settle_coded (some k) w o c l h = h

footprint_outcome_coded :
    (arms : Arms) (a : FootprintOpApplied)
    → (footprint_outcome arms a).0.code ≡ verdict (footprint_outcome arms a).0.ok
unfolding footprint_outcome
footprint_outcome_coded arms a = ground arith

run_body_coded :
    (sdk : Sdk) (charge : Option FeeCharge) (w : Validated) (cap : Option ℤ) (l : Ledger)
    (body : OperationBody)
    → let o = (run_body sdk charge w cap l body).0 in o.code ≡ verdict o.ok
unfolding host_outcome
run_body_coded sdk charge w cap l (extend_footprint_ttl to) =
    settle_coded charge w _ _ _ (footprint_outcome_coded _ _)
run_body_coded sdk charge w cap l restore_footprint =
    settle_coded charge w _ _ _ (footprint_outcome_coded _ _)
run_body_coded sdk charge w cap l (invoke_host_function f auth) = settle_coded charge w _ _ _ refl
run_body_coded sdk charge w cap l (classic n) = refl

run_for_coded :
    (sdk : Sdk) (charge : Option FeeCharge) (w : Validated) (l : Ledger) (a : Option AccountEntry)
    → let o = (run_for sdk charge w l a).0 in o.code ≡ verdict o.ok
unfolding run_for
run_for_coded sdk charge w l none = settle_coded charge w no_account_outcome nothing_consumed l refl
run_for_coded sdk charge w l (some a) = run_body_coded sdk charge w _ _ _

-- Rejected, or coded as plain or as a bump.
IsCoded : TxOutcome → Type 0
IsCoded o = (o.rejected ≡ true) ⊎ (o.code ≡ verdict o.ok)

apply_inner-IsCoded :
    (sdk : Sdk) (l : Ledger) (passphrase : Bytes) (v : ValidationOptions) (raw : Transaction)
    (signatures : List DecoratedSignature) (b : Bool) (size : ℕ) (charge : Option FeeCharge)
    → IsCoded (apply_inner sdk l passphrase v raw signatures b size charge).0
unfolding apply_inner commit_inner IsCoded
apply_inner-IsCoded sdk l passphrase v raw signatures b size charge =
    elim (Check-cases (validate_inner sdk l passphrase v raw signatures b size charge)) [
      | inl (o, h) ↦
          rw (h, apply_inner)
            (inl
              ((validate_inner-Refuses sdk l passphrase v raw signatures b size charge).at o h).0)
      | inr (w, h) ↦ rw (h, apply_inner) (inr (run_for_coded sdk charge w _ w.op_account))
    ]

bump_outcome_coded :
    (o : TxOutcome)
    → IsCoded o
    → ((bump_outcome o).rejected ≡ true)
      ⊎ ((bump_outcome o).code ≡ bump_verdict (bump_outcome o).ok)
unfolding bump_outcome IsCoded
bump_outcome_coded o h = ground arith

-- What `apply_envelope` returns for each kind of envelope.
unfoldable pub CodedFor : TransactionEnvelope → TxOutcome → Type 0
CodedFor (tx_v0 b) o = o.rejected ≡ true
CodedFor (tx_v1 e) o = (o.rejected ≡ true) ⊎ (o.code ≡ verdict o.ok)
CodedFor (tx_fee_bump e) o = (o.rejected ≡ true) ⊎ (o.code ≡ bump_verdict o.ok)

apply_envelope-CodedFor :
    (sdk : Sdk) (l : Ledger) (passphrase : Bytes) (v : ValidationOptions) (e : TransactionEnvelope)
    → CodedFor e (apply_envelope sdk l passphrase v e).0
unfolding apply_envelope apply_fee_bump CodedFor IsCoded
apply_envelope-CodedFor sdk l passphrase v (tx_fee_bump e) =
    elim (Check-cases (validate_fee_bump sdk l passphrase v e)) [
      | inl (o, h) ↦
          rw (h, apply_fee_bump) (inl ((validate_fee_bump-Refuses sdk l passphrase v e).at o h).0)
      | inr (u, h) ↦
          rw (h, apply_fee_bump)
            (bump_outcome_coded
              (apply_inner sdk l passphrase v e.tx.inner_tx.tx e.tx.inner_tx.signatures true
                (sdk.envelope_size e.tx.inner_tx) (bump_charge v e)).0
              (apply_inner-IsCoded sdk l passphrase v e.tx.inner_tx.tx e.tx.inner_tx.signatures true
                (sdk.envelope_size e.tx.inner_tx) (bump_charge v e)))
    ]
apply_envelope-CodedFor sdk l passphrase v (tx_v0 b) = refl
apply_envelope-CodedFor sdk l passphrase v (tx_v1 e) = elim (Check-cases (validate_plain e.tx)) [
  | inl (o, h) ↦ rw (h, apply_envelope) (inl ((validate_plain-Refuses e.tx).at o h).0)
  | inr (u, h) ↦
      rw (h, apply_envelope)
        (apply_inner-IsCoded sdk l passphrase v e.tx e.signatures false (sdk.envelope_size e)
          (plain_charge v e.tx))
]

fill_fee-CodedFor :
    (e : TransactionEnvelope) (o : TxOutcome) → CodedFor e o → CodedFor e (fill_fee e o)
unfolding fill_fee CodedFor
fill_fee-CodedFor (tx_v0 b) o h = ground arith
fill_fee-CodedFor (tx_v1 e) o h = ground arith
fill_fee-CodedFor (tx_fee_bump e) o h = ground arith

-- A transaction that is not rejected has the code of its verdict: txSUCCESS or txFAILED for a plain
-- envelope, the two codes of fee bumps for a bump; an envelope of the legacy arm is rejected.
pub apply_transaction-CodedFor :
    (sdk : Sdk) (l : Ledger) (passphrase : Bytes) (v : ValidationOptions) (e : TransactionEnvelope)
    → CodedFor e (apply_transaction sdk l passphrase v e).0
unfolding apply_transaction
apply_transaction-CodedFor sdk l passphrase v e =
    fill_fee-CodedFor e (apply_envelope sdk l passphrase v e).0
      (apply_envelope-CodedFor sdk l passphrase v e)

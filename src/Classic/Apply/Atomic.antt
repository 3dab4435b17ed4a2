-- ===== src/Classic/Apply/Atomic.antt =====
-- A rejected transaction leaves no trace in the ledger.
use lite_soroban.Prelude.{
  ℕ, ℤ, ◌≡◌, ◌⊎◌, refl, Bool, true, false, List, Option, none, some, arith, inl, inr,
}
use lite_soroban.Xdr.{
  Bytes, AccountEntry, DecoratedSignature, Transaction, FeeBumpEnvelope, TransactionEnvelope, tx_v0,
  tx_v1, tx_fee_bump, OperationBody, invoke_host_function, extend_footprint_ttl, restore_footprint,
  classic,
}
use lite_soroban.Sdk.{Sdk}
use lite_soroban.Ledger.{Ledger}
use lite_soroban.Classic.Outcome.{TxOutcome, Check-cases}
use lite_soroban.Classic.Validate.{ValidationOptions, FeeCharge, Validated, validate_inner}
use lite_soroban.Classic.Commit.{
  commit_inner, run_for, settle, footprint_outcome, host_outcome, Consumed, Arms, run_body,
}
use lite_soroban.Classic.Footprint.{FootprintOpApplied}
use lite_soroban.Classic.Apply.{
  apply_inner, validate_fee_bump, validate_plain, bump_charge, bump_outcome, apply_fee_bump,
  apply_envelope, fill_fee, apply_transaction,
}
use lite_soroban.Classic.Apply.Refusal.{
  IsRejection, validate_inner-Refuses, validate_fee_bump-Refuses, validate_plain-Refuses,
}

settle_not_rejected :
    (charge : Option FeeCharge) (w : Validated) (o : TxOutcome) (c : Consumed) (l : Ledger)
    → o.rejected ≡ false
    → (settle charge w o c l).0.rejected ≡ false
unfolding settle
settle_not_rejected none w o c l h = h
settle_not_rejected (some k) w o c l h = h

footprint_outcome_not_rejected :
    (arms : Arms) (a : FootprintOpApplied) → (footprint_outcome arms a).0.rejected ≡ false
unfolding footprint_outcome
footprint_outcome_not_rejected arms a = ground arith

run_body_not_rejected :
    (sdk : Sdk) (charge : Option FeeCharge) (w : Validated) (cap : Option ℤ) (l : Ledger)
    (body : OperationBody)
    → (run_body sdk charge w cap l body).0.rejected ≡ false
unfolding host_outcome
run_body_not_rejected sdk charge w cap l (extend_footprint_ttl to) =
    settle_not_rejected charge w _ _ _ (footprint_outcome_not_rejected _ _)
run_body_not_rejected sdk charge w cap l restore_footprint =
    settle_not_rejected charge w _ _ _ (footprint_outcome_not_rejected _ _)
run_body_not_rejected sdk charge w cap l (invoke_host_function f auth) =
    settle_not_rejected charge w _ _ _ refl
run_body_not_rejected sdk charge w cap l (classic n) = refl

run_for_not_rejected :
    (sdk : Sdk) (charge : Option FeeCharge) (w : Validated) (l : Ledger) (a : Option AccountEntry)
    → (run_for sdk charge w l a).0.rejected ≡ false
unfolding run_for
run_for_not_rejected sdk charge w l none = settle_not_rejected charge w _ _ _ refl
run_for_not_rejected sdk charge w l (some a) = run_body_not_rejected sdk charge w _ _ _

pub commit_inner_not_rejected :
    (sdk : Sdk) (l : Ledger) (v : ValidationOptions) (raw : Transaction) (charge : Option FeeCharge)
    (w : Validated)
    → (commit_inner sdk l v raw charge w).0.rejected ≡ false
unfolding commit_inner
commit_inner_not_rejected sdk l v raw charge w = run_for_not_rejected sdk charge w _ w.op_account

-- What a run comes to: a refusal that leaves the ledger, or an outcome that is not a rejection.
IsAtomic : Ledger → TxOutcome × Ledger → Type 0
IsAtomic l (o, l') = (IsRejection o × (l' ≡ l)) ⊎ (o.rejected ≡ false)

apply_inner-IsAtomic :
    (sdk : Sdk) (l : Ledger) (passphrase : Bytes) (v : ValidationOptions) (raw : Transaction)
    (signatures : List DecoratedSignature) (b : Bool) (size : ℕ) (charge : Option FeeCharge)
    → IsAtomic l (apply_inner sdk l passphrase v raw signatures b size charge)
unfolding apply_inner IsAtomic
apply_inner-IsAtomic sdk l passphrase v raw signatures b size charge =
    elim (Check-cases (validate_inner sdk l passphrase v raw signatures b size charge)) [
      | inl (o, h) ↦
          rw (h, apply_inner)
            (inl (
              (validate_inner-Refuses sdk l passphrase v raw signatures b size charge).at o h,
              refl,
            ))
      | inr (w, h) ↦ rw (h, apply_inner) (inr (commit_inner_not_rejected sdk l v raw charge w))
    ]

bump_outcome-IsAtomic :
    (l : Ledger) (r : TxOutcome × Ledger) → IsAtomic l r → IsAtomic l (bump_outcome r.0, r.1)
unfolding bump_outcome IsAtomic
bump_outcome-IsAtomic l r h = ground arith

apply_fee_bump-IsAtomic :
    (sdk : Sdk) (l : Ledger) (passphrase : Bytes) (v : ValidationOptions) (e : FeeBumpEnvelope)
    → IsAtomic l (apply_fee_bump sdk l passphrase v e)
unfolding apply_fee_bump IsAtomic
apply_fee_bump-IsAtomic sdk l passphrase v e =
    elim (Check-cases (validate_fee_bump sdk l passphrase v e)) [
      | inl (o, h) ↦
          rw (h, apply_fee_bump)
            (inl ((validate_fee_bump-Refuses sdk l passphrase v e).at o h, refl))
      | inr (u, h) ↦
          rw (h, apply_fee_bump)
            (bump_outcome-IsAtomic l
              (apply_inner sdk l passphrase v e.tx.inner_tx.tx e.tx.inner_tx.signatures true
                (sdk.envelope_size e.tx.inner_tx) (bump_charge v e))
              (apply_inner-IsAtomic sdk l passphrase v _ _ _ _ _))
    ]

apply_envelope-IsAtomic :
    (sdk : Sdk) (l : Ledger) (passphrase : Bytes) (v : ValidationOptions) (e : TransactionEnvelope)
    → IsAtomic l (apply_envelope sdk l passphrase v e)
unfolding apply_envelope IsAtomic
apply_envelope-IsAtomic sdk l passphrase v (tx_fee_bump e) =
    apply_fee_bump-IsAtomic sdk l passphrase v e
apply_envelope-IsAtomic sdk l passphrase v (tx_v0 b) = inl ((refl, refl), refl)
apply_envelope-IsAtomic sdk l passphrase v (tx_v1 e) = elim (Check-cases (validate_plain e.tx)) [
  | inl (o, h) ↦ rw (h, apply_envelope) (inl ((validate_plain-Refuses e.tx).at o h, refl))
  | inr (u, h) ↦
      rw (h, apply_envelope) (apply_inner-IsAtomic sdk l passphrase v e.tx e.signatures false _ _)
]

fill_fee_rejected :
    (e : TransactionEnvelope) (o : TxOutcome)
    → ((fill_fee e o).rejected ≡ o.rejected) × ((fill_fee e o).ok ≡ o.ok)
unfolding fill_fee
fill_fee_rejected e o = ground arith

-- A transaction that is rejected is not ok, and the ledger after it is the ledger before it: no
-- sequence number is consumed and no fee is charged, for every kind of envelope.
pub apply_transaction_rejected :
    (sdk : Sdk) (l : Ledger) (passphrase : Bytes) (v : ValidationOptions) (e : TransactionEnvelope)
    → (apply_transaction sdk l passphrase v e).0.rejected ≡ true
    → ((apply_transaction sdk l passphrase v e).0.ok ≡ false)
      × ((apply_transaction sdk l passphrase v e).1 ≡ l)
unfolding apply_transaction IsAtomic
apply_transaction_rejected sdk l passphrase v e h = ground (
  arith,
  apply_envelope-IsAtomic sdk l passphrase v e,
  fill_fee_rejected e (apply_envelope sdk l passphrase v e).0,
)

-- ===== src/Classic/Apply/Keyed.antt =====
-- The store's invariant over whole transactions.
use lite_soroban.Prelude.{
  ℕ, ℤ, pos, ◌-ℤ◌, ltb_ℤ, Bool, true, false, List, [], ◌∷◌, Option, none, some, All, arith,
  Bool-cases, inl, inr,
}
use lite_soroban.Xdr.{
  Bytes, AccountEntry, Transaction, DecoratedSignature, TransactionEnvelope, tx_v0, tx_v1,
  tx_fee_bump, OperationBody, invoke_host_function, extend_footprint_ttl, restore_footprint,
  classic, SorobanResources,
}
use lite_soroban.Sdk.{Sdk}
use lite_soroban.Ledger.{Ledger, put_entry}
use lite_soroban.Ledger.Keyed.{IsKeyed, KeyedChange, put_entry-IsKeyed, apply_changes-IsKeyed}
use lite_soroban.Host.{send}
use lite_soroban.Classic.Outcome.{TxOutcome, Check-cases}
use lite_soroban.Classic.Accounts.Loading.{bump_sequence-IsKeyed, debit-IsKeyed}
use lite_soroban.Classic.Footprint.{
  Move, Collected, moves, exceeded, put_moves, move_ttls, run_collected, apply_extend_footprint_ttl,
  apply_restore_footprint,
}
use lite_soroban.Classic.Validate.{ValidationOptions, FeeCharge, Validated, validate_inner}
use lite_soroban.Classic.Commit.{
  Consumed, max_refundable, settle, run_body, run_for, charge_source, next_sequence, commit_inner,
}
use lite_soroban.Classic.Apply.{
  apply_inner, validate_fee_bump, validate_plain, apply_fee_bump, apply_envelope, apply_transaction,
  bump_charge, plain_charge,
}

-- The host names a written entry by its own key.
unfoldable pub HostWritesKeyed : Sdk → Type 0
HostWritesKeyed sdk =
    (l : Ledger) (f source : Bytes) (r : SorobanResources) (auth : List Bytes) (restored : List ℕ)
    (cap : Option ℤ)
    → All KeyedChange (sdk.invoke l f source r auth restored cap).changes

put_moves-IsKeyed : (l : Ledger) (ms : List Move) → IsKeyed l.store → IsKeyed (put_moves l ms).store
unfolding put_moves
put_moves-IsKeyed l [] h = h
put_moves-IsKeyed l (m ∷ ms) h =
    put_moves-IsKeyed (put_entry l m.entry (some m.new_live_until)) ms
      (put_entry-IsKeyed l m.entry _ h)

pub run_collected-IsKeyed :
    (sdk : Sdk) (l : Ledger) (cap : Option ℤ) (c : Collected)
    → IsKeyed l.store
    → IsKeyed (run_collected sdk l cap c).1.store
unfolding move_ttls
run_collected-IsKeyed sdk l cap (exceeded d) h = h
run_collected-IsKeyed sdk l cap (moves ms) h = ground (arith, put_moves-IsKeyed l ms)

settle-IsKeyed :
    (charge : Option FeeCharge) (w : Validated) (o : TxOutcome) (c : Consumed) (l : Ledger)
    → IsKeyed l.store
    → IsKeyed (settle charge w o c l).1.store
unfolding settle
settle-IsKeyed none w o c l h = h
settle-IsKeyed (some k) w o c l h =
    elim (Bool-cases (ltb_ℤ (pos 0) (max_refundable w -ℤ c.refundable))) [
      | inl b ↦ rw b (debit-IsKeyed l k.payer (pos 0 -ℤ (max_refundable w -ℤ c.refundable)) h)
      | inr b ↦ rw b h
    ]

pub send-IsKeyed :
    (sdk : Sdk) (l : Ledger) (f source : Bytes) (r : SorobanResources) (auth : List Bytes)
    (restored : List ℕ) (cap : Option ℤ)
    → HostWritesKeyed sdk
    → IsKeyed l.store
    → IsKeyed (send sdk l f source r auth restored cap).1.store
unfolding send HostWritesKeyed
send-IsKeyed sdk l f source r auth restored cap g h =
    elim (Bool-cases (sdk.invoke l f source r auth restored cap).ok) [
      | inl b ↦ rw b (apply_changes-IsKeyed _ l.store (g l f source r auth restored cap) h)
      | inr b ↦ rw b h
    ]

run_body-IsKeyed :
    (sdk : Sdk) (charge : Option FeeCharge) (w : Validated) (cap : Option ℤ) (l : Ledger)
    (body : OperationBody)
    → HostWritesKeyed sdk
    → IsKeyed l.store
    → IsKeyed (run_body sdk charge w cap l body).1.store
unfolding apply_extend_footprint_ttl apply_restore_footprint
run_body-IsKeyed sdk charge w cap l (extend_footprint_ttl to) g h =
    settle-IsKeyed charge w _ _ _ (run_collected-IsKeyed sdk l cap _ h)
run_body-IsKeyed sdk charge w cap l restore_footprint g h =
    settle-IsKeyed charge w _ _ _ (run_collected-IsKeyed sdk l cap _ h)
run_body-IsKeyed sdk charge w cap l (invoke_host_function f auth) g h =
    settle-IsKeyed charge w _ _ _
      (send-IsKeyed sdk l f w.invoker_id w.soroban.resources auth [] cap g h)
run_body-IsKeyed sdk charge w cap l (classic n) g h = h

run_for-IsKeyed :
    (sdk : Sdk) (charge : Option FeeCharge) (w : Validated) (l : Ledger) (a : Option AccountEntry)
    → HostWritesKeyed sdk
    → IsKeyed l.store
    → IsKeyed (run_for sdk charge w l a).1.store
unfolding run_for
run_for-IsKeyed sdk charge w l none g h = settle-IsKeyed charge w _ _ _ h
run_for-IsKeyed sdk charge w l (some a) g h = run_body-IsKeyed sdk charge w _ l w.operation.body g h

pub charge_source-IsKeyed :
    (l : Ledger) (v : ValidationOptions) (raw : Transaction) (w : Validated)
    (charge : Option FeeCharge)
    → IsKeyed l.store
    → IsKeyed (charge_source l v raw w charge).store
unfolding charge_source
charge_source-IsKeyed l v raw w none h = bump_sequence-IsKeyed l _ _ h
charge_source-IsKeyed l v raw w (some c) h =
    debit-IsKeyed _ c.payer c.upfront (bump_sequence-IsKeyed l _ (next_sequence v raw w) h)

apply_inner-IsKeyed :
    (sdk : Sdk) (l : Ledger) (passphrase : Bytes) (v : ValidationOptions) (raw : Transaction)
    (signatures : List DecoratedSignature) (b : Bool) (size : ℕ) (charge : Option FeeCharge)
    → HostWritesKeyed sdk
    → IsKeyed l.store
    → IsKeyed (apply_inner sdk l passphrase v raw signatures b size charge).1.store
unfolding apply_inner commit_inner
apply_inner-IsKeyed sdk l passphrase v raw signatures b size charge g h =
    elim (Check-cases (validate_inner sdk l passphrase v raw signatures b size charge)) [
      | inl (o, e) ↦ rw (e, apply_inner) h
      | inr (w, e) ↦
          rw (e, apply_inner)
            (run_for-IsKeyed sdk charge w _ w.op_account g
              (charge_source-IsKeyed l v raw w charge h))
    ]

apply_envelope-IsKeyed :
    (sdk : Sdk) (l : Ledger) (passphrase : Bytes) (v : ValidationOptions) (e : TransactionEnvelope)
    → HostWritesKeyed sdk
    → IsKeyed l.store
    → IsKeyed (apply_envelope sdk l passphrase v e).1.store
unfolding apply_envelope apply_fee_bump
apply_envelope-IsKeyed sdk l passphrase v (tx_fee_bump e) g h =
    elim (Check-cases (validate_fee_bump sdk l passphrase v e)) [
      | inl (o, p) ↦ rw (p, apply_fee_bump) h
      | inr (u, p) ↦
          rw (p, apply_fee_bump)
            (apply_inner-IsKeyed sdk l passphrase v e.tx.inner_tx.tx e.tx.inner_tx.signatures true
              (sdk.envelope_size e.tx.inner_tx) (bump_charge v e) g h)
    ]
apply_envelope-IsKeyed sdk l passphrase v (tx_v0 b) g h = h
apply_envelope-IsKeyed sdk l passphrase v (tx_v1 e) g h = elim (Check-cases (validate_plain e.tx)) [
  | inl (o, p) ↦ rw (p, apply_envelope) h
  | inr (u, p) ↦
      rw (p, apply_envelope)
        (apply_inner-IsKeyed sdk l passphrase v e.tx e.signatures false (sdk.envelope_size e)
          (plain_charge v e.tx) g h)
]

-- Every transaction, of every kind and with every outcome, keeps each entry of the ledger under its
-- own key, if the host names an entry that it writes by that entry's key.
pub apply_transaction-IsKeyed :
    (sdk : Sdk) (l : Ledger) (passphrase : Bytes) (v : ValidationOptions) (e : TransactionEnvelope)
    → HostWritesKeyed sdk
    → IsKeyed l.store
    → IsKeyed (apply_transaction sdk l passphrase v e).1.store
unfolding apply_transaction
apply_transaction-IsKeyed sdk l passphrase v e g h = apply_envelope-IsKeyed sdk l passphrase v e g h

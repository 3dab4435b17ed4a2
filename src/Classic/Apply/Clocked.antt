-- ===== src/Classic/Apply/Clocked.antt =====
-- What a transaction leaves of the ledger's clock, settings and snapshots: all of it.
use lite_soroban.Prelude.{
  ℕ, ℤ, pos, ◌-ℤ◌, ltb_ℤ, Bool, true, false, List, [], ◌∷◌, Option, none, some, arith, ◌≡◌, refl,
  ◌∙◌, Bool-cases, Option-cases, inl, inr,
}
use lite_soroban.Xdr.{
  Bytes, AccountId, AccountEntry, Transaction, DecoratedSignature, TransactionEnvelope, tx_v0,
  tx_v1, tx_fee_bump, OperationBody, invoke_host_function, extend_footprint_ttl, restore_footprint,
  classic, SorobanResources, LedgerEntry, key_of,
}
use lite_soroban.Sdk.{Sdk}
use lite_soroban.Ledger.{Ledger, put_entry}
use lite_soroban.Host.{send}
use lite_soroban.Classic.Outcome.{TxOutcome, Check-cases}
use lite_soroban.Classic.Accounts.{load_account, store_account, bump_sequence, debit}
use lite_soroban.Classic.Footprint.{
  Move, Collected, moves, exceeded, put_moves, move_ttls, run_collected, apply_extend_footprint_ttl,
  apply_restore_footprint,
}
use lite_soroban.Classic.Validate.{ValidationOptions, FeeCharge, Validated, validate_inner}
use lite_soroban.Classic.Commit.{
  Consumed, max_refundable, settle, run_body, run_for, charge_source, next_sequence, commit_inner,
}
use lite_soroban.Classic.Apply.{
  apply_inner, validate_fee_bump, validate_plain, apply_fee_bump, apply_envelope, apply_transaction,
  bump_charge, plain_charge,
}

-- The ledger without its entries: the clock, the counter, the snapshots, the settings.
unfoldable pub frame : Ledger → Ledger
frame l = record l { store = [] }

pub put_entry-frame :
    (l : Ledger) (e : LedgerEntry) (t : Option ℕ) → frame (put_entry l e t) ≡ frame l
unfolding frame put_entry
put_entry-frame l e t = elim (Option-cases (key_of e.content)) [
  | inl h ↦ rw (h, put_entry) refl
  | inr (k, h) ↦ rw (h, put_entry) refl
]

pub store_account-frame : (l : Ledger) (a : AccountEntry) → frame (store_account l a) ≡ frame l
unfolding store_account
store_account-frame l a = put_entry-frame l _ none

bump_sequence-frame :
    (l : Ledger) (id : AccountId) (to : ℤ) → frame (bump_sequence l id to) ≡ frame l
unfolding bump_sequence
bump_sequence-frame l id to = elim (Option-cases (load_account l id)) [
  | inl h ↦ rw (h, bump_sequence) refl
  | inr (a, h) ↦ rw (h, bump_sequence) (store_account-frame l _)
]

debit-frame : (l : Ledger) (id : AccountId) (x : ℤ) → frame (debit l id x) ≡ frame l
unfolding debit
debit-frame l id x = elim (Option-cases (load_account l id)) [
  | inl h ↦ rw (h, debit) refl
  | inr (a, h) ↦ rw (h, debit) (store_account-frame l _)
]

put_moves-frame : (l : Ledger) (ms : List Move) → frame (put_moves l ms) ≡ frame l
unfolding put_moves
put_moves-frame l [] = refl
put_moves-frame l (m ∷ ms) =
    put_moves-frame (put_entry l m.entry (some m.new_live_until)) ms
    ∙ put_entry-frame l m.entry (some m.new_live_until)

run_collected-frame :
    (sdk : Sdk) (l : Ledger) (cap : Option ℤ) (c : Collected)
    → frame (run_collected sdk l cap c).1 ≡ frame l
unfolding move_ttls
run_collected-frame sdk l cap (exceeded d) = refl
run_collected-frame sdk l cap (moves ms) = ground (arith, put_moves-frame l ms)

settle-frame :
    (charge : Option FeeCharge) (w : Validated) (o : TxOutcome) (c : Consumed) (l : Ledger)
    → frame (settle charge w o c l).1 ≡ frame l
unfolding settle
settle-frame none w o c l = refl
settle-frame (some k) w o c l =
    elim (Bool-cases (ltb_ℤ (pos 0) (max_refundable w -ℤ c.refundable))) [
      | inl b ↦ rw b (debit-frame l k.payer (pos 0 -ℤ (max_refundable w -ℤ c.refundable)))
      | inr b ↦ rw b refl
    ]

pub send-frame :
    (sdk : Sdk) (l : Ledger) (f source : Bytes) (r : SorobanResources) (auth : List Bytes)
    (restored : List ℕ) (cap : Option ℤ)
    → frame (send sdk l f source r auth restored cap).1 ≡ frame l
unfolding send frame
send-frame sdk l f source r auth restored cap = refl

run_body-frame :
    (sdk : Sdk) (charge : Option FeeCharge) (w : Validated) (cap : Option ℤ) (l : Ledger)
    (body : OperationBody)
    → frame (run_body sdk charge w cap l body).1 ≡ frame l
unfolding apply_extend_footprint_ttl apply_restore_footprint
run_body-frame sdk charge w cap l (extend_footprint_ttl to) =
    settle-frame charge w _ _ _ ∙ run_collected-frame sdk l cap _
run_body-frame sdk charge w cap l restore_footprint =
    settle-frame charge w _ _ _ ∙ run_collected-frame sdk l cap _
run_body-frame sdk charge w cap l (invoke_host_function f auth) =
    settle-frame charge w _ _ _ ∙ send-frame sdk l f w.invoker_id w.soroban.resources auth [] cap
run_body-frame sdk charge w cap l (classic n) = refl

run_for-frame :
    (sdk : Sdk) (charge : Option FeeCharge) (w : Validated) (l : Ledger) (a : Option AccountEntry)
    → frame (run_for sdk charge w l a).1 ≡ frame l
unfolding run_for
run_for-frame sdk charge w l none = settle-frame charge w _ _ _
run_for-frame sdk charge w l (some a) = run_body-frame sdk charge w _ l w.operation.body

charge_source-frame :
    (l : Ledger) (v : ValidationOptions) (raw : Transaction) (w : Validated)
    (charge : Option FeeCharge)
    → frame (charge_source l v raw w charge) ≡ frame l
unfolding charge_source
charge_source-frame l v raw w none = bump_sequence-frame l _ _
charge_source-frame l v raw w (some c) =
    debit-frame _ c.payer c.upfront ∙ bump_sequence-frame l _ (next_sequence v raw w)

apply_inner-frame :
    (sdk : Sdk) (l : Ledger) (passphrase : Bytes) (v : ValidationOptions) (raw : Transaction)
    (signatures : List DecoratedSignature) (b : Bool) (size : ℕ) (charge : Option FeeCharge)
    → frame (apply_inner sdk l passphrase v raw signatures b size charge).1 ≡ frame l
unfolding apply_inner commit_inner
apply_inner-frame sdk l passphrase v raw signatures b size charge =
    elim (Check-cases (validate_inner sdk l passphrase v raw signatures b size charge)) [
      | inl (o, e) ↦ rw (e, apply_inner) refl
      | inr (w, e) ↦
          rw (e, apply_inner)
            (run_for-frame sdk charge w _ w.op_account ∙ charge_source-frame l v raw w charge)
    ]

apply_envelope-frame :
    (sdk : Sdk) (l : Ledger) (passphrase : Bytes) (v : ValidationOptions) (e : TransactionEnvelope)
    → frame (apply_envelope sdk l passphrase v e).1 ≡ frame l
unfolding apply_envelope apply_fee_bump
apply_envelope-frame sdk l passphrase v (tx_fee_bump e) =
    elim (Check-cases (validate_fee_bump sdk l passphrase v e)) [
      | inl (o, p) ↦ rw (p, apply_fee_bump) refl
      | inr (u, p) ↦
          rw (p, apply_fee_bump)
            (apply_inner-frame sdk l passphrase v e.tx.inner_tx.tx e.tx.inner_tx.signatures true
              (sdk.envelope_size e.tx.inner_tx) (bump_charge v e))
    ]
apply_envelope-frame sdk l passphrase v (tx_v0 b) = refl
apply_envelope-frame sdk l passphrase v (tx_v1 e) = elim (Check-cases (validate_plain e.tx)) [
  | inl (o, p) ↦ rw (p, apply_envelope) refl
  | inr (u, p) ↦
      rw (p, apply_envelope)
        (apply_inner-frame sdk l passphrase v e.tx e.signatures false (sdk.envelope_size e)
          (plain_charge v e.tx))
]

-- Every transaction, of every kind and with every outcome, leaves the ledger's sequence number, its
-- time, the counter of the generator, the snapshots and the settings.
pub apply_transaction-frame :
    (sdk : Sdk) (l : Ledger) (passphrase : Bytes) (v : ValidationOptions) (e : TransactionEnvelope)
    → frame (apply_transaction sdk l passphrase v e).1 ≡ frame l
unfolding apply_transaction
apply_transaction-frame sdk l passphrase v e = apply_envelope-frame sdk l passphrase v e

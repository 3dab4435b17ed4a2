-- ===== src/Classic/Apply/Failed.antt =====
-- A plain transaction whose operation fails: what it leaves in the ledger, and what it pays.
use lite_soroban.Prelude.{
  ℕ, ℤ, pos, ◌≤ℤ◌, ◌-ℤ◌, ◌+ℤ◌, ltb_ℤ, ◌≡◌, refl, sym, ap, ◌∙◌, Bool, true, false, List, [], ◌∷◌,
  Option, none, some, arith, Bool-cases, inl, inr, int_laws,
}
use lite_soroban.Xdr.{Bytes, Transaction, V1Envelope, tx_v1, Operation, SorobanTransactionData}
use lite_soroban.Sdk.{Sdk}
use lite_soroban.Ledger.{Ledger}
use lite_soroban.Ledger.Keyed.{IsKeyed}
use lite_soroban.Classic.Outcome.{TxOutcome, pass}
use lite_soroban.Classic.Accounts.{load_account, muxed_to_account_id}
use lite_soroban.Classic.Accounts.Loading.{bumped}
use lite_soroban.Classic.Fees.{is_soroban_op}
use lite_soroban.Classic.Validate.{
  ValidationOptions, FeeCharge, Validated, single_operation, check_resource_fee,
}
use lite_soroban.Classic.Commit.{
  Consumed, nothing_consumed, max_refundable, settle, charge_source, next_sequence, commit_inner,
  run_operation,
}
use lite_soroban.Classic.Commit.Settling.{run_operation-Settled}
use lite_soroban.Classic.Commit.Failing.{
  Became, charged, PaidBy, charge_source-Became, settle_nothing-Became,
}
use lite_soroban.Classic.Apply.{apply_transaction, plain_charge}
use lite_soroban.Classic.Apply.Course.{apply_transaction_committed}

pub single_operation_soroban :
    (ops : List Operation) (o : Operation)
    → single_operation ops ≡ pass o
    → is_soroban_op o.body ≡ true
unfolding single_operation
single_operation_soroban [] o h = cc
single_operation_soroban (x ∷ []) o h = ground arith
single_operation_soroban (x ∷ y ∷ ops) o h = ground arith

-- The host prices no refundable part below zero.
unfoldable pub RefundableFeesAreNonNegative : Sdk → Type 0
RefundableFeesAreNonNegative sdk =
    (l : Ledger) (d : SorobanTransactionData) (size events : ℕ) (restores : Bool)
    → pos 0 ≤ℤ (sdk.compute_resource_fee l d size events restores).refundable

covers : (a b : ℤ) → ltb_ℤ a b ≡ false → b ≤ℤ a
covers a b h = ground arith

covered : (declared n r : ℤ) → pos 0 ≤ℤ r → ltb_ℤ declared (n +ℤ r) ≡ false → pos 0 ≤ℤ declared -ℤ n
covered declared n r h b = omega (int_laws, covers declared (n +ℤ r) b)

-- The declared fee covers the non-refundable part.
max_refundable_nonneg :
    (sdk : Sdk) (l : Ledger) (c : FeeCharge) (w : Validated) (size : ℕ) (restores : Bool)
    → RefundableFeesAreNonNegative sdk
    → check_resource_fee sdk l (some c) w.soroban size restores ≡ pass w.non_refundable
    → pos 0 ≤ℤ max_refundable w
unfolding RefundableFeesAreNonNegative check_resource_fee
max_refundable_nonneg sdk l c w size restores h p =
    let actual = sdk.compute_resource_fee l w.soroban size 0 restores in
    elim (Bool-cases (ltb_ℤ w.soroban.resource_fee (actual.non_refundable +ℤ actual.refundable))) [
      | inl b ↦ absurd (ground arith)
      | inr b ↦
          let same : actual.non_refundable ≡ w.non_refundable = ground arith in
          rw same at (
            covered w.soroban.resource_fee actual.non_refundable actual.refundable
              (h l w.soroban size 0 restores) b)
    ]

-- `settle` keeps the verdict.
settle_ok :
    (charge : Option FeeCharge) (w : Validated) (o : TxOutcome) (c : Consumed) (l : Ledger)
    → (settle charge w o c l).0.ok ≡ o.ok
unfolding settle
settle_ok none w o c l = refl
settle_ok (some k) w o c l = refl

commit_inner_failed :
    (sdk : Sdk) (l : Ledger) (v : ValidationOptions) (raw : Transaction) (charge : Option FeeCharge)
    (w : Validated)
    → let id = muxed_to_account_id raw.source_account in
      let (o, l') = commit_inner sdk l v raw charge w in
      IsKeyed l.store
      → load_account l id ≡ some w.account
      → PaidBy charge id
      → is_soroban_op w.operation.body ≡ true
      → ((c : FeeCharge) → charge ≡ some c → pos 0 ≤ℤ max_refundable w)
      → o.ok ≡ false
      → Became l l' id (charged (bumped l w.account (next_sequence v raw w)) o.fee_charged)
unfolding commit_inner
commit_inner_failed sdk l v raw charge w k a p b n f =
    let id = muxed_to_account_id raw.source_account in
    let m = charge_source l v raw w charge in
    let s = run_operation-Settled sdk charge w m b in
    let bad : s.outcome.ok ≡ false =
      sym (settle_ok charge w s.outcome s.consumed s.left) ∙ (ap (λ r. r.0.ok) (sym s.same) ∙ f) in
    let (left, none_used) = s.kept bad in
    let became =
      settle_nothing-Became l m id (bumped l w.account (next_sequence v raw w)) charge w s.outcome p
        (charge_source-Became l v raw w charge k a p) n in
    let same : run_operation sdk charge w m ≡ settle charge w s.outcome nothing_consumed m =
      s.same ∙ rw (left, none_used) refl in
    rw same became

plain_charge-PaidBy :
    (v : ValidationOptions) (raw : Transaction)
    → PaidBy (plain_charge v raw) (muxed_to_account_id raw.source_account)
plain_charge-PaidBy v raw = elim (Bool-cases v.fee_charging) [ inl h ↦ rw h refl | inr h ↦ rw h tt ]

-- A plain envelope that is not rejected but whose operation fails, on a ledger whose entries stand
-- under their own keys, changes the source account alone, and that exactly so: the sequence number
-- is consumed with the ledger's number and time, and the balance is less by the fee reported. This
-- for every kind of operation, a failing contract call included, and for every choice of the
-- validation options.
pub apply_transaction_failed :
    (sdk : Sdk) (l : Ledger) (passphrase : Bytes) (v : ValidationOptions) (e : V1Envelope)
    → IsKeyed l.store
    → RefundableFeesAreNonNegative sdk
    → (apply_transaction sdk l passphrase v (tx_v1 e)).0.rejected ≡ false
    → (apply_transaction sdk l passphrase v (tx_v1 e)).0.ok ≡ false
    → (w : Validated) × (load_account l (muxed_to_account_id e.tx.source_account) ≡ some w.account)
      × Became l
          (apply_transaction sdk l passphrase v (tx_v1 e)).1
          (muxed_to_account_id e.tx.source_account)
          (charged
            (bumped l w.account (next_sequence v e.tx w))
            (apply_transaction sdk l passphrase v (tx_v1 e)).0.fee_charged)
apply_transaction_failed sdk l passphrase v e k n h f =
    let (w, p, same) = apply_transaction_committed sdk l passphrase v e h in
    (
      w,
      p.has_account,
      rw same (
          commit_inner_failed sdk l v e.tx (plain_charge v e.tx) w k p.has_account
            (plain_charge-PaidBy v e.tx)
            (single_operation_soroban e.tx.operations w.operation p.has_operation)
            (λ c q. max_refundable_nonneg sdk l c w _ _ n (rw q at p.resource_fee)) (rw same at f)),
    )

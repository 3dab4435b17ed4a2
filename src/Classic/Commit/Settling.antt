-- ===== src/Classic/Commit/Settling.antt =====
-- Every operation ends in `settle`: with what it consumed, on the ledger that it left.
use lite_soroban.Prelude.{
  ℤ, ◌≡◌, ◌≢◌, refl, ◌⊎◌, true, false, List, Option, none, some, arith, ℕ, [],
}
use lite_soroban.Xdr.{
  Bytes, AccountEntry, OperationBody, invoke_host_function, extend_footprint_ttl, restore_footprint,
  classic, SorobanResources,
}
use lite_soroban.Sdk.{Sdk, HostReply}
use lite_soroban.Ledger.{Ledger}
use lite_soroban.Host.{send}
use lite_soroban.Classic.Outcome.{TxOutcome}
use lite_soroban.Classic.Fees.{is_soroban_op}
use lite_soroban.Classic.Footprint.{
  FootprintOpApplied, apply_extend_footprint_ttl, apply_restore_footprint,
}
use lite_soroban.Classic.Footprint.Extend.{apply_extend_footprint_ttl_atomic}
use lite_soroban.Classic.Footprint.Restore.{apply_restore_footprint_atomic}
use lite_soroban.Classic.Validate.{FeeCharge, Validated}
use lite_soroban.Classic.Commit.{
  Consumed, nothing_consumed, settle, Arms, extend_arms, restore_arms, footprint_outcome,
  host_outcome, no_account_outcome, run_body, run_for, run_operation,
}

-- A call that fails writes nothing.
pub send_failed :
    (sdk : Sdk) (l : Ledger) (f source : Bytes) (r : SorobanResources) (auth : List Bytes)
    (restored : List ℕ) (cap : Option ℤ)
    → (send sdk l f source r auth restored cap).0.ok ≡ false
    → (send sdk l f source r auth restored cap).1 ≡ l
unfolding send
send_failed sdk l f source r auth restored cap h = rw h

pub record Settled (sdk : Sdk) (charge : Option FeeCharge) (w : Validated) (l : Ledger)
    (r : TxOutcome × Ledger) : Type 0 where
  pub outcome : TxOutcome
  pub consumed : Consumed
  pub left : Ledger
  pub same : r ≡ settle charge w outcome consumed left
  pub kept : outcome.ok ≡ false → (left ≡ l) × (consumed ≡ nothing_consumed)

-- A footprint operation is not ok only for one of its two errors, and consumes nothing then.
footprint_failed_lem :
    (arms : Arms) (a : FootprintOpApplied)
    → (footprint_outcome arms a).0.ok ≡ false
    → ((a.short ≢ none) ⊎ (a.over_limit ≢ none)) × ((footprint_outcome arms a).1 ≡ nothing_consumed)
unfolding footprint_outcome
footprint_failed_lem arms a h = ground arith

host_failed_lem :
    (r : HostReply)
    → (host_outcome r).0.ok ≡ false
    → (r.ok ≡ false) × ((host_outcome r).1 ≡ nothing_consumed)
unfolding host_outcome
host_failed_lem r h = ground arith

run_body-Settled :
    (sdk : Sdk) (charge : Option FeeCharge) (w : Validated) (cap : Option ℤ) (l : Ledger)
    (body : OperationBody)
    → is_soroban_op body ≡ true
    → Settled sdk charge w l (run_body sdk charge w cap l body)
unfolding is_soroban_op
run_body-Settled sdk charge w cap l (extend_footprint_ttl to) h =
    let (a, l') = apply_extend_footprint_ttl sdk l to w.soroban cap in
    let (o, c) = footprint_outcome extend_arms a in
    record {
      outcome = o;
      consumed = c;
      left = l';
      same = refl;
      kept = λ f.
          let (s, n) = footprint_failed_lem extend_arms a f in
          (apply_extend_footprint_ttl_atomic sdk l to w.soroban cap s, n);
    }
run_body-Settled sdk charge w cap l restore_footprint h =
    let (a, l') = apply_restore_footprint sdk l w.soroban cap in
    let (o, c) = footprint_outcome restore_arms a in
    record {
      outcome = o;
      consumed = c;
      left = l';
      same = refl;
      kept = λ f.
          let (s, n) = footprint_failed_lem restore_arms a f in
          (apply_restore_footprint_atomic sdk l w.soroban cap s, n);
    }
run_body-Settled sdk charge w cap l (invoke_host_function f auth) h =
    let (r, l') = send sdk l f w.invoker_id w.soroban.resources auth [] cap in
    let (o, c) = host_outcome r in
    record {
      outcome = o;
      consumed = c;
      left = l';
      same = refl;
      kept = λ e.
          let (s, n) = host_failed_lem r e in
          (send_failed sdk l f w.invoker_id w.soroban.resources auth [] cap s, n);
    }
run_body-Settled sdk charge w cap l (classic n) h = absurd (ground arith)

run_for-Settled :
    (sdk : Sdk) (charge : Option FeeCharge) (w : Validated) (l : Ledger) (a : Option AccountEntry)
    → is_soroban_op w.operation.body ≡ true
    → Settled sdk charge w l (run_for sdk charge w l a)
unfolding run_for
run_for-Settled sdk charge w l none h = record {
  outcome = no_account_outcome;
  consumed = nothing_consumed;
  left = l;
  same = refl;
  kept = λ f. (refl, refl);
}
run_for-Settled sdk charge w l (some a) h = run_body-Settled sdk charge w _ l w.operation.body h

pub run_operation-Settled :
    (sdk : Sdk) (charge : Option FeeCharge) (w : Validated) (l : Ledger)
    → is_soroban_op w.operation.body ≡ true
    → Settled sdk charge w l (run_operation sdk charge w l)
run_operation-Settled sdk charge w l h = run_for-Settled sdk charge w l w.op_account h

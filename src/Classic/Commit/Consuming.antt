-- ===== src/Classic/Commit/Consuming.antt =====
-- What an operation consumes of the refundable fee, apart from how `settle` reports it, and what a
-- refund does to the payer.
use lite_soroban.Prelude.{
  ℤ, pos, ◌-ℤ◌, ◌+ℤ◌, ltb_ℤ, ◌≡◌, refl, sym, ap, ◌∙◌, true, [], Option, none, some, arith, int_laws,
  if◌then◌else◌, Bool-cases, Option-cases, inl, inr,
}
use mathlib.Core.Option
use lite_soroban.Xdr.{
  AccountId, AccountEntry, LedgerKey, OperationBody, invoke_host_function, extend_footprint_ttl,
  restore_footprint, classic,
}
use lite_soroban.Sdk.{Sdk, HostReply}
use lite_soroban.Ledger.{Ledger}
use lite_soroban.Ledger.Entries.{find}
use lite_soroban.Ledger.Keyed.{IsKeyed}
use lite_soroban.Host.{send}
use lite_soroban.Classic.Outcome.{TxOutcome}
use lite_soroban.Classic.Fees.{is_soroban_op}
use lite_soroban.Classic.Accounts.{account_key, load_account, debit}
use lite_soroban.Classic.Accounts.Loading.{load-debit, find-debit}
use lite_soroban.Classic.Footprint.{
  Collected, moves, exceeded, run_collected, move_ttls, apply_extend_footprint_ttl,
  apply_restore_footprint,
}
use lite_soroban.Classic.Validate.{FeeCharge, Validated}
use lite_soroban.Classic.Commit.Failing.{charged}
use lite_soroban.Classic.Commit.{
  Consumed, settle, give_back, Arms, extend_arms, restore_arms, footprint_outcome, host_outcome,
  no_account_outcome, nothing_consumed, run_body, run_for,
}

-- The part of the refundable fee that an operation consumes, and the ledger that it leaves: the rent
-- of a footprint operation, what the host says of a call that succeeds, nothing without an account.
abbrev pub spent_by : Sdk → Validated → Option ℤ → Ledger → OperationBody → ℤ × Ledger
spent_by sdk w cap l (extend_footprint_ttl to) =
    let (a, l') = apply_extend_footprint_ttl sdk l to w.soroban cap in (a.rent, l')
spent_by sdk w cap l restore_footprint =
    let (a, l') = apply_restore_footprint sdk l w.soroban cap in (a.rent, l')
spent_by sdk w cap l (invoke_host_function f auth) =
    let (r, l') = send sdk l f w.invoker_id w.soroban.resources auth [] cap in
    (if r.ok then r.refundable_fee_consumed else pos 0, l')
spent_by sdk w cap l (classic n) = (pos 0, l)

abbrev pub spent : Sdk → Validated → Option ℤ → Ledger → Option AccountEntry → ℤ × Ledger
spent sdk w cap l none = (pos 0, l)
spent sdk w cap l (some a) = spent_by sdk w cap l w.operation.body

footprint_consumed :
    (sdk : Sdk) (arms : Arms) (l : Ledger) (cap : Option ℤ) (c : Collected)
    → (footprint_outcome arms (run_collected sdk l cap c).0).1.refundable
      ≡ (run_collected sdk l cap c).0.rent
unfolding footprint_outcome move_ttls
footprint_consumed sdk arms l cap (exceeded d) = refl
footprint_consumed sdk arms l none (moves ms) = refl
footprint_consumed sdk arms l (some r) (moves ms) = ground arith

host_consumed :
    (r : HostReply)
    → (host_outcome r).1.refundable ≡ (if r.ok then r.refundable_fee_consumed else pos 0)
unfolding host_outcome
host_consumed r = elim (Bool-cases r.ok) [ inl h ↦ rw h refl | inr h ↦ rw h refl ]

-- The operation ends in `settle`, with what it consumed, on the ledger that it left.
pub record Spends (c : FeeCharge) (w : Validated) (s : ℤ × Ledger) (r : TxOutcome × Ledger)
    : Type 0 where
  pub outcome : TxOutcome
  pub used : Consumed
  pub same : r ≡ settle (some c) w outcome used s.1
  pub consumed : used.refundable ≡ s.0

run_body-Spends :
    (sdk : Sdk) (c : FeeCharge) (w : Validated) (cap : Option ℤ) (l : Ledger) (body : OperationBody)
    → is_soroban_op body ≡ true
    → Spends c w (spent_by sdk w cap l body) (run_body sdk (some c) w cap l body)
unfolding is_soroban_op apply_extend_footprint_ttl apply_restore_footprint
run_body-Spends sdk c w cap l (extend_footprint_ttl to) h = record {
  outcome = _;
  used = _;
  same = refl;
  consumed = footprint_consumed sdk extend_arms l cap _;
}
run_body-Spends sdk c w cap l restore_footprint h = record {
  outcome = _;
  used = _;
  same = refl;
  consumed = footprint_consumed sdk restore_arms l cap _;
}
run_body-Spends sdk c w cap l (invoke_host_function f auth) h = record {
  outcome = _;
  used = _;
  same = refl;
  consumed = host_consumed _;
}
run_body-Spends sdk c w cap l (classic n) h = absurd (ground arith)

pub run_for-Spends :
    (sdk : Sdk) (c : FeeCharge) (w : Validated) (l : Ledger) (a : Option AccountEntry)
    → is_soroban_op w.operation.body ≡ true
    → Spends c w
        (spent sdk w (some (w.soroban.resource_fee -ℤ w.non_refundable)) l a)
        (run_for sdk (some c) w l a)
unfolding run_for
run_for-Spends sdk c w l none h = record {
  outcome = no_account_outcome;
  used = nothing_consumed;
  same = refl;
  consumed = refl;
}
run_for-Spends sdk c w l (some a) h = run_body-Spends sdk c w _ l w.operation.body h

-- A refund that is not positive is none.
abbrev pub repaid : ℤ → ℤ
repaid r = if ltb_ℤ (pos 0) r then r else pos 0

abbrev pub credited : ℤ → AccountEntry → AccountEntry
credited amount a = record a { balance = a.balance +ℤ amount }

plus_zero : (a : ℤ) → a +ℤ pos 0 ≡ a
plus_zero a = omega int_laws

minus_negative : (a r : ℤ) → a -ℤ (pos 0 -ℤ r) ≡ a +ℤ r
minus_negative a r = omega int_laws

unchanged : (o : Option AccountEntry) → o ≡ Option.map (credited (pos 0)) o
unchanged none = refl
unchanged (some a) = ap (λ (b : ℤ). some (record a { balance = b })) (sym (plus_zero a.balance))

load-refund :
    (l : Ledger) (id : AccountId) (refund : ℤ)
    → IsKeyed l.store
    → load_account (debit l id (pos 0 -ℤ refund)) id
      ≡ Option.map (credited refund) (load_account l id)
unfolding debit
load-refund l id refund h = elim (Option-cases (load_account l id)) [
  | inl e ↦ rw (e, debit, e) refl
  | inr (a, e) ↦
      load-debit l id a (pos 0 -ℤ refund) h e
      ∙ rw e (ap (λ (b : ℤ). some (record a { balance = b })) (minus_negative a.balance refund))
]

-- The payer gets the refund, and no other entry changes.
pub give_back-credited :
    (l : Ledger) (c : FeeCharge) (refund : ℤ)
    → IsKeyed l.store
    → (load_account (give_back l c refund) c.payer
        ≡ Option.map (credited (repaid refund)) (load_account l c.payer))
      × ((k : LedgerKey)
          → ¬ (account_key c.payer ≡ k)
          → find k (give_back l c refund).store ≡ find k l.store)
give_back-credited l c refund h = elim (Bool-cases (ltb_ℤ (pos 0) refund)) [
  | inr n ↦ rw n (unchanged (load_account l c.payer), λ k m. refl)
  | inl p ↦
      rw p (load-refund l c.payer refund h, λ k m. find-debit l c.payer (pos 0 -ℤ refund) k h m)
]

-- The payer pays the fee, if it has an account, and no other entry changes.
pub load-fee :
    (l : Ledger) (id : AccountId) (amount : ℤ)
    → IsKeyed l.store
    → load_account (debit l id amount) id ≡ Option.map (λ a. charged a amount) (load_account l id)
unfolding debit
load-fee l id amount h = elim (Option-cases (load_account l id)) [
  | inl e ↦ rw (e, debit, e) refl
  | inr (a, e) ↦ load-debit l id a amount h e ∙ rw e refl
]

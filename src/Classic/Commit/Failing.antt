-- ===== src/Classic/Commit/Failing.antt =====
-- What a transaction whose operation fails leaves behind: the sequence number and the fee.
use lite_soroban.Prelude.{
  ℤ, pos, ◌≤ℤ◌, ◌-ℤ◌, ltb_ℤ, ◌≡◌, refl, sym, ap, ◌∙◌, false, Option, none, some, arith, Bool-cases,
  inl, inr, int_laws,
}
use lite_soroban.Xdr.{AccountId, AccountEntry, LedgerKey, Transaction}
use lite_soroban.Ledger.{Ledger}
use lite_soroban.Ledger.Entries.{find}
use lite_soroban.Ledger.Keyed.{IsKeyed}
use lite_soroban.Classic.Outcome.{TxOutcome}
use lite_soroban.Classic.Accounts.{
  account_key, load_account, bump_sequence, debit, muxed_to_account_id,
}
use lite_soroban.Classic.Accounts.Loading.{
  bumped, load-bump_sequence, load-debit, bump_sequence-IsKeyed, debit-IsKeyed, find-bump_sequence,
  find-debit,
}
use lite_soroban.Classic.Validate.{ValidationOptions, FeeCharge, Validated}
use lite_soroban.Classic.Commit.{
  nothing_consumed, max_refundable, give_back, settle, charge_source, next_sequence,
}

-- Only the account of `id` may differ: it has become `b`.
pub record Became (l l' : Ledger) (id : AccountId) (b : AccountEntry) : Type 0 where
  pub loaded : load_account l' id ≡ some b
  pub rest : (k : LedgerKey) → ¬ (account_key id ≡ k) → find k l'.store ≡ find k l.store
  pub keyed : IsKeyed l'.store

abbrev pub charged : AccountEntry → ℤ → AccountEntry
charged a fee = record a { balance = a.balance -ℤ fee }

Became-debit :
    (l m : Ledger) (id : AccountId) (b : AccountEntry) (amount : ℤ)
    → Became l m id b
    → Became l (debit m id amount) id (charged b amount)
Became-debit l m id b amount h = record {
  loaded = load-debit m id b amount h.keyed h.loaded;
  rest = λ k n. find-debit m id amount k h.keyed n ∙ h.rest k n;
  keyed = debit-IsKeyed m id amount h.keyed;
}

Became-bump_sequence :
    (l : Ledger) (id : AccountId) (a : AccountEntry) (to : ℤ)
    → IsKeyed l.store
    → load_account l id ≡ some a
    → Became l (bump_sequence l id to) id (bumped l a to)
Became-bump_sequence l id a to k h = record {
  loaded = load-bump_sequence l id a to k h;
  rest = λ j n. find-bump_sequence l id to j k n;
  keyed = bump_sequence-IsKeyed l id to k;
}

-- The fee that a charge takes up front.
abbrev pub upfront_of : Option FeeCharge → ℤ
upfront_of none = pos 0
upfront_of (some c) = c.upfront

-- The charge is on `id`, if any is made.
abbrev pub PaidBy : Option FeeCharge → AccountId → Type 0
PaidBy none id = Unit {0}
PaidBy (some c) id = c.payer ≡ id

pub minus_zero : (a : ℤ) → a -ℤ pos 0 ≡ a
minus_zero a = omega int_laws

pub charge_source-Became :
    (l : Ledger) (v : ValidationOptions) (raw : Transaction) (w : Validated)
    (charge : Option FeeCharge)
    → let id = muxed_to_account_id raw.source_account in
      IsKeyed l.store
      → load_account l id ≡ some w.account
      → PaidBy charge id
      → Became l
          (charge_source l v raw w charge)
          id
          (charged (bumped l w.account (next_sequence v raw w)) (upfront_of charge))
unfolding charge_source
charge_source-Became l v raw w none k h p =
    let b = bumped l w.account (next_sequence v raw w) in
    rw (sym (minus_zero b.balance)) at (
      Became-bump_sequence l (muxed_to_account_id raw.source_account) w.account
        (next_sequence v raw w) k h)
charge_source-Became l v raw w (some c) k h p = rw p (
    Became-debit l _ _ _ c.upfront (
      Became-bump_sequence l (muxed_to_account_id raw.source_account) w.account
        (next_sequence v raw w) k h))

same_charge :
    (b : AccountEntry) (x y : ℤ) → b.balance -ℤ x ≡ b.balance -ℤ y → charged b x ≡ charged b y
same_charge b x y h = ap (λ z. record b { balance = z }) h

zero_of : (r : ℤ) → pos 0 ≤ℤ r → ltb_ℤ (pos 0) r ≡ false → r ≡ pos 0
zero_of r n p = ground arith

nothing : (a up r : ℤ) → pos 0 ≤ℤ r → ltb_ℤ (pos 0) r ≡ false → a -ℤ up ≡ a -ℤ (up -ℤ r)
nothing a up r n p = rw (zero_of r n p) (sym (ap (λ z. a -ℤ z) (minus_zero up)))

-- A refund of nothing consumed: what the payer is left with is the fee charged less.
give_back-Became :
    (l m : Ledger) (c : FeeCharge) (b : AccountEntry) (refund : ℤ)
    → Became l m c.payer (charged b c.upfront)
    → pos 0 ≤ℤ refund
    → Became l (give_back m c refund) c.payer (charged b (c.upfront -ℤ refund))
give_back-Became l m c b refund h n = elim (Bool-cases (ltb_ℤ (pos 0) refund)) [
  | inl p ↦
      let e : charged (charged b c.upfront) (pos 0 -ℤ refund) ≡ charged b (c.upfront -ℤ refund) =
        ap (λ z. record b { balance = z }) (omega int_laws) in
      rw p (rw e at (Became-debit l m c.payer (charged b c.upfront) (pos 0 -ℤ refund) h))
  | inr p ↦
      let e : charged b c.upfront ≡ charged b (c.upfront -ℤ refund) =
        same_charge b c.upfront (c.upfront -ℤ refund) (nothing b.balance c.upfront refund n p) in
      rw p (rw e at h)
]

-- With nothing consumed, the payer is left with the reported fee less, and nothing else changed.
pub settle_nothing-Became :
    (l m : Ledger) (id : AccountId) (b : AccountEntry) (charge : Option FeeCharge) (w : Validated)
    (o : TxOutcome)
    → PaidBy charge id
    → Became l m id (charged b (upfront_of charge))
    → ((c : FeeCharge) → charge ≡ some c → pos 0 ≤ℤ max_refundable w)
    → let (o', m') = settle charge w o nothing_consumed m in
      Became l m' id (charged b o'.fee_charged)
unfolding settle
settle_nothing-Became l m id b none w o p h n = h
settle_nothing-Became l m id b (some c) w o p h n = rw (sym p) (
    give_back-Became l m c b (max_refundable w -ℤ pos 0) (rw (sym p) at h)
      (rw (minus_zero (max_refundable w)) (n c refl)))

-- ===== src/Classic/Fees/Bounds.antt =====
-- Bounds on what is charged.
use lite_soroban.Prelude.{
  ℕ, ◌+◌, ◌-◌, ◌*◌, ◌/◌, ◌≤◌, ◌<◌, max, ℤ, pos, negsuc, ◌+ℤ◌, ◌-ℤ◌, ◌≤ℤ◌, ◌≡◌, ◌↔◌, none, some,
  arith, if◌then◌else◌, ltb,
}
use native.Mathlib.Nat.{div-lt_iff_lt-mul}
use lite_soroban.Classic.Accounts.{base_fee}
use lite_soroban.Classic.Fees.{
  fee_to_charge, negative_inclusion_fee, bump_rate_problem, min_inclusion,
}

-- An accepted fee is charged no more than the envelope bids, no less than its resource fee, and no
-- more inclusion fee than the base fee for each operation.
pub fee_to_charge_bounds :
    (full resource : ℤ) (operations : ℕ)
    → negative_inclusion_fee full resource ≡ none
    → (resource ≤ℤ fee_to_charge full resource operations)
      × (fee_to_charge full resource operations ≤ℤ full)
      × (fee_to_charge full resource operations ≤ℤ resource +ℤ pos (base_fee * max 1 operations))
unfolding fee_to_charge negative_inclusion_fee ◌-ℤ◌ ◌+ℤ◌
fee_to_charge_bounds full resource operations e = ground arith

ceiling_iff : (v m x : ℕ) → 0 < m → ((v + m - 1) / m ≤ x) ↔ (v ≤ x * m)
ceiling_iff v m x h =
    let (to, from) = div-lt_iff_lt-mul {k = m} {x = v + m - 1} {y = x + 1} h in
    (λ e. omega (arith, to (omega arith)), λ e. omega (arith, from (omega arith)))

below_iff :
    (offer v m needed : ℕ)
    → (needed ≤ offer) ↔ (v ≤ offer * m)
    → ((if ltb (offer * m) v then some needed else none) ≡ none) ↔ (needed ≤ offer)
below_iff offer v m needed (to, from) = ground arith

needed-eq :
    (inclusion : ℤ) (inner ops needed : ℕ)
    → bump_rate_problem inclusion (pos inner) ops ≡ some needed
    → needed ≡ (inner * min_inclusion (ops + 1) + min_inclusion ops - 1) / min_inclusion ops
unfolding bump_rate_problem
needed-eq (pos n) inner ops needed e = ground arith
needed-eq (negsuc n) inner ops needed e = ground arith

-- The fee that a refused bump is told to offer is the least inclusion fee that raises the rate.
pub bump_rate_problem_least :
    (inclusion : ℤ) (inner ops needed : ℕ)
    → bump_rate_problem inclusion (pos inner) ops ≡ some needed
    → (offer : ℕ) → (bump_rate_problem (pos offer) (pos inner) ops ≡ none) ↔ (needed ≤ offer)
unfolding bump_rate_problem
bump_rate_problem_least inclusion inner ops needed e offer =
    let m = min_inclusion ops in
    let v = inner * min_inclusion (ops + 1) in
    let least : needed ≡ (v + m - 1) / m = needed-eq inclusion inner ops needed e in
    rw least (below_iff offer v m _ (ceiling_iff v m offer (omega arith)))

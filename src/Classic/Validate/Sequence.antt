-- ===== src/Classic/Validate/Sequence.antt =====
-- The sequence number of src/classic.ts: both tests that `applyInner` makes of it.
use lite_soroban.Prelude.{
  ◌*◌, ℤ, pos, negsuc, eqb_ℤ, Bool, true, Option, none, some, ◌≡◌, ◌≢◌, ◌↔◌, ◌⊎◌, refl, false,
  arith, Bool-cases, inl, inr,
}
use lite_soroban.Xdr.{Transaction}
use lite_soroban.Ledger.{Ledger}
use lite_soroban.Classic.Outcome.{
  pass, Detail, fail, tx_bad_seq, starting_sequence, refuse_if, refuse_some, ◌>>◌,
}
use lite_soroban.Classic.Preconditions.{min_seq_num, bad_sequence}
use lite_soroban.Classic.Preconditions.Window.{SequenceFits, bad_sequence_iff}
use lite_soroban.Classic.Validate.{ValidationOptions, check_sequence}
use lite_soroban.Classic.Validate.Checks.{when}

equal_parts : (a b : ℤ) → eqb_ℤ a b ≡ true → a ≡ b
equal_parts (pos m) (pos n) h = let e : m ≡ n = ground arith in rw e refl
equal_parts (negsuc m) (negsuc n) h = let e : m ≡ n = ground arith in rw e refl
equal_parts (pos m) (negsuc n) h = absurd (ground arith)
equal_parts (negsuc m) (pos n) h = absurd (ground arith)

eqb_ℤ_refl : (a : ℤ) → eqb_ℤ a a ≡ true
eqb_ℤ_refl (pos m) = ground arith
eqb_ℤ_refl (negsuc m) = ground arith

differs_iff : (a b : ℤ) → (eqb_ℤ a b ≡ false) ↔ (a ≢ b)
differs_iff a b = elim (Bool-cases (eqb_ℤ a b)) [
  | inl e ↦ (λ h. cc, λ n. absurd (n (equal_parts a b e)))
  | inr d ↦ (λ _ e. let h = eqb_ℤ_refl b in let d' = rw e at d in cc, λ _. d)
]

-- The two tests, by what each gives.
tests_iff :
    (same checked : Bool) (bad : Option Detail)
    → ((refuse_if same (fail tx_bad_seq starting_sequence)
          >> when checked (refuse_some bad (fail tx_bad_seq)))
        ≡ pass tt)
      ↔ ((same ≡ false) × ((checked ≡ false) ⊎ (bad ≡ none)))
tests_iff true checked bad = (λ h. cc, λ h. absurd (ground (arith, h.0)))
tests_iff false false bad = (λ _. (refl, inl refl), λ _. refl)
tests_iff false true none = (λ _. (refl, inr refl), λ _. refl)
tests_iff false true (some d) = (λ h. cc, λ h. elim h.1 [ inl e ↦ cc | inr e ↦ cc ])

-- A sequence number passes exactly when it is not the one that a new account gets in this ledger,
-- and, if sequence numbers are checked, it is the account's next one or, under a `minSeqNum`, the
-- account's number is at least that and below the transaction's.
pub check_sequence_iff :
    (l : Ledger) (v : ValidationOptions) (raw : Transaction) (current : ℤ)
    → (check_sequence l v raw current ≡ pass tt) ↔ (
        (raw.seq_num ≢ pos (l.ledger_seq * 4294967296))
        × ((v.sequence_check ≡ false) ⊎ SequenceFits (min_seq_num raw.cond) current raw.seq_num))
unfolding check_sequence
check_sequence_iff l v raw current =
    let (down, up) = differs_iff raw.seq_num (pos (l.ledger_seq * 4294967296)) in
    let (fits, fits') = bad_sequence_iff raw.cond current raw.seq_num in
    let (to, from) =
      tests_iff (eqb_ℤ raw.seq_num (pos (l.ledger_seq * 4294967296))) v.sequence_check
        (bad_sequence raw.cond current raw.seq_num) in
    (
      λ h. let (a, b) = to h in (down a, elim b [ inl off ↦ inl off | inr e ↦ inr (fits e) ]),
      λ h. from (up h.0, elim h.1 [ inl off ↦ inl off | inr e ↦ inr (fits' e) ]),
    )

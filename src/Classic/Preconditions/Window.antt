-- ===== src/Classic/Preconditions/Window.antt =====
-- The preconditions against the intervals that they describe.
use lite_soroban.Prelude.{
  ℕ, ◌+◌, ◌≤◌, ◌<◌, ℤ, pos, ◌+ℤ◌, ◌≤ℤ◌, ◌<ℤ◌, ◌≡◌, refl, ◌↔◌, ◌⊎◌, Option, none, some, arith,
}
use lite_soroban.Xdr.{
  TimeBounds, LedgerBounds, Preconditions, precond_none, precond_time, precond_v2, AccountEntry,
}
use lite_soroban.Ledger.{Ledger}
use lite_soroban.Classic.Accounts.{account_entry_extension_v3}
use lite_soroban.Classic.Preconditions.{
  preconditions_v2, time_bounds, ledger_bounds, min_seq_num, bounds_problem, bad_sequence,
  too_early_for_account, min_seq_age_of, min_seq_ledger_gap_of, seq_time_of, seq_ledger_of,
}

-- A bound of zero bounds nothing; the maximal time is included, the maximal ledger is not.
abbrev pub InTime : ℕ → Option TimeBounds → Type 0
InTime now none = Unit
InTime now (some t) = (t.min_time ≤ now) × ((t.max_time ≡ 0) ⊎ (now ≤ t.max_time))

abbrev pub InLedgers : ℕ → Option LedgerBounds → Type 0
InLedgers seq none = Unit
InLedgers seq (some b) = (b.min_ledger ≤ seq) × ((b.max_ledger ≡ 0) ⊎ (seq < b.max_ledger))

in_window_iff :
    (l : Ledger) (cond : Preconditions) (t : Option TimeBounds) (b : Option LedgerBounds)
    → time_bounds cond ≡ t
    → ledger_bounds cond ≡ b
    → (bounds_problem l cond ≡ none) ↔ (InTime l.timestamp t × InLedgers l.ledger_seq b)
unfolding bounds_problem
in_window_iff l cond none none et eb = ground arith
in_window_iff l cond none (some b) et eb = ground arith
in_window_iff l cond (some t) none et eb = ground arith
in_window_iff l cond (some t) (some b) et eb = ground arith

-- The bounds are met exactly when the close time lies within the time bounds and the ledger
-- within the ledger bounds.
pub bounds_problem_iff :
    (l : Ledger) (cond : Preconditions)
    → (bounds_problem l cond ≡ none)
      ↔ (InTime l.timestamp (time_bounds cond) × InLedgers l.ledger_seq (ledger_bounds cond))
bounds_problem_iff l cond = in_window_iff l cond _ _ refl refl

-- The relaxed interval of `minSeqNum`, or exactly the next number.
abbrev pub SequenceFits : Option ℤ → (current tx : ℤ) → Type 0
SequenceFits none current tx = tx ≡ current +ℤ pos 1
SequenceFits (some least) current tx = (least ≤ℤ current) × (current <ℤ tx)

-- The sequence number is accepted exactly when it is the account's next one or, under a
-- `minSeqNum`, when the account's number is at least that and below the transaction's.
pub bad_sequence_iff :
    (cond : Preconditions) (current tx : ℤ)
    → (bad_sequence cond current tx ≡ none) ↔ SequenceFits (min_seq_num cond) current tx
unfolding bad_sequence ◌+ℤ◌
bad_sequence_iff precond_none current tx = ground arith
bad_sequence_iff (precond_time t) current tx = ground arith
bad_sequence_iff (precond_v2 c) current tx = ground arith

-- The account is old enough exactly when `minSeqAge` seconds after the last bump's close time and
-- `minSeqLedgerGap` ledgers after its ledger are over; no difference is taken below zero.
pub too_early_for_account_iff :
    (l : Ledger) (cond : Preconditions) (a : AccountEntry)
    → (too_early_for_account l cond a ≡ none) ↔ (
        (seq_time_of (account_entry_extension_v3 a) + min_seq_age_of (preconditions_v2 cond)
          ≤ l.timestamp)
        × (seq_ledger_of (account_entry_extension_v3 a)
              + min_seq_ledger_gap_of (preconditions_v2 cond)
            ≤ l.ledger_seq))
unfolding too_early_for_account
too_early_for_account_iff l cond a = ground arith

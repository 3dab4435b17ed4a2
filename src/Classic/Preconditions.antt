-- ===== src/Classic/Preconditions.antt =====
-- The preconditions of src/classic.ts: extra signers, time and ledger bounds, the sequence rule,
-- and the age of the account's last sequence bump.
pub mod Window
use lite_soroban.Prelude.{
  ℕ, ◌-◌, ◌+◌, ℤ, pos, ◌+ℤ◌, ltb_ℤ, leb_ℤ, eqb_ℤ, Bool, true, false, not, ◌&&◌, ◌||◌, List, [], ◌∷◌,
  Option, none, some, if◌then◌else◌, ltb, leb, ◌==◌, same_bytes,
}
use lite_soroban.Xdr.{
  Bytes, SignerKey, key_ed25519, pre_auth_tx, hash_x, signed_payload, TimeBounds, LedgerBounds,
  PreconditionsV2, Preconditions, precond_none, precond_time, precond_v2, AccountEntry,
  AccountEntryExtensionV3,
}
use lite_soroban.Sdk.{Sdk}
use lite_soroban.Ledger.{Ledger}
use lite_soroban.Classic.Outcome.{
  TxResultCode, tx_too_early, tx_too_late, Detail, identical_extra_signers, empty_signed_payload,
  min_time_after, min_ledger_after, max_time_before, max_ledger_not_after, min_seq_num_unmet,
  wrong_sequence, min_seq_age_unmet, min_seq_ledger_gap_unmet,
}
use lite_soroban.Classic.Accounts.{account_entry_extension_v3}
use lite_soroban.Classic.Signatures.{extra_signers_of}

abbrev pub preconditions_v2 : Preconditions → Option PreconditionsV2
preconditions_v2 (precond_v2 c) = some c
preconditions_v2 precond_none = none
preconditions_v2 (precond_time t) = none

-- `getTimeBounds`: those of PRECOND_TIME, or the optional ones in PRECOND_V2.
abbrev pub time_bounds : Preconditions → Option TimeBounds
time_bounds precond_none = none
time_bounds (precond_time t) = some t
time_bounds (precond_v2 c) = c.time_bounds

abbrev pub ledger_bounds : Preconditions → Option LedgerBounds
ledger_bounds precond_none = none
ledger_bounds (precond_time t) = none
ledger_bounds (precond_v2 c) = c.ledger_bounds

abbrev pub min_seq_num : Preconditions → Option ℤ
min_seq_num precond_none = none
min_seq_num (precond_time t) = none
min_seq_num (precond_v2 c) = c.min_seq_num

abbrev has_empty_payload : SignerKey → Bool
has_empty_payload (signed_payload k []) = true
has_empty_payload (signed_payload k (b ∷ p)) = false
has_empty_payload _ = false

abbrev first_empty_payload : List SignerKey → Option Detail
first_empty_payload [] = none
first_empty_payload (s ∷ ss) =
    if has_empty_payload s then some empty_signed_payload else first_empty_payload ss

-- Exactly two signers with the same encoding.
abbrev pub identical_pair : Sdk → List SignerKey → Bool
identical_pair sdk (a ∷ b ∷ []) = same_bytes (sdk.encode_signer_key a) (sdk.encode_signer_key b)
identical_pair sdk _ = false

unfoldable pub extra_signers_malformed : Sdk → Preconditions → Option Detail
extra_signers_malformed sdk cond =
    let extra = extra_signers_of cond in
    if identical_pair sdk extra then some identical_extra_signers else first_empty_payload extra

abbrev pub min_time_of : Option TimeBounds → ℕ
min_time_of none = 0
min_time_of (some t) = t.min_time

abbrev pub max_time_of : Option TimeBounds → ℕ
max_time_of none = 0
max_time_of (some t) = t.max_time

-- `lb && lb.minLedger > seq`, and `lb && lb.maxLedger !== 0 && lb.maxLedger <= seq`, with the
-- bound that is broken.
abbrev ledger_too_early : Option LedgerBounds → ℕ → Option ℕ
ledger_too_early none seq = none
ledger_too_early (some b) seq = if ltb seq b.min_ledger then some b.min_ledger else none

abbrev ledger_too_late : Option LedgerBounds → ℕ → Option ℕ
ledger_too_late none seq = none
ledger_too_late (some b) seq =
    if not (b.max_ledger == 0) && leb b.max_ledger seq then some b.max_ledger else none

abbrev pub Problem : Type 0
Problem = TxResultCode × Detail

abbrev max_bounds_problem : ℕ → ℕ → ℕ → Option ℕ → Option Problem
max_bounds_problem max_time now seq late =
    if not (max_time == 0) && ltb max_time now
    then some (tx_too_late, max_time_before max_time now)
    else elim late [ none ↦ none | some b ↦ some (tx_too_late, max_ledger_not_after b seq) ]

-- Too early, then too late, each by the time bounds first and the ledger bounds second.
unfoldable pub bounds_problem : Ledger → Preconditions → Option Problem
bounds_problem l cond =
    let now = l.timestamp in
    let seq = l.ledger_seq in
    let min_time = min_time_of (time_bounds cond) in
    let max_time = max_time_of (time_bounds cond) in
    let late = ledger_too_late (ledger_bounds cond) seq in
    if not (min_time == 0) && ltb now min_time
    then some (tx_too_early, min_time_after min_time now)
    else elim (ledger_too_early (ledger_bounds cond) seq) [
      | some b ↦ some (tx_too_early, min_ledger_after b seq)
      | none ↦ max_bounds_problem max_time now seq late
    ]

-- The strict rule is the account's number plus one; a `minSeqNum`, 0 included, relaxes it.
unfoldable pub bad_sequence : Preconditions → (current tx : ℤ) → Option Detail
bad_sequence cond current tx = elim (min_seq_num cond) [
  | some least ↦
      if ltb_ℤ current least || leb_ℤ tx current
      then some (min_seq_num_unmet least current tx)
      else none
  | none ↦
      let expected = current +ℤ pos 1 in
      if eqb_ℤ tx expected then none else some (wrong_sequence expected tx)
]

abbrev pub min_seq_age_of : Option PreconditionsV2 → ℕ
min_seq_age_of none = 0
min_seq_age_of (some c) = c.min_seq_age

abbrev pub min_seq_ledger_gap_of : Option PreconditionsV2 → ℕ
min_seq_ledger_gap_of none = 0
min_seq_ledger_gap_of (some c) = c.min_seq_ledger_gap

abbrev pub seq_time_of : Option AccountEntryExtensionV3 → ℕ
seq_time_of none = 0
seq_time_of (some e) = e.seq_time

abbrev pub seq_ledger_of : Option AccountEntryExtensionV3 → ℕ
seq_ledger_of none = 0
seq_ledger_of (some e) = e.seq_ledger

unfoldable pub too_early_for_account : Ledger → Preconditions → AccountEntry → Option Detail
unfolding account_entry_extension_v3
too_early_for_account l cond a =
    let age = min_seq_age_of (preconditions_v2 cond) in
    let gap = min_seq_ledger_gap_of (preconditions_v2 cond) in
    let seq_time = seq_time_of (account_entry_extension_v3 a) in
    let seq_ledger = seq_ledger_of (account_entry_extension_v3 a) in
    if ltb l.timestamp age || ltb (l.timestamp - age) seq_time
    then some (min_seq_age_unmet age seq_time l.timestamp)
    else if ltb l.ledger_seq gap || ltb (l.ledger_seq - gap) seq_ledger
    then some (min_seq_ledger_gap_unmet gap seq_ledger l.ledger_seq)
    else none

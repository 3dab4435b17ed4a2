-- ===== src/Classic/Footprint.antt =====
-- ExtendFootprintTTL and RestoreFootprint of src/classic.ts: the shape rules at submission, and
-- what the operations do to the TTLs.
pub mod Moves
pub mod Collecting
pub mod Extend
pub mod Restore
use lite_soroban.Prelude.{
  ℕ, ◌+◌, ◌-◌, ℤ, pos, ltb_ℤ, Bool, true, false, not, ◌||◌, List, [], ◌∷◌, map, Option, none, some,
  if◌then◌else◌, ltb, leb, ◌==◌, length, all,
}
use lite_soroban.Xdr.{
  LedgerKey, LedgerEntry, is_ttl_key, is_persistent_key, OperationBody, invoke_host_function,
  extend_footprint_ttl, restore_footprint, classic, SorobanResources, SorobanTransactionData,
}
use lite_soroban.Settings.{NetworkFeeSettings}
use lite_soroban.Ledger.{Ledger, get_entry, get_entry_ttl, put_entry, u32}
use lite_soroban.Sdk.{Sdk, RentChange}
use lite_soroban.Classic.Outcome.{
  FootprintOpResult, extend_malformed, restore_malformed, Detail, read_write_not_empty, no_ttl_key,
  over, extend_to, read_only_not_empty, not_persistent_key, rent_not_covered, operation_byte_read,
  operation_byte_write,
}
use lite_soroban.Classic.Resources.{contract_entry_too_large}

abbrev is_empty {ℓ} : {A : Type ℓ} → List A → Bool
is_empty [] = true
is_empty (x ∷ xs) = false

-- `doCheckValidForSoroban`: the inner result and the diagnostic, `none` for any other operation.
unfoldable pub footprint_op_malformed :
    Ledger → OperationBody → SorobanTransactionData → Option (FootprintOpResult × Detail)
footprint_op_malformed l (extend_footprint_ttl to) d =
    if not (is_empty d.resources.read_write)
    then some (extend_malformed, read_write_not_empty)
    else if not (all is_ttl_key d.resources.read_only)
    then some (extend_malformed, no_ttl_key)
    else if ltb l.archival_settings.max_entry_ttl (to + 1)
    then some (extend_malformed, over extend_to to (l.archival_settings.max_entry_ttl - 1))
    else none
footprint_op_malformed l restore_footprint d =
    if not (is_empty d.resources.read_only)
    then some (restore_malformed, read_only_not_empty)
    else if not (all is_persistent_key d.resources.read_write)
    then some (restore_malformed, not_persistent_key)
    else none
footprint_op_malformed l (invoke_host_function f auth) d = none
footprint_op_malformed l (classic n) d = none

pub record FootprintOpApplied : Type 0 where
  pub changed : List LedgerKey
  pub rent : ℤ
  pub short : Option Detail
  pub over_limit : Option Detail

-- One TTL to move.
pub record Move : Type 0 where
  pub key : LedgerKey
  pub entry : LedgerEntry
  pub old_live_until : ℕ
  pub new_live_until : ℕ

-- The sizes and the TTLs go to Rust in `Uint32Array`s.
abbrev rent_change : Sdk → Ledger → Move → RentChange
rent_change sdk l m = record {
  key = m.key;
  size = u32 (sdk.entry_size_for_rent l m.key);
  old_live_until = u32 m.old_live_until;
  new_live_until = u32 m.new_live_until;
}

unfoldable pub put_moves : Ledger → List Move → Ledger
put_moves l [] = l
put_moves l (m ∷ ms) = put_moves (put_entry l m.entry (some m.new_live_until)) ms

-- `maxRefundable !== undefined && maxRefundable < rent`
abbrev not_covered : Option ℤ → ℤ → Option ℤ
not_covered none rent = none
not_covered (some refundable) rent = if ltb_ℤ refundable rent then some refundable else none

-- Prices the moves, and makes them only if the refundable fee covers the rent.
unfoldable pub move_ttls : Sdk → Ledger → List Move → Option ℤ → FootprintOpApplied × Ledger
move_ttls sdk l moves max_refundable =
    let rent = sdk.compute_rent_fee l (map (rent_change sdk l) moves) in
    elim (not_covered max_refundable rent) [
      | some refundable ↦ (
        record {
          changed = [];
          rent = pos 0;
          short = some (rent_not_covered rent refundable);
          over_limit = none;
        },
        l,
      )
      | none ↦ (
        record { changed = map (λ m. m.key) moves; rent = rent; short = none; over_limit = none },
        put_moves l moves,
      )
    ]

-- The moves that a loop over the footprint collected, or the limit at which it returned.
pub data Collected : Type 0 where
  moves : List Move → Collected
  exceeded : Detail → Collected

abbrev add_move : Move → Collected → Collected
add_move m (moves ms) = moves (m ∷ ms)
add_move m (exceeded d) = exceeded d

-- An entry with a TTL.
unfoldable pub timed_entry : Ledger → LedgerKey → Option (LedgerEntry × ℕ)
unfolding get_entry get_entry_ttl
timed_entry l k = elim (get_entry l k) [
  | none ↦ none
  | some e ↦ elim (get_entry_ttl l k) [ none ↦ none | some t ↦ some (e, t) ]
]

unfoldable pub extend_moves : Sdk → Ledger → (new_live_until : ℕ) → List LedgerKey → Collected
unfolding timed_entry contract_entry_too_large
extend_moves sdk l until [] = moves []
extend_moves sdk l until (k ∷ ks) = elim (timed_entry l k) [
  | none ↦ extend_moves sdk l until ks
  | some (e, ttl) ↦
      if ltb ttl l.ledger_seq || leb until ttl
      then extend_moves sdk l until ks
      else elim (contract_entry_too_large l.fee_settings k (sdk.entry_size e)) [
        | some d ↦ exceeded d
        | none ↦
            add_move (record { key = k; entry = e; old_live_until = ttl; new_live_until = until })
              (extend_moves sdk l until ks)
      ]
]

abbrev pub run_collected : Sdk → Ledger → Option ℤ → Collected → FootprintOpApplied × Ledger
run_collected sdk l max_refundable (moves ms) = move_ttls sdk l ms max_refundable
run_collected sdk l max_refundable (exceeded d) =
    (record { changed = []; rent = pos 0; short = none; over_limit = some d }, l)

unfoldable pub apply_extend_footprint_ttl :
    Sdk → Ledger → (extend_to : ℕ) → SorobanTransactionData → Option ℤ → FootprintOpApplied × Ledger
unfolding extend_moves move_ttls
apply_extend_footprint_ttl sdk l to d max_refundable =
    run_collected sdk l max_refundable
      (extend_moves sdk l (l.ledger_seq + to) d.resources.read_only)

-- The loop of a restore, with the bytes read and written so far.
unfoldable pub restore_moves :
    Sdk → Ledger → SorobanResources → (until read written : ℕ) → List LedgerKey → Collected
unfolding timed_entry contract_entry_too_large
restore_moves sdk l r until read written [] = moves []
restore_moves sdk l r until read written (k ∷ ks) = elim (timed_entry l k) [
  | none ↦ restore_moves sdk l r until read written ks
  | some (e, ttl) ↦
      let size = sdk.entry_size e in
      let rest = restore_moves sdk l r until (read + size) (written + size) ks in
      let skipped = restore_moves sdk l r until read written ks in
      if leb l.ledger_seq ttl
      then skipped
      else if ltb r.disk_read_bytes (read + size)
      then exceeded (over operation_byte_read (read + size) r.disk_read_bytes)
      else elim (contract_entry_too_large l.fee_settings k size) [
        | some d ↦ exceeded d
        | none ↦
            if ltb r.write_bytes (written + size)
            then exceeded (over operation_byte_write (written + size) r.write_bytes)
            else add_move
                (record { key = k; entry = e; old_live_until = 0; new_live_until = until }) rest
      ]
]

unfoldable pub apply_restore_footprint :
    Sdk → Ledger → SorobanTransactionData → Option ℤ → FootprintOpApplied × Ledger
unfolding restore_moves move_ttls
apply_restore_footprint sdk l d max_refundable = run_collected sdk l max_refundable (
    restore_moves sdk l d.resources (l.ledger_seq + l.archival_settings.min_persistent_ttl - 1) 0 0
      d.resources.read_write)

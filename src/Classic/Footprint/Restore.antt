-- ===== src/Classic/Footprint/Restore.antt =====
-- RestoreFootprint against its description: which entries come back, and the declared bytes.
use lite_soroban.Prelude.{
  ℕ, ◌+◌, ◌<◌, ◌-◌, ◌≤◌, ℤ, ◌≡◌, ◌≢◌, refl, List, [], ◌∷◌, Bool, false, not, ◌&&◌, Option, none,
  some, arith, Option-cases, Bool-cases, inl, inr, ◌⊎◌, if◌then◌else◌, ltb, leb, map,
}
use lite_soroban.Xdr.{LedgerKey, LedgerEntry, SorobanResources, SorobanTransactionData}
use lite_soroban.Sdk.{Sdk}
use lite_soroban.Ledger.{Ledger}
use lite_soroban.Ledger.Entries.{find}
use lite_soroban.Ledger.Keyed.{IsKeyed}
use lite_soroban.Classic.Resources.{contract_entry_too_large}
use lite_soroban.Classic.Footprint.{
  Move, moves, timed_entry, restore_moves, put_moves, apply_restore_footprint,
}
use lite_soroban.Classic.Footprint.Moves.{
  u32_small, live_for, put_moves-frame, move_ttls-MovesDone, Collected-cases, add_move-inv,
  run_collected_atomic,
}
use lite_soroban.Classic.Footprint.Collecting.{
  is_listed, IsCollected, IsCollected-nil, IsCollected-skip, IsCollected-add, find-collected,
}

-- The entry is archived: its TTL has ended.
abbrev pub is_archived : ℕ → Option (LedgerEntry × ℕ) → Bool
is_archived seq none = false
is_archived seq (some (e, t)) = not (leb seq t)

abbrev pub size_sum : Sdk → List Move → ℕ
size_sum sdk [] = 0
size_sum sdk (m ∷ ms) = sdk.entry_size m.entry + size_sum sdk ms

-- What the loop collected, and the bytes that it read and wrote.
record IsRestoration (sdk : Sdk) (l : Ledger) (r : SorobanResources) (until read written : ℕ)
    (ks : List LedgerKey) (ms : List Move) : Type 0 where
  collected : IsCollected l until (is_archived l.ledger_seq) ks ms
  bytes_read : (ms ≡ []) ⊎ (read + size_sum sdk ms ≤ r.disk_read_bytes)
  bytes_written : (ms ≡ []) ⊎ (written + size_sum sdk ms ≤ r.write_bytes)

step_bytes :
    (sdk : Sdk) (before size declared : ℕ) (ms : List Move)
    → before + size ≤ declared
    → (ms ≡ []) ⊎ (before + size + size_sum sdk ms ≤ declared)
    → before + (size + size_sum sdk ms) ≤ declared
step_bytes sdk before size declared ms h (inl e) = rw e (omega arith)
step_bytes sdk before size declared ms h (inr k) = omega arith

within :
    (sdk : Sdk) (ms : List Move) (declared : ℕ)
    → (ms ≡ []) ⊎ (0 + size_sum sdk ms ≤ declared)
    → size_sum sdk ms ≤ declared
within sdk ms declared (inl e) = rw e (omega arith)
within sdk ms declared (inr h) = omega arith

module _ (sdk : Sdk) (l : Ledger) (r : SorobanResources) (until : ℕ) where
  restore_moves_lem :
      (read written : ℕ) (ks : List LedgerKey) (ms : List Move)
      → IsKeyed l.store
      → restore_moves sdk l r until read written ks ≡ moves ms
      → IsRestoration sdk l r until read written ks ms
  unfolding restore_moves
  restore_moves_lem read written [] ms keyed e =
      let e' : ms ≡ [] = cc in
      rw e' (record {
        collected = IsCollected-nil l until _;
        bytes_read = inl refl;
        bytes_written = inl refl;
      })
  restore_moves_lem read written (k ∷ ks) ms keyed e = elim (Option-cases (timed_entry l k)) [
    | inl missing ↦
        let v = restore_moves_lem read written ks ms keyed (rw (missing, restore_moves) at e) in
        record {
          collected = IsCollected-skip l until _ k ks ms (rw missing) v.collected;
          bytes_read = v.bytes_read;
          bytes_written = v.bytes_written;
        }
    | inr ((x, t), found) ↦ elim (Bool-cases (leb l.ledger_seq t)) [
      | inl live ↦
          let v =
            restore_moves_lem read written ks ms keyed (rw (found, restore_moves, live) at e) in
          record {
            collected = IsCollected-skip l until _ k ks ms (rw (found, live)) v.collected;
            bytes_read = v.bytes_read;
            bytes_written = v.bytes_written;
          }
      | inr archived ↦
          let size = sdk.entry_size x in
          elim (Bool-cases (ltb r.disk_read_bytes (read + size))) [
            | inl much ↦ let e' = rw (found, restore_moves, archived, much) at e in cc
            | inr read_ok ↦ elim (Option-cases (contract_entry_too_large l.fee_settings k size)) [
              | inr (d, large) ↦
                  let e' = rw (found, restore_moves, archived, read_ok, large) at e in cc
              | inl fits ↦ elim (Bool-cases (ltb r.write_bytes (written + size))) [
                | inl much ↦
                    let e' = rw (found, restore_moves, archived, read_ok, fits, much) at e in cc
                | inr write_ok ↦
                    let e' = rw (found, restore_moves, archived, read_ok, fits, write_ok) at e in
                    let (rest, collected, split) = add_move-inv _ _ ms e' in
                    let v =
                      restore_moves_lem (read + size) (written + size) ks rest keyed collected in
                    rw split (record {
                      collected =
                          IsCollected-add l until _ k x t 0 ks rest keyed found (rw archived)
                            v.collected;
                      bytes_read = inr (
                          step_bytes sdk read size r.disk_read_bytes rest (ground arith)
                            v.bytes_read);
                      bytes_written = inr (
                          step_bytes sdk written size r.write_bytes rest (ground arith)
                            v.bytes_written);
                    })
              ]
            ]
          ]
    ]
  ]

module _ (sdk : Sdk) (l : Ledger) (d : SorobanTransactionData) (max_refundable : Option ℤ) where
  -- If the TTL that a new persistent entry gets is between 0 and 2^32 - 1, a restoration that
  -- succeeds leaves every archived entry of the read-write footprint with the
  -- TTL ledger + minPersistentTTL - 1, every other entry and TTL as they were, and the rest of the
  -- ledger untouched.
  pub apply_restore_footprint_lem :
      (k : LedgerKey)
      → IsKeyed l.store
      → l.ledger_seq + l.archival_settings.min_persistent_ttl ≤ 4294967296
      → 0 < l.ledger_seq + l.archival_settings.min_persistent_ttl
      → let (a, n) = apply_restore_footprint sdk l d max_refundable in
        let until = l.ledger_seq + l.archival_settings.min_persistent_ttl - 1 in
        a.short ≡ none
        → a.over_limit ≡ none
        → (find k n.store ≡ (
            if is_listed d.resources.read_write k && is_archived l.ledger_seq (timed_entry l k)
            then live_for until (find k l.store)
            else find k l.store))
          × (n ≡ record l { store = n.store })
  unfolding apply_restore_footprint
  apply_restore_footprint_lem k keyed small positive paid fits =
      let until = l.ledger_seq + l.archival_settings.min_persistent_ttl - 1 in
      let ks = d.resources.read_write in
      elim (Collected-cases (restore_moves sdk l d.resources until 0 0 ks)) [
        | inr (x, large) ↦ let fits' = rw large at fits in cc
        | inl (ms, e) ↦ rw e (
            let (done, _) = move_ttls-MovesDone sdk l ms max_refundable in
            let made = done.made (rw e at paid) in
            let v = restore_moves_lem sdk l d.resources until 0 0 ks ms keyed e in
            rw made (
              rw (u32_small until (omega arith)) at (find-collected l until _ ks ms k v.collected),
              put_moves-frame l ms,
            ))
      ]

  -- A restoration that fails, for the rent, the declared bytes or an entry's size, changes nothing.
  pub apply_restore_footprint_atomic :
      let (a, n) = apply_restore_footprint sdk l d max_refundable in
      (a.short ≢ none) ⊎ (a.over_limit ≢ none) → n ≡ l
  unfolding apply_restore_footprint
  apply_restore_footprint_atomic = run_collected_atomic sdk l max_refundable (
      restore_moves sdk l d.resources (l.ledger_seq + l.archival_settings.min_persistent_ttl - 1) 0
        0 d.resources.read_write)

  -- The entries that a restoration writes back fit the declared read and write bytes.
  pub apply_restore_footprint_bytes :
      IsKeyed l.store
      → let (a, n) = apply_restore_footprint sdk l d max_refundable in
        a.short ≡ none
        → a.over_limit ≡ none
        → (ms : List Move) × (n ≡ put_moves l ms)
          × (a.changed ≡ map (λ m. m.key) ms)
          × (size_sum sdk ms ≤ d.resources.disk_read_bytes)
          × (size_sum sdk ms ≤ d.resources.write_bytes)
  unfolding apply_restore_footprint
  apply_restore_footprint_bytes keyed paid fits =
      let until = l.ledger_seq + l.archival_settings.min_persistent_ttl - 1 in
      let ks = d.resources.read_write in
      elim (Collected-cases (restore_moves sdk l d.resources until 0 0 ks)) [
        | inr (x, large) ↦ let fits' = rw large at fits in cc
        | inl (ms, e) ↦ rw e (
            let (done, _) = move_ttls-MovesDone sdk l ms max_refundable in
            let paid' = rw e at paid in
            let v = restore_moves_lem sdk l d.resources until 0 0 ks ms keyed e in
            (
              ms,
              done.made paid',
              done.changed paid',
              within sdk ms _ v.bytes_read,
              within sdk ms _ v.bytes_written,
            ))
      ]

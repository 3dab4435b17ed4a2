-- ===== src/Classic/Footprint/Extend.antt =====
-- ExtendFootprintTTL against its description: which TTLs move, and to where.
use lite_soroban.Prelude.{
  ℕ, ◌+◌, ◌<◌, ℤ, ◌≡◌, ◌≢◌, List, [], ◌∷◌, Bool, false, not, ◌&&◌, ◌||◌, Option, none, some,
  Option-cases, Bool-cases, inl, inr, ◌⊎◌, if◌then◌else◌, ltb, leb,
}
use lite_soroban.Xdr.{LedgerKey, LedgerEntry, SorobanTransactionData}
use lite_soroban.Sdk.{Sdk}
use lite_soroban.Ledger.{Ledger}
use lite_soroban.Ledger.Entries.{find}
use lite_soroban.Ledger.Keyed.{IsKeyed}
use lite_soroban.Classic.Resources.{contract_entry_too_large}
use lite_soroban.Classic.Footprint.{
  Move, moves, timed_entry, extend_moves, apply_extend_footprint_ttl,
}
use lite_soroban.Classic.Footprint.Moves.{
  u32_small, live_for, put_moves-frame, move_ttls-MovesDone, Collected-cases, add_move-inv,
  run_collected_atomic,
}
use lite_soroban.Classic.Footprint.Collecting.{
  is_listed, IsCollected, IsCollected-nil, IsCollected-skip, IsCollected-add, find-collected,
}

-- The entry is live and its TTL ends before `until`.
abbrev pub ends_before : ℕ → ℕ → Option (LedgerEntry × ℕ) → Bool
ends_before seq until none = false
ends_before seq until (some (e, t)) = not (ltb t seq || leb until t)

extend_moves_lem :
    (sdk : Sdk) (l : Ledger) (until : ℕ) (ks : List LedgerKey) (ms : List Move)
    → IsKeyed l.store
    → extend_moves sdk l until ks ≡ moves ms
    → IsCollected l until (ends_before l.ledger_seq until) ks ms
unfolding extend_moves
extend_moves_lem sdk l until [] ms keyed e =
    let e' : ms ≡ [] = cc in rw e' (IsCollected-nil l until _)
extend_moves_lem sdk l until (k ∷ ks) ms keyed e = elim (Option-cases (timed_entry l k)) [
  | inl missing ↦
      IsCollected-skip l until _ k ks ms (rw missing)
        (extend_moves_lem sdk l until ks ms keyed (rw (missing, extend_moves) at e))
  | inr ((x, t), found) ↦ elim (Bool-cases (ltb t l.ledger_seq || leb until t)) [
    | inl skipped ↦
        IsCollected-skip l until _ k ks ms (rw (found, skipped))
          (extend_moves_lem sdk l until ks ms keyed (rw (found, extend_moves, skipped) at e))
    | inr wanted ↦
        elim (Option-cases (contract_entry_too_large l.fee_settings k (sdk.entry_size x))) [
          | inr (d, large) ↦ let e' = rw (found, extend_moves, wanted, large) at e in cc
          | inl fits ↦
              let e' = rw (found, extend_moves, wanted, fits) at e in
              let (rest, collected, split) = add_move-inv _ _ ms e' in
              rw split (
                IsCollected-add l until _ k x t t ks rest keyed found (rw wanted)
                  (extend_moves_lem sdk l until ks rest keyed collected))
        ]
  ]
]

module _ (sdk : Sdk) (l : Ledger) (to : ℕ) (d : SorobanTransactionData)
    (max_refundable : Option ℤ) where
  -- If ledger + extendTo is below 2^32, an extension that succeeds leaves every live entry of the read-only footprint whose TTL ended
  -- before ledger + extendTo with exactly that TTL, every other entry and TTL as they were, and
  -- the rest of the ledger untouched.
  pub apply_extend_footprint_ttl_lem :
      (k : LedgerKey)
      → IsKeyed l.store
      → l.ledger_seq + to < 4294967296
      → let (a, n) = apply_extend_footprint_ttl sdk l to d max_refundable in
        let until = l.ledger_seq + to in
        a.short ≡ none
        → a.over_limit ≡ none
        → (find k n.store ≡ (
            if is_listed d.resources.read_only k && ends_before l.ledger_seq until (timed_entry l k)
            then live_for until (find k l.store)
            else find k l.store))
          × (n ≡ record l { store = n.store })
  unfolding apply_extend_footprint_ttl
  apply_extend_footprint_ttl_lem k keyed small paid fits =
      let until = l.ledger_seq + to in
      elim (Collected-cases (extend_moves sdk l until d.resources.read_only)) [
        | inr (x, large) ↦ let fits' = rw large at fits in cc
        | inl (ms, e) ↦ rw e (
            let (done, _) = move_ttls-MovesDone sdk l ms max_refundable in
            let made = done.made (rw e at paid) in
            let c = extend_moves_lem sdk l until d.resources.read_only ms keyed e in
            rw made (
              rw (u32_small until small) at (find-collected l until _ d.resources.read_only ms k c),
              put_moves-frame l ms,
            ))
      ]

  -- An extension that fails, for the rent or for an entry's size, changes nothing.
  pub apply_extend_footprint_ttl_atomic :
      let (a, n) = apply_extend_footprint_ttl sdk l to d max_refundable in
      (a.short ≢ none) ⊎ (a.over_limit ≢ none) → n ≡ l
  unfolding apply_extend_footprint_ttl
  apply_extend_footprint_ttl_atomic =
      run_collected_atomic sdk l max_refundable
        (extend_moves sdk l (l.ledger_seq + to) d.resources.read_only)

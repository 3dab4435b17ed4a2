-- ===== src/Classic/Footprint/Collecting.antt =====
-- The moves that a loop over the footprint collects: faithful to the store, and of the listed keys
-- whose entries the loop wants.
use lite_soroban.Prelude.{
  ℕ, ◌≡◌, refl, List, [], ◌∷◌, Bool, true, false, ◌&&◌, Option, some, arith, any, All,
  if◌then◌else◌, ap, ◌∙◌,
}
use lite_soroban.Xdr.{LedgerKey, LedgerKey-discrete, LedgerEntry}
use lite_soroban.Ledger.{Ledger, u32}
use lite_soroban.Ledger.Entries.{find}
use lite_soroban.Ledger.Keyed.{IsKeyed}
use lite_soroban.Classic.Footprint.{Move, timed_entry, put_moves}
use lite_soroban.Classic.Footprint.Moves.{
  same_key, live_for, is_moved, Faithful, find-put_moves, timed_entry_lem,
}

abbrev pub is_listed : List LedgerKey → LedgerKey → Bool
is_listed ks k = any (λ j. same_key j k) ks

module _ (l : Ledger) (until : ℕ) (wants : Option (LedgerEntry × ℕ) → Bool) where
  pub record IsCollected (ks : List LedgerKey) (ms : List Move) : Type 0 where
    pub faithful : All (Faithful l until) ms
    pub moved : (k : LedgerKey) → is_moved ms k ≡ (is_listed ks k && wants (timed_entry l k))

  pub IsCollected-nil : IsCollected [] []
  IsCollected-nil = record { faithful = tt; moved = λ k. refl }

  pub IsCollected-skip :
      (j : LedgerKey) (ks : List LedgerKey) (ms : List Move)
      → wants (timed_entry l j) ≡ false
      → IsCollected ks ms
      → IsCollected (j ∷ ks) ms
  IsCollected-skip j ks ms h c = record {
    faithful = c.faithful;
    moved = λ k. c.moved k ∙ skip k (LedgerKey-discrete j k);
  }
    where
      skip :
          (k : LedgerKey)
          → Dec (j ≡ k)
          → (is_listed ks k && wants (timed_entry l k))
            ≡ (is_listed (j ∷ ks) k && wants (timed_entry l k))
      skip k (yes e) = let h' : wants (timed_entry l k) ≡ false = rw e at h in ground arith
      skip k (no ne) = ground arith

  pub IsCollected-add :
      (j : LedgerKey) (e : LedgerEntry) (t old : ℕ) (ks : List LedgerKey) (ms : List Move)
      → IsKeyed l.store
      → timed_entry l j ≡ some (e, t)
      → wants (some (e, t)) ≡ true
      → IsCollected ks ms
      → IsCollected
          (j ∷ ks)
          (record { key = j; entry = e; old_live_until = old; new_live_until = until } ∷ ms)
  IsCollected-add j e t old ks ms keyed h w c = record {
    faithful =
        let found = timed_entry_lem l j e t h in
        ((refl, keyed.at_key j _ found, (some t, found)), c.faithful);
    moved = λ k. add k (LedgerKey-discrete j k);
  }
    where
      add :
          (k : LedgerKey)
          → Dec (j ≡ k)
          → is_moved
              (record { key = j; entry = e; old_live_until = old; new_live_until = until } ∷ ms)
              k
            ≡ (is_listed (j ∷ ks) k && wants (timed_entry l k))
      add k (yes p) = let h' : wants (timed_entry l k) ≡ true = rw (← p, h) w in ground arith
      add k (no ne) = ground (arith, c.moved k)

  -- The store after the moves: a listed entry that the loop wants lives until `until`, and every
  -- other is as it was.
  pub find-collected :
      (ks : List LedgerKey) (ms : List Move) (k : LedgerKey)
      → IsCollected ks ms
      → find k (put_moves l ms).store ≡ (
          if is_listed ks k && wants (timed_entry l k)
          then live_for (u32 until) (find k l.store)
          else find k l.store)
  find-collected ks ms k c =
      find-put_moves l l until ms k c.faithful
      ∙ ap (λ (b : Bool). if b then live_for (u32 until) (find k l.store) else find k l.store)
          (c.moved k)

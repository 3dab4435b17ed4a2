-- ===== src/Ledger/Snapshots.antt =====
-- Snapshots: restoring one gives back the state that it was taken of, whatever came between.
use lite_soroban.Prelude.{◌≡◌, refl, List, [], ◌∷◌, ◌++◌, some, length, get_elem?}
use lite_soroban.Ledger.{Ledger, Snapshot, snapshot, restore}

get_elem?-append {ℓ} :
    {A : Type ℓ} (xs : List A) (x : A) (ys : List A)
    → get_elem? ((xs ++ x ∷ []) ++ ys) (length xs) ≡ some x
get_elem?-append [] x ys = refl
get_elem?-append (y ∷ xs) x ys = get_elem?-append xs x ys

-- Whatever became of the ledger since a snapshot was taken, entries, clock and settings, and
-- whatever further snapshots were taken of it, restoring that snapshot by its id gives back the
-- store, the clock and the counter of the moment, and keeps the settings and every snapshot.
pub restore-snapshot :
    (l m : Ledger) (later : List Snapshot)
    → let (taken, id) = snapshot l in
      m.snapshots ≡ taken.snapshots ++ later
      → restore m id
        ≡ some (record m {
          store = l.store;
          ledger_seq = l.ledger_seq;
          timestamp = l.timestamp;
          prng_counter = l.prng_counter;
        })
unfolding restore snapshot
restore-snapshot l m later h = simp (h, get_elem?-append)

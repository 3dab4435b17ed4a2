-- ===== src/Classic/Footprint/Moves.antt =====
-- What moving TTLs does to the store.
use mathlib.Core.Logic.{ite}
use lite_soroban.Prelude.{
  ◌⊎◌, ℕ, ◌<◌, ℤ, ◌≤ℤ◌, ◌≡◌, ◌≢◌, refl, ◌∙◌, ap, List, [], ◌∷◌, Bool, true, false, Option, none,
  some, arith, map, Option-cases, inl, inr, if◌then◌else◌, any, All,
}
use lite_soroban.Xdr.{LedgerKey, LedgerKey-discrete, LedgerEntry, key_of}
use lite_soroban.Sdk.{Sdk}
use lite_soroban.Classic.Outcome.{Detail}
use lite_soroban.Ledger.{Ledger, get_entry, get_entry_ttl, put_entry, u32, u32_option}
use lite_soroban.Ledger.Entries.{StoredEntry, find, insert, find-insert}
use lite_soroban.Classic.Footprint.{
  Move, FootprintOpApplied, put_moves, move_ttls, timed_entry, Collected, moves, exceeded,
  run_collected, add_move,
}

abbrev pub same_key : LedgerKey → LedgerKey → Bool
same_key a b = ite (LedgerKey-discrete a b) true false

-- The same entry with another TTL.
abbrev pub live_for : ℕ → Option StoredEntry → Option StoredEntry
live_for until none = none
live_for until (some e) = some (record e { live_until = some until })

abbrev pub is_moved : List Move → LedgerKey → Bool
is_moved ms k = any (λ m. same_key m.key k) ms

-- The move rewrites the entry that the store holds, to the given TTL.
abbrev pub Faithful : Ledger → ℕ → Move → Type 0
Faithful l until m =
    (m.new_live_until ≡ until)
    × (key_of m.entry.content ≡ some m.key)
    × ((t : Option ℕ) × (find m.key l.store ≡ some (record { entry = m.entry; live_until = t })))

live_for-moved :
    (l : Ledger) (until : ℕ) (m : Move) (k : LedgerKey)
    → Faithful l until m
    → m.key ≡ k
    → live_for (u32 until) (find k l.store)
      ≡ some (record { entry = m.entry; live_until = some (u32 m.new_live_until) })
live_for-moved l until m k (u, e, (t, f)) same = rw (← same) (rw f (rw u refl))

pub u32_small : (n : ℕ) → n < 4294967296 → u32 n ≡ n
u32_small n h = omega arith

put_entry-store :
    (l : Ledger) (e : LedgerEntry) (t : Option ℕ) (k : LedgerKey)
    → key_of e.content ≡ some k
    → put_entry l e t
      ≡ record l { store = insert k (record { entry = e; live_until = u32_option t }) l.store }
unfolding put_entry
put_entry-store l e t k h = rw (h, put_entry)

-- After the moves each moved key has its entry as before, with the new TTL as a `u32`; all else is as it was.
pub find-put_moves :
    (l n : Ledger) (until : ℕ) (ms : List Move) (k : LedgerKey)
    → All (Faithful l until) ms
    → find k (put_moves n ms).store
      ≡ (if is_moved ms k then live_for (u32 until) (find k l.store) else find k n.store)
unfolding put_moves
find-put_moves l n until [] k h = refl
find-put_moves l n until (m ∷ ms) k (here, later) =
    rw (put_entry-store n m.entry (some m.new_live_until) m.key here.1, put_moves)
      (ground (
        arith,
        find-put_moves l
            (record n {
              store =
                  insert m.key
                    (record { entry = m.entry; live_until = some (u32 m.new_live_until) }) n.store;
            })
            until ms k later,
        find-insert m.key k (record { entry = m.entry; live_until = some (u32 m.new_live_until) })
            n.store,
        live_for-moved l until m k here,
      ))

pub put_entry-frame :
    (l : Ledger) (e : LedgerEntry) (t : Option ℕ)
    → put_entry l e t ≡ record l { store = (put_entry l e t).store }
unfolding put_entry
put_entry-frame l e t = elim (Option-cases (key_of e.content)) [
  | inl bad ↦ rw (bad, put_entry)
  | inr (k, good) ↦ rw (good, put_entry)
]

-- Moving TTLs touches nothing but the store.
pub put_moves-frame :
    (l : Ledger) (ms : List Move) → put_moves l ms ≡ record l { store = (put_moves l ms).store }
unfolding put_moves
put_moves-frame l [] = refl
put_moves-frame l (m ∷ ms) =
    let n = put_entry l m.entry (some m.new_live_until) in
    put_moves-frame n ms
    ∙ ap (λ (x : Ledger). record x { store = (put_moves n ms).store })
        (put_entry-frame l m.entry (some m.new_live_until))

pub timed_entry_lem :
    (l : Ledger) (k : LedgerKey) (e : LedgerEntry) (t : ℕ)
    → timed_entry l k ≡ some (e, t)
    → find k l.store ≡ some (record { entry = e; live_until = some t })
unfolding timed_entry get_entry get_entry_ttl
timed_entry_lem l k e t h = elim (Option-cases (find k l.store)) [
  | inl missing ↦ absurd (ground arith)
  | inr (s, found) ↦ ground arith
]

-- Either the refundable fee covers the rent and the moves are made, or nothing is.
pub record MovesDone (sdk : Sdk) (l : Ledger) (ms : List Move) (max_refundable : Option ℤ)
    (a : FootprintOpApplied) (n : Ledger) : Type 0 where
  pub made : a.short ≡ none → n ≡ put_moves l ms
  pub not_made : a.short ≢ none → n ≡ l
  pub covered :
      (refundable : ℤ) → max_refundable ≡ some refundable → a.short ≡ none → a.rent ≤ℤ refundable
  pub changed : a.short ≡ none → a.changed ≡ map (λ m. m.key) ms

pub move_ttls-MovesDone :
    (sdk : Sdk) (l : Ledger) (ms : List Move) (max_refundable : Option ℤ)
    → let (a, n) = move_ttls sdk l ms max_refundable in
      MovesDone sdk l ms max_refundable a n × (a.over_limit ≡ none)
unfolding move_ttls
move_ttls-MovesDone sdk l ms none = (
  record {
    made = λ e. refl;
    not_made = λ e. absurd (e refl);
    covered = λ r e. cc;
    changed = λ e. refl;
  },
  refl,
)
move_ttls-MovesDone sdk l ms (some refundable) = (
  record {
    made = λ e. ground arith;
    not_made = λ e. ground arith;
    covered = λ r e h. ground arith;
    changed = λ e. ground arith;
  },
  ground arith,
)

pub Collected-cases :
    (c : Collected) → ((ms : List Move) × (c ≡ moves ms)) ⊎ ((d : Detail) × (c ≡ exceeded d))
Collected-cases (moves ms) = inl (ms, refl)
Collected-cases (exceeded d) = inr (d, refl)

-- What was collected after a move was added.
pub add_move-inv :
    (m : Move) (c : Collected) (ms : List Move)
    → add_move m c ≡ moves ms
    → (rest : List Move) × (c ≡ moves rest) × (ms ≡ m ∷ rest)
add_move-inv m (moves rest) ms e = (rest, refl, cc)
add_move-inv m (exceeded d) ms e = cc

-- A footprint operation that fails has changed nothing.
pub run_collected_atomic :
    (sdk : Sdk) (l : Ledger) (max_refundable : Option ℤ) (c : Collected)
    → let (a, n) = run_collected sdk l max_refundable c in
      (a.short ≢ none) ⊎ (a.over_limit ≢ none) → n ≡ l
run_collected_atomic sdk l r (exceeded d) h = refl
run_collected_atomic sdk l r (moves ms) (inl unpaid) =
    (move_ttls-MovesDone sdk l ms r).0.not_made unpaid
run_collected_atomic sdk l r (moves ms) (inr large) =
    absurd (large (move_ttls-MovesDone sdk l ms r).1)

-- One that succeeds costs no more than the refundable fee.
pub run_collected_covered :
    (sdk : Sdk) (l : Ledger) (refundable : ℤ) (c : Collected)
    → let (a, n) = run_collected sdk l (some refundable) c in
      a.short ≡ none → a.over_limit ≡ none → a.rent ≤ℤ refundable
run_collected_covered sdk l r (exceeded d) h k = cc
run_collected_covered sdk l r (moves ms) h k =
    (move_ttls-MovesDone sdk l ms (some r)).0.covered r refl h

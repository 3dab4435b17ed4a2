-- ===== src/Ledger/Entries.antt =====
-- The `BTreeMap` that holds the ledger's entries (crates/host-wasm/src/lib.rs), as an association
-- list under ledger keys, and its laws.
use mathlib.Core.Logic.{ite}
use lite_soroban.Prelude.{◌≡◌, refl, List, [], ◌∷◌, Option, none, some, arith, ℕ}
use lite_soroban.Xdr.{LedgerKey, LedgerKey-discrete, LedgerEntry}

-- An entry and the ledger that it lives until.
pub record StoredEntry : Type 0 where
  pub entry : LedgerEntry
  pub live_until : Option ℕ

abbrev pub Store : Type 0
Store = List (LedgerKey × StoredEntry)

unfoldable pub find : LedgerKey → Store → Option StoredEntry
find j [] = none
find j ((k, e) ∷ m) = ite (LedgerKey-discrete k j) (some e) (find j m)

unfoldable pub insert : LedgerKey → StoredEntry → Store → Store
insert k e [] = (k, e) ∷ []
insert k e ((i, d) ∷ m) = ite (LedgerKey-discrete i k) ((k, e) ∷ m) ((i, d) ∷ insert k e m)

unfoldable pub remove : LedgerKey → Store → Store
remove k [] = []
remove k ((i, d) ∷ m) = ite (LedgerKey-discrete i k) (remove k m) ((i, d) ∷ remove k m)

pub find-insert :
    (k j : LedgerKey) (e : StoredEntry) (m : Store)
    → find j (insert k e m) ≡ ite (LedgerKey-discrete k j) (some e) (find j m)
unfolding find insert
find-insert k j e [] = refl
find-insert k j e ((i, d) ∷ m) = ground (arith, find-insert k j e m)

pub find-remove :
    (k j : LedgerKey) (m : Store)
    → find j (remove k m) ≡ ite (LedgerKey-discrete k j) none (find j m)
unfolding find remove
find-remove k j [] = ground arith
find-remove k j ((i, d) ∷ m) = ground (arith, find-remove k j m)

pub find-insert_ne :
    (k j : LedgerKey) (e : StoredEntry) (m : Store) → ¬ (k ≡ j) → find j (insert k e m) ≡ find j m
find-insert_ne k j e m h = ground (arith, find-insert k j e m)

-- ===== src/Ledger/Keyed.antt =====
-- The store's invariant: an entry stands under its own key.
use lite_soroban.Prelude.{
  ℕ, ◌≡◌, refl, Bool, true, false, List, [], ◌∷◌, All, Option, none, some, arith, Option-cases, inl,
  inr,
}
use lite_soroban.Xdr.{LedgerKey, LedgerEntry, key_of}
use lite_soroban.Ledger.{
  Ledger, Change, put_entry, u32_option, bump_ttl, write_change, apply_changes,
}
use lite_soroban.Ledger.Entries.{Store, StoredEntry, find, insert, remove, find-insert, find-remove}

pub record IsKeyed (m : Store) : Type 0 where
  pub at_key :
      (k : LedgerKey) (e : StoredEntry) → find k m ≡ some e → key_of e.entry.content ≡ some k

pub put_entry-IsKeyed :
    (l : Ledger) (e : LedgerEntry) (t : Option ℕ)
    → IsKeyed l.store
    → IsKeyed (put_entry l e t).store
unfolding put_entry
put_entry-IsKeyed l e t h = elim (Option-cases (key_of e.content)) [
  | inl bad ↦ rw (bad, put_entry) h
  | inr (k, good) ↦
      rw (good, put_entry)
        (record {
          at_key = λ j s p. ground (
            arith,
            find-insert k j (record { entry = e; live_until = u32_option t }) l.store,
            h.at_key j s,
          );
        })
]

insert-IsKeyed :
    (k : LedgerKey) (e : StoredEntry) (m : Store)
    → key_of e.entry.content ≡ some k
    → IsKeyed m
    → IsKeyed (insert k e m)
insert-IsKeyed k e m g h = record {
  at_key = λ j s p. ground (arith, find-insert k j e m, h.at_key j s);
}

pub remove-IsKeyed : (k : LedgerKey) (m : Store) → IsKeyed m → IsKeyed (remove k m)
remove-IsKeyed k m h = record { at_key = λ j s p. ground (arith, find-remove k j m, h.at_key j s) }

-- A change that writes an entry names the entry's own key.
abbrev pub KeyedChange : Change → Type 0
KeyedChange c = (e : LedgerEntry) → c.new_value ≡ some e → key_of e.content ≡ some c.key

bump_ttl-IsKeyed : (k : LedgerKey) (t : Option ℕ) (m : Store) → IsKeyed m → IsKeyed (bump_ttl k t m)
bump_ttl-IsKeyed k none m h = h
bump_ttl-IsKeyed k (some t) m h = elim (Option-cases (find k m)) [
  | inl e ↦ rw (e, bump_ttl) h
  | inr (s, e) ↦
      rw (e, bump_ttl) (insert-IsKeyed k (record s { live_until = some t }) m (h.at_key k s e) h)
]

write_change-IsKeyed :
    (v : Option LedgerEntry) (b : Bool) (k : LedgerKey) (t : Option ℕ) (m : Store)
    → ((e : LedgerEntry) → v ≡ some e → key_of e.content ≡ some k)
    → IsKeyed m
    → IsKeyed (write_change v b k t m)
write_change-IsKeyed (some e) b k t m g h =
    insert-IsKeyed k (record { entry = e; live_until = t }) m (g e refl) h
write_change-IsKeyed none true k t m g h = bump_ttl-IsKeyed k t m h
write_change-IsKeyed none false k t m g h = remove-IsKeyed k m h

pub apply_changes-IsKeyed :
    (cs : List Change) (m : Store) → All KeyedChange cs → IsKeyed m → IsKeyed (apply_changes cs m)
unfolding apply_changes
apply_changes-IsKeyed [] m g h = h
apply_changes-IsKeyed (c ∷ cs) m (g, gs) h =
    apply_changes-IsKeyed cs _ gs
      (write_change-IsKeyed c.new_value c.read_only c.key c.new_live_until m g h)

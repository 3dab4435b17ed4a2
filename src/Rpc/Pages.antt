-- ===== src/Rpc/Pages.antt =====
-- `getLedgers` and `getEvents` of src/fake-rpc.ts: what is on a page.
use lite_soroban.Prelude.{
  ℕ, zero, suc, ◌≤◌, ℤ, pos, ◌+ℤ◌, ◌-ℤ◌, ◌≤ℤ◌, ◌<ℤ◌, int_laws, pos_part, neg_part, ltb_ℤ, true,
  false, List, [], ◌∷◌, Option, ◌≡◌, refl, ap, ◌⊎◌, inl, inr, arith, length, ◌||◌,
}
use lite_soroban.Ledger.{Ledger}
use lite_soroban.Rpc.State.{
  LedgerInfo, LedgersPage, rpc_error, start_out_of_range, ledgers_page, last_closed,
}
use lite_soroban.Rpc.Reading.{get_ledgers, ledgers_from, count_of, start_of}

-- Ledgers one after the other from `start` on, and `last` is the number of the last one.
unfoldable pub Follow : ℤ → ℤ → List LedgerInfo → Type 0
Follow start last [] = start ≡ last +ℤ pos 1
Follow start last (i ∷ is) = (i.sequence ≡ start) × Follow (start +ℤ pos 1) last is

ledgers_from-Follow :
    (start : ℤ) (time n : ℕ) → Follow start ((start +ℤ pos n) -ℤ pos 1) (ledgers_from start time n)
unfolding ledgers_from Follow
ledgers_from-Follow start time zero = omega int_laws
ledgers_from-Follow start time (suc n) =
    let same : (start +ℤ pos 1) +ℤ pos n -ℤ pos 1 ≡ start +ℤ pos (suc n) -ℤ pos 1 =
      omega int_laws in
    (refl, rw same at (ledgers_from-Follow (start +ℤ pos 1) time n))

length-ledgers_from : (start : ℤ) (time n : ℕ) → length (ledgers_from start time n) ≡ n
unfolding ledgers_from
length-ledgers_from start time zero = refl
length-ledgers_from start time (suc n) = ap suc (length-ledgers_from (start +ℤ pos 1) time n)

-- What a page of ledgers promises.
pub record IsLedgersPage (from latest : ℤ) (p : LedgersPage) : Type 0 where
  pub follow : Follow from p.cursor p.ledgers
  pub closed : p.cursor ≤ℤ latest
  pub at_most : length p.ledgers ≤ 200
  pub latest_told : p.latest ≡ latest

parts_apart : (z : ℤ) → (pos_part z ≡ 0) ⊎ (neg_part z ≡ 0)
parts_apart (pos n) = inr refl
parts_apart (ℤ.negsuc n) = inl refl

page_end :
    (from latest : ℤ) (n : ℕ)
    → from ≤ℤ latest
    → n ≤ pos_part ((latest -ℤ from) +ℤ pos 1)
    → (from +ℤ pos n) -ℤ pos 1 ≤ℤ latest
page_end from latest n h k = elim (parts_apart ((latest -ℤ from) +ℤ pos 1)) [
  | inl z ↦ omega (int_laws, h, k, z)
  | inr z ↦ omega (int_laws, h, k, z)
]

in_range :
    (from latest : ℤ)
    → pos 1 ≤ℤ from
    → from ≤ℤ latest
    → (ltb_ℤ from (pos 1) || ltb_ℤ latest from) ≡ false
in_range from latest h k = ground arith

out_of_range :
    (from latest : ℤ)
    → (from <ℤ pos 1) ⊎ (latest <ℤ from)
    → (ltb_ℤ from (pos 1) || ltb_ℤ latest from) ≡ true
out_of_range from latest h = ground arith

-- A start between the first ledger and the last closed one is answered with the ledgers from it on,
-- one after the other, as many as asked for, at most 200 and none that has not closed; the cursor is
-- the number of the last one. Any other start is refused.
pub get_ledgers_lem :
    (l : Ledger) (start : Option ℤ) (limit : Option ℕ)
    → let latest = last_closed l in
      let from = start_of start latest in
      (pos 1 ≤ℤ from
        → from ≤ℤ latest
        → (p : LedgersPage) × (get_ledgers l start limit ≡ ledgers_page p)
          × IsLedgersPage from latest p
          × (length p.ledgers ≡ count_of limit from latest))
      × ((from <ℤ pos 1) ⊎ (latest <ℤ from)
          → get_ledgers l start limit ≡ rpc_error (start_out_of_range from latest))
unfolding get_ledgers
get_ledgers_lem l start limit =
    let latest = last_closed l in
    let from = start_of start latest in
    let n = count_of limit from latest in
    (
      (λ h k. (
        record {
          ledgers = ledgers_from from l.timestamp n;
          latest = latest;
          cursor = (from +ℤ pos n) -ℤ pos 1;
        },
        rw (in_range from latest h k) refl,
        record {
          follow = ledgers_from-Follow from l.timestamp n;
          closed = page_end from latest n k (omega arith);
          at_most = rw (length-ledgers_from from l.timestamp n) (omega arith);
          latest_told = refl;
        },
        length-ledgers_from from l.timestamp n,
      )),
      (λ h. rw (out_of_range from latest h) refl),
    )

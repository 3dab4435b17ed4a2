-- ===== src/Auth/Ordered.antt =====
-- The map of `signatureProofs` of src/auth.ts is in ascending order, as the host requires of it.
use mathlib.Core.List.Perm
use mathlib.Core.List.{Perm}
use lite_soroban.Prelude.{
  ◌≡◌, refl, true, false, List, [], ◌∷◌, All, All-map, arith, Bool-cases, inl, inr,
}
use lite_soroban.Xdr.{Bytes, ScVal, sc_vec, sc_map, val, no_vals}
use lite_soroban.Sdk.{Sdk}
use lite_soroban.Auth.{signature_proofs, to_map}
use lite_soroban.Auth.Sorting.{bytes_leb, insert_by_key, sort_by_key}

bytes_leb_total : (xs ys : Bytes) → bytes_leb xs ys ≡ false → bytes_leb ys xs ≡ true
unfolding bytes_leb
bytes_leb_total [] ys h = cc
bytes_leb_total (x ∷ xs) [] h = refl
bytes_leb_total (x ∷ xs) (y ∷ ys) h = ground (arith, bytes_leb_total xs ys)

bytes_leb_trans :
    (xs ys zs : Bytes) → bytes_leb xs ys ≡ true → bytes_leb ys zs ≡ true → bytes_leb xs zs ≡ true
unfolding bytes_leb
bytes_leb_trans [] ys zs h k = refl
bytes_leb_trans (x ∷ xs) [] zs h k = cc
bytes_leb_trans (x ∷ xs) (y ∷ ys) [] h k = cc
bytes_leb_trans (x ∷ xs) (y ∷ ys) (z ∷ zs) h k = ground (arith, bytes_leb_trans xs ys zs)

bytes_leb_antisym : (xs ys : Bytes) → bytes_leb xs ys ≡ true → bytes_leb ys xs ≡ true → xs ≡ ys
unfolding bytes_leb
bytes_leb_antisym [] [] h k = refl
bytes_leb_antisym [] (y ∷ ys) h k = cc
bytes_leb_antisym (x ∷ xs) [] h k = cc
bytes_leb_antisym (x ∷ xs) (y ∷ ys) h k = ground (arith, bytes_leb_antisym xs ys)

module _ (encode : ScVal → Bytes) where
  abbrev Before : ScVal × ScVal → ScVal × ScVal → Type 0
  Before d e = bytes_leb (encode d.0) (encode e.0) ≡ true

  -- Each entry is not after any of those that follow it.
  unfoldable pub IsSorted : List (ScVal × ScVal) → Type 0
  IsSorted [] = Unit
  IsSorted (e ∷ es) = All (Before e) es × IsSorted es

  All-insert :
      (P : ScVal × ScVal → Type 0) (e : ScVal × ScVal) (es : List (ScVal × ScVal))
      → P e
      → All P es
      → All P (insert_by_key encode e es)
  unfolding insert_by_key
  All-insert P e [] p h = (p, tt)
  All-insert P e (d ∷ es) p (q, h) = elim (Bool-cases (bytes_leb (encode e.0) (encode d.0))) [
    | inl b ↦ rw b (p, (q, h))
    | inr b ↦ rw b (q, All-insert P e es p h)
  ]

  insert-IsSorted :
      (e : ScVal × ScVal) (es : List (ScVal × ScVal))
      → IsSorted es
      → IsSorted (insert_by_key encode e es)
  unfolding insert_by_key IsSorted
  insert-IsSorted e [] h = (tt, tt)
  insert-IsSorted e (d ∷ es) (q, h) = elim (Bool-cases (bytes_leb (encode e.0) (encode d.0))) [
    | inl b ↦ rw b (
      (
        b,
        All-map (Before d) (Before e) es
            (λ c k. bytes_leb_trans (encode e.0) (encode d.0) (encode c.0) b k) q,
      ),
      (q, h),
    )
    | inr b ↦ rw b (
      All-insert (Before d) e es (bytes_leb_total (encode e.0) (encode d.0) b) q,
      insert-IsSorted e es h,
    )
  ]

  sort-IsSorted : (es : List (ScVal × ScVal)) → IsSorted (sort_by_key encode es)
  unfolding sort_by_key IsSorted
  sort-IsSorted [] = tt
  sort-IsSorted (e ∷ es) = insert-IsSorted e (sort_by_key encode es) (sort-IsSorted es)

  insert-Perm :
      (e : ScVal × ScVal) (es : List (ScVal × ScVal)) → Perm (insert_by_key encode e es) (e ∷ es)
  unfolding insert_by_key
  insert-Perm e [] = Perm.refl (e ∷ [])
  insert-Perm e (d ∷ es) = elim (Bool-cases (bytes_leb (encode e.0) (encode d.0))) [
    | inl b ↦ rw b (Perm.refl (e ∷ d ∷ es))
    | inr b ↦ rw b (Perm.trans (Perm.cons d (insert-Perm e es)) (Perm.swap e d es))
  ]

  sort-Perm : (es : List (ScVal × ScVal)) → Perm (sort_by_key encode es) es
  unfolding sort_by_key
  sort-Perm [] = Perm.refl []
  sort-Perm (e ∷ es) =
      Perm.trans (insert-Perm e (sort_by_key encode es)) (Perm.cons e (sort-Perm es))

-- Whatever the order of the signers: the proofs are a tuple of one map, whose entries are those
-- given, each as often as given, in the ascending order of their encoded keys.
pub signature_proofs_lem :
    (sdk : Sdk) (es : List (ScVal × ScVal))
    → (sorted : List (ScVal × ScVal)) × (signature_proofs sdk es
        ≡ sc_vec (val (sc_map (to_map sorted)) no_vals))
      × IsSorted sdk.encode_value sorted
      × Perm sorted es
unfolding signature_proofs
signature_proofs_lem sdk es = (
  sort_by_key sdk.encode_value es,
  refl,
  sort-IsSorted sdk.encode_value es,
  sort-Perm sdk.encode_value es,
)

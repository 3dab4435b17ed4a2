-- ===== src/Auth/Sorting.antt =====
-- The sort of `signatureProofs` of src/auth.ts: `Array.sort`, which is stable, by `Buffer.compare` of
-- the encoded keys.
use lite_soroban.Prelude.{ℕ, Bool, true, false, List, [], ◌∷◌, ◌||◌, ◌&&◌, if◌then◌else◌, ltb, ◌==◌}

-- `Buffer.compare(a, b) <= 0`
unfoldable pub bytes_leb : List ℕ → List ℕ → Bool
bytes_leb [] ys = true
bytes_leb (x ∷ xs) [] = false
bytes_leb (x ∷ xs) (y ∷ ys) = ltb x y || (x == y && bytes_leb xs ys)

module _ {ℓ} {A B : Type ℓ} (encode : A → List ℕ) where
  -- Before the first entry that is not less: entries of equal keys keep their order.
  unfoldable pub insert_by_key : A × B → List (A × B) → List (A × B)
  unfolding bytes_leb
  insert_by_key e [] = e ∷ []
  insert_by_key e (d ∷ es) =
      if bytes_leb (encode e.0) (encode d.0) then e ∷ d ∷ es else d ∷ insert_by_key e es

  unfoldable pub sort_by_key : List (A × B) → List (A × B)
  unfolding insert_by_key
  sort_by_key [] = []
  sort_by_key (e ∷ es) = insert_by_key e (sort_by_key es)

-- ===== src/Facade/Salts.antt =====
-- The salts of src/litestellar.ts: contract ids derive from them.
use lite_soroban.Prelude.{ℕ, ◌<◌, ◌/◌, ◌%◌, [], ◌∷◌, ◌++◌, replicate, some, ◌≡◌, arith, true, ltb}
use lite_soroban.Facade.{LiteStellar, salt_bytes, next_salt}

four_bytes :
    (a b c d a' b' c' d' : ℕ)
    → (replicate 28 0 ++ a ∷ b ∷ c ∷ d ∷ []) ≡ (replicate 28 0 ++ a' ∷ b' ∷ c' ∷ d' ∷ [])
    → (a ≡ a') × (b ≡ b') × (c ≡ c') × (d ≡ d')
four_bytes a b c d a' b' c' d' h = ground arith

same_number :
    (m n : ℕ)
    → m < 4294967296
    → n < 4294967296
    → m / 16777216 % 256 ≡ n / 16777216 % 256
    → m / 65536 % 256 ≡ n / 65536 % 256
    → m / 256 % 256 ≡ n / 256 % 256
    → m % 256 ≡ n % 256
    → m ≡ n
same_number m n h k a b c d = omega arith

salt_bytes_inj : (m n : ℕ) → m < 4294967296 → n < 4294967296 → salt_bytes m ≡ salt_bytes n → m ≡ n
salt_bytes_inj m n h k e =
    let (a, b, c, d) = four_bytes _ _ _ _ _ _ _ _ e in same_number m n h k a b c d

some_inj {ℓ} : {A : Type ℓ} {a b : A} → some a ≡ some b → a ≡ b
some_inj e = cc

in_range : (n : ℕ) → n < 4294967296 → ltb n 4294967296 ≡ true
in_range n h = ground arith

-- Salts that are taken at different counters, each below 2 ^ 32, are different.
pub next_salt_fresh :
    (s t : LiteStellar)
    → s.salt_counter < 4294967296
    → t.salt_counter < 4294967296
    → ¬ (s.salt_counter ≡ t.salt_counter)
    → ¬ ((next_salt s).0 ≡ (next_salt t).0)
unfolding next_salt
next_salt_fresh s t h k n e = n (
    salt_bytes_inj s.salt_counter t.salt_counter h k
      (some_inj (rw (in_range s.salt_counter h, in_range t.salt_counter k) at e)))

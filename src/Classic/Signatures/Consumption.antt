-- ===== src/Classic/Signatures/Consumption.antt =====
-- What a check of signatures does to `used`: it only ever marks signatures that verify for one of
-- its signers, and forgets no mark.
use lite_soroban.Prelude.{
  ℕ, ◌+◌, ◌≡◌, refl, ◌⊎◌, inl, inr, Bool, true, List, [], ◌∷◌, some, All, arith, Bool-cases,
  Option-cases, leb, any,
}
use lite_soroban.Xdr.{Bytes, SignerKey, WeightedSigner, DecoratedSignature}
use lite_soroban.Sdk.{Sdk}
use lite_soroban.Classic.Signatures.{
  Mark, SignatureChecker, Scan, weight_of, take_first, verifies, scan_pre_auth, of_type,
  is_pre_auth_tx, is_hash_x, is_ed25519, is_signed_payload, then_verify, verify_all,
  check_signature,
}

-- The same signatures in the same order; a mark stays, and a new one has `V`.
abbrev pub Evolves : (DecoratedSignature → Type 0) → List Mark → List Mark → Type 0
Evolves V [] [] = Unit {0}
Evolves V [] (n ∷ ns) = ⊥
Evolves V (m ∷ ms) [] = ⊥
Evolves V (m ∷ ms) (n ∷ ns) =
    ((n.signature ≡ m.signature)
      × (m.used ≡ true → n.used ≡ true)
      × (n.used ≡ true → (m.used ≡ true) ⊎ V m.signature))
    × Evolves V ms ns

module _ (V : DecoratedSignature → Type 0) where
  pub Evolves-refl : (ms : List Mark) → Evolves V ms ms
  Evolves-refl [] = tt
  Evolves-refl (m ∷ ms) = ((refl, (λ h. h), λ h. inl h), Evolves-refl ms)

  weaken :
      (m n o : Mark)
      → n.signature ≡ m.signature
      → (n.used ≡ true → (m.used ≡ true) ⊎ V m.signature)
      → (o.used ≡ true → (n.used ≡ true) ⊎ V n.signature)
      → o.used ≡ true
      → (m.used ≡ true) ⊎ V m.signature
  weaken m n o e f g h = go (g h)
    where
      go : (n.used ≡ true) ⊎ V n.signature → (m.used ≡ true) ⊎ V m.signature
      go (inl u) = f u
      go (inr v) = inr (rw e at v)

  pub Evolves-trans : (ms ns os : List Mark) → Evolves V ms ns → Evolves V ns os → Evolves V ms os
  Evolves-trans [] [] [] h k = tt
  Evolves-trans [] [] (o ∷ os) h k = elim k [ ]
  Evolves-trans [] (n ∷ ns) os h k = elim h [ ]
  Evolves-trans (m ∷ ms) [] os h k = elim h [ ]
  Evolves-trans (m ∷ ms) (n ∷ ns) [] h k = elim k [ ]
  Evolves-trans (m ∷ ms) (n ∷ ns) (o ∷ os) ((e, f, g), h) ((e', f', g'), k) =
      ((cc, (λ u. f' (f u)), weaken m n o e g g'), Evolves-trans ms ns os h k)

pub Evolves-weaken :
    (V W : DecoratedSignature → Type 0) (ms ns : List Mark)
    → ((g : DecoratedSignature) → V g → W g)
    → Evolves V ms ns
    → Evolves W ms ns
Evolves-weaken V W [] [] f h = tt
Evolves-weaken V W [] (n ∷ ns) f h = h
Evolves-weaken V W (m ∷ ms) [] f h = h
Evolves-weaken V W (m ∷ ms) (n ∷ ns) f ((e, u, g), h) =
    ((e, u, λ x. go (g x)), Evolves-weaken V W ms ns f h)
  where
    go : (m.used ≡ true) ⊎ V m.signature → (m.used ≡ true) ⊎ W m.signature
    go (inl x) = inl x
    go (inr v) = inr (f m.signature v)

take_first-All :
    (P : WeightedSigner → Type 0) (p : WeightedSigner → Bool) (xs : List WeightedSigner)
    (y : WeightedSigner) (rest : List WeightedSigner)
    → All P xs
    → take_first p xs ≡ some (y, rest)
    → (p y ≡ true) × P y × All P rest
unfolding take_first
take_first-All P p [] y rest h e = cc
take_first-All P p (x ∷ xs) y rest (here, later) e = elim (Bool-cases (p x)) [
  | inl hit ↦
      let e' : some (x, xs) ≡ some (y, rest) = rw hit at e in
      let ex : x ≡ y = cc in
      let er : xs ≡ rest = cc in (rw (← ex) hit, rw (← ex) here, rw (← er) later)
  | inr miss ↦ elim (Option-cases (take_first p xs)) [
    | inl none_left ↦ absurd (ground arith)
    | inr ((z, others), found) ↦
        let (passes, has, rest_has) = take_first-All P p xs z others later found in
        let ez : z ≡ y = ground arith in
        let er : x ∷ others ≡ rest = ground arith in
        (rw (← ez) passes, rw (← ez) has, rw (← er) (here, rest_has))
  ]
]

module _ (V : DecoratedSignature → Type 0) (verify : DecoratedSignature → WeightedSigner → Bool)
    (needed : ℕ) where
  -- A signature that verifies for one of the candidates has `V`.
  abbrev Vouches : List WeightedSigner → Type 0
  Vouches = All (λ s. (g : DecoratedSignature) → verify g s ≡ true → V g)

  verify_all-Evolves :
      (candidates : List WeightedSigner) (ms : List Mark) (start : ℕ)
      → Vouches candidates
      → Evolves V ms (verify_all verify needed candidates ms start).marks
  unfolding verify_all
  verify_all-Evolves candidates [] start h = tt
  verify_all-Evolves candidates (m ∷ ms) start h =
      elim (Option-cases (take_first (verify m.signature) candidates)) [
        | inl e ↦
            rw (e, verify_all)
              ((refl, (λ u. u), λ u. inl u), verify_all-Evolves candidates ms start h)
        | inr ((s, left), e) ↦
            let (passes, has, left_has) =
              take_first-All (λ s. (g : DecoratedSignature) → verify g s ≡ true → V g)
                (verify m.signature) candidates s left h e in
            elim (Bool-cases (leb needed (start + weight_of s))) [
              | inl done ↦
                  rw (e, verify_all, done)
                    ((refl, (λ u. refl), λ u. inr (has m.signature passes)), Evolves-refl V ms)
              | inr more ↦
                  rw (e, verify_all, more)
                    (
                      (refl, (λ u. refl), λ u. inr (has m.signature passes)),
                      verify_all-Evolves left ms (start + weight_of s) left_has,
                    )
            ]
      ]

  then_verify-Evolves :
      (candidates : List WeightedSigner) (r : Scan)
      → Vouches candidates
      → Evolves V r.marks (then_verify verify needed candidates r).marks
  then_verify-Evolves candidates r h = elim (Bool-cases r.reached) [
    | inl e ↦ rw e (Evolves-refl V r.marks)
    | inr e ↦ rw e (verify_all-Evolves candidates r.marks r.total h)
  ]

  Vouches-of_type :
      (is : SignerKey → Bool) (ss : List WeightedSigner) → Vouches ss → Vouches (of_type is ss)
  Vouches-of_type is [] h = tt
  Vouches-of_type is (s ∷ ss) (here, later) = elim (Bool-cases (is s.key)) [
    | inl e ↦ rw e (here, Vouches-of_type is ss later)
    | inr e ↦ rw e (Vouches-of_type is ss later)
  ]

-- The signature verifies for one of the signers.
abbrev pub VerifiesFor : Sdk → Bytes → List WeightedSigner → DecoratedSignature → Type 0
VerifiesFor sdk hash signers g = any (λ s. verifies sdk hash g s.key) signers ≡ true

vouches :
    (sdk : Sdk) (hash : Bytes) (needed : ℕ) (V : DecoratedSignature → Type 0)
    (ss : List WeightedSigner)
    → ((g : DecoratedSignature) → VerifiesFor sdk hash ss g → V g)
    → Vouches V (λ g s. verifies sdk hash g s.key) needed ss
vouches sdk hash needed V [] h = tt
vouches sdk hash needed V (s ∷ ss) h =
    (λ g e. h g (ground arith), vouches sdk hash needed V ss (λ g e. h g (ground arith)))

-- A check, successful or not, keeps the envelope's signatures and the contents hash, unmarks no
-- signature, and marks only signatures that verify for one of its signers.
pub check_signature-Evolves :
    (sdk : Sdk) (c : SignatureChecker) (signers : List WeightedSigner) (needed : ℕ)
    → let c' = (check_signature sdk c signers needed).1 in
      Evolves (VerifiesFor sdk c.contents_hash signers) c.marks c'.marks
      × (c'.contents_hash ≡ c.contents_hash)
unfolding check_signature
check_signature-Evolves sdk c signers needed =
    let hash = c.contents_hash in
    let V = VerifiesFor sdk hash signers in
    let verify = λ (g : DecoratedSignature) (s : WeightedSigner). verifies sdk hash g s.key in
    let all_vouch = vouches sdk hash needed V signers (λ g h. h) in
    let pass = λ (is : SignerKey → Bool) (r : Scan).
      then_verify-Evolves V verify needed (of_type is signers) r
        (Vouches-of_type V verify needed is signers all_vouch) in
    let (found, total) = scan_pre_auth sdk hash needed (of_type is_pre_auth_tx signers) 0 in
    let r : Scan = record { reached = found; total = total; marks = c.marks } in
    let r' = then_verify verify needed (of_type is_hash_x signers) r in
    let r'' = then_verify verify needed (of_type is_ed25519 signers) r' in
    (
      Evolves-trans V c.marks r''.marks _
          (Evolves-trans V c.marks r'.marks r''.marks (pass is_hash_x r) (pass is_ed25519 r'))
          (pass is_signed_payload r''),
      refl,
    )

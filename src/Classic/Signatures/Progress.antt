-- ===== src/Classic/Signatures/Progress.antt =====
-- One pass of a check of signatures: the signers that it has counted, each at most once, each
-- authorised, and the weight that they give.
use mathlib.Core.List.{Perm, perm_middle, append_assoc, perm_append_comm}
use mathlib.Core.List.Perm
use lite_soroban.Prelude.{
  ℕ, ◌+◌, ◌≤◌, ◌≡◌, ◌≢◌, inl, inr, Bool, true, false, List, [], ◌∷◌, ◌++◌, some, All, arith,
  Bool-cases, Option-cases, leb,
}
use lite_soroban.Xdr.{Bytes, WeightedSigner, DecoratedSignature}
use lite_soroban.Sdk.{Sdk}
use lite_soroban.Classic.Signatures.{
  Mark, weight_of, take_first, verify_all, pre_authorises, scan_pre_auth,
}

abbrev pub weight_sum : List WeightedSigner → ℕ
weight_sum [] = 0
weight_sum (s ∷ ss) = weight_of s + weight_sum ss

pub weight_sum-append :
    (xs ys : List WeightedSigner) → weight_sum (xs ++ ys) ≡ weight_sum xs + weight_sum ys
weight_sum-append [] ys = omega arith
weight_sum-append (x ∷ xs) ys = omega (arith, weight_sum-append xs ys)

take_first_lem {ℓ} :
    {A : Type ℓ} (p : A → Bool) (xs : List A) (y : A) (rest : List A)
    → take_first p xs ≡ some (y, rest)
    → (p y ≡ true) × Perm (y ∷ rest) xs
unfolding take_first
take_first_lem p [] y rest e = cc
take_first_lem p (x ∷ xs) y rest e = elim (Bool-cases (p x)) [
  | inl hit ↦
      let e' : some (x, xs) ≡ some (y, rest) = rw hit at e in
      let ex : x ≡ y = cc in let er : xs ≡ rest = cc in (rw (← ex) hit, rw (ex, er) (Perm.refl _))
  | inr miss ↦ elim (Option-cases (take_first p xs)) [
    | inl none_left ↦ absurd (ground arith)
    | inr ((z, others), found) ↦
        let (passes, perm) = take_first_lem p xs z others found in
        let ez : z ≡ y = ground arith in
        let er : x ∷ others ≡ rest = ground arith in
        (rw (← ez) passes, rw (← ez, ← er) (Perm.trans (Perm.swap x z others) (Perm.cons x perm)))
  ]
]

-- What a pass has found among `candidates`: `chosen` signers, each with `P`, no candidate twice,
-- whose weights it has added.
pub record Progress (P : WeightedSigner → Type 0) (needed start : ℕ)
    (candidates : List WeightedSigner) (reached : Bool) (total : ℕ) : Type 0 where
  pub chosen : List WeightedSigner
  pub others : List WeightedSigner
  pub perm : Perm (chosen ++ others) candidates
  pub each : All P chosen
  pub sum : total ≡ start + weight_sum chosen
  pub enough : reached ≡ true → (needed ≤ total) × (chosen ≢ [])

module _ (P : WeightedSigner → Type 0) (needed : ℕ) where
  Progress-none :
      (start : ℕ) (candidates : List WeightedSigner)
      → Progress P needed start candidates false start
  Progress-none start candidates = record {
    chosen = [];
    others = candidates;
    perm = Perm.refl candidates;
    each = tt;
    sum = omega arith;
    enough = λ h. cc;
  }

  -- One more signer is chosen, and the pass goes on over the others or stops.
  Progress-cons :
      (start : ℕ) (s : WeightedSigner) (left candidates : List WeightedSigner) (reached : Bool)
      (total : ℕ)
      → P s
      → Perm (s ∷ left) candidates
      → (p : Progress P needed (start + weight_of s) left reached total)
      → (reached ≡ true → needed ≤ total)
      → Progress P needed start candidates reached total
  Progress-cons start s left candidates reached total h perm p enough = record {
    chosen = s ∷ p.chosen;
    others = p.others;
    perm = Perm.trans (Perm.cons s p.perm) perm;
    each = (h, p.each);
    sum = omega (arith, p.sum);
    enough = λ e. (enough e, cc);
  }

  -- The last one chosen reaches the weight.
  Progress-stop :
      (start : ℕ) (s : WeightedSigner) (left candidates : List WeightedSigner)
      → P s
      → Perm (s ∷ left) candidates
      → needed ≤ start + weight_of s
      → Progress P needed start candidates true (start + weight_of s)
  Progress-stop start s left candidates h perm enough = record {
    chosen = s ∷ [];
    others = left;
    perm = perm;
    each = (h, tt);
    sum = omega arith;
    enough = λ e. (enough, cc);
  }

  -- The signatures among the marks verify only for signers with `P`.
  abbrev pub Sound : (DecoratedSignature → WeightedSigner → Bool) → List Mark → Type 0
  Sound verify = All (λ m. (s : WeightedSigner) → verify m.signature s ≡ true → P s)

  pub verify_all-Progress :
      (verify : DecoratedSignature → WeightedSigner → Bool) (candidates : List WeightedSigner)
      (ms : List Mark) (start : ℕ)
      → Sound verify ms
      → let r = verify_all verify needed candidates ms start in
        Progress P needed start candidates r.reached r.total
  unfolding verify_all
  verify_all-Progress verify candidates [] start sound = Progress-none start candidates
  verify_all-Progress verify candidates (m ∷ ms) start (here, later) =
      elim (Option-cases (take_first (verify m.signature) candidates)) [
        | inl e ↦ rw (e, verify_all) (verify_all-Progress verify candidates ms start later)
        | inr ((s, left), e) ↦
            let (passes, perm) = take_first_lem (verify m.signature) candidates s left e in
            elim (Bool-cases (leb needed (start + weight_of s))) [
              | inl done ↦
                  rw (e, verify_all, done)
                    (Progress-stop start s left candidates (here s passes) perm (ground arith))
              | inr more ↦
                  let p = verify_all-Progress verify left ms (start + weight_of s) later in
                  rw (e, verify_all, more)
                    (Progress-cons start s left candidates _ _ (here s passes) perm p
                      (λ h. (p.enough h).0))
            ]
      ]

  pub verify_all-Sound :
      (verify : DecoratedSignature → WeightedSigner → Bool) (candidates : List WeightedSigner)
      (ms : List Mark) (start : ℕ)
      → Sound verify ms
      → Sound verify (verify_all verify needed candidates ms start).marks
  unfolding verify_all
  verify_all-Sound verify candidates [] start sound = tt
  verify_all-Sound verify candidates (m ∷ ms) start (here, later) =
      elim (Option-cases (take_first (verify m.signature) candidates)) [
        | inl e ↦ rw (e, verify_all) (here, verify_all-Sound verify candidates ms start later)
        | inr ((s, left), e) ↦ elim (Bool-cases (leb needed (start + weight_of s))) [
          | inl done ↦ rw (e, verify_all, done) (here, later)
          | inr more ↦
              rw (e, verify_all, more)
                (here, verify_all-Sound verify left ms (start + weight_of s) later)
        ]
      ]

  pub scan_pre_auth-Progress :
      (sdk : Sdk) (hash : Bytes) (ss : List WeightedSigner) (start : ℕ)
      → ((s : WeightedSigner) → pre_authorises sdk hash s.key ≡ true → P s)
      → let r = scan_pre_auth sdk hash needed ss start in Progress P needed start ss r.0 r.1
  unfolding scan_pre_auth
  scan_pre_auth-Progress sdk hash [] start sound = Progress-none start []
  scan_pre_auth-Progress sdk hash (s ∷ ss) start sound =
      elim (Bool-cases (pre_authorises sdk hash s.key)) [
        | inl hit ↦ elim (Bool-cases (leb needed (start + weight_of s))) [
          | inl done ↦
              rw (hit, done)
                (Progress-stop start s ss (s ∷ ss) (sound s hit) (Perm.refl _) (ground arith))
          | inr more ↦
              let p = scan_pre_auth-Progress sdk hash ss (start + weight_of s) sound in
              rw (hit, more)
                (Progress-cons start s ss (s ∷ ss) _ _ (sound s hit) (Perm.refl _) p
                  (λ h. (p.enough h).0))
        ]
        | inr miss ↦
            let p = scan_pre_auth-Progress sdk hash ss start sound in
            rw miss (record {
              chosen = p.chosen;
              others = s ∷ p.others;
              perm = Perm.trans (perm_middle p.chosen p.others) (Perm.cons s p.perm);
              each = p.each;
              sum = p.sum;
              enough = p.enough;
            })
      ]

pub interleave :
    {A : Type 0} (c d o q : List A) → Perm ((c ++ d) ++ (o ++ q)) ((c ++ o) ++ (d ++ q))
interleave c d o q =
    rw (append_assoc, append_assoc)
      (Perm.append_left c
        (rw (← append_assoc, ← append_assoc) (Perm.append_right q (perm_append_comm d o))))

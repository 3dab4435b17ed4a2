-- ===== src/Classic/Signatures/Matching.antt =====
-- What a check of signatures that succeeds has found, `SignatureChecker.checkSignature` of
-- src/classic.ts against a statement that does not mention its loops.
use mathlib.Core.List.{Perm, perm_middle, append_assoc}
use mathlib.Core.List.Perm
use lite_soroban.Prelude.{
  ℕ, ◌≤◌, ◌≡◌, ◌≢◌, refl, ◌⊎◌, inl, inr, Bool, true, false, List, [], ◌∷◌, ◌++◌, All, arith,
  Bool-cases, any,
}
use lite_soroban.Xdr.{
  SignerKey, key_ed25519, pre_auth_tx, hash_x, signed_payload, WeightedSigner, DecoratedSignature,
}
use lite_soroban.Sdk.{Sdk}
use lite_soroban.Classic.Signatures.{
  Mark, SignatureChecker, Scan, verifies, pre_authorises, of_type, is_pre_auth_tx, is_hash_x,
  is_ed25519, is_signed_payload, then_verify, check_signature,
}
use lite_soroban.Classic.Signatures.Progress.{
  weight_sum, weight_sum-append, Progress, Sound, verify_all-Progress, verify_all-Sound,
  scan_pre_auth-Progress, interleave,
}

-- The signer's key is authorised by the contents hash, or one of the signatures verifies for it.
abbrev pub Authorised : Sdk → SignatureChecker → WeightedSigner → Type 0
Authorised sdk c s =
    (pre_authorises sdk c.contents_hash s.key ≡ true)
    ⊎ (any (λ m. verifies sdk c.contents_hash m.signature s.key) c.marks ≡ true)

-- Some of the signers, none counted twice, are authorised and together have the weight.
pub record IsSigned (sdk : Sdk) (c : SignatureChecker) (signers : List WeightedSigner) (needed : ℕ)
    : Type 0 where
  pub chosen : List WeightedSigner
  pub others : List WeightedSigner
  pub perm : Perm (chosen ++ others) signers
  pub each : All (Authorised sdk c) chosen
  pub enough : needed ≤ weight_sum chosen
  pub some_chosen : chosen ≢ []

All-append :
    (P : WeightedSigner → Type 0) (xs ys : List WeightedSigner)
    → All P xs
    → All P ys
    → All P (xs ++ ys)
All-append P [] ys h k = k
All-append P (x ∷ xs) ys (p, h) k = (p, All-append P xs ys h k)

append-ne-nil : (xs ys : List WeightedSigner) → xs ≢ [] → xs ++ ys ≢ []
append-ne-nil [] ys h = absurd (h refl)
append-ne-nil (x ∷ xs) ys h = cc

append-ne-nil_right : (xs ys : List WeightedSigner) → ys ≢ [] → xs ++ ys ≢ []
append-ne-nil_right [] ys h = h
append-ne-nil_right (x ∷ xs) ys h = cc

module _ (P : WeightedSigner → Type 0) (needed : ℕ) where
  -- A pass over more candidates that was not made leaves them unchosen.
  Progress-skip :
      (start total : ℕ) (xs ys : List WeightedSigner)
      → Progress P needed start xs true total
      → Progress P needed start (xs ++ ys) true total
  Progress-skip start total xs ys p = record {
    chosen = p.chosen;
    others = p.others ++ ys;
    perm = rw (← append_assoc) (Perm.append_right ys p.perm);
    each = p.each;
    sum = p.sum;
    enough = p.enough;
  }

  Progress-append :
      (start mid total : ℕ) (xs ys : List WeightedSigner) (reached : Bool)
      → Progress P needed start xs false mid
      → Progress P needed mid ys reached total
      → Progress P needed start (xs ++ ys) reached total
  Progress-append start mid total xs ys reached p q = record {
    chosen = p.chosen ++ q.chosen;
    others = p.others ++ q.others;
    perm = Perm.trans (interleave p.chosen q.chosen p.others q.others) (Perm.append p.perm q.perm);
    each = All-append P p.chosen q.chosen p.each q.each;
    sum = omega (arith, p.sum, q.sum, weight_sum-append p.chosen q.chosen);
    enough = λ e. ((q.enough e).0, append-ne-nil_right p.chosen q.chosen (q.enough e).1);
  }

  then_verify-Progress :
      (verify : DecoratedSignature → WeightedSigner → Bool) (xs ys : List WeightedSigner)
      (start : ℕ) (r : Scan)
      → Sound P needed verify r.marks
      → Progress P needed start xs r.reached r.total
      → let r' = then_verify verify needed ys r in
        Progress P needed start (xs ++ ys) r'.reached r'.total × Sound P needed verify r'.marks
  then_verify-Progress verify xs ys start r sound p = elim (Bool-cases r.reached) [
    | inl e ↦ rw e (Progress-skip start r.total xs ys (rw e at p), sound)
    | inr e ↦ rw e (
      Progress-append start r.total _ xs ys _ (rw e at p)
          (verify_all-Progress P needed verify ys r.marks r.total sound),
      verify_all-Sound P needed verify ys r.marks r.total sound,
    )
  ]

abbrev Passes : List WeightedSigner → Type 0
Passes ss =
    Perm
      (((of_type is_pre_auth_tx ss ++ of_type is_hash_x ss) ++ of_type is_ed25519 ss)
        ++ of_type is_signed_payload ss)
      ss

Passes-cons :
    (k : SignerKey) (w : ℕ) (ss : List WeightedSigner)
    → Passes ss
    → Passes (record { key = k; weight = w } ∷ ss)
Passes-cons (pre_auth_tx h) w ss p = Perm.cons _ p
Passes-cons (hash_x h) w ss p =
    Perm.trans
      (Perm.append_right _ (Perm.append_right _ (perm_middle (of_type is_pre_auth_tx ss) _)))
      (Perm.cons _ p)
Passes-cons (key_ed25519 h) w ss p =
    Perm.trans (Perm.append_right _ (perm_middle _ (of_type is_ed25519 ss))) (Perm.cons _ p)
Passes-cons (signed_payload h q) w ss p =
    Perm.trans (perm_middle _ (of_type is_signed_payload ss)) (Perm.cons _ p)

-- The four passes try every signer once.
partition : (ss : List WeightedSigner) → Passes ss
partition [] = Perm.refl []
partition (s ∷ ss) = Passes-cons s.key s.weight ss (partition ss)

-- A signature of the envelope that verifies authorises the signer.
Sound-Authorised :
    (sdk : Sdk) (c : SignatureChecker) (needed : ℕ) (ms : List Mark)
    → ((s : WeightedSigner)
        → any (λ m. verifies sdk c.contents_hash m.signature s.key) ms ≡ true
        → Authorised sdk c s)
    → Sound (Authorised sdk c) needed (λ g s. verifies sdk c.contents_hash g s.key) ms
Sound-Authorised sdk c needed [] h = tt
Sound-Authorised sdk c needed (m ∷ ms) h =
    (λ s e. h s (ground arith), Sound-Authorised sdk c needed ms (λ s e. h s (ground arith)))

check_signature-Progress :
    (sdk : Sdk) (c : SignatureChecker) (signers : List WeightedSigner) (needed : ℕ)
    → (total : ℕ) × Progress
        (Authorised sdk c)
        needed
        0
        (((of_type is_pre_auth_tx signers ++ of_type is_hash_x signers)
            ++ of_type is_ed25519 signers)
          ++ of_type is_signed_payload signers)
        (check_signature sdk c signers needed).0
        total
unfolding check_signature
check_signature-Progress sdk c signers needed =
    let P = Authorised sdk c in
    let verify =
      λ (g : DecoratedSignature) (w : WeightedSigner). verifies sdk c.contents_hash g w.key in
    let first =
      scan_pre_auth-Progress P needed sdk c.contents_hash (of_type is_pre_auth_tx signers) 0
        (λ s e. inl e) in
    let sound = Sound-Authorised sdk c needed c.marks (λ s e. inr e) in
    let (p, s) =
      then_verify-Progress P needed verify _ (of_type is_hash_x signers) 0
        (record { reached = _; total = _; marks = c.marks }) sound first in
    let (q, t) = then_verify-Progress P needed verify _ (of_type is_ed25519 signers) 0 _ s p in
    let (r, u) =
      then_verify-Progress P needed verify _ (of_type is_signed_payload signers) 0 _ t q in
    (_, r)

-- A check that succeeds has found signers of the list, none counted twice and at least one, each
-- authorised by the contents hash or by a signature of the envelope, whose weights, capped at 255,
-- sum up to at least what is needed.
pub check_signature-IsSigned :
    (sdk : Sdk) (c : SignatureChecker) (signers : List WeightedSigner) (needed : ℕ)
    → (check_signature sdk c signers needed).0 ≡ true
    → IsSigned sdk c signers needed
check_signature-IsSigned sdk c signers needed e =
    let (total, p) = check_signature-Progress sdk c signers needed in
    record {
      chosen = p.chosen;
      others = p.others;
      perm = Perm.trans p.perm (partition signers);
      each = p.each;
      enough = omega (arith, p.sum, (p.enough e).0);
      some_chosen = (p.enough e).1;
    }

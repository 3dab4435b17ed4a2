-- ===== src/Classic/Apply/Authority.antt =====
-- Who has signed a transaction that is not rejected.
use lite_soroban.Prelude.{
  ℕ, ◌≡◌, ◌≢◌, refl, sym, ap, ◌∙◌, ◌⊎◌, inl, inr, Bool, true, false, List, [], ◌∷◌, ◌++◌, arith,
  any, all, All, map, length, ◌||◌,
}
use lite_soroban.Xdr.{Bytes, SignerKey, WeightedSigner, DecoratedSignature, Transaction}
use lite_soroban.Sdk.{Sdk}
use lite_soroban.Classic.Accounts.{account_signers}
use lite_soroban.Classic.Signatures.{
  Mark, SignatureChecker, new_checker, fresh, verifies, check_signature, check_each,
  check_all_signatures_used, extra_signers_of, one_each,
}
use lite_soroban.Classic.Signatures.Matching.{Authorised, IsSigned, check_signature-IsSigned}
use lite_soroban.Classic.Signatures.Consumption.{
  Evolves, Evolves-refl, Evolves-trans, Evolves-weaken, VerifiesFor, check_signature-Evolves,
}
use lite_soroban.Classic.Validate.{Validated, op_signers}
use lite_soroban.Classic.Apply.Trail.{Trail}

any-Evolves :
    (V : DecoratedSignature → Type 0) (f : DecoratedSignature → Bool) (ms ns : List Mark)
    → Evolves V ms ns
    → any (λ m. f m.signature) ns ≡ any (λ m. f m.signature) ms
any-Evolves V f [] [] h = refl
any-Evolves V f [] (n ∷ ns) h = elim h [ ]
any-Evolves V f (m ∷ ms) [] h = elim h [ ]
any-Evolves V f (m ∷ ms) (n ∷ ns) ((e, u, g), h) = rw (e, any-Evolves V f ms ns h) refl

-- The same authority before and after a check.
Authorised-Evolves :
    (sdk : Sdk) (V : DecoratedSignature → Type 0) (c c' : SignatureChecker) (s : WeightedSigner)
    → Evolves V c.marks c'.marks
    → c'.contents_hash ≡ c.contents_hash
    → Authorised sdk c' s
    → Authorised sdk c s
Authorised-Evolves sdk V c c' s h e (inl a) = inl (rw e at a)
Authorised-Evolves sdk V c c' s h e (inr a) =
    inr (
      sym (any-Evolves V (λ g. verifies sdk c.contents_hash g s.key) c.marks c'.marks h)
      ∙ rw e at a)

All-weaken :
    (P Q : WeightedSigner → Type 0) (xs : List WeightedSigner)
    → ((s : WeightedSigner) → P s → Q s)
    → All P xs
    → All Q xs
All-weaken P Q [] f h = tt
All-weaken P Q (x ∷ xs) f (p, h) = (f x p, All-weaken P Q xs f h)

pub IsSigned-Evolves :
    (sdk : Sdk) (V : DecoratedSignature → Type 0) (c c' : SignatureChecker)
    (signers : List WeightedSigner) (needed : ℕ)
    → Evolves V c.marks c'.marks
    → c'.contents_hash ≡ c.contents_hash
    → IsSigned sdk c' signers needed
    → IsSigned sdk c signers needed
IsSigned-Evolves sdk V c c' signers needed h e s = record {
  chosen = s.chosen;
  others = s.others;
  perm = s.perm;
  enough = s.enough;
  some_chosen = s.some_chosen;
  each = All-weaken _ _ s.chosen (λ x. Authorised-Evolves sdk V c c' x h e) s.each;
}

-- Signatures that are all used, from none, are all vouched for.
all_used-Evolves :
    (V : DecoratedSignature → Type 0) (gs : List DecoratedSignature) (ns : List Mark)
    → Evolves V (map fresh gs) ns
    → all (λ n. n.used) ns ≡ true
    → All V gs
all_used-Evolves V [] [] h a = tt
all_used-Evolves V [] (n ∷ ns) h a = tt
all_used-Evolves V (g ∷ gs) [] h a = elim h [ ]
all_used-Evolves V (g ∷ gs) (n ∷ ns) ((e, u, f), h) a =
    (one (f (ground arith)), all_used-Evolves V gs ns h (ground arith))
  where
    one : (false ≡ true) ⊎ V g → V g
    one (inl x) = absurd (ground arith)
    one (inr v) = v

check_each-Evolves :
    (sdk : Sdk) (c : SignatureChecker) (ks : List SignerKey)
    → Evolves
        (VerifiesFor sdk c.contents_hash (map one_each ks))
        c.marks
        (check_each sdk c ks).1.marks
      × ((check_each sdk c ks).1.contents_hash ≡ c.contents_hash)
unfolding check_each
check_each-Evolves sdk c [] = (Evolves-refl _ c.marks, refl)
check_each-Evolves sdk c (k ∷ ks) =
    check_signature-Evolves sdk c (map one_each (k ∷ ks)) (length (k ∷ ks))

check_each-IsSigned :
    (sdk : Sdk) (c : SignatureChecker) (ks : List SignerKey)
    → (check_each sdk c ks).0 ≡ true
    → ks ≢ []
    → IsSigned sdk c (map one_each ks) (length ks)
unfolding check_each
check_each-IsSigned sdk c [] h n = absurd (n refl)
check_each-IsSigned sdk c (k ∷ ks) h n =
    check_signature-IsSigned sdk c (map one_each (k ∷ ks)) (length (k ∷ ks)) h

any-append :
    (f : WeightedSigner → Bool) (xs ys : List WeightedSigner)
    → any f (xs ++ ys) ≡ (any f xs || any f ys)
any-append f [] ys = refl
any-append f (x ∷ xs) ys = ground (arith, any-append f xs ys)

VerifiesFor-left :
    (sdk : Sdk) (hash : Bytes) (xs ys : List WeightedSigner) (g : DecoratedSignature)
    → VerifiesFor sdk hash xs g
    → VerifiesFor sdk hash (xs ++ ys) g
VerifiesFor-left sdk hash xs ys g h =
    ground (arith, any-append (λ s. verifies sdk hash g s.key) xs ys)

VerifiesFor-right :
    (sdk : Sdk) (hash : Bytes) (xs ys : List WeightedSigner) (g : DecoratedSignature)
    → VerifiesFor sdk hash ys g
    → VerifiesFor sdk hash (xs ++ ys) g
VerifiesFor-right sdk hash xs ys g h =
    ground (arith, any-append (λ s. verifies sdk hash g s.key) xs ys)

-- Who has signed, for the contents `hash`: the source at LOW, every extra signer, and the source
-- of the operation at the operation's own threshold; every signature of the envelope verifies for
-- one of these.
pub record SignedBy (sdk : Sdk) (hash : Bytes) (signatures : List DecoratedSignature)
    (raw : Transaction) (w : Validated) : Type 0 where
  pub source :
      IsSigned sdk
        (new_checker signatures hash)
        (account_signers w.account)
        w.account.thresholds.low
  pub extra :
      extra_signers_of raw.cond ≢ []
      → IsSigned sdk
          (new_checker signatures hash)
          (map one_each (extra_signers_of raw.cond))
          (length (extra_signers_of raw.cond))
  pub operation :
      let s = op_signers w.operation.body w.invoker_id w.op_account in
      IsSigned sdk (new_checker signatures hash) s.0 s.1
  pub each :
      let s = op_signers w.operation.body w.invoker_id w.op_account in
      All
        (VerifiesFor sdk hash
          (account_signers w.account ++ (map one_each (extra_signers_of raw.cond) ++ s.0)))
        signatures

-- One successful check: who has signed, and what became of the marks.
record Step (sdk : Sdk) (c : SignatureChecker) (signers : List WeightedSigner)
    (c' : SignatureChecker) : Type 0 where
  evolves : Evolves (VerifiesFor sdk c.contents_hash signers) c.marks c'.marks
  same_hash : c'.contents_hash ≡ c.contents_hash

check_signature-Step :
    (sdk : Sdk) (c c' : SignatureChecker) (signers : List WeightedSigner) (needed : ℕ)
    → check_signature sdk c signers needed ≡ (true, c')
    → IsSigned sdk c signers needed × Step sdk c signers c'
check_signature-Step sdk c c' signers needed h =
    let (e, s) = check_signature-Evolves sdk c signers needed in
    (
      check_signature-IsSigned sdk c signers needed (ap (λ r. r.0) h),
      record { evolves = rw h at e; same_hash = rw h at s },
    )

check_each-Step :
    (sdk : Sdk) (c c' : SignatureChecker) (ks : List SignerKey)
    → check_each sdk c ks ≡ (true, c')
    → (ks ≢ [] → IsSigned sdk c (map one_each ks) (length ks)) × Step sdk c (map one_each ks) c'
check_each-Step sdk c c' ks h =
    let (e, s) = check_each-Evolves sdk c ks in
    (
      check_each-IsSigned sdk c ks (ap (λ r. r.0) h),
      record { evolves = rw h at e; same_hash = rw h at s },
    )

pub Trail-SignedBy :
    (sdk : Sdk) (hash : Bytes) (signatures : List DecoratedSignature) (raw : Transaction)
    (w : Validated)
    → Trail sdk (new_checker signatures hash) raw w
    → SignedBy sdk hash signatures raw w
unfolding new_checker check_all_signatures_used
Trail-SignedBy sdk hash signatures raw w t =
    let c = new_checker signatures hash in
    let xs = account_signers w.account in
    let ys = map one_each (extra_signers_of raw.cond) in
    let zs = op_signers w.operation.body w.invoker_id w.op_account in
    let V = VerifiesFor sdk hash (xs ++ (ys ++ zs.0)) in
    let (i1, s1) = check_signature-Step sdk c t.after_source xs w.account.thresholds.low t.source in
    let (i2, s2) =
      check_each-Step sdk t.after_source t.after_extra (extra_signers_of raw.cond) t.extra in
    let (i3, s3) = check_signature-Step sdk t.after_extra t.after_op zs.0 zs.1 t.operation in
    let e1 : Evolves V c.marks t.after_source.marks =
      Evolves-weaken _ V _ _ (VerifiesFor-left sdk hash xs (ys ++ zs.0)) s1.evolves in
    let e2 : Evolves V t.after_source.marks t.after_extra.marks =
      Evolves-weaken _ V _ _
        (λ g v.
          VerifiesFor-right sdk hash xs (ys ++ zs.0) g
            (VerifiesFor-left sdk hash ys zs.0 g (rw s1.same_hash at v)))
        s2.evolves in
    let e3 : Evolves V t.after_extra.marks t.after_op.marks =
      Evolves-weaken _ V _ _
        (λ g v.
          VerifiesFor-right sdk hash xs (ys ++ zs.0) g
            (VerifiesFor-right sdk hash ys zs.0 g (rw (s2.same_hash, s1.same_hash) at v)))
        s3.evolves in
    let e12 = Evolves-trans V c.marks t.after_source.marks t.after_extra.marks e1 e2 in
    record {
      source = i1;
      extra = λ n. IsSigned-Evolves sdk V c t.after_source ys _ e1 s1.same_hash (i2 n);
      operation =
          IsSigned-Evolves sdk V c t.after_extra zs.0 zs.1 e12 (s2.same_hash ∙ s1.same_hash) i3;
      each =
          all_used-Evolves V signatures t.after_op.marks
            (Evolves-trans V c.marks t.after_extra.marks t.after_op.marks e12 e3) t.used;
    }

-- ===== src/Classic/Signatures.antt =====
-- `SignatureChecker`, its hint tests, `checkSignature` and `checkExtraSigners` of src/classic.ts.
-- The checker's state, which signatures were consumed, is passed on explicitly.
pub mod Progress
pub mod Matching
pub mod Consumption
pub mod Unsigned
pub mod Weight
use Prim.Native.Nat.{bit_xor}
use lite_soroban.Prelude.{
  ℕ, zero, suc, ◌+◌, ◌-◌, min, Bool, true, false, not, ◌&&◌, List, [], ◌∷◌, ◌++◌, map, Option, none,
  some, if◌then◌else◌, leb, ltb, ◌==◌, length, drop, replicate, all, select, same_bytes,
}
use lite_soroban.Xdr.{
  Bytes, SignerKey, key_ed25519, pre_auth_tx, hash_x, signed_payload, WeightedSigner,
  DecoratedSignature, AccountEntry, Preconditions, precond_none, precond_time, precond_v2,
}
use lite_soroban.Sdk.{Sdk}
use lite_soroban.Classic.Accounts.{account_signers}

-- A signature of the envelope and its entry of `used`.
pub record Mark : Type 0 where
  pub signature : DecoratedSignature
  pub used : Bool

pub record SignatureChecker : Type 0 where
  pub marks : List Mark
  pub contents_hash : Bytes

abbrev pub fresh : DecoratedSignature → Mark
fresh s = record { signature = s; used = false }

-- The constructor.
unfoldable pub new_checker : List DecoratedSignature → Bytes → SignatureChecker
new_checker signatures hash = record { marks = map fresh signatures; contents_hash = hash }

abbrev pub cap : ℕ → ℕ
cap w = min w 255

-- The last four bytes, or all of them zero-padded if fewer.
unfoldable pub hint_of : Bytes → Bytes
hint_of b = if ltb (length b) 4 then b ++ replicate (4 - length b) 0 else drop (length b - 4) b

unfoldable pub hint_matches : Bytes → Bytes → Bool
hint_matches b hint = leb 4 (length b) && same_bytes (drop (length b - 4) b) hint

abbrev xor_bytes : Bytes → Bytes → Bytes
xor_bytes (a ∷ xs) (b ∷ ys) = bit_xor a b ∷ xor_bytes xs ys
xor_bytes _ _ = []

-- The two kinds of signer tests: by the contents hash, and by a signature.
abbrev pub is_pre_auth_tx : SignerKey → Bool
is_pre_auth_tx (pre_auth_tx h) = true
is_pre_auth_tx _ = false

abbrev pub is_hash_x : SignerKey → Bool
is_hash_x (hash_x h) = true
is_hash_x _ = false

abbrev pub is_ed25519 : SignerKey → Bool
is_ed25519 (key_ed25519 k) = true
is_ed25519 _ = false

abbrev pub is_signed_payload : SignerKey → Bool
is_signed_payload (signed_payload k p) = true
is_signed_payload _ = false

module _ (sdk : Sdk) (contents_hash : Bytes) where
  -- Whether the signature verifies under the key: the three callbacks of `verifyAll`, by key type.
  unfoldable pub verifies : DecoratedSignature → SignerKey → Bool
  unfolding hint_matches hint_of
  verifies s (key_ed25519 k) = hint_matches k s.hint && sdk.verify k s.signature contents_hash
  verifies s (pre_auth_tx h) = false
  verifies s (hash_x h) = hint_matches h s.hint && same_bytes (sdk.sha256 s.signature) h
  verifies s (signed_payload k p) =
      same_bytes (xor_bytes (hint_of k) (hint_of p)) s.hint && sdk.verify k s.signature p

  -- Whether the key is authorised by the contents hash alone.
  unfoldable pub pre_authorises : SignerKey → Bool
  pre_authorises (pre_auth_tx h) = same_bytes h contents_hash
  pre_authorises _ = false

-- `findIndex` with the `splice` that follows: the first element that passes, and the others.
unfoldable pub take_first {ℓ} : {A : Type ℓ} → (A → Bool) → List A → Option (A × List A)
take_first p [] = none
take_first p (x ∷ xs) =
    if p x
    then some (x, xs)
    else elim (take_first p xs) [ none ↦ none | some (y, rest) ↦ some (y, x ∷ rest) ]

abbrev weight_of : WeightedSigner → ℕ
weight_of s = cap s.weight

-- What a pass over signers or signatures leaves: whether the weight was reached, the weight so
-- far, and the marks.
pub record Scan : Type 0 where
  pub reached : Bool
  pub total : ℕ
  pub marks : List Mark

-- The loop over the PRE_AUTH_TX signers.
unfoldable pub scan_pre_auth : Sdk → Bytes → ℕ → List WeightedSigner → ℕ → Bool × ℕ
unfolding pre_authorises
scan_pre_auth sdk hash needed [] total = (false, total)
scan_pre_auth sdk hash needed (s ∷ ss) total =
    let hit =
      let total' = total + weight_of s in
      (if leb needed total' then (true, total') else scan_pre_auth sdk hash needed ss total') in
    let miss = scan_pre_auth sdk hash needed ss total in
    if pre_authorises sdk hash s.key then hit else miss

abbrev pub keep : Mark → Scan → Scan
keep m r = record r { marks = m ∷ r.marks }

abbrev pub consume : Mark → Mark
consume m = record m { used = true }

-- `verifyAll`: each signature against the first remaining candidate that it verifies for.
unfoldable pub verify_all :
    (DecoratedSignature → WeightedSigner → Bool) → ℕ → List WeightedSigner → List Mark → ℕ → Scan
verify_all verify needed candidates [] total = record { reached = false; total = total; marks = [] }
verify_all verify needed candidates (m ∷ ms) total =
    elim (take_first (verify m.signature) candidates) [
      | none ↦ keep m (verify_all verify needed candidates ms total)
      | some (s, others) ↦
          let total' = total + weight_of s in
          let rest = verify_all verify needed others ms total' in
          if leb needed total'
          then record { reached = true; total = total'; marks = consume m ∷ ms }
          else keep (consume m) rest
    ]

abbrev pub of_type : (SignerKey → Bool) → List WeightedSigner → List WeightedSigner
of_type is signers = select (λ s. is s.key) signers

-- A pass of `verifyAll` unless an earlier one reached the weight.
abbrev pub then_verify :
    (DecoratedSignature → WeightedSigner → Bool) → ℕ → List WeightedSigner → Scan → Scan
then_verify verify needed candidates r = elim r.reached [
  | true ↦ r
  | false ↦ verify_all verify needed candidates r.marks r.total
]

unfoldable pub check_signature :
    Sdk → SignatureChecker → List WeightedSigner → ℕ → Bool × SignatureChecker
unfolding scan_pre_auth verify_all
check_signature sdk c signers needed =
    let verify =
      λ (s : DecoratedSignature) (w : WeightedSigner). verifies sdk c.contents_hash s w.key in
    let (found, total) =
      scan_pre_auth sdk c.contents_hash needed (of_type is_pre_auth_tx signers) 0 in
    let r : Scan = then_verify verify needed (of_type is_signed_payload signers) (
      then_verify verify needed (of_type is_ed25519 signers) (
        then_verify verify needed (of_type is_hash_x signers)
          (record { reached = found; total = total; marks = c.marks }))) in
    (r.reached, record c { marks = r.marks })

unfoldable pub check_all_signatures_used : SignatureChecker → Bool
check_all_signatures_used c = all (λ m. m.used) c.marks

-- The exported one-off check of an account.
unfoldable pub check_account_signature :
    Sdk → AccountEntry → List DecoratedSignature → Bytes → ℕ → Bool
unfolding check_signature new_checker account_signers
check_account_signature sdk a signatures hash needed =
    (check_signature sdk (new_checker signatures hash) (account_signers a) needed).0

abbrev pub one_each : SignerKey → WeightedSigner
one_each k = record { key = k; weight = 1 }

abbrev pub extra_signers_of : Preconditions → List SignerKey
extra_signers_of (precond_v2 c) = c.extra_signers
extra_signers_of precond_none = []
extra_signers_of (precond_time t) = []

-- PRECOND_V2 extraSigners: every one must sign.
unfoldable pub check_each : Sdk → SignatureChecker → List SignerKey → Bool × SignatureChecker
unfolding check_signature
check_each sdk c [] = (true, c)
check_each sdk c (k ∷ ks) = check_signature sdk c (map one_each (k ∷ ks)) (length (k ∷ ks))

abbrev pub check_extra_signers : Sdk → SignatureChecker → Preconditions → Bool × SignatureChecker
check_extra_signers sdk c cond = check_each sdk c (extra_signers_of cond)

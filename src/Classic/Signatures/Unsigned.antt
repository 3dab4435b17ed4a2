-- ===== src/Classic/Signatures/Unsigned.antt =====
-- Weight accumulates on a match only: an envelope without signatures needs a PRE_AUTH_TX signer,
-- whatever the threshold.
use lite_soroban.Prelude.{
  ℕ, ◌≡◌, refl, Bool, true, false, not, List, [], ◌∷◌, arith, Bool-cases, inl, inr, all,
}
use lite_soroban.Xdr.{Bytes, SignerKey, WeightedSigner}
use lite_soroban.Sdk.{Sdk}
use lite_soroban.Classic.Signatures.{
  pre_authorises, scan_pre_auth, of_type, is_pre_auth_tx, check_signature, new_checker,
}

-- No signer is a PRE_AUTH_TX key of this transaction.
abbrev pub NoneAuthorises : Sdk → Bytes → List WeightedSigner → Type 0
NoneAuthorises sdk hash ss = all (λ s. not (pre_authorises sdk hash s.key)) ss ≡ true

NoneAuthorises-of_type :
    (sdk : Sdk) (hash : Bytes) (is : SignerKey → Bool) (ss : List WeightedSigner)
    → NoneAuthorises sdk hash ss
    → NoneAuthorises sdk hash (of_type is ss)
NoneAuthorises-of_type sdk hash is [] h = refl
NoneAuthorises-of_type sdk hash is (s ∷ ss) h =
    ground (arith, NoneAuthorises-of_type sdk hash is ss)

scan_none :
    (sdk : Sdk) (hash : Bytes) (needed : ℕ) (ss : List WeightedSigner) (total : ℕ)
    → NoneAuthorises sdk hash ss
    → scan_pre_auth sdk hash needed ss total ≡ (false, total)
unfolding scan_pre_auth
scan_none sdk hash needed [] total h = refl
scan_none sdk hash needed (s ∷ ss) total h = elim (Bool-cases (pre_authorises sdk hash s.key)) [
  | inl hit ↦ absurd (ground arith)
  | inr miss ↦ rw miss (scan_none sdk hash needed ss total (ground arith))
]

-- Without signatures, and with no PRE_AUTH_TX signer of this very transaction, a check fails at
-- every threshold, 0 included.
pub check_signature_unsigned :
    (sdk : Sdk) (hash : Bytes) (signers : List WeightedSigner) (needed : ℕ)
    → NoneAuthorises sdk hash signers
    → (check_signature sdk (new_checker [] hash) signers needed).0 ≡ false
unfolding check_signature new_checker
check_signature_unsigned sdk hash signers needed h = rw (
    scan_none sdk hash needed (of_type is_pre_auth_tx signers) 0
      (NoneAuthorises-of_type sdk hash is_pre_auth_tx signers h))

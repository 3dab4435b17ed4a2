-- ===== src/Classic/Signatures/Weight.antt =====
-- `signatureWeight` of src/classic.ts: the one-off sum of the weights of the signers that signed.
use lite_soroban.Prelude.{
  ℕ, ◌+◌, Bool, true, false, List, [], ◌∷◌, Option, none, some, if◌then◌else◌, same_bytes, any,
}
use lite_soroban.Xdr.{Bytes, WeightedSigner, key_ed25519, DecoratedSignature, AccountEntry}
use lite_soroban.Classic.Signatures.{hint_of}

pub record Candidate : Type 0 where
  pub public_key : Bytes
  pub weight : ℕ

-- The signers with an ed25519 key.
unfoldable pub ed25519_candidates : List WeightedSigner → List Candidate
ed25519_candidates [] = []
ed25519_candidates (s ∷ ss) = elim s.key [
  | key_ed25519 k ↦ record { public_key = k; weight = s.weight } ∷ ed25519_candidates ss
  | _ ↦ ed25519_candidates ss
]

-- The master key first, also at weight 0.
abbrev pub candidates_of : AccountEntry → List Candidate
candidates_of a =
    record { public_key = a.account_id; weight = a.thresholds.master }
    ∷ ed25519_candidates a.signers

-- `kp.verify`; `none`: it throws on what is no signature.
module _ (verify : (public_key signature message : Bytes) → Option Bool) (hash : Bytes) where
  -- The inner loop over one signature: the first candidate, not used before, whose hint and key
  -- fit, if any; `none`: it throws.
  unfoldable pub signer_of :
      List Candidate → (used : List Bytes) → DecoratedSignature → Option (Option Candidate)
  unfolding hint_of
  signer_of [] used s = some none
  signer_of (c ∷ cs) used s =
      let rest = signer_of cs used s in
      if any (same_bytes c.public_key) used
      then rest
      else if same_bytes (hint_of c.public_key) s.hint
      then elim (verify c.public_key s.signature hash) [
        | none ↦ none
        | some true ↦ some (some c)
        | some false ↦ rest
      ]
      else rest

  unfoldable pub weight_from :
      List Candidate → (used : List Bytes) → List DecoratedSignature → ℕ → Option ℕ
  unfolding signer_of
  weight_from cs used [] total = some total
  weight_from cs used (s ∷ ss) total = elim (signer_of cs used s) [
    | none ↦ none
    | some none ↦ weight_from cs used ss total
    | some (some c) ↦ weight_from cs (c.public_key ∷ used) ss (total + c.weight)
  ]

  unfoldable pub signature_weight : AccountEntry → List DecoratedSignature → Option ℕ
  unfolding weight_from ed25519_candidates
  signature_weight a signatures = weight_from (candidates_of a) [] signatures 0

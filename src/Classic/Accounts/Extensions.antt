-- ===== src/Classic/Accounts/Extensions.antt =====
-- The chain of account extensions: writing level 3 keeps the levels below it.
use lite_soroban.Prelude.{
  ℕ, ℤ, pos, ◌≡◌, refl, ap, List, [], ◌∷◌, map, replicate, Option, none, some, length, Option-cases,
  inl, inr,
}
use lite_soroban.Xdr.{
  AccountEntry, AccountEntryExtensionV1, AccountEntryExtensionV2, AccountEntryExtensionV3,
  AccountId, WeightedSigner,
}
use lite_soroban.Classic.Accounts.{
  account_entry_extension_v3, account_entry_extension_chain, with_account_entry_extension_v3,
}

-- What an account without the level has there, or what it has.
abbrev pub buying_of : Option AccountEntryExtensionV1 → ℤ
buying_of none = pos 0
buying_of (some v1) = v1.buying

abbrev pub selling_of : Option AccountEntryExtensionV1 → ℤ
selling_of none = pos 0
selling_of (some v1) = v1.selling

abbrev pub level_2 : Option AccountEntryExtensionV1 → Option AccountEntryExtensionV2
level_2 none = none
level_2 (some v1) = v1.ext

-- An account without a level 2 gets no counts, and one empty sponsor slot a signer.
abbrev pub sponsorship_of :
    List WeightedSigner → Option AccountEntryExtensionV2 → ℕ × ℕ × List (Option AccountId)
sponsorship_of signers none = (0, 0, replicate (length signers) none)
sponsorship_of signers (some v2) = (v2.num_sponsored, v2.num_sponsoring, v2.signer_sponsoring_ids)

slots :
    (signers : List WeightedSigner)
    → map {B = Option AccountId} (λ _. none) signers ≡ replicate (length signers) none
slots [] = refl
slots (s ∷ ss) = ap (λ xs. none ∷ xs) (slots ss)

written_lem :
    (a : AccountEntry) (v3 : AccountEntryExtensionV3) (ext : Option AccountEntryExtensionV1)
    → let b = record a { ext = ext } in
      let (sponsored, sponsoring, ids) = sponsorship_of a.signers (level_2 ext) in
      with_account_entry_extension_v3 b v3
      ≡ some (record {
        buying = buying_of ext;
        selling = selling_of ext;
        ext = some (record {
          num_sponsored = sponsored;
          num_sponsoring = sponsoring;
          signer_sponsoring_ids = ids;
          ext = some v3;
        });
      })
unfolding with_account_entry_extension_v3 account_entry_extension_chain
written_lem a v3 none = rw (slots a.signers) refl
written_lem a v3 (some v1) = elim (Option-cases v1.ext) [
  | inl e ↦ rw e (rw (slots a.signers) refl)
  | inr (v2, e) ↦ rw e refl
]

-- Writing level 3 of an account's extensions keeps the liabilities and the sponsorship that the
-- account has, and sets those of a missing level to zero with one empty sponsor slot a signer; and
-- the account written so reads back that level 3.
pub with_extension_v3_reads_back :
    (a : AccountEntry) (v3 : AccountEntryExtensionV3)
    → let (sponsored, sponsoring, ids) = sponsorship_of a.signers (level_2 a.ext) in
      (with_account_entry_extension_v3 a v3
        ≡ some (record {
          buying = buying_of a.ext;
          selling = selling_of a.ext;
          ext = some (record {
            num_sponsored = sponsored;
            num_sponsoring = sponsoring;
            signer_sponsoring_ids = ids;
            ext = some v3;
          });
        }))
      × (account_entry_extension_v3 (record a { ext = with_account_entry_extension_v3 a v3 })
          ≡ some v3)
unfolding account_entry_extension_v3 with_account_entry_extension_v3
with_extension_v3_reads_back a v3 = (written_lem a v3 a.ext, refl)

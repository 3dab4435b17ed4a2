-- ===== src/Facade/Signed.antt =====
-- What `signAuthEntriesSync` of src/litestellar.ts changes of an authorization entry.
use lite_soroban.Prelude.{ℕ, ℤ, ◌≡◌, refl, List, [], ◌∷◌, Option, none, some, All}
use lite_soroban.Xdr.{
  Bytes, ScVal, ScAddress, AddressCredentials, Credentials, source_account_credentials,
  address_credentials, address_credentials_v2, credentials_with_delegates, AuthorizationEntry,
}
use lite_soroban.Sdk.{Sdk}
use lite_soroban.Facade.Signing.{sign_credentials, sign_entry, sign_auth_entries_sync, sign_decoded}

-- An entry with its credentials signed.
abbrev pub signed_entry :
    Sdk
    → (sign : Bytes → ScVal) → (passphrase : Bytes) → (until : ℕ) → AuthorizationEntry
    → AuthorizationEntry
signed_entry sdk sign passphrase until e = record {
  root_invocation = e.root_invocation;
  credentials =
      sign_credentials e.credentials until (sign (sdk.authorization_payload e until passphrase));
}

-- Decoding reads back the entry that was encoded.
unfoldable pub ReadsBack : Sdk → AuthorizationEntry → Type 0
ReadsBack sdk e = sdk.decode_authorization (sdk.encode_authorization e) ≡ e

-- What credentials are made of besides the expiration and the signature: the arm, the address and
-- the nonce, the delegates.
pub data Arm : Type 0 where
  by_source by_address by_address_v2 by_delegates : Arm

abbrev pub arm : Credentials → Arm
arm source_account_credentials = by_source
arm (address_credentials c) = by_address
arm (address_credentials_v2 c) = by_address_v2
arm (credentials_with_delegates c ds) = by_delegates

abbrev pub top : Credentials → Option AddressCredentials
top source_account_credentials = none
top (address_credentials c) = some c
top (address_credentials_v2 c) = some c
top (credentials_with_delegates c ds) = some c

abbrev pub delegates : Credentials → List Bytes
delegates (credentials_with_delegates c ds) = ds
delegates _ = []

abbrev pub identity : Option AddressCredentials → Option (ScAddress × ℤ)
identity none = none
identity (some c) = some (c.address, c.nonce)

abbrev pub IsSignedTop : Option AddressCredentials → ℕ → ScVal → Type 0
IsSignedTop none until signature = Unit
IsSignedTop (some c) until signature = (c.expiration ≡ until) × (c.signature ≡ signature)

-- `d` is `e`, signed.
pub record IsSigned (e d : AuthorizationEntry) (until : ℕ) (signature : ScVal) : Type 0 where
  pub invocation : d.root_invocation ≡ e.root_invocation
  pub same_arm : arm d.credentials ≡ arm e.credentials
  pub same_delegates : delegates d.credentials ≡ delegates e.credentials
  pub same_identity : identity (top d.credentials) ≡ identity (top e.credentials)
  pub signed : IsSignedTop (top d.credentials) until signature

-- The two lists have the same length, and their entries are related place by place.
unfoldable pub Each {ℓ} : {A B : Type ℓ} → (A → B → Type 0) → List A → List B → Type 0
Each R [] [] = Unit
Each R (x ∷ xs) (y ∷ ys) = R x y × Each R xs ys
Each R [] (y ∷ ys) = ⊥
Each R (x ∷ xs) [] = ⊥

sign_credentials-IsSigned :
    (root : Bytes) (c : Credentials) (until : ℕ) (signature : ScVal)
    → IsSigned
        (record { root_invocation = root; credentials = c })
        (record { root_invocation = root; credentials = sign_credentials c until signature })
        until
        signature
unfolding sign_credentials
sign_credentials-IsSigned root source_account_credentials until signature = record {
  invocation = refl;
  same_arm = refl;
  same_delegates = refl;
  same_identity = refl;
  signed = tt;
}
sign_credentials-IsSigned root (address_credentials c) until signature = record {
  invocation = refl;
  same_arm = refl;
  same_delegates = refl;
  same_identity = refl;
  signed = (refl, refl);
}
sign_credentials-IsSigned root (address_credentials_v2 c) until signature = record {
  invocation = refl;
  same_arm = refl;
  same_delegates = refl;
  same_identity = refl;
  signed = (refl, refl);
}
sign_credentials-IsSigned root (credentials_with_delegates c ds) until signature = record {
  invocation = refl;
  same_arm = refl;
  same_delegates = refl;
  same_identity = refl;
  signed = (refl, refl);
}

sign_decoded-IsSigned :
    (sdk : Sdk) (b : Bytes) (root : Bytes) (c : Credentials) (sign : Bytes → ScVal)
    (passphrase : Bytes) (until : ℕ)
    → let e : AuthorizationEntry = record { root_invocation = root; credentials = c } in
      ReadsBack sdk (signed_entry sdk sign passphrase until e)
      → sdk.decode_authorization b ≡ e
      → IsSigned e
          (sdk.decode_authorization (sign_decoded sdk b e c sign passphrase until))
          until
          (sign (sdk.authorization_payload e until passphrase))
unfolding ReadsBack sign_credentials
sign_decoded-IsSigned sdk b root source_account_credentials sign passphrase until h p =
    rw p (sign_credentials-IsSigned root source_account_credentials until _)
sign_decoded-IsSigned sdk b root (address_credentials c) sign passphrase until h p =
    rw h (sign_credentials-IsSigned root (address_credentials c) until _)
sign_decoded-IsSigned sdk b root (address_credentials_v2 c) sign passphrase until h p =
    rw h (sign_credentials-IsSigned root (address_credentials_v2 c) until _)
sign_decoded-IsSigned sdk b root (credentials_with_delegates c ds) sign passphrase until h p =
    rw h (sign_credentials-IsSigned root (credentials_with_delegates c ds) until _)

sign_entry-IsSigned :
    (sdk : Sdk) (b : Bytes) (sign : Bytes → ScVal) (passphrase : Bytes) (until : ℕ)
    → let e = sdk.decode_authorization b in
      ReadsBack sdk (signed_entry sdk sign passphrase until e)
      → IsSigned e
          (sdk.decode_authorization (sign_entry sdk sign passphrase until b))
          until
          (sign (sdk.authorization_payload e until passphrase))
unfolding sign_entry
sign_entry-IsSigned sdk b sign passphrase until h =
    let e = sdk.decode_authorization b in
    sign_decoded-IsSigned sdk b e.root_invocation e.credentials sign passphrase until h refl

-- If decoding reads back the signed entries, every entry is answered by one with the same invocation,
-- the same arm, address, nonce and delegates, in the same order; where it has address credentials,
-- they expire at the given ledger and carry the signature of the entry's payload.
pub sign_auth_entries_sync_lem :
    (sdk : Sdk) (entries : List Bytes) (sign : Bytes → ScVal) (passphrase : Bytes) (until : ℕ)
    → All
        (λ b. ReadsBack sdk (signed_entry sdk sign passphrase until (sdk.decode_authorization b)))
        entries
    → Each
        (λ b d.
          IsSigned
            (sdk.decode_authorization b)
            (sdk.decode_authorization d)
            until
            (sign (sdk.authorization_payload (sdk.decode_authorization b) until passphrase)))
        entries
        (sign_auth_entries_sync sdk entries sign passphrase until)
unfolding Each sign_auth_entries_sync
sign_auth_entries_sync_lem sdk [] sign passphrase until h = tt
sign_auth_entries_sync_lem sdk (b ∷ bs) sign passphrase until (h, k) = (
  sign_entry-IsSigned sdk b sign passphrase until h,
  sign_auth_entries_sync_lem sdk bs sign passphrase until k,
)

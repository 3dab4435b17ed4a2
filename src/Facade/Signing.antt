-- ===== src/Facade/Signing.antt =====
-- `signAuthEntriesSync` of src/litestellar.ts.
use lite_soroban.Prelude.{ℕ, List, map}
use lite_soroban.Xdr.{
  Bytes, ScVal, AddressCredentials, Credentials, source_account_credentials, address_credentials,
  address_credentials_v2, credentials_with_delegates, AuthorizationEntry,
}
use lite_soroban.Sdk.{Sdk}

abbrev pub signed : AddressCredentials → ℕ → ScVal → AddressCredentials
signed c until signature = record c { expiration = until; signature = signature }

-- The arm stays; delegates stay.
unfoldable pub sign_credentials : Credentials → ℕ → ScVal → Credentials
sign_credentials source_account_credentials until signature = source_account_credentials
sign_credentials (address_credentials c) until signature =
    address_credentials (signed c until signature)
sign_credentials (address_credentials_v2 c) until signature =
    address_credentials_v2 (signed c until signature)
sign_credentials (credentials_with_delegates c ds) until signature =
    credentials_with_delegates (signed c until signature) ds

abbrev pub sign_decoded :
    Sdk
    → (encoded : Bytes) → AuthorizationEntry
    → Credentials
    → (sign : Bytes → ScVal) → (passphrase : Bytes) → (until : ℕ) → Bytes
sign_decoded sdk b e source_account_credentials sign passphrase until = b
sign_decoded sdk b e c sign passphrase until = sdk.encode_authorization (record {
  root_invocation = e.root_invocation;
  credentials = sign_credentials c until (sign (sdk.authorization_payload e until passphrase));
})

unfoldable pub sign_entry :
    Sdk → (sign : Bytes → ScVal) → (passphrase : Bytes) → (until : ℕ) → Bytes → Bytes
unfolding sign_credentials
sign_entry sdk sign passphrase until b =
    let e = sdk.decode_authorization b in sign_decoded sdk b e e.credentials sign passphrase until

unfoldable pub sign_auth_entries_sync :
    Sdk → List Bytes → (sign : Bytes → ScVal) → (passphrase : Bytes) → (until : ℕ) → List Bytes
unfolding sign_entry
sign_auth_entries_sync sdk entries sign passphrase until =
    map (sign_entry sdk sign passphrase until) entries

-- ===== src/Auth.antt =====
-- src/auth.ts: proofs for custom accounts, and the round trip of an authorized call.
pub mod Sorting
pub mod Ordered
use lite_soroban.Prelude.{
  ℕ, ◌+◌, Bool, true, false, List, [], ◌∷◌, ◌++◌, map, Option, none, some, if◌then◌else◌,
}
use lite_soroban.Xdr.{
  Bytes, ScVal, sc_symbol, sc_bytes, sc_vec, sc_map, ScVals, no_vals, val, ScMap, no_entries,
  map_entry, HostFunction,
}
use lite_soroban.Sdk.{Sdk, HostReply, Simulation}
use lite_soroban.Ledger.{Ledger}
use lite_soroban.Host.{simulate, simulate_with_auth, send_simulated, open_ledger}
use Sorting.{sort_by_key}

abbrev ed25519_name : Bytes
ed25519_name = 69 ∷ 100 ∷ 50 ∷ 53 ∷ 53 ∷ 49 ∷ 57 ∷ []

abbrev secp256r1_name : Bytes
secp256r1_name = 83 ∷ 101 ∷ 99 ∷ 112 ∷ 50 ∷ 53 ∷ 54 ∷ 114 ∷ 49 ∷ []

-- An enum of the contract: its case and its one field.
abbrev enum_case : Bytes → Bytes → ScVal
enum_case name field = sc_vec (val (sc_symbol name) (val (sc_bytes field) no_vals))

abbrev pub ed25519_signer_key : Bytes → ScVal
ed25519_signer_key public_key = enum_case ed25519_name public_key

abbrev pub ed25519_signer_proof : Bytes → ScVal
ed25519_signer_proof signature = enum_case ed25519_name signature

abbrev pub secp256r1_signer_key : Bytes → ScVal
secp256r1_signer_key public_key = enum_case secp256r1_name public_key

abbrev pub secp256r1_signer_proof : Bytes → ScVal
secp256r1_signer_proof signature = enum_case secp256r1_name signature

abbrev pub to_map : List (ScVal × ScVal) → ScMap
to_map [] = no_entries
to_map ((k, p) ∷ es) = map_entry k p (to_map es)

-- The pairs in the ascending order of their encoded keys, in a map, in a tuple of one.
unfoldable pub signature_proofs : Sdk → List (ScVal × ScVal) → ScVal
signature_proofs sdk entries =
    sc_vec (val (sc_map (to_map (sort_by_key sdk.encode_value entries))) no_vals)

-- A keypair of the SDK, and a P-256 signer: a public key, and what it signs a payload with.
pub record Signer : Type 0 where
  pub public_key : Bytes
  pub sign : Bytes → Bytes

-- `AuthProofBuilder`
abbrev pub ProofBuilder : Type 0
ProofBuilder = Bytes → ScVal

abbrev pub ed25519_entry : Bytes → Signer → ScVal × ScVal
ed25519_entry payload s = (ed25519_signer_key s.public_key, ed25519_signer_proof (s.sign payload))

abbrev pub secp256r1_entry : Bytes → Signer → ScVal × ScVal
secp256r1_entry payload s =
    (secp256r1_signer_key s.public_key, secp256r1_signer_proof (s.sign payload))

unfoldable pub smart_account_ed25519 : Sdk → Signer → ProofBuilder
unfolding signature_proofs
smart_account_ed25519 sdk s payload = signature_proofs sdk (ed25519_entry payload s ∷ [])

unfoldable pub smart_account_secp256r1 : Sdk → Signer → ProofBuilder
unfolding signature_proofs
smart_account_secp256r1 sdk s payload = signature_proofs sdk (secp256r1_entry payload s ∷ [])

unfoldable pub smart_account_mixed : Sdk → (ed p256 : List Signer) → ProofBuilder
unfolding signature_proofs
smart_account_mixed sdk ed p256 payload =
    signature_proofs sdk (map (ed25519_entry payload) ed ++ map (secp256r1_entry payload) p256)

unfoldable pub smart_account_multi_ed25519 : Sdk → List Signer → ProofBuilder
unfolding signature_proofs
smart_account_multi_ed25519 sdk ss payload = signature_proofs sdk (map (ed25519_entry payload) ss)

abbrev pub valid_until_or : Option ℕ → Ledger → ℕ
valid_until_or none l = l.ledger_seq + 100
valid_until_or (some n) l = n

unfoldable pub sign_auth_entries :
    Sdk → Ledger → List Bytes → ProofBuilder → (valid_until : Option ℕ) → List Bytes
sign_auth_entries sdk l auth sign valid_until = map signed auth
  where
    signed : Bytes → Bytes
    signed b = sdk.encode_authorization (
        sdk.authorize_entry (sdk.decode_authorization b) sign (valid_until_or valid_until l)
          l.network_passphrase)

pub record Authorized : Type 0 where
  pub recorded : Simulation
  pub enforced : Simulation
  pub signed_auth : List Bytes
  pub sent : HostReply

-- `none`: it throws, one of the two simulations having failed.
unfoldable pub authorize_and_send :
    Sdk
    → Ledger
    → HostFunction
    → (source : Bytes) → ProofBuilder
    → (valid_until : Option ℕ) → Option Authorized × Ledger
unfolding simulate simulate_with_auth sign_auth_entries
authorize_and_send sdk l f source sign valid_until =
    let (recorded, l1) = simulate sdk l f source 0 (open_ledger l) false in
    let signed = sign_auth_entries sdk l1 recorded.auth sign valid_until in
    let (enforced, l2) = simulate_with_auth sdk l1 f source signed 0 (open_ledger l1) in
    let (sent, l3) = send_simulated sdk l2 f source enforced signed in
    if recorded.ok
    then if enforced.ok
      then (
        some (record {
          recorded = recorded;
          enforced = enforced;
          signed_auth = signed;
          sent = sent;
        }),
        l3,
      )
      else (none, l2)
    else (none, l1)

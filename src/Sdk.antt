-- ===== src/Sdk.antt =====
-- What the model takes as a parameter: cryptography and encoded sizes of @stellar/stellar-sdk, and
-- the computations of soroban-env-host behind crates/host-wasm.
use lite_soroban.Prelude.{ℕ, ℤ, List, Bool, Option}
use lite_soroban.Xdr.{
  Bytes, LedgerKey, LedgerEntry, SignerKey, SorobanResources, SorobanTransactionData, Transaction,
  V1Envelope, FeeBumpTransaction, ScVal, ScAddress, HostFunction, Asset, AuthorizationEntry,
  ContractEvent,
}
use lite_soroban.Ledger.{Ledger, Change}

-- The result arms of a failed `InvokeHostFunction`.
pub data InvokeResult : Type 0 where
  trapped resource_limit_exceeded insufficient_refundable_fee : InvokeResult

-- `SendResult`, with the ledger changes of the call.
pub record HostReply : Type 0 where
  pub ok : Bool
  pub return_value : Option Bytes
  pub changed_keys : List LedgerKey
  pub removed_keys : List LedgerKey
  pub events : List Bytes
  pub diagnostic_events : List Bytes
  pub result_code : Option InvokeResult
  pub error : Option Bytes
  pub detail : Option Bytes
  pub rent_fee : ℤ
  pub refundable_fee_consumed : ℤ
  pub changes : List Change

-- `computeResourceFee`'s answer.
pub record ResourceFee : Type 0 where
  pub non_refundable : ℤ
  pub refundable : ℤ

-- `RentChange`
pub record RentChange : Type 0 where
  pub key : LedgerKey
  pub size : ℕ
  pub old_live_until : ℕ
  pub new_live_until : ℕ

-- `SimulateResult`
pub record Simulation : Type 0 where
  pub ok : Bool
  pub error : Option Bytes
  pub return_value : Option Bytes
  pub resources : SorobanResources
  pub auth : List Bytes
  pub restored : List ℕ
  pub instructions : ℕ
  pub read_bytes : ℕ
  pub write_bytes : ℕ
  pub cpu_insns : ℕ
  pub mem_bytes : ℕ
  pub read_only_keys : List LedgerKey
  pub read_write_keys : List LedgerKey
  pub events : List Bytes
  pub diagnostic_events : List Bytes
  pub min_resource_fee : ℤ

-- `FootprintSimulation`; the resources and the fee are there when it is ok.
pub record FootprintSimulation : Type 0 where
  pub ok : Bool
  pub error : Option Bytes
  pub resources : SorobanResources
  pub min_resource_fee : ℤ

pub record Sdk : Type 0 where
  -- sha256, and ed25519 verification of a message under a key; `verify` is false where the
  -- SDK throws, as in `verifyEd25519`.
  pub sha256 : Bytes → Bytes
  pub verify : (public_key signature message : Bytes) → Bool
  -- `Transaction.hash()` and `FeeBumpTransaction.hash()` under a passphrase.
  pub tx_hash : Bytes → Transaction → Bytes
  pub fee_bump_hash : Bytes → FeeBumpTransaction → Bytes
  -- `toXdr().length`
  pub key_size : LedgerKey → ℕ
  pub entry_size : LedgerEntry → ℕ
  pub envelope_size : V1Envelope → ℕ
  -- `toXdr()` of a signer key.
  pub encode_signer_key : SignerKey → Bytes
  -- The host: the fee of declared resources, rent, and a call under enforcing auth.
  pub compute_resource_fee : Ledger → SorobanTransactionData → ℕ → ℕ → Bool → ResourceFee
  pub entry_size_for_rent : Ledger → LedgerKey → ℕ
  pub compute_rent_fee : Ledger → List RentChange → ℤ
  pub invoke :
      Ledger
      → (host_fn source : Bytes) → SorobanResources
      → (auth : List Bytes) → (restored : List ℕ) → Option ℤ
      → HostReply
  -- Simulations: recording, under enforcing auth, and of the footprint operations.
  pub simulate :
      Ledger → (host_fn source : Bytes) → (leeway : ℕ) → (seq : ℤ) → (upgraded : Bool) → Simulation
  pub simulate_with_auth :
      Ledger
      → (host_fn source : Bytes) → (auth : List Bytes) → (leeway : ℕ) → (seq : ℤ) → Simulation
  pub simulate_extend_ttl :
      Ledger → List LedgerKey → (extend_to : ℕ) → (seq : ℤ) → FootprintSimulation
  pub simulate_restore : Ledger → List LedgerKey → (seq : ℤ) → FootprintSimulation
  -- The hash of an envelope of the legacy arm.
  pub legacy_hash : Bytes → Bytes → Bytes
  -- The encodings of values, and what the SDK reads out of them.
  pub encode_host_function : HostFunction → Bytes
  pub encode_value : ScVal → Bytes
  pub encode_authorization : AuthorizationEntry → Bytes
  pub decode_authorization : Bytes → AuthorizationEntry
  pub decode_event : Bytes → ContractEvent
  -- `nativeToScVal` at type i128, and `scValToNative` of an integer.
  pub i128 : ℤ → ScVal
  pub native_integer : Bytes → ℤ
  -- `Asset.contractId` under a passphrase.
  pub asset_contract_id : Asset → Bytes → Bytes
  -- sha256 of `buildAuthorizationEntryPreimage`, with the expiration and the passphrase.
  pub authorization_payload : AuthorizationEntry → ℕ → Bytes → Bytes
  -- `authorizeEntry`: the entry signed for an expiration, under a passphrase.
  pub authorize_entry :
      AuthorizationEntry → (sign : Bytes → ScVal) → (valid_until : ℕ) → Bytes → AuthorizationEntry
  -- The address in an encoded value; `none`: it is of another arm.
  pub address_value : Bytes → Option ScAddress
  -- `get_wasm_hash`, `get_wasm_key` and `wasm_entry` of the host, and the TTL of a new persistent
  -- entry; `none`: it overflows.
  pub wasm_hash : Bytes → Bytes
  pub wasm_key : Bytes → LedgerKey
  pub wasm_entry : Bytes → LedgerEntry
  pub min_live_until : Ledger → Option ℕ

-- ===== src/Xdr/Contract.antt =====
-- The contract side of the XDR types: values, addresses, host functions, authorization entries, and
-- the SDK's `Asset`.
use lite_soroban.Prelude.{ℕ, ℤ, List, Option}
use lite_soroban.Xdr.Account.{Bytes, AccountId}

pub data ScAddress : Type 0 where
  account_address : AccountId → ScAddress
  contract_address : Bytes → ScAddress

-- `sc_other`: a value of another arm, encoded.
mutual
  pub data ScVal : Type 0 where
    sc_void : ScVal
    sc_symbol : Bytes → ScVal
    sc_bytes : Bytes → ScVal
    sc_address : ScAddress → ScVal
    sc_vec : ScVals → ScVal
    sc_map : ScMap → ScVal
    sc_other : Bytes → ScVal

  pub data ScVals : Type 0 where
    no_vals : ScVals
    val : ScVal → ScVals → ScVals

  pub data ScMap : Type 0 where
    no_entries : ScMap
    map_entry : (key value : ScVal) → ScMap → ScMap

pub data Asset : Type 0 where
  native_asset : Asset
  credit : (code : Bytes) → (issuer : AccountId) → Asset

pub data ContractIdPreimage : Type 0 where
  from_address : (deployer : ScAddress) → (salt : Bytes) → ContractIdPreimage
  from_asset : Asset → ContractIdPreimage

pub data ContractExecutable : Type 0 where
  wasm_executable : (hash : Bytes) → ContractExecutable
  stellar_asset : ContractExecutable

pub data HostFunction : Type 0 where
  upload_contract_wasm : (code : Bytes) → HostFunction
  create_contract : ContractIdPreimage → ContractExecutable → HostFunction
  create_contract_v2 : ContractIdPreimage → ContractExecutable → (args : List ScVal) → HostFunction
  invoke_contract : ScAddress → (fn : Bytes) → (args : List ScVal) → HostFunction

-- `SorobanAddressCredentials`
pub record AddressCredentials : Type 0 where
  pub address : ScAddress
  pub nonce : ℤ
  pub expiration : ℕ
  pub signature : ScVal

-- Delegates stay encoded: no source looks into them.
pub data Credentials : Type 0 where
  source_account_credentials : Credentials
  address_credentials : AddressCredentials → Credentials
  address_credentials_v2 : AddressCredentials → Credentials
  credentials_with_delegates : AddressCredentials → (delegates : List Bytes) → Credentials

pub record AuthorizationEntry : Type 0 where
  pub root_invocation : Bytes
  pub credentials : Credentials

pub record ContractEvent : Type 0 where
  pub contract_id : Option Bytes
  pub topics : List Bytes
  pub event_data : Bytes

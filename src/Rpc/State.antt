-- ===== src/Rpc/State.antt =====
-- What `attachInProcessRpc` of src/fake-rpc.ts keeps between requests, the requests that it
-- answers, and its answers. A number that the wire carries as a string is a number here.
use lite_soroban.Prelude.{
  ℕ, ℤ, pos, ◌-ℤ◌, Bool, List, [], ◌∷◌, Option, none, some, if◌then◌else◌, same_bytes,
}
use lite_soroban.Xdr.{
  Bytes, AccountId, LedgerKey, LedgerEntry, LedgerEntryData, TransactionEnvelope,
  SorobanTransactionData,
}
use lite_soroban.Ledger.{Ledger}
use lite_soroban.Classic.Outcome.{TxOutcome}
use lite_soroban.Rpc.Results.{TransactionResult, TransactionMeta}

-- `BufferedEvent`. The constant fields are left out, and `id` and `pagingToken` are one: the
-- ledger and the position in the log.
pub record BufferedEvent : Type 0 where
  pub ledger : ℕ
  pub closed_at : ℕ
  pub contract_id : Option Bytes
  pub position : ℕ
  pub topics : List Bytes
  pub value : Bytes
  pub tx_hash : Bytes
  pub tx_index : ℕ

pub record SubmittedTx : Type 0 where
  pub hash : Bytes
  pub outcome : TxOutcome
  pub envelope : TransactionEnvelope
  pub result : TransactionResult
  pub meta : TransactionMeta
  pub ledger : ℕ
  pub created_at : ℕ
  pub fee_bump : Bool

pub data Method : Type 0 where
  friendbot_method get_health_method get_network_method get_latest_ledger_method : Method
  get_version_info_method get_fee_stats_method get_events_method get_transactions_method : Method
  get_ledgers_method get_ledger_entries_method simulate_transaction_method : Method
  send_transaction_method get_transaction_method other_method : Method

-- `stats.calls`, `submitted` and `eventLog`.
pub record Adapter : Type 0 where
  pub calls : List Method
  pub submitted : List SubmittedTx
  pub event_log : List BufferedEvent

abbrev pub new_adapter : Adapter
new_adapter = record { calls = []; submitted = []; event_log = [] }

-- `Map.get` and `Map.set`: a hash that is there keeps its place.
unfoldable pub find_tx : Bytes → List SubmittedTx → Option SubmittedTx
find_tx h [] = none
find_tx h (t ∷ ts) = if same_bytes t.hash h then some t else find_tx h ts

unfoldable pub set_tx : SubmittedTx → List SubmittedTx → List SubmittedTx
set_tx t [] = t ∷ []
set_tx t (s ∷ ts) = if same_bytes s.hash t.hash then t ∷ ts else s ∷ set_tx t ts

-- The last closed ledger is the one before the open ledger.
abbrev pub last_closed : Ledger → ℤ
last_closed l = pos l.ledger_seq -ℤ pos 1

-- The JSON value of `useUpgradedAuth`: absent or null, a Boolean, or of another type.
pub data UpgradedAuth : Type 0 where
  omitted : UpgradedAuth
  flag : Bool → UpgradedAuth
  mistyped : (json_type : Bytes) → UpgradedAuth

-- The number `resourceConfig.instructionLeeway`; `fractional`: it is no integer.
pub data Leeway : Type 0 where
  whole : ℤ → Leeway
  fractional : Leeway

-- The parameters of `getEvents`; the handler reads neither `topics`, `end_ledger` nor `cursor`.
pub record EventFilter : Type 0 where
  pub contract_ids : List Bytes
  pub kind : Option Bytes
  pub topics : List (List Bytes)

pub record EventsQuery : Type 0 where
  pub start_ledger : Option ℕ
  pub end_ledger : Option ℕ
  pub filters : List EventFilter
  pub limit : Option ℕ
  pub cursor : Option (ℕ × ℕ)

pub data Request : Type 0 where
  friendbot : (address : Option AccountId) → Request
  get_health get_network get_latest_ledger get_version_info get_fee_stats : Request
  get_events : EventsQuery → Request
  get_transactions : (start : Option ℕ) → Request
  get_ledgers : (start : Option ℤ) → (limit : Option ℕ) → Request
  get_ledger_entries : List LedgerKey → Request
  simulate_transaction : TransactionEnvelope → UpgradedAuth → Leeway → Request
  send_transaction : TransactionEnvelope → Request
  get_transaction : Bytes → Request
  other_request : (method : Bytes) → Request

-- The arguments of `rpcError`.
pub data RpcError : Type 0 where
  start_out_of_range : (start latest : ℤ) → RpcError
  upgraded_auth_mistyped : (json_type : Bytes) → RpcError
  leeway_not_uint64 : Leeway → RpcError

-- `rawTransaction`, and what `getTransaction` puts before it.
pub record RawTransaction : Type 0 where
  pub succeeded : Bool
  pub tx : SubmittedTx

pub record LedgerInfo : Type 0 where
  pub sequence : ℤ
  pub close_time : ℕ

pub record LedgersPage : Type 0 where
  pub ledgers : List LedgerInfo
  pub latest : ℤ
  pub cursor : ℤ

pub record EventsPage : Type 0 where
  pub events : List BufferedEvent
  pub latest : ℤ
  pub cursor : Option (ℕ × ℕ)

pub record EntryInfo : Type 0 where
  pub key : LedgerKey
  pub content : LedgerEntryData
  pub last_modified : ℤ
  pub live_until : Option ℕ

pub record Preflight : Type 0 where
  pub latest : ℤ
  pub min_resource_fee : ℤ
  pub transaction_data : SorobanTransactionData
  pub events : List Bytes
  pub return_value : Option Bytes
  pub auth : List Bytes
  pub cost : Option (ℕ × ℕ)

pub data SendStatus : Type 0 where
  errored : TransactionResult → SendStatus
  pending : SendStatus

-- `throws`: the adapter's promise is rejected with an `Error`.
pub data Response : Type 0 where
  throws : Response
  http_bad_request : Response
  airdropped : (created : LedgerEntry) → Response
  rpc_error : RpcError → Response
  health : (latest : ℤ) → Response
  network : (passphrase : Bytes) → Response
  latest_ledger : (sequence : ℤ) → (close_time : ℕ) → Response
  version_info : Response
  fee_stats : (latest : ℤ) → Response
  events_page : EventsPage → Response
  transactions : List RawTransaction → (latest : ℤ) → Response
  ledgers_page : LedgersPage → Response
  entries : List EntryInfo → (latest : ℤ) → Response
  preflight : Preflight → Response
  preflight_failed : (error : Option Bytes) → (latest : ℤ) → Response
  leeway_too_large : (latest : ℤ) → Response
  sent : SendStatus → (hash : Bytes) → (latest : ℤ) → (close_time : ℕ) → Response
  transaction_found : RawTransaction → (latest : ℤ) → Response
  transaction_not_found : (latest : ℤ) → Response

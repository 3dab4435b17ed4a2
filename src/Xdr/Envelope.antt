-- ===== src/Xdr/Envelope.antt =====
-- Transaction envelopes as src/classic.ts reads them. Host functions and authorization entries
-- stay encoded: only the Soroban host looks into them.
use lite_soroban.Prelude.{ℕ, ℤ, List, Option}
use lite_soroban.Xdr.Account.{Bytes, MuxedAccount, SignerKey, DecoratedSignature}
use lite_soroban.Xdr.Entries.{LedgerKey}

pub record TimeBounds : Type 0 where
  pub min_time : ℕ
  pub max_time : ℕ

pub record LedgerBounds : Type 0 where
  pub min_ledger : ℕ
  pub max_ledger : ℕ

pub record PreconditionsV2 : Type 0 where
  pub time_bounds : Option TimeBounds
  pub ledger_bounds : Option LedgerBounds
  pub min_seq_num : Option ℤ
  pub min_seq_age : ℕ
  pub min_seq_ledger_gap : ℕ
  pub extra_signers : List SignerKey

pub data Preconditions : Type 0 where
  precond_none : Preconditions
  precond_time : TimeBounds → Preconditions
  precond_v2 : PreconditionsV2 → Preconditions

pub data Memo : Type 0 where
  memo_none : Memo
  memo_other : Bytes → Memo

-- `classic n`: any operation that is none of the three of Soroban.
pub data OperationBody : Type 0 where
  invoke_host_function : (host_fn : Bytes) → (auth : List Bytes) → OperationBody
  extend_footprint_ttl : (extend_to : ℕ) → OperationBody
  restore_footprint : OperationBody
  classic : (kind : ℕ) → OperationBody

pub record Operation : Type 0 where
  pub source_account : Option MuxedAccount
  pub body : OperationBody

pub record SorobanResources : Type 0 where
  pub read_only : List LedgerKey
  pub read_write : List LedgerKey
  pub instructions : ℕ
  pub disk_read_bytes : ℕ
  pub write_bytes : ℕ

-- `archived` is `resourceExt.archivedSorobanEntries`, empty under the arm `v0`.
pub record SorobanTransactionData : Type 0 where
  pub resources : SorobanResources
  pub resource_fee : ℤ
  pub archived : List ℕ

-- `soroban_data` is the arm `sorobanData` of `ext`.
pub record Transaction : Type 0 where
  pub source_account : MuxedAccount
  pub fee : ℕ
  pub seq_num : ℤ
  pub cond : Preconditions
  pub memo : Memo
  pub operations : List Operation
  pub soroban_data : Option SorobanTransactionData

pub record V1Envelope : Type 0 where
  pub tx : Transaction
  pub signatures : List DecoratedSignature

pub record FeeBumpTransaction : Type 0 where
  pub fee_source : MuxedAccount
  pub fee : ℤ
  pub inner_tx : V1Envelope

pub record FeeBumpEnvelope : Type 0 where
  pub tx : FeeBumpTransaction
  pub signatures : List DecoratedSignature

-- `tx_v0`: the legacy envelope, which is refused.
pub data TransactionEnvelope : Type 0 where
  tx_v0 : (encoded : Bytes) → TransactionEnvelope
  tx_v1 : V1Envelope → TransactionEnvelope
  tx_fee_bump : FeeBumpEnvelope → TransactionEnvelope

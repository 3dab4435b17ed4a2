-- ===== src/Rpc/Results.antt =====
-- `operationResults`, `transactionResult` and `transactionMeta` of src/fake-rpc.ts: an outcome as
-- the XDR values that a node reports.
use lite_soroban.Prelude.{
  ℤ, Bool, true, false, List, [], ◌∷◌, Option, none, some, if◌then◌else◌, replicate,
}
use lite_soroban.Xdr.{Bytes}
use lite_soroban.Sdk.{Sdk, InvokeResult, trapped}
use lite_soroban.Classic.Outcome.{
  TxOutcome, TxResultCode, tx_success, tx_failed, tx_fee_bump_inner_success,
  tx_fee_bump_inner_failed, OpCode, FootprintOpResult, extend_success, extend_malformed,
  extend_resource_limit_exceeded, extend_insufficient_refundable_fee, SorobanFee,
}

pub data OperationResult : Type 0 where
  bare_result : OpCode → OperationResult
  extend_result : FootprintOpResult → OperationResult
  restore_result : FootprintOpResult → OperationResult
  invoke_success : (hash : Bytes) → OperationResult
  invoke_failure : InvokeResult → OperationResult

-- `outcome.footprintOpResult.startsWith('extend')`
abbrev pub is_extend : FootprintOpResult → Bool
is_extend extend_success = true
is_extend extend_malformed = true
is_extend extend_resource_limit_exceeded = true
is_extend extend_insufficient_refundable_fee = true
is_extend _ = false

abbrev pub returned_hash : Sdk → Option Bytes → Bytes
returned_hash sdk none = replicate 32 0
returned_hash sdk (some v) = sdk.sha256 v

abbrev pub or_trapped : Option InvokeResult → InvokeResult
or_trapped none = trapped
or_trapped (some r) = r

abbrev invoke_result : Sdk → TxOutcome → OperationResult
invoke_result sdk o =
    if o.ok
    then invoke_success (returned_hash sdk o.return_value)
    else invoke_failure (or_trapped o.invoke_result)

abbrev inner_result : Sdk → TxOutcome → OperationResult
inner_result sdk o = elim o.footprint_op_result [
  | none ↦ invoke_result sdk o
  | some r ↦ if is_extend r then extend_result r else restore_result r
]

unfoldable pub operation_results : Sdk → TxOutcome → List OperationResult
operation_results sdk o = elim o.op_code [
  | some c ↦ bare_result c ∷ []
  | none ↦ inner_result sdk o ∷ []
]

-- The arm of a result: with the results of the operations, or bare.
pub data ResultArm : Type 0 where
  with_operations : TxResultCode → List OperationResult → ResultArm
  bare : TxResultCode → ResultArm

-- `transactionResult`'s union: the arms of a fee bump hold the inner hash and the inner arm.
pub data ResultUnion : Type 0 where
  plain_result : ResultArm → ResultUnion
  bump_result : TxResultCode → (inner_hash : Bytes) → ResultArm → ResultUnion

pub record TransactionResult : Type 0 where
  pub fee_charged : ℤ
  pub result : ResultUnion

-- `txSuccess` and `txFailed` hold operation results; every other arm of the kind is bare.
abbrev pub arm_of : TxResultCode → List OperationResult → ResultArm
arm_of tx_success ops = with_operations tx_success ops
arm_of tx_failed ops = with_operations tx_failed ops
arm_of c ops = bare c

-- `outcome.innerCode ?? (outcome.ok ? 'txSUCCESS' : 'txFAILED')`
abbrev pub inner_code_of : TxOutcome → TxResultCode
inner_code_of o = elim o.inner_code [ some c ↦ c | none ↦ if o.ok then tx_success else tx_failed ]

abbrev union_of : TxResultCode → TxResultCode → Bytes → List OperationResult → ResultUnion
union_of tx_fee_bump_inner_success inner hash ops =
    bump_result tx_fee_bump_inner_success hash (arm_of inner ops)
union_of tx_fee_bump_inner_failed inner hash ops =
    bump_result tx_fee_bump_inner_failed hash (arm_of inner ops)
union_of c inner hash ops = plain_result (arm_of c ops)

unfoldable pub transaction_result : Sdk → TxOutcome → (inner_hash : Bytes) → TransactionResult
unfolding operation_results
transaction_result sdk o inner_hash = record {
  fee_charged = o.fee_charged;
  result = union_of o.code (inner_code_of o) inner_hash (operation_results sdk o);
}

-- What `transactionMeta` fills in; the other parts of the meta are empty.
pub record TransactionMeta : Type 0 where
  pub return_value : Option Bytes
  pub fee : Option SorobanFee
  pub diagnostic_events : List Bytes

abbrev pub or_empty {ℓ} : {A : Type ℓ} → Option (List A) → List A
or_empty none = []
or_empty (some xs) = xs

-- `none` as the return value is `scvVoid`.
unfoldable pub transaction_meta : TxOutcome → TransactionMeta
transaction_meta o = record {
  return_value = o.return_value;
  fee = o.soroban_fee;
  diagnostic_events = or_empty o.diagnostic_events;
}

-- ===== src/Classic/Fees.antt =====
-- The fee rules of src/classic.ts that read only the envelope.
pub mod Bounds
use lite_soroban.Prelude.{
  ℕ, ◌+◌, ◌-◌, ◌*◌, ◌/◌, ◌^◌, max, ℤ, pos, negsuc, ◌+ℤ◌, ◌-ℤ◌, ltb_ℤ, Bool, true, false, ◌||◌, List,
  [], ◌∷◌, Option, none, some, if◌then◌else◌, ltb, length,
}
use lite_soroban.Xdr.{
  OperationBody, invoke_host_function, extend_footprint_ttl, restore_footprint, classic, Operation,
  SorobanTransactionData, Transaction, V1Envelope, FeeBumpEnvelope, TransactionEnvelope, tx_v0,
  tx_v1, tx_fee_bump,
}
use lite_soroban.Classic.Outcome.{
  Detail, no_soroban_data, resource_fee_out_of_range, inclusion_fee_negative,
}
use lite_soroban.Classic.Accounts.{base_fee}

-- `SOROBAN_OP_TYPES.has(type)`
abbrev pub is_soroban_op : OperationBody → Bool
is_soroban_op (classic n) = false
is_soroban_op (invoke_host_function f auth) = true
is_soroban_op (extend_footprint_ttl n) = true
is_soroban_op restore_footprint = true

-- 2 ^ 50
abbrev pub max_resource_fee : ℤ
max_resource_fee = pos 1125899906842624

abbrev pub fee_range_problem : Option SorobanTransactionData → Option Detail
fee_range_problem none = some no_soroban_data
fee_range_problem (some d) =
    if ltb_ℤ d.resource_fee (pos 0) || ltb_ℤ max_resource_fee d.resource_fee
    then some (resource_fee_out_of_range d.resource_fee)
    else none

abbrev first_op_problem : List Operation → Option SorobanTransactionData → Option Detail
first_op_problem [] d = none
first_op_problem (o ∷ os) d = if is_soroban_op o.body then fee_range_problem d else none

unfoldable pub xdr_provides_valid_fee : Transaction → Option Detail
xdr_provides_valid_fee tx = first_op_problem tx.operations tx.soroban_data

abbrev fee_declared : Option SorobanTransactionData → ℤ
fee_declared none = pos 0
fee_declared (some d) = d.resource_fee

unfoldable pub declared_resource_fee : Transaction → ℤ
declared_resource_fee tx = fee_declared tx.soroban_data

unfoldable pub negative_inclusion_fee : (full resource : ℤ) → Option Detail
negative_inclusion_fee full resource =
    if ltb_ℤ full (pos 0) || ltb_ℤ (full -ℤ resource) (pos 0)
    then some (inclusion_fee_negative (full -ℤ resource) resource full)
    else none

-- The resource fee, and the inclusion fee up to the base fee for each operation.
unfoldable pub fee_to_charge : (full resource : ℤ) → (operations : ℕ) → ℤ
fee_to_charge full resource operations =
    let inclusion = full -ℤ resource in
    let cap = pos (base_fee * max 1 operations) in
    resource +ℤ (if ltb_ℤ inclusion cap then inclusion else cap)

nominal_of : Transaction → ℕ → ℤ
unfolding declared_resource_fee
nominal_of tx ops = declared_resource_fee tx +ℤ pos (base_fee * max 1 ops)

-- What a rejected envelope reports; a fee bump counts one more operation.
unfoldable pub nominal_fee : TransactionEnvelope → Option ℤ
unfolding nominal_of
nominal_fee (tx_v0 b) = none
nominal_fee (tx_v1 e) = some (nominal_of e.tx (length e.tx.operations))
nominal_fee (tx_fee_bump e) =
    some (nominal_of e.tx.inner_tx.tx (length e.tx.inner_tx.tx.operations + 1))

-- `minInclusion`: the base fee for each operation, one at least.
abbrev pub min_inclusion : ℕ → ℕ
min_inclusion ops = base_fee * max 1 ops

-- The rate test of a fee bump: `none`, or the fee that would be needed.
unfoldable pub bump_rate_problem : (inclusion inner_inclusion : ℤ) → (inner_ops : ℕ) → Option ℕ
bump_rate_problem (pos inclusion) (pos inner) ops =
    let v1 = inclusion * min_inclusion ops in
    let v2 = inner * min_inclusion (ops + 1) in
    if ltb v1 v2 then some ((v2 + min_inclusion ops - 1) / min_inclusion ops) else none
bump_rate_problem (negsuc n) (pos inner) ops =
    some ((inner * min_inclusion (ops + 1) + min_inclusion ops - 1) / min_inclusion ops)
bump_rate_problem inclusion (negsuc n) ops = none

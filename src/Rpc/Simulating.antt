-- ===== src/Rpc/Simulating.antt =====
-- `simulateTransaction` of src/fake-rpc.ts.
use lite_soroban.Prelude.{
  ℕ, ℤ, pos, ltb_ℤ, pos_part, Bool, false, List, [], ◌∷◌, Option, none, some, if◌then◌else◌, ◌||◌,
}
use lite_soroban.Xdr.{
  Bytes, LedgerKey, Transaction, TransactionEnvelope, tx_v0, tx_v1, tx_fee_bump, Operation,
  OperationBody, invoke_host_function, extend_footprint_ttl, restore_footprint, classic,
  SorobanResources, SorobanTransactionData,
}
use lite_soroban.Sdk.{Sdk, Simulation, FootprintSimulation}
use lite_soroban.Ledger.{Ledger}
use lite_soroban.Host.{next_seed}
use lite_soroban.Classic.Accounts.{muxed_to_account_id}
use lite_soroban.Rpc.State.{
  UpgradedAuth, omitted, flag, mistyped, Leeway, whole, fractional, Response, throws, rpc_error,
  upgraded_auth_mistyped, leeway_not_uint64, preflight, preflight_failed, leeway_too_large,
  last_closed,
}

abbrev transaction_data : SorobanResources → ℤ → SorobanTransactionData
transaction_data r fee = record { resources = r; resource_fee = fee; archived = [] }

-- The footprint of the transaction's own data.
abbrev read_only_of : Option SorobanTransactionData → List LedgerKey
read_only_of none = []
read_only_of (some d) = d.resources.read_only

abbrev read_write_of : Option SorobanTransactionData → List LedgerKey
read_write_of none = []
read_write_of (some d) = d.resources.read_write

unfoldable pub footprint_answer : Ledger → FootprintSimulation → Response
footprint_answer l s =
    if s.ok
    then preflight (record {
      latest = last_closed l;
      min_resource_fee = s.min_resource_fee;
      transaction_data = transaction_data s.resources s.min_resource_fee;
      events = [];
      return_value = none;
      auth = [];
      cost = none;
    })
    else preflight_failed s.error (last_closed l)

abbrev supplied_or_recorded : List Bytes → List Bytes → List Bytes
supplied_or_recorded [] recorded = recorded
supplied_or_recorded (a ∷ rest) recorded = a ∷ rest

unfoldable pub call_answer : Ledger → (supplied : List Bytes) → Simulation → Response
call_answer l supplied s =
    if s.ok
    then preflight (record {
      latest = last_closed l;
      min_resource_fee = s.min_resource_fee;
      transaction_data = transaction_data s.resources s.min_resource_fee;
      -- Each as the diagnostic event of a successful call.
      events = s.events;
      return_value = s.return_value;
      auth = supplied_or_recorded supplied s.auth;
      cost = some (s.cpu_insns, s.mem_bytes);
    })
    else preflight_failed s.error (last_closed l)

abbrev max_safe_integer : ℤ
max_safe_integer = pos 9_007_199_254_740_991

-- An envelope that carries auth is simulated under enforcing auth.
abbrev simulation_of :
    Sdk → Ledger → (host_fn source : Bytes) → (supplied : List Bytes) → ℕ → Bool → Simulation
simulation_of sdk l f source [] leeway upgraded =
    sdk.simulate l f source leeway (last_closed l) upgraded
simulation_of sdk l f source (a ∷ rest) leeway upgraded =
    sdk.simulate_with_auth l f source (a ∷ rest) leeway (last_closed l)

-- The leeway has to be a uint64 that JavaScript holds exactly, and then a u32.
unfoldable pub simulate_call :
    Sdk
    → Ledger
    → Transaction
    → (host_fn : Bytes) → (supplied : List Bytes) → Leeway
    → Bool
    → Response × Ledger
unfolding call_answer
simulate_call sdk l tx f supplied fractional upgraded =
    (rpc_error (leeway_not_uint64 fractional), l)
simulate_call sdk l tx f supplied (whole n) upgraded =
    if ltb_ℤ n (pos 0) || ltb_ℤ max_safe_integer n
    then (rpc_error (leeway_not_uint64 (whole n)), l)
    else if ltb_ℤ (pos 4_294_967_295) n
    then (leeway_too_large (last_closed l), l)
    else (
      call_answer l supplied (
          simulation_of sdk l f (muxed_to_account_id tx.source_account) supplied (pos_part n)
            upgraded),
      next_seed l,
    )

unfoldable pub simulate_body :
    Sdk → Ledger → Transaction → OperationBody → Leeway → Bool → Response × Ledger
unfolding simulate_call footprint_answer
simulate_body sdk l tx (extend_footprint_ttl to) leeway upgraded = (
  footprint_answer l (sdk.simulate_extend_ttl l (read_only_of tx.soroban_data) to (last_closed l)),
  l,
)
simulate_body sdk l tx restore_footprint leeway upgraded =
    (footprint_answer l (sdk.simulate_restore l (read_write_of tx.soroban_data) (last_closed l)), l)
simulate_body sdk l tx (invoke_host_function f supplied) leeway upgraded =
    simulate_call sdk l tx f supplied leeway upgraded
simulate_body sdk l tx (classic n) leeway upgraded = (throws, l)

-- The first operation.
abbrev pub simulate_first :
    Sdk → Ledger → Transaction → List Operation → Leeway → Bool → Response × Ledger
simulate_first sdk l tx [] leeway upgraded = (throws, l)
simulate_first sdk l tx (o ∷ os) leeway upgraded = simulate_body sdk l tx o.body leeway upgraded

abbrev pub simulate_envelope :
    Sdk → Ledger → TransactionEnvelope → Leeway → Bool → Response × Ledger
simulate_envelope sdk l (tx_v1 e) leeway upgraded =
    simulate_first sdk l e.tx e.tx.operations leeway upgraded
simulate_envelope sdk l (tx_v0 b) leeway upgraded = (throws, l)
simulate_envelope sdk l (tx_fee_bump e) leeway upgraded = (throws, l)

unfoldable pub simulate_transaction_response :
    Sdk → Ledger → TransactionEnvelope → UpgradedAuth → Leeway → Response × Ledger
unfolding simulate_body
simulate_transaction_response sdk l e omitted leeway = simulate_envelope sdk l e leeway false
simulate_transaction_response sdk l e (flag b) leeway = simulate_envelope sdk l e leeway b
simulate_transaction_response sdk l e (mistyped t) leeway =
    (rpc_error (upgraded_auth_mistyped t), l)

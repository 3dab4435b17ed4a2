-- ===== src/Host.antt =====
-- `Ledger.send`, `simulate`, `simulateWithAuth` and `simulateAndSend` of src/index.ts: the host's reply, and the loop of `SorobanEnv::send`
-- (crates/host-wasm/src/lib.rs) that writes the changes of a successful call.
use lite_soroban.Prelude.{ℕ, ◌+◌, ◌%◌, ℤ, pos, Bool, false, List, Option, none, some, if◌then◌else◌}
use lite_soroban.Xdr.{
  Bytes, SorobanResources, HostFunction, upload_contract_wasm, ScAddress, AccountId,
  account_address, ScVal, invoke_contract, create_contract_v2, from_address, wasm_executable,
}
use lite_soroban.Ledger.{Ledger, apply_changes}
use lite_soroban.Ledger.Entries.{StoredEntry, insert}
use lite_soroban.Sdk.{Sdk, HostReply, Simulation}

unfoldable pub send :
    Sdk
    → Ledger
    → (host_fn source : Bytes) → SorobanResources
    → (auth : List Bytes) → (restored : List ℕ) → Option ℤ
    → HostReply × Ledger
send sdk l host_fn source r auth restored max_refundable =
    let reply = sdk.invoke l host_fn source r auth restored max_refundable in
    (reply, record l { store = if reply.ok then apply_changes reply.changes l.store else l.store })

-- A simulation takes the next seed of the generator, and leaves the rest as it is.
abbrev pub next_seed : Ledger → Ledger
next_seed l = record l { prng_counter = (l.prng_counter + 1) % 18446744073709551616 }

unfoldable pub simulate :
    Sdk
    → Ledger
    → HostFunction
    → (source : Bytes) → (leeway : ℕ) → (seq : ℤ) → (upgraded : Bool) → Simulation × Ledger
simulate sdk l f source leeway seq upgraded =
    (sdk.simulate l (sdk.encode_host_function f) source leeway seq upgraded, next_seed l)

unfoldable pub simulate_with_auth :
    Sdk
    → Ledger
    → HostFunction
    → (source : Bytes) → (auth : List Bytes) → (leeway : ℕ) → (seq : ℤ) → Simulation × Ledger
simulate_with_auth sdk l f source auth leeway seq =
    (sdk.simulate_with_auth l (sdk.encode_host_function f) source auth leeway seq, next_seed l)

-- `send` without a refundable fee to keep to.
abbrev pub send_simulated :
    Sdk
    → Ledger
    → HostFunction
    → (source : Bytes) → Simulation
    → (auth : List Bytes) → HostReply × Ledger
send_simulated sdk l f source s auth =
    send sdk l (sdk.encode_host_function f) source s.resources auth s.restored none

-- The open ledger, in which a simulation runs that names none.
abbrev pub open_ledger : Ledger → ℤ
open_ledger l = pos l.ledger_seq

-- `simulateAndSend`; `none`: it throws, the simulation having failed.
unfoldable pub simulate_and_send :
    Sdk → Ledger → HostFunction → (source : Bytes) → Option (Simulation × HostReply) × Ledger
unfolding simulate send
simulate_and_send sdk l f source =
    let (sim, l') = simulate sdk l f source 0 (open_ledger l) false in
    let (sent, l'') = send_simulated sdk l' f source sim sim.auth in
    if sim.ok then (some (sim, sent), l'') else (none, l')

-- The builders of host functions of src/index.ts.
abbrev pub account_sc_address : AccountId → ScAddress
account_sc_address id = account_address id

abbrev pub upload_wasm_host_fn : Bytes → HostFunction
upload_wasm_host_fn code = upload_contract_wasm code

abbrev pub create_contract_host_fn :
    (deployer : AccountId) → (wasm_hash salt : Bytes) → (args : List ScVal) → HostFunction
create_contract_host_fn deployer wasm_hash salt args =
    create_contract_v2 (from_address (account_sc_address deployer) salt) (wasm_executable wasm_hash)
      args

abbrev pub invoke_host_fn : ScAddress → (fn : Bytes) → List ScVal → HostFunction
invoke_host_fn address fn args = invoke_contract address fn args

-- `seedWasm`: the code's entry, and its hash; `none`: the TTL overflows.
unfoldable pub seed_wasm : Sdk → Ledger → Bytes → Option (Bytes × Ledger)
seed_wasm sdk l code = elim (sdk.min_live_until l) [
  | none ↦ none
  | some until ↦
      let e : StoredEntry = record { entry = sdk.wasm_entry code; live_until = some until } in
      some (sdk.wasm_hash code, record l { store = insert (sdk.wasm_key code) e l.store })
]

abbrev pub set_timestamp : Ledger → ℕ → Ledger
set_timestamp l t = record l { timestamp = t }

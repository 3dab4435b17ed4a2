-- ===== src/Facade/Calls.antt =====
-- `applyHostFn` of src/litestellar.ts, and the calls that go through it.
use lite_soroban.Prelude.{ℕ, ◌+◌, false, List, [], ◌∷◌, Option, none, some, if◌then◌else◌}
use lite_soroban.Xdr.{Bytes, AccountId, ScVal, ScAddress, HostFunction}
use lite_soroban.Sdk.{Sdk, HostReply, Simulation}
use lite_soroban.Ledger.{Ledger}
use lite_soroban.Host.{
  simulate, simulate_with_auth, send_simulated, open_ledger, invoke_host_fn,
  create_contract_host_fn, upload_wasm_host_fn, seed_wasm,
}
use lite_soroban.Fixtures.{Wallet}
use lite_soroban.Facade.{LiteStellar, payer, next_salt}
use lite_soroban.Facade.Signing.{sign_auth_entries_sync}

-- `caller` is the option `as`.
pub record InvokeOptions : Type 0 where
  pub caller : Option Wallet
  pub sign_auth : Option (Bytes → ScVal)
  pub valid_until : Option ℕ

-- The prefix of a failure's message.
pub data Stage : Type 0 where
  simulation_failed authorization_failed invocation_failed : Stage

pub record Applied : Type 0 where
  pub sim : Simulation
  pub sent : HostReply

pub data Result : Type 0 where
  failed : Stage → (raw : Option Bytes) → Simulation → Result
  applied : Applied → Result

-- The simulation and the authorization that the call is sent with, or the failed simulation.
pub data Prepared : Type 0 where
  ready : Simulation → (auth : List Bytes) → Prepared
  refused : Simulation → Prepared

abbrev until_of : Option ℕ → Ledger → ℕ
until_of none l = l.ledger_seq + 100
until_of (some n) l = n

abbrev enforced : Simulation → List Bytes → Prepared
enforced sim auth = if sim.ok then ready sim auth else refused sim

-- Entries to sign, and a signer: signed, and simulated again under enforcing auth.
unfoldable pub prepare :
    Sdk
    → Ledger
    → HostFunction
    → (source : AccountId) → InvokeOptions
    → Simulation
    → Option (Bytes → ScVal)
    → List Bytes
    → Prepared × Ledger
unfolding simulate_with_auth sign_auth_entries_sync
prepare sdk l f source opts sim none auth = (ready sim auth, l)
prepare sdk l f source opts sim (some sign) [] = (ready sim [], l)
prepare sdk l f source opts sim (some sign) (a ∷ rest) =
    let auth =
      sign_auth_entries_sync sdk (a ∷ rest) sign l.network_passphrase
        (until_of opts.valid_until l) in
    let (again, l') = simulate_with_auth sdk l f source auth 0 (open_ledger l) in
    (enforced again auth, l')

abbrev pub result_of : Simulation → HostReply → Result
result_of sim sent =
    if sent.ok
    then applied (record { sim = sim; sent = sent })
    else failed invocation_failed sent.error sim

unfoldable pub send_prepared :
    Sdk → Ledger → HostFunction → (source : AccountId) → Prepared → Result × Ledger
send_prepared sdk l f source (refused sim) = (failed authorization_failed sim.error sim, l)
send_prepared sdk l f source (ready sim auth) =
    let (sent, l') = send_simulated sdk l f source sim auth in (result_of sim sent, l')

unfoldable pub apply_host_fn :
    Sdk → Ledger → HostFunction → (source : AccountId) → InvokeOptions → Result × Ledger
unfolding simulate prepare send_prepared
apply_host_fn sdk l f source opts =
    let (recorded, l1) = simulate sdk l f source 0 (open_ledger l) false in
    let (p, l2) = prepare sdk l1 f source opts recorded opts.sign_auth recorded.auth in
    if recorded.ok
    then send_prepared sdk l2 f source p
    else (failed simulation_failed recorded.error recorded, l1)

abbrev pub source_of : LiteStellar → Option Wallet → (random_id : AccountId) → Wallet × LiteStellar
source_of s (some w) id = (w, s)
source_of s none id = payer s id

unfoldable pub invoke_contract :
    Sdk
    → LiteStellar
    → (random_id : AccountId) → ScAddress
    → (fn : Bytes) → List ScVal
    → InvokeOptions
    → Result × LiteStellar
unfolding apply_host_fn
invoke_contract sdk s random_id address fn args opts =
    let (w, s') = source_of s opts.caller random_id in
    let (r, l) = apply_host_fn sdk s'.ledger (invoke_host_fn address fn args) w.account_id opts in
    (r, record s' { ledger = l })

-- The address of a deployed contract is the value that the host returns; `none`: it throws.
abbrev contract_of : Sdk → Result → Option ScAddress
contract_of sdk (failed stage raw sim) = none
contract_of sdk (applied a) = elim a.sent.return_value [
  | none ↦ none
  | some v ↦ sdk.address_value v
]

abbrev salt_for : LiteStellar → Option Bytes → Option Bytes × LiteStellar
salt_for s (some salt) = (some salt, s)
salt_for s none = next_salt s

unfoldable pub deploy_from_hash :
    Sdk
    → LiteStellar
    → (random_id : AccountId) → (wasm_hash : Bytes) → (salt : Option Bytes) → (args : List ScVal)
    → InvokeOptions
    → Option ScAddress × LiteStellar
unfolding apply_host_fn next_salt
deploy_from_hash sdk s random_id wasm_hash salt args opts =
    let (w, s1) = source_of s opts.caller random_id in
    let (chosen, s2) = salt_for s1 salt in
    elim chosen [
      | none ↦ (none, s2)
      | some b ↦
          let f = create_contract_host_fn w.account_id wasm_hash b args in
          let (r, l) = apply_host_fn sdk s2.ledger f w.account_id opts in
          (contract_of sdk r, record s2 { ledger = l })
    ]

-- `deployContract`: the code is written without a transaction.
unfoldable pub deploy_contract :
    Sdk
    → LiteStellar
    → (random_id : AccountId) → (wasm : Bytes) → (salt : Option Bytes) → (args : List ScVal)
    → InvokeOptions
    → Option ScAddress × LiteStellar
unfolding deploy_from_hash seed_wasm
deploy_contract sdk s random_id wasm salt args opts = elim (seed_wasm sdk s.ledger wasm) [
  | none ↦ (none, s)
  | some seeded ↦
      deploy_from_hash sdk (record s { ledger = seeded.1 }) random_id seeded.0 salt args opts
]

-- The value that an upload returns; `none`: it throws.
unfoldable pub upload_contract :
    Sdk
    → LiteStellar
    → (random_id : AccountId) → (wasm : Bytes) → (caller : Option Wallet)
    → Option Bytes × LiteStellar
unfolding simulate
upload_contract sdk s random_id wasm caller =
    let (w, s') = source_of s caller random_id in
    let f = upload_wasm_host_fn wasm in
    let (sim, l1) = simulate sdk s'.ledger f w.account_id 0 (open_ledger s'.ledger) false in
    let (sent, l2) = send_simulated sdk l1 f w.account_id sim sim.auth in
    if sim.ok
    then (if sent.ok then sent.return_value else none, record s' { ledger = l2 })
    else (none, record s' { ledger = l1 })

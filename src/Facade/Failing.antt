-- ===== src/Facade/Failing.antt =====
-- A call through src/litestellar.ts that fails.
use lite_soroban.Prelude.{
  Bool, true, false, List, [], ◌∷◌, Option, none, some, ◌≡◌, refl, ◌∙◌, arith, ap, if◌then◌else◌,
}
use lite_soroban.Xdr.{Bytes, AccountId, ScVal, HostFunction}
use lite_soroban.Sdk.{Sdk, HostReply, Simulation}
use lite_soroban.Ledger.{Ledger}
use lite_soroban.Host.{simulate, simulate_with_auth, send, send_simulated, next_seed, open_ledger}
use lite_soroban.Rpc.Runs.{without_counter}
use lite_soroban.Facade.Calls.{
  InvokeOptions, Stage, Result, failed, Prepared, ready, refused, prepare, send_prepared,
  apply_host_fn, result_of,
}

seeded : (l : Ledger) → without_counter (next_seed l) ≡ without_counter l
unfolding without_counter
seeded l = refl

prepare_keeps :
    (sdk : Sdk) (l : Ledger) (f : HostFunction) (source : AccountId) (opts : InvokeOptions)
    (sim : Simulation) (sign : Option (Bytes → ScVal)) (auth : List Bytes)
    → without_counter (prepare sdk l f source opts sim sign auth).1 ≡ without_counter l
unfolding prepare simulate_with_auth without_counter
prepare_keeps sdk l f source opts sim none auth = refl
prepare_keeps sdk l f source opts sim (some sign) [] = refl
prepare_keeps sdk l f source opts sim (some sign) (a ∷ rest) = refl

-- A call of the host that is not ok writes nothing.
send_failed :
    (sdk : Sdk) (l : Ledger) (f : HostFunction) (source : AccountId) (sim : Simulation)
    (auth : List Bytes)
    → (send_simulated sdk l f source sim auth).0.ok ≡ false
    → (send_simulated sdk l f source sim auth).1 ≡ l
unfolding send
send_failed sdk l f source sim auth h = rw h refl

was_not_ok :
    (s sim : Simulation) (r : HostReply) (stage : Stage) (raw : Option Bytes)
    → result_of s r ≡ failed stage raw sim
    → r.ok ≡ false
was_not_ok s sim r stage raw h = ground arith

send_prepared_failed :
    (sdk : Sdk) (l : Ledger) (f : HostFunction) (source : AccountId) (p : Prepared) (stage : Stage)
    (raw : Option Bytes) (sim : Simulation)
    → (send_prepared sdk l f source p).0 ≡ failed stage raw sim
    → (send_prepared sdk l f source p).1 ≡ l
unfolding send_prepared
send_prepared_failed sdk l f source (refused s) stage raw sim h = refl
send_prepared_failed sdk l f source (ready s auth) stage raw sim h =
    send_failed sdk l f source s auth
      (was_not_ok s sim (send_simulated sdk l f source s auth).0 stage raw h)

branch {ℓ} :
    (b : Bool) (x y : Result × Ledger) (r : Result) (P : Ledger → Type ℓ)
    → (x.0 ≡ r → P x.1)
    → (y.0 ≡ r → P y.1)
    → (if b then x else y).0 ≡ r
    → P (if b then x else y).1
branch true x y r P f g h = f h
branch false x y r P f g h = g h

-- A call that fails, in its simulation, in the simulation with its signatures or on the host, leaves
-- the store, the clock and the snapshots as they were.
pub apply_host_fn_failed :
    (sdk : Sdk) (l : Ledger) (f : HostFunction) (source : AccountId) (opts : InvokeOptions)
    (stage : Stage) (raw : Option Bytes) (sim : Simulation)
    → (apply_host_fn sdk l f source opts).0 ≡ failed stage raw sim
    → without_counter (apply_host_fn sdk l f source opts).1 ≡ without_counter l
unfolding apply_host_fn simulate
apply_host_fn_failed sdk l f source opts stage raw sim h =
    let (recorded, l1) = simulate sdk l f source 0 (open_ledger l) false in
    let (p, l2) = prepare sdk l1 f source opts recorded opts.sign_auth recorded.auth in
    branch recorded.ok (send_prepared sdk l2 f source p)
      (failed Stage.simulation_failed recorded.error recorded, l1) (failed stage raw sim)
      (λ m. without_counter m ≡ without_counter l)
      (λ k.
        ap without_counter (send_prepared_failed sdk l2 f source p stage raw sim k)
        ∙ prepare_keeps sdk l1 f source opts recorded opts.sign_auth recorded.auth
        ∙ seeded l)
      (λ k. seeded l) h

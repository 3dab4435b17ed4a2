-- ===== src/Rpc/Runs.antt =====
-- What the requests to src/fake-rpc.ts keep: the ones that read, and a run of any of them.
use lite_soroban.Prelude.{ℕ, Bool, true, false, List, [], ◌∷◌, ◌++◌, ◌≡◌, refl, arith}
use lite_soroban.Xdr.{
  TransactionEnvelope, tx_v0, tx_v1, tx_fee_bump, Transaction, Operation, OperationBody,
  invoke_host_function, extend_footprint_ttl, restore_footprint, classic,
}
use lite_soroban.Sdk.{Sdk}
use lite_soroban.Ledger.{Ledger}
use lite_soroban.Rpc.State.{
  Adapter, Request, Leeway, whole, fractional, UpgradedAuth, omitted, flag, mistyped,
}
use lite_soroban.Rpc.Simulating.{
  simulate_call, simulate_body, simulate_transaction_response, simulate_first, simulate_envelope,
}
use lite_soroban.Rpc.Submitting.{Submit}
use lite_soroban.Rpc.Serve.{method_of, answer, handle, serve}

-- Neither `sendTransaction` nor a request to the friendbot.
abbrev pub reads : Request → Bool
reads (Request.friendbot a) = false
reads (Request.send_transaction e) = false
reads _ = true

-- The ledger without the counter of the generator.
unfoldable pub without_counter : Ledger → Ledger
without_counter l = record l { prng_counter = 0 }

simulate_call_keeps :
    (sdk : Sdk) (l : Ledger) (tx : Transaction) (f : List ℕ) (supplied : List (List ℕ)) (n : Leeway)
    (b : Bool)
    → without_counter (simulate_call sdk l tx f supplied n b).1 ≡ without_counter l
unfolding simulate_call without_counter
simulate_call_keeps sdk l tx f supplied fractional b = refl
simulate_call_keeps sdk l tx f supplied (whole n) b = ground arith

simulate_body_keeps :
    (sdk : Sdk) (l : Ledger) (tx : Transaction) (body : OperationBody) (n : Leeway) (b : Bool)
    → without_counter (simulate_body sdk l tx body n b).1 ≡ without_counter l
unfolding simulate_body
simulate_body_keeps sdk l tx (invoke_host_function f auth) n b =
    simulate_call_keeps sdk l tx f auth n b
simulate_body_keeps sdk l tx (extend_footprint_ttl to) n b = refl
simulate_body_keeps sdk l tx restore_footprint n b = refl
simulate_body_keeps sdk l tx (classic k) n b = refl

simulate_first_keeps :
    (sdk : Sdk) (l : Ledger) (tx : Transaction) (ops : List Operation) (n : Leeway) (b : Bool)
    → without_counter (simulate_first sdk l tx ops n b).1 ≡ without_counter l
simulate_first_keeps sdk l tx [] n b = refl
simulate_first_keeps sdk l tx (o ∷ os) n b = simulate_body_keeps sdk l tx o.body n b

simulate_envelope_keeps :
    (sdk : Sdk) (l : Ledger) (e : TransactionEnvelope) (n : Leeway) (b : Bool)
    → without_counter (simulate_envelope sdk l e n b).1 ≡ without_counter l
simulate_envelope_keeps sdk l (tx_v1 e) n b = simulate_first_keeps sdk l e.tx e.tx.operations n b
simulate_envelope_keeps sdk l (tx_v0 e) n b = refl
simulate_envelope_keeps sdk l (tx_fee_bump e) n b = refl

simulate_keeps :
    (sdk : Sdk) (l : Ledger) (e : TransactionEnvelope) (u : UpgradedAuth) (n : Leeway)
    → without_counter (simulate_transaction_response sdk l e u n).1 ≡ without_counter l
unfolding simulate_transaction_response
simulate_keeps sdk l e omitted n = simulate_envelope_keeps sdk l e n false
simulate_keeps sdk l e (flag b) n = simulate_envelope_keeps sdk l e n b
simulate_keeps sdk l e (mistyped t) n = refl

-- A request that is neither a submission nor to the friendbot keeps the ledger, except for the
-- counter of the generator, and all that the adapter has of transactions and events; its call is
-- recorded.
pub handle_unchanged :
    (sdk : Sdk) (submit : Submit) (a : Adapter) (l : Ledger) (r : Request)
    → reads r ≡ true
    → let (b, m) = (handle sdk submit a l r).1 in
      (without_counter m ≡ without_counter l)
      × (b ≡ record a { calls = a.calls ++ method_of r ∷ [] })
unfolding handle answer
handle_unchanged sdk submit a l (Request.friendbot id) h = cc
handle_unchanged sdk submit a l Request.get_health h = (refl, refl)
handle_unchanged sdk submit a l Request.get_network h = (refl, refl)
handle_unchanged sdk submit a l Request.get_latest_ledger h = (refl, refl)
handle_unchanged sdk submit a l Request.get_version_info h = (refl, refl)
handle_unchanged sdk submit a l Request.get_fee_stats h = (refl, refl)
handle_unchanged sdk submit a l (Request.get_events q) h = (refl, refl)
handle_unchanged sdk submit a l (Request.get_transactions s) h = (refl, refl)
handle_unchanged sdk submit a l (Request.get_ledgers s n) h = (refl, refl)
handle_unchanged sdk submit a l (Request.get_ledger_entries ks) h = (refl, refl)
handle_unchanged sdk submit a l (Request.simulate_transaction e u n) h =
    (simulate_keeps sdk l e u n, refl)
handle_unchanged sdk submit a l (Request.send_transaction e) h = cc
handle_unchanged sdk submit a l (Request.get_transaction k) h = (refl, refl)
handle_unchanged sdk submit a l (Request.other_request k) h = (refl, refl)

-- What every request keeps, a run of requests keeps.
pub serve_inv {ℓ} :
    (P : Adapter → Ledger → Type ℓ) (sdk : Sdk) (submit : Submit)
    → ((a : Adapter) (l : Ledger) (r : Request)
        → P a l
        → P (handle sdk submit a l r).1.0 (handle sdk submit a l r).1.1)
    → (rs : List Request) (a : Adapter) (l : Ledger) → P a l
    → P (serve sdk submit rs (a, l)).0 (serve sdk submit rs (a, l)).1
unfolding serve
serve_inv P sdk submit step [] a l h = h
serve_inv P sdk submit step (r ∷ rs) a l h =
    let (b, m) = (handle sdk submit a l r).1 in serve_inv P sdk submit step rs b m (step a l r h)

-- ===== src/Rpc/Serve.antt =====
-- The handler that `attachInProcessRpc` of src/fake-rpc.ts installs.
use lite_soroban.Prelude.{List, [], ◌∷◌, ◌++◌}
use lite_soroban.Sdk.{Sdk}
use lite_soroban.Ledger.{Ledger}
use lite_soroban.Rpc.State.{Adapter, Method, Request, Response, last_closed}
use lite_soroban.Rpc.Reading.{
  get_events, get_transactions, get_ledgers, get_ledger_entries, get_transaction_response,
}
use lite_soroban.Rpc.Simulating.{simulate_transaction_response}
use lite_soroban.Rpc.Submitting.{Submit, friendbot_response, send_transaction_response}

abbrev pub method_of : Request → Method
method_of (Request.friendbot a) = Method.friendbot_method
method_of Request.get_health = Method.get_health_method
method_of Request.get_network = Method.get_network_method
method_of Request.get_latest_ledger = Method.get_latest_ledger_method
method_of Request.get_version_info = Method.get_version_info_method
method_of Request.get_fee_stats = Method.get_fee_stats_method
method_of (Request.get_events q) = Method.get_events_method
method_of (Request.get_transactions s) = Method.get_transactions_method
method_of (Request.get_ledgers s n) = Method.get_ledgers_method
method_of (Request.get_ledger_entries ks) = Method.get_ledger_entries_method
method_of (Request.simulate_transaction e u n) = Method.simulate_transaction_method
method_of (Request.send_transaction e) = Method.send_transaction_method
method_of (Request.get_transaction h) = Method.get_transaction_method
method_of (Request.other_request m) = Method.other_method

unfoldable pub record_call : Adapter → Request → Adapter
record_call a r = record a { calls = a.calls ++ method_of r ∷ [] }

unfoldable pub answer : Sdk → Submit → Adapter → Ledger → Request → Response × (Adapter × Ledger)
answer sdk submit a l (Request.friendbot id) = let (r, l') = friendbot_response l id in (r, (a, l'))
answer sdk submit a l Request.get_health = (Response.health (last_closed l), (a, l))
answer sdk submit a l Request.get_network = (Response.network l.network_passphrase, (a, l))
answer sdk submit a l Request.get_latest_ledger =
    (Response.latest_ledger (last_closed l) l.timestamp, (a, l))
answer sdk submit a l Request.get_version_info = (Response.version_info, (a, l))
answer sdk submit a l Request.get_fee_stats = (Response.fee_stats (last_closed l), (a, l))
answer sdk submit a l (Request.get_events q) = (Response.events_page (get_events a l q), (a, l))
answer sdk submit a l (Request.get_transactions s) =
    (Response.transactions (get_transactions a s) (last_closed l), (a, l))
answer sdk submit a l (Request.get_ledgers s n) = (get_ledgers l s n, (a, l))
answer sdk submit a l (Request.get_ledger_entries ks) =
    (Response.entries (get_ledger_entries l ks) (last_closed l), (a, l))
answer sdk submit a l (Request.simulate_transaction e u n) =
    let (r, l') = simulate_transaction_response sdk l e u n in (r, (a, l'))
answer sdk submit a l (Request.send_transaction e) = send_transaction_response sdk submit a l e
answer sdk submit a l (Request.get_transaction h) = (get_transaction_response a l h, (a, l))
answer sdk submit a l (Request.other_request m) = (Response.throws, (a, l))

-- A call is recorded before it is answered.
unfoldable pub handle : Sdk → Submit → Adapter → Ledger → Request → Response × (Adapter × Ledger)
unfolding answer record_call
handle sdk submit a l r = answer sdk submit (record_call a r) l r

-- Requests one after the other.
unfoldable pub serve : Sdk → Submit → List Request → Adapter × Ledger → Adapter × Ledger
unfolding handle
serve sdk submit [] s = s
serve sdk submit (r ∷ rs) (a, l) =
    let (response, s) = handle sdk submit a l r in serve sdk submit rs s

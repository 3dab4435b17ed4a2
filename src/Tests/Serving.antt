-- ===== src/Tests/Serving.antt =====
-- The RPC adapter, each property at an input.
use lite_soroban.Prelude.{
  ℕ, pos, ◌≡◌, ◌≤ℤ◌, ◌<ℤ◌, ◌⊎◌, refl, true, false, List, [], ◌∷◌, none, some, length,
}
use lite_soroban.Xdr.{key_of, tx_v1, LedgerEntry}
use lite_soroban.Ledger.{new_ledger, put_entry, get_entry, advance_ledgers}
use lite_soroban.Classic.Accounts.{store_account, fund_account, account_key}
use lite_soroban.Rpc.Results.{transaction_result}
use lite_soroban.Rpc.State.{
  find_tx, Adapter, new_adapter, Request, Response, SendStatus, RawTransaction, EventsQuery,
  BufferedEvent, LedgersPage, last_closed, ledgers_page, rpc_error, start_out_of_range,
}
use lite_soroban.Rpc.Reading.{get_transaction_response, get_ledgers, count_of}
use lite_soroban.Rpc.Submitting.{
  hash_of, inner_hash_of, submitted_tx, send_transaction_response, ledger_submit,
  friendbot_response, Submit,
}
use lite_soroban.Rpc.Serve.{serve}
use lite_soroban.Rpc.Sending.{send_transaction_error, send_transaction_pending}
use lite_soroban.Rpc.Abstract.{Implements, spec_serve, serve-Implements}
use lite_soroban.Rpc.Found.{sent_stays_found}
use lite_soroban.Rpc.Kept.{IsKept, NumberedFrom, serve-IsKept}
use lite_soroban.Rpc.Pages.{IsLedgersPage, get_ledgers_lem}
use lite_soroban.Rpc.Friendbot.{IsAirdropped, friendbot_lem}
use lite_soroban.Tests.Samples.{sample_sdk, ledger_with, all_checks, call, old_call, alice, bob}
use lite_soroban.Tests.Applying.{call_fails, old_call_rejected}

abbrev submit : Submit
submit = ledger_submit sample_sdk all_checks

stale_is_rejected : (submit (ledger_with 150) (tx_v1 old_call)).0.rejected ≡ true
unfolding ledger_submit new_ledger put_entry fund_account store_account key_of
stale_is_rejected = old_call_rejected

call_is_accepted : (submit (ledger_with 150) (tx_v1 call)).0.rejected ≡ false
unfolding ledger_submit new_ledger put_entry fund_account store_account key_of
call_is_accepted = call_fails.0

send_transaction_error_example :
    let l = ledger_with 150 in
    let hash = hash_of sample_sdk l.network_passphrase (tx_v1 old_call) in
    let o = (submit l (tx_v1 old_call)).0 in
    let (response, (b, n)) =
      send_transaction_response sample_sdk submit new_adapter l (tx_v1 old_call) in
    (response
      ≡ Response.sent
          (SendStatus.errored (
            transaction_result sample_sdk o
              (inner_hash_of sample_sdk l.network_passphrase (tx_v1 old_call))))
          hash
          (last_closed l)
          l.timestamp)
    × (b ≡ new_adapter)
    × (n ≡ l)
    × (get_transaction_response b n hash ≡ Response.transaction_not_found (last_closed l))
unfolding find_tx
send_transaction_error_example =
    send_transaction_error sample_sdk all_checks new_adapter (ledger_with 150) (tx_v1 old_call) refl
      stale_is_rejected

abbrev call_hash : List ℕ
call_hash = hash_of sample_sdk (ledger_with 150).network_passphrase (tx_v1 call)

send_transaction_pending_example :
    let (o, m) = submit (ledger_with 150) (tx_v1 call) in
    let (response, (b, n)) =
      send_transaction_response sample_sdk submit new_adapter (ledger_with 150) (tx_v1 call) in
    (response
      ≡ Response.sent SendStatus.pending call_hash
          (last_closed (ledger_with 150))
          (ledger_with 150).timestamp)
    × (n ≡ advance_ledgers m 1)
    × (get_transaction_response b n call_hash
        ≡ Response.transaction_found
            (record {
              succeeded = o.ok;
              tx =
                  submitted_tx sample_sdk m call_hash
                    (inner_hash_of sample_sdk (ledger_with 150).network_passphrase (tx_v1 call))
                    (tx_v1 call)
                    o;
            })
            (last_closed n))
send_transaction_pending_example =
    send_transaction_pending sample_sdk all_checks new_adapter (ledger_with 150) (tx_v1 call)
      call_is_accepted

abbrev more : List Request
more =
    Request.get_health
    ∷ Request.send_transaction (tx_v1 old_call)
    ∷ Request.friendbot (some bob)
    ∷ Request.get_transaction call_hash
    ∷ []

sent_stays_found_example :
    let (b, m) =
      serve sample_sdk submit
        (Request.send_transaction (tx_v1 call) ∷ more)
        (new_adapter, ledger_with 150) in
    (t : RawTransaction) × (get_transaction_response b m call_hash
      ≡ Response.transaction_found t (last_closed m))
sent_stays_found_example =
    sent_stays_found sample_sdk all_checks new_adapter (ledger_with 150) (tx_v1 call)
      call_is_accepted more

new_adapter-IsKept : (n : ℕ) → IsKept new_adapter n
unfolding NumberedFrom
new_adapter-IsKept n = record { submitted_closed = tt; logged_closed = tt; numbered = tt }

serve-IsKept_example :
    let (b, m) =
      serve sample_sdk submit
        (Request.send_transaction (tx_v1 call) ∷ more)
        (new_adapter, ledger_with 150) in
    IsKept b m.ledger_seq
serve-IsKept_example =
    serve-IsKept sample_sdk all_checks (Request.send_transaction (tx_v1 call) ∷ more) new_adapter
      (ledger_with 150) (new_adapter-IsKept (ledger_with 150).ledger_seq)

get_ledgers_lem_example :
    (pos 1 ≤ℤ pos 50
      → pos 50 ≤ℤ last_closed (ledger_with 150)
      → (p : LedgersPage) × (get_ledgers (ledger_with 150) (some (pos 50)) (some 7)
          ≡ ledgers_page p)
        × IsLedgersPage (pos 50) (last_closed (ledger_with 150)) p
        × (length p.ledgers ≡ count_of (some 7) (pos 50) (last_closed (ledger_with 150))))
    × ((pos 50 <ℤ pos 1) ⊎ (last_closed (ledger_with 150) <ℤ pos 50)
        → get_ledgers (ledger_with 150) (some (pos 50)) (some 7)
          ≡ rpc_error (start_out_of_range (pos 50) (last_closed (ledger_with 150))))
get_ledgers_lem_example = get_ledgers_lem (ledger_with 150) (some (pos 50)) (some 7)

abbrev two_events : EventsQuery
two_events = record {
  start_ledger = some 90;
  end_ledger = none;
  filters = record { contract_ids = alice ∷ []; kind = none; topics = [] } ∷ [];
  limit = some 2;
  cursor = none;
}

abbrev event_at : ℕ → BufferedEvent
event_at n = record {
  ledger = 95;
  closed_at = 1000;
  contract_id = some alice;
  position = n;
  topics = [];
  value = [];
  tx_hash = [];
  tx_index = n;
}

abbrev three_logged : Adapter
three_logged = record new_adapter { event_log = event_at 0 ∷ event_at 1 ∷ event_at 2 ∷ [] }

friendbot_lem_example :
    ((e : LedgerEntry)
      → get_entry (ledger_with 150) (account_key bob) ≡ some e
      → friendbot_response (ledger_with 150) (some bob)
        ≡ (Response.http_bad_request, ledger_with 150))
    × (get_entry (ledger_with 150) (account_key bob) ≡ none
        → IsAirdropped bob (ledger_with 150) (friendbot_response (ledger_with 150) (some bob)).1)
friendbot_lem_example = friendbot_lem (ledger_with 150) bob

-- The adapter and the specification start with no transaction.
nothing_known : Implements (new_adapter, ledger_with 150) ((λ h. none), ledger_with 150)
unfolding find_tx
nothing_known = record { same_ledger = refl; same_answers = λ h. refl }

serve-Implements_example :
    Implements
      (serve sample_sdk submit
        (Request.send_transaction (tx_v1 call) ∷ more)
        (new_adapter, ledger_with 150))
      (spec_serve sample_sdk all_checks
        (Request.send_transaction (tx_v1 call) ∷ more)
        ((λ h. none), ledger_with 150))
serve-Implements_example =
    serve-Implements sample_sdk all_checks (Request.send_transaction (tx_v1 call) ∷ more)
      (new_adapter, ledger_with 150) ((λ h. none), ledger_with 150) nothing_known

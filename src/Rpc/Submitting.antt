-- ===== src/Rpc/Submitting.antt =====
-- The friendbot and `sendTransaction` of src/fake-rpc.ts, the requests that write to the ledger.
use lite_soroban.Prelude.{
  ℕ, suc, pos, Bool, true, false, List, [], ◌∷◌, ◌++◌, Option, none, some, if◌then◌else◌, ◌||◌,
  length,
}
use lite_soroban.Xdr.{Bytes, AccountId, LedgerEntry, TransactionEnvelope, tx_v0, tx_v1, tx_fee_bump}
use lite_soroban.Sdk.{Sdk}
use lite_soroban.Ledger.{Ledger, get_entry, advance_ledgers}
use lite_soroban.Classic.Accounts.{FundOptions, account_key, fund_account}
use lite_soroban.Classic.Outcome.{TxResultCode, TxOutcome}
use lite_soroban.Classic.Validate.{ValidationOptions}
use lite_soroban.Classic.Apply.{apply_transaction}
use lite_soroban.Rpc.Results.{transaction_result, transaction_meta, or_empty}
use lite_soroban.Rpc.State.{
  Adapter, BufferedEvent, SubmittedTx, Response, set_tx, errored, pending, last_closed,
}

-- How an envelope is applied: `InProcessRpcOptions.submit`.
abbrev pub Submit : Type 0
Submit = Ledger → TransactionEnvelope → TxOutcome × Ledger

abbrev airdrop : FundOptions
airdrop = record {
  balance = some (pos 100_000_000_000);
  seq_num = none;
  thresholds = none;
  signers = [];
}

abbrev funded_response : Option LedgerEntry → Response
funded_response none = Response.throws
funded_response (some e) = Response.airdropped e

-- An account that exists is refused.
unfoldable pub friendbot_response : Ledger → Option AccountId → Response × Ledger
friendbot_response l none = (Response.throws, l)
friendbot_response l (some id) = elim (get_entry l (account_key id)) [
  | some e ↦ (Response.http_bad_request, l)
  | none ↦
      let l' = fund_account l id airdrop in (funded_response (get_entry l' (account_key id)), l')
]

-- `TransactionBuilder.fromXdr(…).hash()`
abbrev pub hash_of : Sdk → Bytes → TransactionEnvelope → Bytes
hash_of sdk p (tx_v0 b) = sdk.legacy_hash p b
hash_of sdk p (tx_v1 e) = sdk.tx_hash p e.tx
hash_of sdk p (tx_fee_bump e) = sdk.fee_bump_hash p e.tx

abbrev pub inner_hash_of : Sdk → Bytes → TransactionEnvelope → Bytes
inner_hash_of sdk p (tx_v0 b) = sdk.legacy_hash p b
inner_hash_of sdk p (tx_v1 e) = sdk.tx_hash p e.tx
inner_hash_of sdk p (tx_fee_bump e) = sdk.tx_hash p e.tx.inner_tx.tx

unfoldable pub rejected_at_submit : TxResultCode → Bool
rejected_at_submit TxResultCode.tx_success = false
rejected_at_submit TxResultCode.tx_failed = false
rejected_at_submit TxResultCode.tx_fee_bump_inner_success = false
rejected_at_submit TxResultCode.tx_fee_bump_inner_failed = false
rejected_at_submit _ = true

-- `outcome.code.startsWith('txFEE_BUMP')`
abbrev is_bump_code : TxResultCode → Bool
is_bump_code TxResultCode.tx_fee_bump_inner_success = true
is_bump_code TxResultCode.tx_fee_bump_inner_failed = true
is_bump_code _ = false

-- The loop over `outcome.eventsXdr`: `i` counts the events of this transaction.
unfoldable pub push_events :
    Sdk → Ledger → (hash : Bytes) → (i : ℕ) → List Bytes → List BufferedEvent → List BufferedEvent
push_events sdk l hash i [] log = log
push_events sdk l hash i (e ∷ es) log =
    let event = sdk.decode_event e in
    push_events sdk l hash (suc i) es (
      log
      ++ record {
        ledger = l.ledger_seq;
        closed_at = l.timestamp;
        contract_id = event.contract_id;
        position = length log;
        topics = event.topics;
        value = event.event_data;
        tx_hash = hash;
        tx_index = i;
      }
        ∷ [])

abbrev pub submitted_tx :
    Sdk → Ledger → Bytes → Bytes → TransactionEnvelope → TxOutcome → SubmittedTx
submitted_tx sdk l hash inner e o = record {
  hash = hash;
  outcome = o;
  envelope = e;
  result = transaction_result sdk o inner;
  meta = transaction_meta o;
  ledger = l.ledger_seq;
  created_at = l.timestamp;
  fee_bump = is_bump_code o.code;
}

-- What an accepted envelope leaves: its events, itself, and a closed ledger.
unfoldable pub accept :
    Sdk
    → Adapter
    → Ledger
    → (hash inner : Bytes) → TransactionEnvelope
    → TxOutcome
    → Adapter × Ledger
unfolding push_events
accept sdk a l hash inner e o = (
  record a {
    submitted = set_tx (submitted_tx sdk l hash inner e o) a.submitted;
    event_log = push_events sdk l hash 0 (or_empty o.events) a.event_log;
  },
  advance_ledgers l 1,
)

abbrev pub is_error : TxOutcome → Bool
is_error o = o.rejected || rejected_at_submit o.code

unfoldable pub send_transaction_response :
    Sdk → Submit → Adapter → Ledger → TransactionEnvelope → Response × (Adapter × Ledger)
unfolding accept rejected_at_submit
send_transaction_response sdk submit a l e =
    let hash = hash_of sdk l.network_passphrase e in
    let inner = inner_hash_of sdk l.network_passphrase e in
    let (o, l') = submit l e in
    if is_error o
    then (
      Response.sent (errored (transaction_result sdk o inner)) hash (last_closed l) l.timestamp,
      (a, l'),
    )
    else (Response.sent pending hash (last_closed l) l.timestamp, accept sdk a l' hash inner e o)

-- `sendTransaction` of src/litestellar.ts under its switches; with every check on, that of
-- src/index.ts, which is the default.
unfoldable pub ledger_submit : Sdk → ValidationOptions → Submit
ledger_submit sdk v l e = apply_transaction sdk l l.network_passphrase v e

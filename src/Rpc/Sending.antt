-- ===== src/Rpc/Sending.antt =====
-- `sendTransaction` of src/fake-rpc.ts over the transactions of src/classic.ts, and `getTransaction`
-- after it.
use lite_soroban.Prelude.{true, false, none, some, ◌≡◌, refl, ◌∙◌, inl, inr, arith, Bool-cases}
use lite_soroban.Xdr.{Bytes, TransactionEnvelope, tx_v0, tx_v1, tx_fee_bump}
use lite_soroban.Sdk.{Sdk}
use lite_soroban.Ledger.{Ledger, advance_ledgers}
use lite_soroban.Classic.Outcome.{TxOutcome}
use lite_soroban.Classic.Validate.{ValidationOptions}
use lite_soroban.Classic.Apply.{apply_transaction}
use lite_soroban.Classic.Apply.Atomic.{apply_transaction_rejected}
use lite_soroban.Classic.Apply.Verdict.{CodedFor, apply_transaction-CodedFor}
use lite_soroban.Rpc.Results.{transaction_result}
use lite_soroban.Rpc.State.{Adapter, SubmittedTx, Response, SendStatus, find_tx, last_closed}
use lite_soroban.Rpc.Reading.{raw_transaction, get_transaction_response}
use lite_soroban.Rpc.Submitting.{
  hash_of, inner_hash_of, rejected_at_submit, is_error, submitted_tx, accept,
  send_transaction_response, ledger_submit,
}
use lite_soroban.Rpc.Log.{find-set_tx}

-- The code of an outcome that ran is none of those that are reported at once, and it tells whether
-- the outcome is ok.
executed :
    (e : TransactionEnvelope) (o : TxOutcome)
    → CodedFor e o
    → o.rejected ≡ false
    → (rejected_at_submit o.code ≡ false)
      × ((t : SubmittedTx) → t.outcome ≡ o → (raw_transaction t).succeeded ≡ o.ok)
unfolding CodedFor rejected_at_submit raw_transaction
executed (tx_v0 b) o h n = ground arith
executed (tx_v1 e) o h n = ground arith
executed (tx_fee_bump e) o h n = ground arith

-- The errors are exactly the rejections.
is_error_lem : (e : TransactionEnvelope) (o : TxOutcome) → CodedFor e o → is_error o ≡ o.rejected
is_error_lem e o h = elim (Bool-cases o.rejected) [
  | inl b ↦ rw b refl
  | inr b ↦ rw (b, (executed e o h b).0) refl
]

-- A transaction that is rejected is answered as ERROR, and changes nothing.
pub send_transaction_rejected :
    (sdk : Sdk) (v : ValidationOptions) (a : Adapter) (l : Ledger) (e : TransactionEnvelope)
    → (ledger_submit sdk v l e).0.rejected ≡ true
    → send_transaction_response sdk (ledger_submit sdk v) a l e ≡ (
      Response.sent
          (SendStatus.errored (
            transaction_result sdk
              (ledger_submit sdk v l e).0
              (inner_hash_of sdk l.network_passphrase e)))
          (hash_of sdk l.network_passphrase e)
          (last_closed l)
          l.timestamp,
      (a, l),
    )
unfolding send_transaction_response ledger_submit
send_transaction_rejected sdk v a l e h =
    rw (h, (apply_transaction_rejected sdk l l.network_passphrase v e h).1) refl

-- A transaction that is rejected, and whose hash is not that of a submitted one, is answered as
-- ERROR, under its hash and with the ledger that was the latest, with the result of its outcome;
-- the adapter and the ledger are as they were, and the hash is still not found.
pub send_transaction_error :
    (sdk : Sdk) (v : ValidationOptions) (a : Adapter) (l : Ledger) (e : TransactionEnvelope)
    → find_tx (hash_of sdk l.network_passphrase e) a.submitted ≡ none
    → (ledger_submit sdk v l e).0.rejected ≡ true
    → let hash = hash_of sdk l.network_passphrase e in
      let o = (ledger_submit sdk v l e).0 in
      let (response, (b, n)) = send_transaction_response sdk (ledger_submit sdk v) a l e in
      (response
        ≡ Response.sent
            (SendStatus.errored
              (transaction_result sdk o (inner_hash_of sdk l.network_passphrase e)))
            hash
            (last_closed l)
            l.timestamp)
      × (b ≡ a)
      × (n ≡ l)
      × (get_transaction_response b n hash ≡ Response.transaction_not_found (last_closed l))
unfolding get_transaction_response
send_transaction_error sdk v a l e new h =
    rw (send_transaction_rejected sdk v a l e h)
      (refl, refl, refl, rw (new, get_transaction_response) refl)

pub get_transaction_found :
    (a : Adapter) (l : Ledger) (h : Bytes) (t : SubmittedTx)
    → find_tx h a.submitted ≡ some t
    → get_transaction_response a l h
      ≡ Response.transaction_found (raw_transaction t) (last_closed l)
unfolding get_transaction_response
get_transaction_found a l h t p = rw (p, get_transaction_response) refl

found_after :
    (sdk : Sdk) (a : Adapter) (m : Ledger) (hash inner : Bytes) (e : TransactionEnvelope)
    (o : TxOutcome)
    → (raw_transaction (submitted_tx sdk m hash inner e o)).succeeded ≡ o.ok
    → let (b, n) = accept sdk a m hash inner e o in
      get_transaction_response b n hash
      ≡ Response.transaction_found
          (record { succeeded = o.ok; tx = submitted_tx sdk m hash inner e o })
          (last_closed n)
unfolding accept raw_transaction
found_after sdk a m hash inner e o h =
    let t = submitted_tx sdk m hash inner e o in
    let (b, n) = accept sdk a m hash inner e o in
    get_transaction_found b n hash t (find-set_tx t a.submitted) ∙ rw h refl

pub send_transaction_accepted :
    (sdk : Sdk) (v : ValidationOptions) (a : Adapter) (l : Ledger) (e : TransactionEnvelope)
    → (ledger_submit sdk v l e).0.rejected ≡ false
    → let (o, m) = ledger_submit sdk v l e in
      let hash = hash_of sdk l.network_passphrase e in
      let inner = inner_hash_of sdk l.network_passphrase e in
      send_transaction_response sdk (ledger_submit sdk v) a l e ≡ (
        Response.sent SendStatus.pending hash (last_closed l) l.timestamp,
        accept sdk a m hash inner e o,
      )
unfolding send_transaction_response ledger_submit
send_transaction_accepted sdk v a l e h =
    let o = (apply_transaction sdk l l.network_passphrase v e).0 in
    rw (h, (executed e o (apply_transaction-CodedFor sdk l l.network_passphrase v e) h).0) refl

-- A transaction that is not rejected, failed or not, is answered as PENDING, and a ledger closes.
-- Its hash is then found, as a success exactly when the outcome is ok, with the envelope, the result
-- and the meta of the outcome, in the ledger in which it applied.
pub send_transaction_pending :
    (sdk : Sdk) (v : ValidationOptions) (a : Adapter) (l : Ledger) (e : TransactionEnvelope)
    → (ledger_submit sdk v l e).0.rejected ≡ false
    → let (o, m) = ledger_submit sdk v l e in
      let (response, (b, n)) = send_transaction_response sdk (ledger_submit sdk v) a l e in
      let hash = hash_of sdk l.network_passphrase e in
      (response ≡ Response.sent SendStatus.pending hash (last_closed l) l.timestamp)
      × (n ≡ advance_ledgers m 1)
      × (get_transaction_response b n hash
          ≡ Response.transaction_found
              (record {
                succeeded = o.ok;
                tx = submitted_tx sdk m hash (inner_hash_of sdk l.network_passphrase e) e o;
              })
              (last_closed n))
unfolding ledger_submit accept
send_transaction_pending sdk v a l e h =
    let (o, m) = apply_transaction sdk l l.network_passphrase v e in
    let hash = hash_of sdk l.network_passphrase e in
    let inner = inner_hash_of sdk l.network_passphrase e in
    let verdict =
      (executed e o (apply_transaction-CodedFor sdk l l.network_passphrase v e) h).1
        (submitted_tx sdk m hash inner e o) refl in
    rw (send_transaction_accepted sdk v a l e h)
      (refl, refl, found_after sdk a m hash inner e o verdict)

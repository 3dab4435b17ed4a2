-- ===== src/Rpc/Found.antt =====
-- Submit, then poll (src/fake-rpc.ts): what `getTransaction` finds stays found.
use lite_soroban.Prelude.{
  false, List, ◌∷◌, some, ◌≡◌, refl, sym, ap, ◌∙◌, inl, inr, Bool-cases, same_bytes, same_bytes_eq,
  same_bytes_ne,
}
use lite_soroban.Xdr.{Bytes, TransactionEnvelope}
use lite_soroban.Sdk.{Sdk}
use lite_soroban.Ledger.{Ledger}
use lite_soroban.Classic.Outcome.{TxOutcome}
use lite_soroban.Classic.Validate.{ValidationOptions}
use lite_soroban.Rpc.State.{
  Adapter, SubmittedTx, Request, Response, RawTransaction, find_tx, last_closed,
}
use lite_soroban.Rpc.Reading.{raw_transaction, get_transaction_response}
use lite_soroban.Rpc.Submitting.{
  submitted_tx, accept, send_transaction_response, ledger_submit, hash_of, inner_hash_of,
}
use lite_soroban.Rpc.Serve.{handle, serve, record_call}
use lite_soroban.Rpc.Log.{find-set_tx, find-set_tx_ne}
use lite_soroban.Rpc.Sending.{
  get_transaction_found, send_transaction_rejected, send_transaction_accepted,
}
use lite_soroban.Rpc.Runs.{handle_unchanged, serve_inv}

-- A transaction is on record under the hash.
unfoldable pub IsFound : Bytes → Adapter → Type 0
IsFound h a = (t : SubmittedTx) × (find_tx h a.submitted ≡ some t)

accept-IsFound :
    (sdk : Sdk) (a : Adapter) (l : Ledger) (hash inner h : Bytes) (e : TransactionEnvelope)
    (o : TxOutcome)
    → IsFound h a
    → IsFound h (accept sdk a l hash inner e o).0
unfolding accept IsFound
accept-IsFound sdk a l hash inner h e o (s, k) =
    let t = submitted_tx sdk l hash inner e o in
    elim (Bool-cases (same_bytes hash h)) [
      | inl b ↦ (t, rw (sym (same_bytes_eq hash h b)) (find-set_tx t a.submitted))
      | inr b ↦ (s, find-set_tx_ne t a.submitted h (same_bytes_ne hash h b) ∙ k)
    ]

sent-IsFound :
    (sdk : Sdk) (v : ValidationOptions) (a : Adapter) (l : Ledger) (e : TransactionEnvelope)
    → (ledger_submit sdk v l e).0.rejected ≡ false
    → IsFound
        (hash_of sdk l.network_passphrase e)
        (send_transaction_response sdk (ledger_submit sdk v) a l e).1.0
unfolding accept IsFound
sent-IsFound sdk v a l e h =
    let (o, m) = ledger_submit sdk v l e in
    let hash = hash_of sdk l.network_passphrase e in
    let t = submitted_tx sdk m hash (inner_hash_of sdk l.network_passphrase e) e o in
    rw (send_transaction_accepted sdk v a l e h) (t, find-set_tx t a.submitted)

send-IsFound :
    (sdk : Sdk) (v : ValidationOptions) (a : Adapter) (l : Ledger) (e : TransactionEnvelope)
    (h : Bytes)
    → IsFound h a
    → IsFound h (send_transaction_response sdk (ledger_submit sdk v) a l e).1.0
send-IsFound sdk v a l e h k = elim (Bool-cases (ledger_submit sdk v l e).0.rejected) [
  | inl b ↦ rw (send_transaction_rejected sdk v a l e b) k
  | inr b ↦ rw (send_transaction_accepted sdk v a l e b) (accept-IsFound sdk a _ _ _ h e _ k)
]

same_lists-IsFound :
    (h : Bytes) (a b : Adapter) → b ≡ record a { calls = b.calls } → IsFound h a → IsFound h b
unfolding IsFound
same_lists-IsFound h a b p (t, k) = (t, ap (λ c. find_tx h c.submitted) p ∙ k)

handle-IsFound :
    (sdk : Sdk) (v : ValidationOptions) (h : Bytes) (a : Adapter) (l : Ledger) (r : Request)
    → IsFound h a
    → IsFound h (handle sdk (ledger_submit sdk v) a l r).1.0
unfolding handle IsFound
handle-IsFound sdk v h a l (Request.friendbot id) k = k
handle-IsFound sdk v h a l (Request.send_transaction e) k = send-IsFound sdk v _ l e h k
handle-IsFound sdk v h a l r k =
    let (p, q) = handle_unchanged sdk (ledger_submit sdk v) a l r refl in
    same_lists-IsFound h a (handle sdk (ledger_submit sdk v) a l r).1.0 (rw q refl) k

-- A transaction that was answered as PENDING is found by `getTransaction` under its hash after any
-- further requests, in whatever order.
pub sent_stays_found :
    (sdk : Sdk) (v : ValidationOptions) (a : Adapter) (l : Ledger) (e : TransactionEnvelope)
    → (ledger_submit sdk v l e).0.rejected ≡ false
    → (rs : List Request)
    → let hash = hash_of sdk l.network_passphrase e in
      let (b, m) = serve sdk (ledger_submit sdk v) (Request.send_transaction e ∷ rs) (a, l) in
      (t : RawTransaction) × (get_transaction_response b m hash
        ≡ Response.transaction_found t (last_closed m))
unfolding serve handle IsFound
sent_stays_found sdk v a l e h rs =
    let hash = hash_of sdk l.network_passphrase e in
    let a' = record_call a (Request.send_transaction e) in
    let s = (send_transaction_response sdk (ledger_submit sdk v) a' l e).1 in
    let (t, k) =
      serve_inv (λ b m. IsFound hash b) sdk (ledger_submit sdk v)
        (λ b m r. handle-IsFound sdk v hash b m r) rs s.0 s.1 (sent-IsFound sdk v a' l e h) in
    (raw_transaction t, get_transaction_found _ _ hash t k)

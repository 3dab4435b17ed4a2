-- ===== src/Rpc/Abstract.antt =====
-- What src/fake-rpc.ts promises of transactions, without its records: a function from hashes to the
-- transactions that are known, and the ledger.
use lite_soroban.Prelude.{
  List, [], ◌∷◌, Option, some, if◌then◌else◌, ◌≡◌, refl, sym, ap, ◌∙◌, inl, inr, Bool-cases,
  same_bytes, same_bytes_eq, same_bytes_ne,
}
use lite_soroban.Xdr.{Bytes, TransactionEnvelope}
use lite_soroban.Sdk.{Sdk}
use lite_soroban.Ledger.{Ledger, advance_ledgers}
use lite_soroban.Classic.Outcome.{TxOutcome}
use lite_soroban.Classic.Validate.{ValidationOptions}
use lite_soroban.Rpc.State.{Adapter, SubmittedTx, Request, find_tx, set_tx}
use lite_soroban.Rpc.Simulating.{simulate_transaction_response}
use lite_soroban.Rpc.Submitting.{
  submitted_tx, accept, send_transaction_response, ledger_submit, hash_of, inner_hash_of,
  friendbot_response,
}
use lite_soroban.Rpc.Serve.{handle, serve}
use lite_soroban.Rpc.Log.{find-set_tx, find-set_tx_ne}
use lite_soroban.Rpc.Sending.{send_transaction_rejected, send_transaction_accepted}

abbrev pub Known : Type 0
Known = Bytes → Option SubmittedTx

abbrev pub learn : SubmittedTx → Known → Known
learn t k h = if same_bytes t.hash h then some t else k h

-- A submission that is not rejected is known from then on, and closes a ledger.
abbrev pub submitted_in :
    Sdk → TransactionEnvelope → Bytes → TxOutcome × Ledger → Known × Ledger → Known × Ledger
submitted_in sdk e passphrase (o, m) (k, l) = if o.rejected then (k, l) else (
  learn (submitted_tx sdk m (hash_of sdk passphrase e) (inner_hash_of sdk passphrase e) e o) k,
  advance_ledgers m 1,
)

-- Every other request leaves what is known.
unfoldable pub spec_step : Sdk → ValidationOptions → Known × Ledger → Request → Known × Ledger
spec_step sdk v (k, l) (Request.send_transaction e) =
    submitted_in sdk e l.network_passphrase (ledger_submit sdk v l e) (k, l)
spec_step sdk v (k, l) (Request.friendbot id) = (k, (friendbot_response l id).1)
spec_step sdk v (k, l) (Request.simulate_transaction e u n) =
    (k, (simulate_transaction_response sdk l e u n).1)
spec_step sdk v (k, l) r = (k, l)

unfoldable pub spec_serve : Sdk → ValidationOptions → List Request → Known × Ledger → Known × Ledger
unfolding spec_step
spec_serve sdk v [] s = s
spec_serve sdk v (r ∷ rs) s = spec_serve sdk v rs (spec_step sdk v s r)

-- An adapter and a ledger implement what is known and a ledger.
pub record Implements (s : Adapter × Ledger) (t : Known × Ledger) : Type 0 where
  pub same_ledger : s.1 ≡ t.1
  pub same_answers : (h : Bytes) → find_tx h s.0.submitted ≡ t.0 h

find-set_tx-learn :
    (t : SubmittedTx) (ts : List SubmittedTx) (k : Known) (h : Bytes)
    → find_tx h ts ≡ k h
    → find_tx h (set_tx t ts) ≡ learn t k h
find-set_tx-learn t ts k h e = elim (Bool-cases (same_bytes t.hash h)) [
  | inl b ↦
      rw b (ap (λ g. find_tx g (set_tx t ts)) (sym (same_bytes_eq t.hash h b)) ∙ find-set_tx t ts)
  | inr b ↦ rw b (find-set_tx_ne t ts h (same_bytes_ne t.hash h b) ∙ e)
]

send-Implements :
    (sdk : Sdk) (v : ValidationOptions) (a : Adapter) (l : Ledger) (k : Known)
    (e : TransactionEnvelope)
    → ((h : Bytes) → find_tx h a.submitted ≡ k h)
    → Implements
        (send_transaction_response sdk (ledger_submit sdk v) a l e).1
        (submitted_in sdk e l.network_passphrase (ledger_submit sdk v l e) (k, l))
unfolding accept
send-Implements sdk v a l k e h = elim (Bool-cases (ledger_submit sdk v l e).0.rejected) [
  | inl b ↦
      rw (send_transaction_rejected sdk v a l e b, b)
        (record { same_ledger = refl; same_answers = h })
  | inr b ↦
      let (o, m) = ledger_submit sdk v l e in
      let t =
        submitted_tx sdk m (hash_of sdk l.network_passphrase e)
          (inner_hash_of sdk l.network_passphrase e) e o in
      rw (send_transaction_accepted sdk v a l e b, b)
        (record {
          same_ledger = refl;
          same_answers = λ g. find-set_tx-learn t a.submitted k g (h g);
        })
]

step-Implements :
    (sdk : Sdk) (v : ValidationOptions) (a : Adapter) (l : Ledger) (k : Known) (r : Request)
    → ((h : Bytes) → find_tx h a.submitted ≡ k h)
    → Implements (handle sdk (ledger_submit sdk v) a l r).1 (spec_step sdk v (k, l) r)
unfolding handle spec_step
step-Implements sdk v a l k (Request.send_transaction e) h = send-Implements sdk v _ l k e h
step-Implements sdk v a l k (Request.friendbot id) h = record {
  same_ledger = refl;
  same_answers = h;
}
step-Implements sdk v a l k r h = record { same_ledger = refl; same_answers = h }

step-Implements_any :
    (sdk : Sdk) (v : ValidationOptions) (s : Adapter × Ledger) (t : Known × Ledger) (r : Request)
    → Implements s t
    → Implements (handle sdk (ledger_submit sdk v) s.0 s.1 r).1 (spec_step sdk v t r)
step-Implements_any sdk v (a, l) (k, m) r i =
    rw (sym i.same_ledger) (step-Implements sdk v a l k r i.same_answers)

-- The adapter implements the specification: through any sequence of requests, it has the same ledger,
-- and finds under every hash the transaction that the specification knows: the one that was
-- submitted last under that hash and not rejected.
pub serve-Implements :
    (sdk : Sdk) (v : ValidationOptions) (rs : List Request) (s : Adapter × Ledger)
    (t : Known × Ledger)
    → Implements s t
    → Implements (serve sdk (ledger_submit sdk v) rs s) (spec_serve sdk v rs t)
unfolding serve spec_serve
serve-Implements sdk v [] s t i = i
serve-Implements sdk v (r ∷ rs) s t i =
    serve-Implements sdk v rs (handle sdk (ledger_submit sdk v) s.0 s.1 r).1 (spec_step sdk v t r)
      (step-Implements_any sdk v s t r i)

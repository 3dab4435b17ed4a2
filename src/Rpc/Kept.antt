-- ===== src/Rpc/Kept.antt =====
-- What holds of the submitted transactions and of the event log of src/fake-rpc.ts at all times.
use lite_soroban.Prelude.{
  ℕ, suc, ◌+◌, ◌<◌, min, List, [], ◌∷◌, ◌++◌, All, Option, none, some, ◌≡◌, refl, ap, ◌⊎◌, inl, inr,
  arith, Bool-cases, Option-cases, length, same_bytes, All-append, All-map,
}
use lite_soroban.Xdr.{Bytes, AccountId, TransactionEnvelope}
use lite_soroban.Sdk.{Sdk}
use lite_soroban.Ledger.{Ledger, max_u32, advance_ledgers, get_entry}
use lite_soroban.Classic.Accounts.{account_key, fund_account}
use lite_soroban.Classic.Validate.{ValidationOptions}
use lite_soroban.Classic.Apply.Clocked.{frame, apply_transaction-frame, store_account-frame}
use lite_soroban.Rpc.State.{Adapter, BufferedEvent, SubmittedTx, Request, set_tx}
use lite_soroban.Rpc.Submitting.{
  friendbot_response, push_events, accept, submitted_tx, send_transaction_response, ledger_submit,
}
use lite_soroban.Rpc.Serve.{handle, serve}
use lite_soroban.Classic.Outcome.{TxOutcome}
use lite_soroban.Rpc.Sending.{send_transaction_rejected, send_transaction_accepted}
use lite_soroban.Rpc.Results.{or_empty}
use lite_soroban.Rpc.Runs.{without_counter, handle_unchanged, serve_inv}

-- Ledger `n` has closed, or the sequence numbers are used up.
abbrev pub Closed : ℕ → ℕ → Type 0
Closed seq n = (n < seq) ⊎ (seq ≡ max_u32)

-- The events have the positions `i`, `i + 1`, …
unfoldable pub NumberedFrom : ℕ → List BufferedEvent → Type 0
NumberedFrom i [] = Unit
NumberedFrom i (e ∷ es) = (e.position ≡ i) × NumberedFrom (suc i) es

pub record IsKept (a : Adapter) (seq : ℕ) : Type 0 where
  pub submitted_closed : All (λ t. Closed seq t.ledger) a.submitted
  pub logged_closed : All (λ e. Closed seq e.ledger) a.event_log
  pub numbered : NumberedFrom 0 a.event_log

next_seq : ℕ → ℕ
next_seq seq = min (seq + 1) max_u32

Closed-next : (seq n : ℕ) → Closed seq n → Closed (next_seq seq) n
unfolding next_seq
Closed-next seq n h = ground arith

just-Closed : (seq : ℕ) → Closed (next_seq seq) seq
unfolding next_seq
just-Closed seq = ground arith

All-set_tx {κ} :
    (P : SubmittedTx → Type κ) (t : SubmittedTx) (ts : List SubmittedTx)
    → P t
    → All P ts
    → All P (set_tx t ts)
unfolding set_tx
All-set_tx P t [] p h = (p, tt)
All-set_tx P t (s ∷ ts) p (q, h) = elim (Bool-cases (same_bytes s.hash t.hash)) [
  | inl b ↦ rw b (p, h)
  | inr b ↦ rw b (q, All-set_tx P t ts p h)
]

NumberedFrom-append :
    (i j : ℕ) (es : List BufferedEvent) (e : BufferedEvent)
    → i + length es ≡ j
    → e.position ≡ j
    → NumberedFrom i es
    → NumberedFrom i (es ++ e ∷ [])
unfolding NumberedFrom
NumberedFrom-append i j [] e q p h = (omega (arith, p, q), tt)
NumberedFrom-append i j (d ∷ es) e q p (g, h) =
    (g, NumberedFrom-append (suc i) j es e (omega (arith, q)) p h)

push_events-Closed :
    (sdk : Sdk) (l : Ledger) (hash : Bytes) (seq i : ℕ) (es : List Bytes) (log : List BufferedEvent)
    → Closed seq l.ledger_seq
    → All (λ e. Closed seq e.ledger) log
    → All (λ e. Closed seq e.ledger) (push_events sdk l hash i es log)
unfolding push_events
push_events-Closed sdk l hash seq i [] log c h = h
push_events-Closed sdk l hash seq i (e ∷ es) log c h =
    push_events-Closed sdk l hash seq (suc i) es _ c
      (All-append (λ e. Closed seq e.ledger) log _ h c)

push_events-NumberedFrom :
    (sdk : Sdk) (l : Ledger) (hash : Bytes) (i : ℕ) (es : List Bytes) (log : List BufferedEvent)
    → NumberedFrom 0 log
    → NumberedFrom 0 (push_events sdk l hash i es log)
unfolding push_events
push_events-NumberedFrom sdk l hash i [] log h = h
push_events-NumberedFrom sdk l hash i (e ∷ es) log h =
    push_events-NumberedFrom sdk l hash (suc i) es _
      (NumberedFrom-append 0 (length log) log _ (omega arith) refl h)

accept-IsKept :
    (sdk : Sdk) (a : Adapter) (l : Ledger) (hash inner : Bytes) (e : TransactionEnvelope)
    (o : TxOutcome)
    → IsKept a l.ledger_seq
    → let (b, m) = accept sdk a l hash inner e o in IsKept b m.ledger_seq
unfolding accept advance_ledgers next_seq
accept-IsKept sdk a l hash inner e o k =
    let seq = l.ledger_seq in
    record {
      submitted_closed =
          All-set_tx (λ t. Closed (next_seq seq) t.ledger) (submitted_tx sdk l hash inner e o)
            a.submitted (just-Closed seq)
            (All-map (λ t. Closed seq t.ledger) (λ t. Closed (next_seq seq) t.ledger) a.submitted
              (λ t. Closed-next seq t.ledger) k.submitted_closed);
      logged_closed =
          push_events-Closed sdk l hash (next_seq seq) 0 (or_empty o.events) a.event_log
            (just-Closed seq)
            (All-map (λ t. Closed seq t.ledger) (λ t. Closed (next_seq seq) t.ledger) a.event_log
              (λ t. Closed-next seq t.ledger) k.logged_closed);
      numbered = push_events-NumberedFrom sdk l hash 0 (or_empty o.events) a.event_log k.numbered;
    }

submit_seq :
    (sdk : Sdk) (v : ValidationOptions) (l : Ledger) (e : TransactionEnvelope)
    → (ledger_submit sdk v l e).1.ledger_seq ≡ l.ledger_seq
unfolding ledger_submit frame
submit_seq sdk v l e =
    ap (λ m. m.ledger_seq) (apply_transaction-frame sdk l l.network_passphrase v e)

friendbot_seq :
    (l : Ledger) (id : Option AccountId) → (friendbot_response l id).1.ledger_seq ≡ l.ledger_seq
unfolding friendbot_response fund_account frame
friendbot_seq l none = refl
friendbot_seq l (some id) = elim (Option-cases (get_entry l (account_key id))) [
  | inl h ↦ rw (h, friendbot_response) (ap (λ m. m.ledger_seq) (store_account-frame l _))
  | inr (e, h) ↦ rw (h, friendbot_response) refl
]

send-IsKept :
    (sdk : Sdk) (v : ValidationOptions) (a : Adapter) (l : Ledger) (e : TransactionEnvelope)
    → IsKept a l.ledger_seq
    → let (b, m) = (send_transaction_response sdk (ledger_submit sdk v) a l e).1 in
      IsKept b m.ledger_seq
send-IsKept sdk v a l e k = elim (Bool-cases (ledger_submit sdk v l e).0.rejected) [
  | inl h ↦ rw (send_transaction_rejected sdk v a l e h) k
  | inr h ↦
      rw (send_transaction_accepted sdk v a l e h)
        (accept-IsKept sdk a (ledger_submit sdk v l e).1 _ _ e _ (rw (submit_seq sdk v l e) k))
]

-- Only the transactions and the events count.
same_lists-IsKept :
    (a b : Adapter) (n m : ℕ) → b ≡ record a { calls = b.calls } → m ≡ n → IsKept a n → IsKept b m
same_lists-IsKept a b n m p q k =
    rw (q, p)
      (record {
        submitted_closed = k.submitted_closed;
        logged_closed = k.logged_closed;
        numbered = k.numbered;
      })

handle-IsKept :
    (sdk : Sdk) (v : ValidationOptions) (a : Adapter) (l : Ledger) (r : Request)
    → IsKept a l.ledger_seq
    → let (b, m) = (handle sdk (ledger_submit sdk v) a l r).1 in IsKept b m.ledger_seq
unfolding handle without_counter
handle-IsKept sdk v a l (Request.friendbot id) k =
    same_lists-IsKept a _ _ _ refl (friendbot_seq l id) k
handle-IsKept sdk v a l (Request.send_transaction e) k =
    send-IsKept sdk v _ l e (same_lists-IsKept a _ _ _ refl refl k)
handle-IsKept sdk v a l r k =
    let (p, q) = handle_unchanged sdk (ledger_submit sdk v) a l r refl in
    same_lists-IsKept a _ _ _ (rw q refl) (ap (λ m. m.ledger_seq) p) k

-- Whatever the requests, in whatever order: every submitted transaction and every logged event
-- names a ledger that has closed, below the open ledger, or the sequence numbers are used up; and
-- the events of the log are numbered by their places, so that no two have the same paging token.
pub serve-IsKept :
    (sdk : Sdk) (v : ValidationOptions) (rs : List Request) (a : Adapter) (l : Ledger)
    → IsKept a l.ledger_seq
    → let (b, m) = serve sdk (ledger_submit sdk v) rs (a, l) in IsKept b m.ledger_seq
serve-IsKept sdk v rs a l k =
    serve_inv (λ b m. IsKept b m.ledger_seq) sdk (ledger_submit sdk v)
      (λ b m r. handle-IsKept sdk v b m r) rs a l k

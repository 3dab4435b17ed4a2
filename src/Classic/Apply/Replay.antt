-- ===== src/Classic/Apply/Replay.antt =====
-- Sequence numbers: no transaction is accepted twice.
use lite_soroban.Prelude.{
  ℤ, ◌≤ℤ◌, ◌<ℤ◌, ◌+ℤ◌, ◌≡◌, true, false, Option, none, some, arith, Bool-cases, inl, inr,
}
use lite_soroban.Xdr.{Bytes, AccountEntry, V1Envelope, tx_v1, Transaction}
use lite_soroban.Sdk.{Sdk}
use lite_soroban.Ledger.{Ledger}
use lite_soroban.Ledger.Keyed.{IsKeyed}
use lite_soroban.Classic.Outcome.{pass}
use lite_soroban.Classic.Accounts.{load_account, muxed_to_account_id}
use lite_soroban.Classic.Accounts.Loading.{bumped}
use lite_soroban.Classic.Preconditions.{bad_sequence, min_seq_num}
use lite_soroban.Classic.Preconditions.Window.{SequenceFits, bad_sequence_iff}
use lite_soroban.Classic.Validate.{ValidationOptions, check_sequence}
use lite_soroban.Classic.Apply.{apply_transaction}
use lite_soroban.Classic.Apply.Course.{apply_transaction_committed}
use lite_soroban.Classic.Apply.Failed.{RefundableFeesAreNonNegative, apply_transaction_failed}

fits_above : (m : Option ℤ) (current tx : ℤ) → SequenceFits m current tx → current <ℤ tx
unfolding ◌+ℤ◌
fits_above none current tx h = ground arith
fits_above (some least) current tx h = h.1

check_sequence-eq-pass :
    (l : Ledger) (v : ValidationOptions) (raw : Transaction) (current : ℤ)
    → v.sequence_check ≡ true
    → check_sequence l v raw current ≡ pass tt
    → bad_sequence raw.cond current raw.seq_num ≡ none
unfolding check_sequence
check_sequence-eq-pass l v raw current s h = ground arith

-- With sequence numbers checked, a plain envelope whose sequence number is not above the one of its
-- source account is rejected, whatever its preconditions.
pub apply_transaction_stale :
    (sdk : Sdk) (l : Ledger) (passphrase : Bytes) (v : ValidationOptions) (e : V1Envelope)
    (a : AccountEntry)
    → v.sequence_check ≡ true
    → load_account l (muxed_to_account_id e.tx.source_account) ≡ some a
    → e.tx.seq_num ≤ℤ a.seq_num
    → (apply_transaction sdk l passphrase v (tx_v1 e)).0.rejected ≡ true
apply_transaction_stale sdk l passphrase v e a s h n =
    elim (Bool-cases (apply_transaction sdk l passphrase v (tx_v1 e)).0.rejected) [
      | inl r ↦ r
      | inr r ↦
          let (w, p, same) = apply_transaction_committed sdk l passphrase v e r in
          let ok = check_sequence-eq-pass l v e.tx w.account.seq_num s p.sequence in
          let above =
            fits_above (min_seq_num e.tx.cond) w.account.seq_num e.tx.seq_num
              ((bad_sequence_iff e.tx.cond w.account.seq_num e.tx.seq_num).0 ok) in
          let same_account : w.account ≡ a = ground (arith, p.has_account) in
          absurd (omega (arith, n, rw same_account at above))
    ]

-- With sequence numbers checked, a plain envelope that was accepted and failed is rejected when it
-- is submitted again to the ledger that it left.
pub apply_transaction_again :
    (sdk : Sdk) (l : Ledger) (passphrase : Bytes) (v : ValidationOptions) (e : V1Envelope)
    → IsKeyed l.store
    → RefundableFeesAreNonNegative sdk
    → v.sequence_check ≡ true
    → (apply_transaction sdk l passphrase v (tx_v1 e)).0.rejected ≡ false
    → (apply_transaction sdk l passphrase v (tx_v1 e)).0.ok ≡ false
    → let l' = (apply_transaction sdk l passphrase v (tx_v1 e)).1 in
      (apply_transaction sdk l' passphrase v (tx_v1 e)).0.rejected ≡ true
unfolding bumped
apply_transaction_again sdk l passphrase v e k n s h f =
    let (w, p, b) = apply_transaction_failed sdk l passphrase v e k n h f in
    apply_transaction_stale sdk _ passphrase v e _ s b.loaded (ground arith)

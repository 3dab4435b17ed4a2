-- ===== src/Classic/Apply/Signed.antt =====
-- The authority behind a plain transaction that was not rejected.
use lite_soroban.Prelude.{◌≡◌, true, false, List, [], ◌∷◌, some, arith}
use lite_soroban.Xdr.{Bytes, V1Envelope, tx_v1, Operation}
use lite_soroban.Sdk.{Sdk}
use lite_soroban.Ledger.{Ledger}
use lite_soroban.Classic.Outcome.{pass}
use lite_soroban.Classic.Accounts.{load_account, muxed_to_account_id}
use lite_soroban.Classic.Signatures.{new_checker}
use lite_soroban.Classic.Validate.{
  ValidationOptions, Validated, single_operation, invoker_of, op_account_of,
}
use lite_soroban.Classic.Apply.{apply_transaction}
use lite_soroban.Classic.Apply.Course.{apply_transaction_committed}
use lite_soroban.Classic.Apply.Trail.{check_authority-Trail}
use lite_soroban.Classic.Apply.Authority.{SignedBy, Trail-SignedBy}

pub single_operation_only :
    (ops : List Operation) (o : Operation) → single_operation ops ≡ pass o → ops ≡ o ∷ []
unfolding single_operation
single_operation_only [] o h = cc
single_operation_only (x ∷ []) o h = ground arith
single_operation_only (x ∷ y ∷ ops) o h = ground arith

-- With signatures verified, a plain envelope that is not rejected has exactly one operation, a
-- source account of the ledger, and the signatures that these ask for: of the source at LOW, of
-- every extra signer, and of the operation's source at its threshold, over the hash of this
-- transaction under this passphrase; and it carries no signature that verifies for none of these.
pub apply_transaction-SignedBy :
    (sdk : Sdk) (l : Ledger) (passphrase : Bytes) (v : ValidationOptions) (e : V1Envelope)
    → v.sigverify ≡ true
    → (apply_transaction sdk l passphrase v (tx_v1 e)).0.rejected ≡ false
    → (w : Validated) × (e.tx.operations ≡ w.operation ∷ [])
      × (load_account l (muxed_to_account_id e.tx.source_account) ≡ some w.account)
      × (w.invoker_id ≡ invoker_of e.tx w.operation)
      × (w.op_account ≡ op_account_of l w.operation w.account)
      × SignedBy sdk (sdk.tx_hash passphrase e.tx) e.signatures e.tx w
apply_transaction-SignedBy sdk l passphrase v e s h =
    let (w, p, f) = apply_transaction_committed sdk l passphrase v e h in
    (
      w,
      single_operation_only e.tx.operations w.operation p.has_operation,
      p.has_account,
      p.has_invoker,
      p.has_op_account,
      Trail-SignedBy sdk (sdk.tx_hash passphrase e.tx) e.signatures e.tx w (
          (check_authority-Trail sdk l (new_checker e.signatures (sdk.tx_hash passphrase e.tx)) e.tx
              false _ w).at
            tt (rw s at p.authority)),
    )

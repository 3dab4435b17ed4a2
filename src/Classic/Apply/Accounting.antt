-- ===== src/Classic/Apply/Accounting.antt =====
-- The fee that a plain transaction reports.
use lite_soroban.Prelude.{
  ℕ, none, ◌∷◌, [], arith, ℤ, pos, ◌-ℤ◌, ◌+ℤ◌, ◌≡◌, refl, true, false, some, int_laws, length,
  Option, ℕ, Bool, arith,
}
use lite_soroban.Classic.Apply.Signed.{single_operation_only}
use lite_soroban.Xdr.{
  extend_footprint_ttl, restore_footprint, invoke_host_function, classic, OperationBody, Bytes,
  V1Envelope, tx_v1, Transaction, SorobanTransactionData, AccountEntry, LedgerKey, OperationBody,
}
use lite_soroban.Classic.Accounts.{muxed_to_account_id}
use lite_soroban.Sdk.{Sdk}
use lite_soroban.Ledger.{Ledger}
use lite_soroban.Classic.Outcome.{TxOutcome, SorobanFee}
use lite_soroban.Classic.Fees.{is_soroban_op, fee_to_charge, declared_resource_fee}
use lite_soroban.Classic.Validate.{ValidationOptions, FeeCharge, Validated}
use mathlib.Core.Option
use lite_soroban.Classic.Commit.{settle, charge_source, commit_inner, max_refundable, next_sequence}
use lite_soroban.Classic.Commit.Failing.{Became, charged, charge_source-Became}
use lite_soroban.Classic.Commit.Consuming.{
  Spends, run_for-Spends, spent, repaid, credited, give_back-credited,
}
use lite_soroban.Classic.Accounts.{account_key, load_account}
use lite_soroban.Classic.Accounts.Loading.{bumped}
use lite_soroban.Ledger.Entries.{find}
use lite_soroban.Ledger.Keyed.{IsKeyed}
use lite_soroban.Classic.Footprint.{apply_extend_footprint_ttl, apply_restore_footprint}
use lite_soroban.Classic.Validate.{invoker_of, op_account_of, check_resource_fee, is_restore}
use lite_soroban.Classic.Apply.Keyed.{
  HostWritesKeyed, run_collected-IsKeyed, send-IsKeyed, charge_source-IsKeyed,
}
use lite_soroban.Classic.Apply.{apply_transaction, plain_charge, pass}
use lite_soroban.Classic.Apply.Course.{apply_transaction_committed}
use lite_soroban.Classic.Apply.Failed.{single_operation_soroban}

-- The accounts of a transaction: the outcome `o` and the ledger `n` against what its operation spent
-- and left, on the ledger `m` on which the fee was taken.
pub record IsAccounted (sdk : Sdk) (l m : Ledger) (c : FeeCharge) (w : Validated) (size : ℕ)
    (o : TxOutcome) (n : Ledger) : Type 0 where
  pub fee : SorobanFee
  pub reported : o.soroban_fee ≡ some fee
  pub non_refundable :
      fee.non_refundable
      ≡ (sdk.compute_resource_fee l w.soroban size 0 (is_restore w.operation.body)).non_refundable
  pub spends :
      fee.refundable
      ≡ (spent sdk w (some (w.soroban.resource_fee -ℤ fee.non_refundable)) m w.op_account).0
  pub charges :
      o.fee_charged
      ≡ (c.upfront -ℤ w.soroban.resource_fee) +ℤ (fee.non_refundable +ℤ fee.refundable)
  pub repays :
      load_account n c.payer
      ≡ Option.map
          (credited (repaid (w.soroban.resource_fee -ℤ fee.non_refundable -ℤ fee.refundable)))
          (load_account
            (spent sdk w (some (w.soroban.resource_fee -ℤ fee.non_refundable)) m w.op_account).1
            c.payer)
  pub others :
      (k : LedgerKey)
      → ¬ (account_key c.payer ≡ k)
      → find k n.store
        ≡ find k
            (spent sdk w
              (some (w.soroban.resource_fee -ℤ fee.non_refundable))
              m
              w.op_account).1.store

charges_lem :
    (up declared n used : ℤ) → up -ℤ ((declared -ℤ n) -ℤ used) ≡ (up -ℤ declared) +ℤ (n +ℤ used)
charges_lem up declared n used = omega int_laws

settle-IsAccounted :
    (sdk : Sdk) (l m : Ledger) (c : FeeCharge) (w : Validated) (r : TxOutcome × Ledger) (size : ℕ)
    → Spends c w (spent sdk w (some (w.soroban.resource_fee -ℤ w.non_refundable)) m w.op_account) r
    → IsKeyed
        (spent sdk w (some (w.soroban.resource_fee -ℤ w.non_refundable)) m w.op_account).1.store
    → w.non_refundable
      ≡ (sdk.compute_resource_fee l w.soroban size 0 (is_restore w.operation.body)).non_refundable
    → IsAccounted sdk l m c w size r.0 r.1
unfolding settle
settle-IsAccounted sdk l m c w r size s keyed priced =
    let left = (spent sdk w (some (w.soroban.resource_fee -ℤ w.non_refundable)) m w.op_account).1 in
    let (repays, others) =
      give_back-credited left c (max_refundable w -ℤ s.used.refundable) keyed in
    rw s.same (record {
      fee = record {
        non_refundable = w.non_refundable;
        refundable = s.used.refundable;
        rent = s.used.rent;
      };
      reported = refl;
      non_refundable = priced;
      spends = s.consumed;
      charges = charges_lem c.upfront w.soroban.resource_fee w.non_refundable s.used.refundable;
      repays = repays;
      others = others;
    })

spent-IsKeyed :
    (sdk : Sdk) (w : Validated) (cap : Option ℤ) (m : Ledger) (a : Option AccountEntry)
    (body : OperationBody)
    → w.operation.body ≡ body
    → HostWritesKeyed sdk
    → IsKeyed m.store
    → IsKeyed (spent sdk w cap m a).1.store
unfolding apply_extend_footprint_ttl apply_restore_footprint
spent-IsKeyed sdk w cap m none body e g h = h
spent-IsKeyed sdk w cap m (some a) (extend_footprint_ttl to) e g h =
    rw e (run_collected-IsKeyed sdk m cap _ h)
spent-IsKeyed sdk w cap m (some a) restore_footprint e g h =
    rw e (run_collected-IsKeyed sdk m cap _ h)
spent-IsKeyed sdk w cap m (some a) (invoke_host_function f auth) e g h =
    rw e (send-IsKeyed sdk m f w.invoker_id w.soroban.resources auth [] cap g h)
spent-IsKeyed sdk w cap m (some a) (classic n) e g h = rw e h

priced_lem :
    (sdk : Sdk) (l : Ledger) (c : FeeCharge) (d : SorobanTransactionData) (size : ℕ)
    (restores : Bool) (n : ℤ)
    → check_resource_fee sdk l (some c) d size restores ≡ pass n
    → n ≡ (sdk.compute_resource_fee l d size 0 restores).non_refundable
unfolding check_resource_fee
priced_lem sdk l c d size restores n h = ground arith

pub commit_inner-IsAccounted :
    (sdk : Sdk) (l : Ledger) (v : ValidationOptions) (raw : Transaction) (c : FeeCharge)
    (w : Validated) (size : ℕ)
    → HostWritesKeyed sdk
    → IsKeyed l.store
    → is_soroban_op w.operation.body ≡ true
    → check_resource_fee sdk l (some c) w.soroban size (is_restore w.operation.body)
      ≡ pass w.non_refundable
    → IsAccounted sdk l
        (charge_source l v raw w (some c))
        c
        w
        size
        (commit_inner sdk l v raw (some c) w).0
        (commit_inner sdk l v raw (some c) w).1
unfolding commit_inner
commit_inner-IsAccounted sdk l v raw c w size g keyed b p =
    let m = charge_source l v raw w (some c) in
    settle-IsAccounted sdk l m c w _ size (run_for-Spends sdk c w m w.op_account b)
      (spent-IsKeyed sdk w _ m w.op_account w.operation.body refl g
        (charge_source-IsKeyed l v raw w (some c) keyed))
      (priced_lem sdk l c w.soroban size _ _ p)

plain_charge_on :
    (v : ValidationOptions) (raw : Transaction) (d : SorobanTransactionData)
    → v.fee_charging ≡ true
    → raw.soroban_data ≡ some d
    → plain_charge v raw
      ≡ some (record {
        payer = muxed_to_account_id raw.source_account;
        upfront = fee_to_charge (pos raw.fee) d.resource_fee (length raw.operations);
      })
unfolding declared_resource_fee
plain_charge_on v raw d h e = simp (h, e)

-- The charge of a plain envelope.
abbrev pub charge_of : V1Envelope → SorobanTransactionData → FeeCharge
charge_of e d = record {
  payer = muxed_to_account_id e.tx.source_account;
  upfront = fee_to_charge (pos e.tx.fee) d.resource_fee (length e.tx.operations);
}

-- With fees charged, on a ledger whose entries stand under their own keys and with a host that keeps
-- it so, a plain envelope that is not rejected first takes its fee from the source account, whose
-- sequence number is used up. Then the outcome reports what the operation spent of the refundable
-- fee on that ledger, the rent of a footprint operation or what the host says of a call that
-- succeeds, with the non-refundable part that the network prices; the fee is what was taken beyond
-- the declared resource fee, and these two parts. The rest of the declared resource fee goes back to
-- the source account, and no other entry differs from what the operation left.
pub apply_transaction-IsAccounted :
    (sdk : Sdk) (l : Ledger) (passphrase : Bytes) (v : ValidationOptions) (e : V1Envelope)
    → HostWritesKeyed sdk
    → IsKeyed l.store
    → v.fee_charging ≡ true
    → (apply_transaction sdk l passphrase v (tx_v1 e)).0.rejected ≡ false
    → (w : Validated) × (m : Ledger) × (e.tx.soroban_data ≡ some w.soroban)
      × (e.tx.operations ≡ w.operation ∷ [])
      × (load_account l (muxed_to_account_id e.tx.source_account) ≡ some w.account)
      × (w.invoker_id ≡ invoker_of e.tx w.operation)
      × (w.op_account ≡ op_account_of l w.operation w.account)
      × Became l m
          (muxed_to_account_id e.tx.source_account)
          (charged (bumped l w.account (next_sequence v e.tx w)) (charge_of e w.soroban).upfront)
      × IsAccounted sdk l m
          (charge_of e w.soroban)
          w
          (sdk.envelope_size e)
          (apply_transaction sdk l passphrase v (tx_v1 e)).0
          (apply_transaction sdk l passphrase v (tx_v1 e)).1
apply_transaction-IsAccounted sdk l passphrase v e g keyed c h =
    let (w, p, same) = apply_transaction_committed sdk l passphrase v e h in
    let b = single_operation_soroban e.tx.operations w.operation p.has_operation in
    let on = plain_charge_on v e.tx w.soroban c p.has_soroban in
    let charge = charge_of e w.soroban in
    let m = charge_source l v e.tx w (some charge) in
    (
      w,
      m,
      p.has_soroban,
      single_operation_only e.tx.operations w.operation p.has_operation,
      p.has_account,
      p.has_invoker,
      p.has_op_account,
      charge_source-Became l v e.tx w (some charge) keyed p.has_account refl,
      rw (same, on)
          (commit_inner-IsAccounted sdk l v e.tx charge w (sdk.envelope_size e) g keyed b
            (rw on at p.resource_fee)),
    )

-- ===== src/Classic/Apply/Bumped.antt =====
-- Fee bumps: who pays for the inner transaction, and under which code it is reported.
use lite_soroban.Prelude.{
  ℕ, none, pos, ◌+◌, ◌≡◌, refl, true, false, [], ◌∷◌, some, if◌then◌else◌, length,
}
use mathlib.Core.Option
use lite_soroban.Xdr.{Bytes, FeeBumpEnvelope, tx_fee_bump, SorobanTransactionData, LedgerKey}
use lite_soroban.Sdk.{Sdk}
use lite_soroban.Ledger.{Ledger}
use lite_soroban.Ledger.Entries.{find}
use lite_soroban.Ledger.Keyed.{IsKeyed}
use lite_soroban.Classic.Outcome.{TxOutcome, tx_fee_bump_inner_success, tx_fee_bump_inner_failed}
use lite_soroban.Classic.Accounts.{account_key, load_account, muxed_to_account_id, bump_sequence}
use lite_soroban.Classic.Accounts.Loading.{bumped, find-debit, bump_sequence-IsKeyed}
use lite_soroban.Classic.Fees.{fee_to_charge, declared_resource_fee}
use lite_soroban.Classic.Validate.{
  ValidationOptions, FeeCharge, Validated, invoker_of, op_account_of,
}
use lite_soroban.Classic.Commit.{charge_source, next_sequence, commit_inner}
use lite_soroban.Classic.Commit.Failing.{Became, charged, charge_source-Became}
use lite_soroban.Classic.Commit.Consuming.{load-fee}
use lite_soroban.Classic.Apply.{apply_transaction, bump_charge, bump_outcome}
use lite_soroban.Classic.Apply.Accounting.{IsAccounted, commit_inner-IsAccounted}
use lite_soroban.Classic.Apply.Course.{bump_committed}
use lite_soroban.Classic.Apply.Failed.{single_operation_soroban}
use lite_soroban.Classic.Apply.Keyed.{HostWritesKeyed}
use lite_soroban.Classic.Apply.Signed.{single_operation_only}

-- The charge of a fee bump: on the fee source, for one operation more than the inner ones.
abbrev pub bump_charge_of : FeeBumpEnvelope → SorobanTransactionData → FeeCharge
bump_charge_of e d = record {
  payer = muxed_to_account_id e.tx.fee_source;
  upfront = fee_to_charge e.tx.fee d.resource_fee (length e.tx.inner_tx.tx.operations + 1);
}

bump_charge_on :
    (v : ValidationOptions) (e : FeeBumpEnvelope) (d : SorobanTransactionData)
    → v.fee_charging ≡ true
    → e.tx.inner_tx.tx.soroban_data ≡ some d
    → bump_charge v e ≡ some (bump_charge_of e d)
unfolding declared_resource_fee
bump_charge_on v e d h s = simp (h, s)

-- The ledger `b` on which the sequence number is used up, and `m` on which the fee is taken too.
pub record IsCharged (c : FeeCharge) (b m : Ledger) : Type 0 where
  pub paid : load_account m c.payer ≡ Option.map (λ a. charged a c.upfront) (load_account b c.payer)
  pub others : (k : LedgerKey) → ¬ (account_key c.payer ≡ k) → find k m.store ≡ find k b.store

bump_outcome-IsAccounted :
    (sdk : Sdk) (l m : Ledger) (c : FeeCharge) (w : Validated) (size : ℕ) (o : TxOutcome)
    (n : Ledger)
    → o.rejected ≡ false
    → IsAccounted sdk l m c w size o n
    → IsAccounted sdk l m c w size (bump_outcome o) n
      × ((bump_outcome o).code
          ≡ (if (bump_outcome o).ok then tx_fee_bump_inner_success else tx_fee_bump_inner_failed))
unfolding bump_outcome
bump_outcome-IsAccounted sdk l m c w size o n h a = rw h (
  record {
    fee = a.fee;
    reported = a.reported;
    non_refundable = a.non_refundable;
    spends = a.spends;
    charges = a.charges;
    repays = a.repays;
    others = a.others;
  },
  refl,
)

-- With fees charged, on a ledger whose entries stand under their own keys and with a host that keeps
-- it so, a fee bump that is not rejected uses up the sequence number of the inner source account
-- alone, then takes the fee of its bid, for one operation more, from the fee source alone. The
-- outcome and the ledger account for what the inner operation spent as a plain transaction's do,
-- with the fee source as the payer; the code is txFEE_BUMP_INNER_SUCCESS if the outcome is ok, and
-- txFEE_BUMP_INNER_FAILED if not.
pub apply_fee_bump-IsAccounted :
    (sdk : Sdk) (l : Ledger) (passphrase : Bytes) (v : ValidationOptions) (e : FeeBumpEnvelope)
    → HostWritesKeyed sdk
    → IsKeyed l.store
    → v.fee_charging ≡ true
    → (apply_transaction sdk l passphrase v (tx_fee_bump e)).0.rejected ≡ false
    → let raw = e.tx.inner_tx.tx in
      let (o, n) = apply_transaction sdk l passphrase v (tx_fee_bump e) in
      (w : Validated) × (b : Ledger) × (m : Ledger) × (raw.soroban_data ≡ some w.soroban)
      × (raw.operations ≡ w.operation ∷ [])
      × (load_account l (muxed_to_account_id raw.source_account) ≡ some w.account)
      × (w.invoker_id ≡ invoker_of raw w.operation)
      × (w.op_account ≡ op_account_of l w.operation w.account)
      × Became l b
          (muxed_to_account_id raw.source_account)
          (charged (bumped l w.account (next_sequence v raw w)) (pos 0))
      × IsCharged (bump_charge_of e w.soroban) b m
      × IsAccounted sdk l m (bump_charge_of e w.soroban) w (sdk.envelope_size e.tx.inner_tx) o n
      × (o.code ≡ (if o.ok then tx_fee_bump_inner_success else tx_fee_bump_inner_failed))
unfolding charge_source
apply_fee_bump-IsAccounted sdk l passphrase v e g keyed c h =
    let raw = e.tx.inner_tx.tx in
    let (w, p, same, accepted) = bump_committed sdk l passphrase v e h in
    let on = bump_charge_on v e w.soroban c p.has_soroban in
    let charge = bump_charge_of e w.soroban in
    let size = sdk.envelope_size e.tx.inner_tx in
    let b = bump_sequence l (muxed_to_account_id raw.source_account) (next_sequence v raw w) in
    let b_keyed = bump_sequence-IsKeyed l _ (next_sequence v raw w) keyed in
    let accounts =
      bump_outcome-IsAccounted sdk l (charge_source l v raw w (some charge)) charge w size
        (commit_inner sdk l v raw (some charge) w).0 (commit_inner sdk l v raw (some charge) w).1
        (rw on at accepted)
        (commit_inner-IsAccounted sdk l v raw charge w size g keyed
          (single_operation_soroban raw.operations w.operation p.has_operation)
          (rw on at p.resource_fee)) in
    (
      w,
      b,
      charge_source l v raw w (some charge),
      p.has_soroban,
      single_operation_only raw.operations w.operation p.has_operation,
      p.has_account,
      p.has_invoker,
      p.has_op_account,
      charge_source-Became l v raw w none keyed p.has_account tt,
      record {
        paid = load-fee b charge.payer charge.upfront b_keyed;
        others = λ k n. find-debit b charge.payer charge.upfront k b_keyed n;
      },
      rw (same, on) accounts.0,
      rw (same, on) accounts.1,
    )

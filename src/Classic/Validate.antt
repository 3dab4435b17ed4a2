-- ===== src/Classic/Validate.antt =====
-- The validating part of `applyInner` of src/classic.ts, up to the comment "commit the classic
-- side": its checks (Validate/Checks), composed in the source's order. It reads the ledger and
-- writes nothing.
mod Checks
pub mod Sequence
use lite_soroban.Prelude.{
  ℕ, ◌*◌, ℤ, pos, ◌+ℤ◌, ◌-ℤ◌, ltb_ℤ, eqb_ℤ, Bool, true, false, not, ◌&&◌, ◌||◌, List, [], ◌∷◌,
  Option, none, some, if◌then◌else◌, ◌==◌, length, select,
}
use lite_soroban.Xdr.{
  Bytes, AccountId, MuxedAccount, key_ed25519, WeightedSigner, DecoratedSignature, Thresholds,
  AccountEntry, Memo, memo_none, memo_other, OperationBody, invoke_host_function, restore_footprint,
  Operation, SorobanTransactionData, Transaction,
}
use lite_soroban.Sdk.{Sdk}
use lite_soroban.Ledger.{Ledger}
use lite_soroban.Classic.Outcome.{
  tx_failed, tx_no_account, tx_bad_seq, tx_bad_auth, tx_bad_auth_extra, tx_bad_min_seq_age_or_gap,
  tx_missing_operation, tx_malformed, tx_soroban_invalid, tx_insufficient_fee,
  tx_insufficient_balance, op_bad_auth, starting_sequence, classic_operation, one_operation_only,
  memo_or_muxed, missing_soroban_data, resource_fee_too_low, source_missing, low_threshold_unmet,
  extra_signer_missing, inclusion_fee_too_low, source_cannot_pay, operation_threshold_unmet,
  signature_unused, TxOutcome, fail_charging, fail, Check, pass, reject, ◌>>=◌, ◌>>◌, refuse_if,
  refuse_some, or_refuse,
}
use lite_soroban.Classic.Accounts.{
  base_fee, muxed_to_account_id, is_muxed, load_account, available_balance, account_signers,
}
use lite_soroban.Classic.Signatures.{
  SignatureChecker, new_checker, check_signature, check_extra_signers, check_all_signatures_used,
}
use lite_soroban.Classic.Preconditions.{
  extra_signers_malformed, bounds_problem, bad_sequence, too_early_for_account,
}
use lite_soroban.Classic.Fees.{is_soroban_op}
use lite_soroban.Classic.Resources.{soroban_resources_problem}
use lite_soroban.Classic.Footprint.{footprint_op_malformed}
unfoldable pub use Checks.*

-- What the rest of `applyInner` uses.
pub record Validated : Type 0 where
  pub operation : Operation
  pub soroban : SorobanTransactionData
  pub non_refundable : ℤ
  pub account : AccountEntry
  pub invoker_id : AccountId
  pub op_account : Option AccountEntry

abbrev pub invoker_of : Transaction → Operation → AccountId
invoker_of raw op = elim op.source_account [
  | none ↦ muxed_to_account_id raw.source_account
  | some m ↦ muxed_to_account_id m
]

abbrev pub op_account_of : Ledger → Operation → AccountEntry → Option AccountEntry
op_account_of l op a = elim op.source_account [
  | none ↦ some a
  | some m ↦ load_account l (muxed_to_account_id m)
]

abbrev pub checker_of :
    Sdk
    → Bytes
    → ValidationOptions
    → Transaction
    → List DecoratedSignature
    → Option SignatureChecker
checker_of sdk passphrase v raw signatures =
    if v.sigverify then some (new_checker signatures (sdk.tx_hash passphrase raw)) else none

-- The checks of the signatures and of what lies between them, once the account is loaded.
unfoldable pub check_authority :
    Sdk
    → Ledger
    → Option SignatureChecker
    → Transaction
    → (fee_bumped : Bool) → Option FeeCharge
    → Validated
    → Check (Unit {0})
unfolding check_signatures_1 check_fees check_signatures_2 check_footprint_op check_all_used
check_authority sdk l checker raw fee_bumped charge w = do
  c1 ← check_signatures_1 sdk checker raw w.account
  check_fees l fee_bumped charge (pos raw.fee) w.soroban.resource_fee
  c2 ← check_signatures_2 sdk c1 w.operation.body w.invoker_id w.op_account
  check_footprint_op l w.operation w.soroban
  check_all_used c2

-- All the checks of `applyInner`, in order.
unfoldable pub validate_inner :
    Sdk
    → Ledger
    → Bytes
    → ValidationOptions
    → Transaction
    → List DecoratedSignature
    → (fee_bumped : Bool) → (tx_size : ℕ) → Option FeeCharge
    → Check Validated
unfolding single_operation check_memo check_resource_fee check_bounds check_sequence check_age
    check_authority
validate_inner sdk l passphrase v raw signatures fee_bumped tx_size charge = do
  refuse_some (extra_signers_malformed sdk raw.cond) (fail tx_malformed)
  op ← single_operation raw.operations
  check_memo raw op
  d ← or_refuse raw.soroban_data (fail tx_soroban_invalid missing_soroban_data)
  refuse_some (soroban_resources_problem sdk l.fee_settings d tx_size (is_restore op.body))
      (fail tx_soroban_invalid)
  non_refundable ← check_resource_fee sdk l charge d tx_size (is_restore op.body)
  check_bounds l v raw
  account ←
      or_refuse (load_account l (muxed_to_account_id raw.source_account))
        (fail tx_no_account source_missing)
  check_sequence l v raw account.seq_num
  check_age l v raw account
  let w : Validated = record {
    operation = op;
    soroban = d;
    non_refundable = non_refundable;
    account = account;
    invoker_id = invoker_of raw op;
    op_account = op_account_of l op account;
  }
  check_authority sdk l (checker_of sdk passphrase v raw signatures) raw fee_bumped charge w
  pass w

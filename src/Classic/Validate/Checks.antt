-- ===== src/Classic/Validate/Checks.antt =====
-- The checks of `applyInner` of src/classic.ts, one for each commented block before "commit the
-- classic side".
use lite_soroban.Prelude.{
  ℕ, ◌*◌, ℤ, pos, ◌+ℤ◌, ◌-ℤ◌, ltb_ℤ, eqb_ℤ, Bool, true, false, not, ◌&&◌, ◌||◌, List, [], ◌∷◌,
  Option, none, some, ◌==◌, length, select,
}
use lite_soroban.Xdr.{
  AccountId, MuxedAccount, key_ed25519, WeightedSigner, Thresholds, AccountEntry, Memo, memo_none,
  memo_other, OperationBody, invoke_host_function, restore_footprint, Operation,
  SorobanTransactionData, Transaction,
}
use lite_soroban.Sdk.{Sdk}
use lite_soroban.Ledger.{Ledger}
use lite_soroban.Classic.Outcome.{
  tx_failed, tx_bad_seq, tx_bad_auth, tx_bad_auth_extra, tx_bad_min_seq_age_or_gap,
  tx_missing_operation, tx_malformed, tx_soroban_invalid, tx_insufficient_fee,
  tx_insufficient_balance, op_bad_auth, starting_sequence, classic_operation, one_operation_only,
  memo_or_muxed, resource_fee_too_low, low_threshold_unmet, extra_signer_missing,
  inclusion_fee_too_low, source_cannot_pay, operation_threshold_unmet, signature_unused, TxOutcome,
  fail_charging, fail, Check, pass, reject, ◌>>=◌, ◌>>◌, refuse_if, refuse_some,
}
use lite_soroban.Classic.Accounts.{
  base_fee, is_muxed, load_account, available_balance, account_signers,
}
use lite_soroban.Classic.Signatures.{
  SignatureChecker, check_signature, check_extra_signers, check_all_signatures_used,
}
use lite_soroban.Classic.Preconditions.{bounds_problem, bad_sequence, too_early_for_account}
use lite_soroban.Classic.Fees.{is_soroban_op}
use lite_soroban.Classic.Footprint.{footprint_op_malformed}

-- `ValidationOptions`; an option that is absent is on.
pub record ValidationOptions : Type 0 where
  pub sigverify : Bool
  pub sequence_check : Bool
  pub fee_charging : Bool
  pub timebounds : Bool

-- Who pays, and what leaves the account up front.
pub record FeeCharge : Type 0 where
  pub payer : AccountId
  pub upfront : ℤ

abbrev pub is_restore : OperationBody → Bool
is_restore restore_footprint = true
is_restore _ = false

abbrev pub is_invoke : OperationBody → Bool
is_invoke (invoke_host_function f auth) = true
is_invoke _ = false

unfoldable pub single_operation : List Operation → Check Operation
single_operation [] = reject (fail_charging tx_missing_operation none (pos 0))
single_operation (o ∷ os) = do
  refuse_if (soroban == 0) (fail tx_malformed classic_operation)
  refuse_if (not (soroban == length (o ∷ os)) || not (length (o ∷ os) == 1))
      (fail tx_malformed one_operation_only)
  pass o
  where
    soroban : ℕ
    soroban = length (select (λ x. is_soroban_op x.body) (o ∷ os))

abbrev pub has_memo : Memo → Bool
has_memo memo_none = false
has_memo (memo_other b) = true

abbrev pub source_is_muxed : Option MuxedAccount → Bool
source_is_muxed none = false
source_is_muxed (some m) = is_muxed m

-- No memo and no muxed source on InvokeHostFunction.
unfoldable pub check_memo : Transaction → Operation → Check (Unit {0})
check_memo raw op =
    refuse_if
      (is_invoke op.body
        && (has_memo raw.memo || is_muxed raw.source_account || source_is_muxed op.source_account))
      (fail tx_soroban_invalid memo_or_muxed)

-- The declared resource fee against the actual one; the non-refundable part of it, or zero where
-- no fee is charged.
unfoldable pub check_resource_fee :
    Sdk → Ledger → Option FeeCharge → SorobanTransactionData → ℕ → Bool → Check ℤ
check_resource_fee sdk l none d tx_size restores = pass (pos 0)
check_resource_fee sdk l (some charge) d tx_size restores = do
  let actual = sdk.compute_resource_fee l d tx_size 0 restores
  refuse_if (ltb_ℤ d.resource_fee (actual.non_refundable +ℤ actual.refundable)) (
      fail tx_soroban_invalid
        (resource_fee_too_low d.resource_fee (actual.non_refundable +ℤ actual.refundable)))
  pass actual.non_refundable

abbrev pub when : Bool → Check (Unit {0}) → Check (Unit {0})
when true m = m
when false m = pass tt

unfoldable pub check_bounds : Ledger → ValidationOptions → Transaction → Check (Unit {0})
unfolding bounds_problem
check_bounds l v raw =
    when v.timebounds (refuse_some (bounds_problem l raw.cond) (λ p. fail p.0 p.1))

-- `BigInt(ledger.ledgerSeq) << 32n`
abbrev pub starting_sequence_number : Ledger → ℤ
starting_sequence_number l = pos (l.ledger_seq * 4294967296)

unfoldable pub check_sequence : Ledger → ValidationOptions → Transaction → ℤ → Check (Unit {0})
check_sequence l v raw current = do
  refuse_if (eqb_ℤ raw.seq_num (starting_sequence_number l)) (fail tx_bad_seq starting_sequence)
  when v.sequence_check (refuse_some (bad_sequence raw.cond current raw.seq_num) (fail tx_bad_seq))

unfoldable pub check_age :
    Ledger → ValidationOptions → Transaction → AccountEntry → Check (Unit {0})
check_age l v raw a =
    when v.timebounds
      (refuse_some (too_early_for_account l raw.cond a) (fail tx_bad_min_seq_age_or_gap))

-- A check that passes goes on with the new state of the checker.
abbrev pub require : Bool × SignatureChecker → TxOutcome → Check SignatureChecker
require (true, c) o = pass c
require (false, c) o = reject o

-- Signatures, part 1: the source at LOW, and every extra signer. No checker: not verified.
unfoldable pub check_signatures_1 :
    Sdk → Option SignatureChecker → Transaction → AccountEntry → Check (Option SignatureChecker)
check_signatures_1 sdk none raw a = pass none
check_signatures_1 sdk (some c) raw a = do
  c' ←
      require (check_signature sdk c (account_signers a) a.thresholds.low)
        (fail tx_bad_auth (low_threshold_unmet a.thresholds.low a.account_id))
  c'' ← require (check_extra_signers sdk c' raw.cond) (fail tx_bad_auth extra_signer_missing)
  pass (some c'')

abbrev cannot_pay : Option AccountEntry → ℤ → Bool
cannot_pay none fee = false
cannot_pay (some a) fee = ltb_ℤ (available_balance a) fee

-- Without a fee bump the payer is the source account, which was loaded before.
abbrev pub check_balance : Ledger → Option FeeCharge → ℤ → Check (Unit {0})
check_balance l none total_fee = pass tt
check_balance l (some charge) total_fee =
    refuse_if (cannot_pay (load_account l charge.payer) total_fee)
      (fail tx_insufficient_balance source_cannot_pay)

-- The fees of an envelope that is not bumped.
unfoldable pub check_fees :
    Ledger → (fee_bumped : Bool) → Option FeeCharge → (total resource : ℤ) → Check (Unit {0})
check_fees l true charge total resource = pass tt
check_fees l false charge total resource = do
  refuse_if (ltb_ℤ (total -ℤ resource) (pos base_fee))
      (fail tx_insufficient_fee (inclusion_fee_too_low (total -ℤ resource)))
  check_balance l charge total

-- MEDIUM for InvokeHostFunction, LOW for the footprint operations.
abbrev pub op_threshold : OperationBody → Thresholds → ℕ
op_threshold (invoke_host_function f auth) t = t.medium
op_threshold _ t = t.low

-- The signers that the operation needs, and their weight; a key without an account signs alone.
abbrev pub op_signers : OperationBody → AccountId → Option AccountEntry → List WeightedSigner × ℕ
op_signers body id (some a) = (account_signers a, op_threshold body a.thresholds)
op_signers body id none = (record { key = key_ed25519 id; weight = 1 } ∷ [], 0)

-- Signatures, part 2: the operation's own threshold.
unfoldable pub check_signatures_2 :
    Sdk
    → Option SignatureChecker
    → OperationBody
    → AccountId
    → Option AccountEntry
    → Check (Option SignatureChecker)
check_signatures_2 sdk none body id a = pass none
check_signatures_2 sdk (some c) body id a = do
  let signers = op_signers body id a
  c' ←
      require (check_signature sdk c signers.0 signers.1)
        (record (fail tx_failed (operation_threshold_unmet id)) { op_code = some op_bad_auth })
  pass (some c')

unfoldable pub check_footprint_op : Ledger → Operation → SorobanTransactionData → Check (Unit {0})
unfolding footprint_op_malformed
check_footprint_op l op d =
    refuse_some (footprint_op_malformed l op.body d)
      (λ p. record (fail tx_failed p.1) { footprint_op_result = some p.0 })

unfoldable pub check_all_used : Option SignatureChecker → Check (Unit {0})
unfolding check_all_signatures_used
check_all_used none = pass tt
check_all_used (some c) =
    refuse_if (not (check_all_signatures_used c)) (fail tx_bad_auth_extra signature_unused)

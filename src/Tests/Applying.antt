-- ===== src/Tests/Applying.antt =====
-- Whole transactions, on the sample ledger.
use lite_soroban.Prelude.{
  pos, ◌-ℤ◌, ◌+ℤ◌, ◌≡◌, refl, true, false, [], ◌∷◌, some, arith, if◌then◌else◌,
}
use native.Mathlib.Decide.{ℕ_discrete}
use lite_soroban.Xdr.{tx_v1, tx_fee_bump, key_of, LedgerKey-discrete}
use lite_soroban.Ledger.{Ledger, new_ledger, put_entry, get_entry, get_entry_ttl}
use lite_soroban.Ledger.Entries.{find, insert}
use lite_soroban.Host.{send}
use lite_soroban.Classic.Outcome.{TxOutcome, tx_fee_bump_inner_success, tx_fee_bump_inner_failed}
use lite_soroban.Classic.Accounts.{
  load_account, store_account, fund_account, account_signers, available_balance, debit,
  bump_sequence, muxed_to_account_id,
}
use lite_soroban.Classic.Signatures.{
  new_checker, check_signature, check_each, verifies, pre_authorises, check_all_signatures_used,
  hint_matches, take_first,
}
use lite_soroban.Classic.Preconditions.{
  extra_signers_malformed, bounds_problem, bad_sequence, too_early_for_account,
}
use lite_soroban.Classic.Resources.{soroban_resources_problem}
use lite_soroban.Classic.Apply.{apply_transaction}
use lite_soroban.Classic.Footprint.{apply_extend_footprint_ttl}
use lite_soroban.Classic.Validate.{Validated, invoker_of, op_account_of}
use lite_soroban.Classic.Commit.{next_sequence}
use lite_soroban.Classic.Commit.Failing.{Became, charged}
use lite_soroban.Classic.Accounts.Loading.{bumped}
use lite_soroban.Classic.Apply.Authority.{SignedBy}
use lite_soroban.Classic.Apply.Signed.{apply_transaction-SignedBy}
use lite_soroban.Classic.Apply.Atomic.{apply_transaction_rejected}
use lite_soroban.Classic.Apply.Failed.{RefundableFeesAreNonNegative, apply_transaction_failed}
use lite_soroban.Classic.Apply.Accounting.{charge_of, IsAccounted, apply_transaction-IsAccounted}
use lite_soroban.Classic.Apply.Replay.{apply_transaction_stale, apply_transaction_again}
use lite_soroban.Ledger.Keyed.{IsKeyed}
use lite_soroban.Classic.Apply.Keyed.{HostWritesKeyed, apply_transaction-IsKeyed}
use lite_soroban.Classic.Apply.Bumped.{bump_charge_of, IsCharged, apply_fee_bump-IsAccounted}
use lite_soroban.Tests.Samples.{
  sample_sdk, ledger_with, all_checks, call, bump, alice, by_alice, alice_account, old_call,
  ledger_with-IsKeyed,
}

-- Alice's call on the sample ledger.
abbrev called : TxOutcome × Ledger
called = apply_transaction sample_sdk (ledger_with 150) (1 ∷ []) all_checks (tx_v1 call)

pub call_fails :
    (called.0.rejected ≡ false) × (called.0.ok ≡ false) × (called.0.fee_charged ≡ pos 200)
unfolding apply_transaction ◌-ℤ◌ ◌+ℤ◌ ℕ_discrete key_of LedgerKey-discrete new_ledger put_entry
    get_entry get_entry_ttl find insert send load_account store_account fund_account account_signers
    available_balance debit bump_sequence new_checker check_signature check_each verifies
    pre_authorises check_all_signatures_used hint_matches extra_signers_malformed bounds_problem
    bad_sequence too_early_for_account soroban_resources_problem take_first
    apply_extend_footprint_ttl
call_fails = (refl, refl, refl)

pub old_call_rejected :
    (apply_transaction sample_sdk (ledger_with 150) (1 ∷ []) all_checks (tx_v1 old_call)).0.rejected
    ≡ true
unfolding apply_transaction ◌-ℤ◌ ◌+ℤ◌ ℕ_discrete key_of LedgerKey-discrete new_ledger put_entry
    get_entry get_entry_ttl find insert send load_account store_account fund_account account_signers
    available_balance debit bump_sequence new_checker check_signature check_each verifies
    pre_authorises check_all_signatures_used hint_matches extra_signers_malformed bounds_problem
    bad_sequence too_early_for_account soroban_resources_problem take_first
    apply_extend_footprint_ttl
old_call_rejected = refl

alice_loaded : load_account (ledger_with 150) alice ≡ some alice_account
unfolding apply_transaction ◌-ℤ◌ ◌+ℤ◌ ℕ_discrete key_of LedgerKey-discrete new_ledger put_entry
    get_entry get_entry_ttl find insert send load_account store_account fund_account account_signers
    available_balance debit bump_sequence new_checker check_signature check_each verifies
    pre_authorises check_all_signatures_used hint_matches extra_signers_malformed bounds_problem
    bad_sequence too_early_for_account soroban_resources_problem take_first
    apply_extend_footprint_ttl
alice_loaded = refl

bump_passes :
    ((apply_transaction sample_sdk
        (ledger_with 150)
        (1 ∷ [])
        all_checks
        (tx_fee_bump bump)).0.rejected
      ≡ false)
    × ((apply_transaction sample_sdk (ledger_with 150) (1 ∷ []) all_checks (tx_fee_bump bump)).0.ok
        ≡ true)
unfolding apply_transaction ◌-ℤ◌ ◌+ℤ◌ ℕ_discrete key_of LedgerKey-discrete new_ledger put_entry
    get_entry get_entry_ttl find insert send load_account store_account fund_account account_signers
    available_balance debit bump_sequence new_checker check_signature check_each verifies
    pre_authorises check_all_signatures_used hint_matches extra_signers_malformed bounds_problem
    bad_sequence too_early_for_account soroban_resources_problem take_first
    apply_extend_footprint_ttl
bump_passes = (refl, refl)

fees_natural : RefundableFeesAreNonNegative sample_sdk
unfolding RefundableFeesAreNonNegative
fees_natural l d size events restores = omega arith

apply_transaction-SignedBy_example :
    (w : Validated) × (call.tx.operations ≡ w.operation ∷ [])
    × (load_account (ledger_with 150) alice ≡ some w.account)
    × (w.invoker_id ≡ invoker_of call.tx w.operation)
    × (w.op_account ≡ op_account_of (ledger_with 150) w.operation w.account)
    × SignedBy sample_sdk (1 ∷ []) (by_alice ∷ []) call.tx w
apply_transaction-SignedBy_example =
    apply_transaction-SignedBy sample_sdk (ledger_with 150) (1 ∷ []) all_checks call refl
      call_fails.0

apply_transaction_rejected_example :
    let r = apply_transaction sample_sdk (ledger_with 150) (1 ∷ []) all_checks (tx_v1 old_call) in
    (r.0.ok ≡ false) × (r.1 ≡ ledger_with 150)
apply_transaction_rejected_example =
    apply_transaction_rejected sample_sdk (ledger_with 150) (1 ∷ []) all_checks (tx_v1 old_call)
      old_call_rejected

apply_transaction_failed_example :
    (w : Validated) × (load_account (ledger_with 150) alice ≡ some w.account)
    × Became (ledger_with 150) called.1 alice (
        charged
          (bumped (ledger_with 150) w.account (next_sequence all_checks call.tx w))
          called.0.fee_charged)
apply_transaction_failed_example =
    apply_transaction_failed sample_sdk (ledger_with 150) (1 ∷ []) all_checks call
      (ledger_with-IsKeyed 150) fees_natural call_fails.0 call_fails.1

-- The sample host writes nothing.
host_writes_keyed : HostWritesKeyed sample_sdk
unfolding HostWritesKeyed
host_writes_keyed l f source r auth restored cap = tt

apply_transaction-IsAccounted_example :
    (w : Validated) × (m : Ledger) × (call.tx.soroban_data ≡ some w.soroban)
    × (call.tx.operations ≡ w.operation ∷ [])
    × (load_account (ledger_with 150) alice ≡ some w.account)
    × (w.invoker_id ≡ invoker_of call.tx w.operation)
    × (w.op_account ≡ op_account_of (ledger_with 150) w.operation w.account)
    × Became (ledger_with 150) m alice (
        charged
          (bumped (ledger_with 150) w.account (next_sequence all_checks call.tx w))
          (charge_of call w.soroban).upfront)
    × IsAccounted sample_sdk
        (ledger_with 150)
        m
        (charge_of call w.soroban)
        w
        (sample_sdk.envelope_size call)
        called.0
        called.1
apply_transaction-IsAccounted_example =
    apply_transaction-IsAccounted sample_sdk (ledger_with 150) (1 ∷ []) all_checks call
      host_writes_keyed (ledger_with-IsKeyed 150) refl call_fails.0

apply_transaction_stale_example :
    (apply_transaction sample_sdk (ledger_with 150) (1 ∷ []) all_checks (tx_v1 old_call)).0.rejected
    ≡ true
apply_transaction_stale_example =
    apply_transaction_stale sample_sdk (ledger_with 150) (1 ∷ []) all_checks old_call alice_account
      refl alice_loaded (omega arith)

apply_transaction_again_example :
    (apply_transaction sample_sdk called.1 (1 ∷ []) all_checks (tx_v1 call)).0.rejected ≡ true
apply_transaction_again_example =
    apply_transaction_again sample_sdk (ledger_with 150) (1 ∷ []) all_checks call
      (ledger_with-IsKeyed 150) fees_natural refl call_fails.0 call_fails.1

apply_fee_bump-IsAccounted_example :
    let l = ledger_with 150 in
    let raw = bump.tx.inner_tx.tx in
    let (o, n) = apply_transaction sample_sdk l (1 ∷ []) all_checks (tx_fee_bump bump) in
    (w : Validated) × (b : Ledger) × (m : Ledger) × (raw.soroban_data ≡ some w.soroban)
    × (raw.operations ≡ w.operation ∷ [])
    × (load_account l (muxed_to_account_id raw.source_account) ≡ some w.account)
    × (w.invoker_id ≡ invoker_of raw w.operation)
    × (w.op_account ≡ op_account_of l w.operation w.account)
    × Became l b
        (muxed_to_account_id raw.source_account)
        (charged (bumped l w.account (next_sequence all_checks raw w)) (pos 0))
    × IsCharged (bump_charge_of bump w.soroban) b m
    × IsAccounted sample_sdk l m
        (bump_charge_of bump w.soroban)
        w
        (sample_sdk.envelope_size bump.tx.inner_tx)
        o
        n
    × (o.code ≡ (if o.ok then tx_fee_bump_inner_success else tx_fee_bump_inner_failed))
apply_fee_bump-IsAccounted_example =
    apply_fee_bump-IsAccounted sample_sdk (ledger_with 150) (1 ∷ []) all_checks bump
      host_writes_keyed (ledger_with-IsKeyed 150) refl bump_passes.0

apply_transaction-IsKeyed_example :
    IsKeyed
      (apply_transaction sample_sdk
        (ledger_with 150)
        (1 ∷ [])
        all_checks
        (tx_fee_bump bump)).1.store
apply_transaction-IsKeyed_example =
    apply_transaction-IsKeyed sample_sdk (ledger_with 150) (1 ∷ []) all_checks (tx_fee_bump bump)
      host_writes_keyed (ledger_with-IsKeyed 150)

-- ===== src/Classic/Commit.antt =====
-- The committing part of `applyInner` of src/classic.ts: the sequence number, the fee, the
-- operation, and the refund (`settle`).
pub mod Settling
pub mod Failing
pub mod Consuming
use lite_soroban.Prelude.{
  ℕ, ℤ, pos, ◌+ℤ◌, ◌-ℤ◌, ltb_ℤ, Bool, true, false, List, [], ◌∷◌, Option, none, some, if◌then◌else◌,
}
use lite_soroban.Xdr.{
  Bytes, AccountEntry, LedgerKey, OperationBody, invoke_host_function, extend_footprint_ttl,
  restore_footprint, classic, SorobanTransactionData, Transaction,
}
use lite_soroban.Sdk.{Sdk, HostReply}
use lite_soroban.Ledger.{Ledger}
use lite_soroban.Host.{send}
use lite_soroban.Classic.Outcome.{
  TxResultCode, tx_success, tx_failed, op_no_account, FootprintOpResult, extend_success,
  extend_resource_limit_exceeded, extend_insufficient_refundable_fee, restore_success,
  restore_resource_limit_exceeded, restore_insufficient_refundable_fee, Detail,
  operation_source_missing, host_detail, SorobanFee, TxOutcome, plain,
}
use lite_soroban.Classic.Accounts.{muxed_to_account_id, bump_sequence, debit}
use lite_soroban.Classic.Footprint.{
  FootprintOpApplied, apply_extend_footprint_ttl, apply_restore_footprint,
}
use lite_soroban.Classic.Validate.{ValidationOptions, FeeCharge, Validated}

-- What the operation consumed of the refundable fee.
pub record Consumed : Type 0 where
  pub refundable : ℤ
  pub rent : ℤ

abbrev pub nothing_consumed : Consumed
nothing_consumed = record { refundable = pos 0; rent = pos 0 }

abbrev pub max_refundable : Validated → ℤ
max_refundable w = w.soroban.resource_fee -ℤ w.non_refundable

-- `if (refund > 0n) debit(ledger, payer, -refund)`
abbrev pub give_back : Ledger → FeeCharge → ℤ → Ledger
give_back l charge refund =
    if ltb_ℤ (pos 0) refund then debit l charge.payer (pos 0 -ℤ refund) else l

unfoldable pub settle :
    Option FeeCharge → Validated → TxOutcome → Consumed → Ledger → TxOutcome × Ledger
unfolding debit
settle none w o c l = (record o { fee_charged = pos 0 }, l)
settle (some charge) w o c l =
    let refund = max_refundable w -ℤ c.refundable in
    let fee : SorobanFee = record {
      non_refundable = w.non_refundable;
      refundable = c.refundable;
      rent = c.rent;
    } in
    (
      record o { fee_charged = charge.upfront -ℤ refund; soroban_fee = some fee },
      give_back l charge refund,
    )

-- The result arms of the two footprint operations.
pub record Arms : Type 0 where
  pub success : FootprintOpResult
  pub over_limit : FootprintOpResult
  pub short : FootprintOpResult

abbrev pub extend_arms : Arms
extend_arms = record {
  success = extend_success;
  over_limit = extend_resource_limit_exceeded;
  short = extend_insufficient_refundable_fee;
}

abbrev pub restore_arms : Arms
restore_arms = record {
  success = restore_success;
  over_limit = restore_resource_limit_exceeded;
  short = restore_insufficient_refundable_fee;
}

abbrev pub footprint_failed : FootprintOpResult → Detail → TxOutcome
footprint_failed arm d = record (plain tx_failed false) {
  footprint_op_result = some arm;
  detail = some d;
}

-- The outcome of a footprint operation, and what it consumed: the rent alone.
unfoldable pub footprint_outcome : Arms → FootprintOpApplied → TxOutcome × Consumed
footprint_outcome arms a = elim a.over_limit [
  | some d ↦ (footprint_failed arms.over_limit d, nothing_consumed)
  | none ↦ elim a.short [
    | some d ↦ (footprint_failed arms.short d, nothing_consumed)
    | none ↦ (
      record (plain tx_success true) {
        footprint_op_result = some arms.success;
        changed_keys = some a.changed;
      },
      record { refundable = a.rent; rent = a.rent },
    )
  ]
]

abbrev host_text : Option Bytes → Option Detail
host_text none = none
host_text (some t) = some (host_detail t)

unfoldable pub host_outcome : HostReply → TxOutcome × Consumed
host_outcome r = (
  record (plain (if r.ok then tx_success else tx_failed) r.ok) {
    return_value = r.return_value;
    events = some r.events;
    changed_keys = some r.changed_keys;
    removed_keys = some r.removed_keys;
    invoke_result = if r.ok then none else r.result_code;
    error = r.error;
    detail = host_text r.detail;
    diagnostic_events = some r.diagnostic_events;
  },
  if r.ok
      then record { refundable = r.refundable_fee_consumed; rent = r.rent_fee }
      else nothing_consumed,
)

abbrev pub settle_with :
    Option FeeCharge → Validated → TxOutcome × Consumed → Ledger → TxOutcome × Ledger
settle_with charge w (o, c) l = settle charge w o c l

abbrev pub run_body :
    Sdk → Option FeeCharge → Validated → Option ℤ → Ledger → OperationBody → TxOutcome × Ledger
run_body sdk charge w cap l (extend_footprint_ttl to) =
    let (a, l') = apply_extend_footprint_ttl sdk l to w.soroban cap in
    settle_with charge w (footprint_outcome extend_arms a) l'
run_body sdk charge w cap l restore_footprint =
    let (a, l') = apply_restore_footprint sdk l w.soroban cap in
    settle_with charge w (footprint_outcome restore_arms a) l'
run_body sdk charge w cap l (invoke_host_function f auth) =
    let (r, l') = send sdk l f w.invoker_id w.soroban.resources auth [] cap in
    settle_with charge w (host_outcome r) l'
run_body sdk charge w cap l (classic n) = (plain tx_failed false, l)

abbrev pub no_account_outcome : TxOutcome
no_account_outcome = record (plain tx_failed false) {
  op_code = some op_no_account;
  detail = some operation_source_missing;
}

-- A missing operation source fails the operation; otherwise it runs. `validate_inner` lets no
-- classic operation through, so its clause of `run_body` is never reached.
unfoldable pub run_for :
    Sdk → Option FeeCharge → Validated → Ledger → Option AccountEntry → TxOutcome × Ledger
unfolding settle footprint_outcome host_outcome
run_for sdk charge w l none = settle charge w no_account_outcome nothing_consumed l
run_for sdk charge w l (some a) = run_body sdk charge w cap l w.operation.body
  where
    cap : Option ℤ
    cap = elim charge [ none ↦ none | some c ↦ some (max_refundable w) ]

abbrev pub run_operation : Sdk → Option FeeCharge → Validated → Ledger → TxOutcome × Ledger
run_operation sdk charge w l = run_for sdk charge w l w.op_account

abbrev pub next_sequence : ValidationOptions → Transaction → Validated → ℤ
next_sequence v raw w = if v.sequence_check then raw.seq_num else w.account.seq_num +ℤ pos 1

-- The sequence number is consumed and the fee leaves its source before the operation runs.
unfoldable pub charge_source :
    Ledger → ValidationOptions → Transaction → Validated → Option FeeCharge → Ledger
unfolding bump_sequence debit
charge_source l v raw w charge =
    let bumped = bump_sequence l (muxed_to_account_id raw.source_account) (next_sequence v raw w) in
    elim charge [ none ↦ bumped | some c ↦ debit bumped c.payer c.upfront ]

unfoldable pub commit_inner :
    Sdk
    → Ledger
    → ValidationOptions
    → Transaction
    → Option FeeCharge
    → Validated
    → TxOutcome × Ledger
unfolding charge_source run_for
commit_inner sdk l v raw charge w = run_operation sdk charge w (charge_source l v raw w charge)

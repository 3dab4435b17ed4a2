-- ===== src/Classic/Apply/Trail.antt =====
-- The checks of signatures that a passed `check_authority` consists of, with the state of the
-- checker between them.
use lite_soroban.Prelude.{pos, ◌≡◌, refl, Bool, true, false, Option, some, arith}
use lite_soroban.Xdr.{Transaction, AccountId, AccountEntry, OperationBody}
use lite_soroban.Sdk.{Sdk}
use lite_soroban.Ledger.{Ledger}
use lite_soroban.Classic.Outcome.{
  TxOutcome, Ensures, Ensures-then, Ensures-bind, Ensures-pass, pass, fail, tx_bad_auth,
  low_threshold_unmet, extra_signer_missing,
}
use lite_soroban.Classic.Accounts.{account_signers}
use lite_soroban.Classic.Signatures.{
  SignatureChecker, check_signature, check_extra_signers, check_all_signatures_used,
}
use lite_soroban.Classic.Validate.{
  FeeCharge, Validated, check_signatures_1, check_fees, check_signatures_2, check_footprint_op,
  check_all_used, check_authority, op_signers, require,
}

pub record Trail (sdk : Sdk) (c : SignatureChecker) (raw : Transaction) (w : Validated)
    : Type 0 where
  pub after_source : SignatureChecker
  pub after_extra : SignatureChecker
  pub after_op : SignatureChecker
  pub source :
      check_signature sdk c (account_signers w.account) w.account.thresholds.low
      ≡ (true, after_source)
  pub extra : check_extra_signers sdk after_source raw.cond ≡ (true, after_extra)
  pub operation :
      let signers = op_signers w.operation.body w.invoker_id w.op_account in
      check_signature sdk after_extra signers.0 signers.1 ≡ (true, after_op)
  pub used : check_all_signatures_used after_op ≡ true

require-eq-pass :
    (r : Bool × SignatureChecker) (o : TxOutcome) {c : SignatureChecker}
    → require r o ≡ pass c
    → r ≡ (true, c)
require-eq-pass (true, b) o h = cc
require-eq-pass (false, b) o h = cc

Part1 : Sdk → SignatureChecker → Transaction → AccountEntry → Option SignatureChecker → Type 0
Part1 sdk c raw a r =
    (c1 : SignatureChecker) × (c2 : SignatureChecker) × (check_signature sdk c (account_signers a)
        a.thresholds.low
      ≡ (true, c1))
    × (check_extra_signers sdk c1 raw.cond ≡ (true, c2))
    × (r ≡ some c2)

part_1 :
    (sdk : Sdk) (c : SignatureChecker) (raw : Transaction) (a : AccountEntry)
    → Ensures (Part1 sdk c raw a) (check_signatures_1 sdk (some c) raw a)
unfolding check_signatures_1 Part1
part_1 sdk c raw a = Ensures-bind _ _ λ c1 p. Ensures-bind _ _ λ c2 q. Ensures-pass _ (
  c1,
  c2,
  require-eq-pass _ (fail tx_bad_auth (low_threshold_unmet a.thresholds.low a.account_id)) p,
  require-eq-pass _ (fail tx_bad_auth extra_signer_missing) q,
  refl,
)

Part2 :
    Sdk
    → SignatureChecker
    → OperationBody
    → AccountId
    → Option AccountEntry
    → Option SignatureChecker
    → Type 0
Part2 sdk c body id a r =
    (c3 : SignatureChecker) × (check_signature sdk c (op_signers body id a).0
        (op_signers body id a).1
      ≡ (true, c3))
    × (r ≡ some c3)

part_2 :
    (sdk : Sdk) (c : SignatureChecker) (body : OperationBody) (id : AccountId)
    (a : Option AccountEntry)
    → Ensures (Part2 sdk c body id a) (check_signatures_2 sdk (some c) body id a)
unfolding check_signatures_2 Part2
part_2 sdk c body id a = record { at = λ r e. ground arith }

all_used :
    (c : SignatureChecker) → check_all_used (some c) ≡ pass tt → check_all_signatures_used c ≡ true
unfolding check_all_used
all_used c h = ground arith

-- The rest of the checks, after part 1.
part_2-Trail :
    (sdk : Sdk) (l : Ledger) (c : SignatureChecker) (raw : Transaction) (w : Validated)
    (r : Option SignatureChecker)
    → Part1 sdk c raw w.account r
    → (s : Option SignatureChecker)
    → check_signatures_2 sdk r w.operation.body w.invoker_id w.op_account ≡ pass s
    → check_all_used s ≡ pass tt
    → Trail sdk c raw w
unfolding Part1 Part2
part_2-Trail sdk l c raw w r (c1, c2, p, q, e) s h k =
    let (c3, m, f) = (part_2 sdk c2 w.operation.body w.invoker_id w.op_account).at s (rw e at h) in
    record {
      after_source = c1;
      after_extra = c2;
      after_op = c3;
      source = p;
      extra = q;
      operation = m;
      used = all_used c3 (rw f at k);
    }

pub check_authority-Trail :
    (sdk : Sdk) (l : Ledger) (c : SignatureChecker) (raw : Transaction) (b : Bool)
    (charge : Option FeeCharge) (w : Validated)
    → Ensures (λ _. Trail sdk c raw w) (check_authority sdk l (some c) raw b charge w)
unfolding check_authority
check_authority-Trail sdk l c raw b charge w =
    Ensures-bind (check_signatures_1 sdk (some c) raw w.account) _ λ r p.
      Ensures-then (check_fees l b charge (pos raw.fee) w.soroban.resource_fee) _ λ _.
        Ensures-bind (check_signatures_2 sdk r w.operation.body w.invoker_id w.op_account) _ λ s q.
          Ensures-then (check_footprint_op l w.operation w.soroban) _ λ _. record {
            at = λ u k. part_2-Trail sdk l c raw w r ((part_1 sdk c raw w.account).at r p) s q k;
          }

-- ===== src/Classic/Apply/Refusal.antt =====
-- Every early return of the validation is a rejection.
use lite_soroban.Prelude.{
  ℕ, ℤ, ◌≡◌, refl, Bool, true, false, List, [], ◌∷◌, Option, none, some, arith,
}
use lite_soroban.Xdr.{
  Bytes, AccountId, AccountEntry, OperationBody, DecoratedSignature, Transaction, FeeBumpEnvelope,
  Operation, SorobanTransactionData,
}
use lite_soroban.Sdk.{Sdk}
use lite_soroban.Ledger.{Ledger}
use lite_soroban.Classic.Outcome.{
  TxOutcome, Check, pass, reject, ◌>>=◌, refuse_if, refuse_some, or_refuse,
}
use lite_soroban.Classic.Signatures.{SignatureChecker}
use lite_soroban.Classic.Validate.{
  ValidationOptions, FeeCharge, Validated, single_operation, check_memo, check_resource_fee,
  check_bounds, check_sequence, check_age, check_signatures_1, check_fees, check_signatures_2,
  check_footprint_op, check_all_used, check_authority, validate_inner, when, require,
}
use lite_soroban.Classic.Apply.{validate_fee_bump, validate_plain, check_fee_source}

-- Marked as rejected, and not ok.
abbrev pub IsRejection : TxOutcome → Type 0
IsRejection o = (o.rejected ≡ true) × (o.ok ≡ false)

pub record Refuses {ℓ} {A : Type ℓ} (m : Check A) : Type ℓ where
  pub at : (o : TxOutcome) → m ≡ reject o → IsRejection o

module _ {ℓ} {A : Type ℓ} where
  Refuses-pass : (a : A) → Refuses (pass a)
  Refuses-pass a = record { at = λ o e. cc }

  Refuses-reject : (o : TxOutcome) → IsRejection o → Refuses {A = A} (reject o)
  Refuses-reject o h = record { at = λ p e. ground arith }

  Refuses-or_refuse : (x : Option A) (o : TxOutcome) → IsRejection o → Refuses (or_refuse x o)
  Refuses-or_refuse none o h = Refuses-reject o h
  Refuses-or_refuse (some a) o h = Refuses-pass a

  Refuses-refuse_some :
      (x : Option A) (f : A → TxOutcome) → ((a : A) → IsRejection (f a)) → Refuses (refuse_some x f)
  Refuses-refuse_some none f h = record { at = λ o e. cc }
  Refuses-refuse_some (some a) f h = record { at = λ p e. ground (arith, h a) }

Refuses-refuse_if : (b : Bool) (o : TxOutcome) → IsRejection o → Refuses (refuse_if b o)
Refuses-refuse_if true o h = record { at = λ p e. ground arith }
Refuses-refuse_if false o h = record { at = λ p e. cc }

Refuses-when : (b : Bool) (m : Check (Unit {0})) → Refuses m → Refuses (when b m)
Refuses-when true m h = h
Refuses-when false m h = record { at = λ p e. cc }

Refuses-require :
    (r : Bool × SignatureChecker) (o : TxOutcome) → IsRejection o → Refuses (require r o)
Refuses-require (true, c) o h = record { at = λ p e. cc }
Refuses-require (false, c) o h = record { at = λ p e. ground arith }

Refuses-bind {ℓ κ} :
    {A : Type ℓ} {B : Type κ} (m : Check A) (f : A → Check B)
    → Refuses m
    → ((a : A) → Refuses (f a))
    → Refuses (m >>= f)
Refuses-bind (pass a) f h k = k a
Refuses-bind (reject o) f h k = record { at = λ p e. h.at p (cc) }

ruleset refusals = (
  Refuses-pass, Refuses-or_refuse, Refuses-refuse_some, Refuses-refuse_if, Refuses-when,
  Refuses-require, Refuses-bind,
)

single_operation-Refuses : (ops : List Operation) → Refuses (single_operation ops)
unfolding single_operation
single_operation-Refuses [] = Refuses-reject _ (refl, refl)
single_operation-Refuses (o ∷ os) = search refusals

check_fees-Refuses :
    (l : Ledger) (b : Bool) (charge : Option FeeCharge) (total resource : ℤ)
    → Refuses (check_fees l b charge total resource)
unfolding check_fees
check_fees-Refuses l true charge total resource = search refusals
check_fees-Refuses l false none total resource = search refusals
check_fees-Refuses l false (some c) total resource = search refusals

check_resource_fee-Refuses :
    (sdk : Sdk) (l : Ledger) (charge : Option FeeCharge) (d : SorobanTransactionData) (size : ℕ)
    (restores : Bool)
    → Refuses (check_resource_fee sdk l charge d size restores)
unfolding check_resource_fee
check_resource_fee-Refuses sdk l none d size restores = search refusals
check_resource_fee-Refuses sdk l (some c) d size restores = search refusals

check_signatures_1-Refuses :
    (sdk : Sdk) (checker : Option SignatureChecker) (raw : Transaction) (a : AccountEntry)
    → Refuses (check_signatures_1 sdk checker raw a)
unfolding check_signatures_1
check_signatures_1-Refuses sdk none raw a = search refusals
check_signatures_1-Refuses sdk (some c) raw a = search refusals

check_signatures_2-Refuses :
    (sdk : Sdk) (checker : Option SignatureChecker) (body : OperationBody) (id : AccountId)
    (a : Option AccountEntry)
    → Refuses (check_signatures_2 sdk checker body id a)
unfolding check_signatures_2
check_signatures_2-Refuses sdk none body id a = search refusals
check_signatures_2-Refuses sdk (some c) body id a = search refusals

check_footprint_op-Refuses :
    (l : Ledger) (op : Operation) (d : SorobanTransactionData) → Refuses (check_footprint_op l op d)
unfolding check_footprint_op
check_footprint_op-Refuses l op d = search refusals

check_all_used-Refuses : (checker : Option SignatureChecker) → Refuses (check_all_used checker)
unfolding check_all_used
check_all_used-Refuses none = search refusals
check_all_used-Refuses (some c) = search refusals

check_authority-Refuses :
    (sdk : Sdk) (l : Ledger) (checker : Option SignatureChecker) (raw : Transaction)
    (fee_bumped : Bool) (charge : Option FeeCharge) (w : Validated)
    → Refuses (check_authority sdk l checker raw fee_bumped charge w)
unfolding check_authority
check_authority-Refuses sdk l checker raw b charge w = search (
  refusals, check_signatures_1-Refuses, check_fees-Refuses, check_signatures_2-Refuses,
  check_footprint_op-Refuses, check_all_used-Refuses,
)

check_memo-Refuses : (raw : Transaction) (op : Operation) → Refuses (check_memo raw op)
unfolding check_memo
check_memo-Refuses raw op = search refusals

check_bounds-Refuses :
    (l : Ledger) (v : ValidationOptions) (raw : Transaction) → Refuses (check_bounds l v raw)
unfolding check_bounds
check_bounds-Refuses l v raw = search refusals

check_sequence-Refuses :
    (l : Ledger) (v : ValidationOptions) (raw : Transaction) (current : ℤ)
    → Refuses (check_sequence l v raw current)
unfolding check_sequence
check_sequence-Refuses l v raw current = search refusals

check_age-Refuses :
    (l : Ledger) (v : ValidationOptions) (raw : Transaction) (a : AccountEntry)
    → Refuses (check_age l v raw a)
unfolding check_age
check_age-Refuses l v raw a = search refusals

pub validate_inner-Refuses :
    (sdk : Sdk) (l : Ledger) (passphrase : Bytes) (v : ValidationOptions) (raw : Transaction)
    (signatures : List DecoratedSignature) (b : Bool) (size : ℕ) (charge : Option FeeCharge)
    → Refuses (validate_inner sdk l passphrase v raw signatures b size charge)
unfolding validate_inner
validate_inner-Refuses sdk l passphrase v raw signatures b size charge =
    search
      (
        refusals, single_operation-Refuses, check_memo-Refuses, check_resource_fee-Refuses,
        check_bounds-Refuses, check_sequence-Refuses, check_age-Refuses, check_authority-Refuses,
      )
      depth 20

check_fee_source-Refuses :
    (sdk : Sdk) (checker : Option SignatureChecker) (a : AccountEntry)
    → Refuses (check_fee_source sdk checker a)
check_fee_source-Refuses sdk none a = search refusals
check_fee_source-Refuses sdk (some c) a = search refusals

pub validate_fee_bump-Refuses :
    (sdk : Sdk) (l : Ledger) (passphrase : Bytes) (v : ValidationOptions) (e : FeeBumpEnvelope)
    → Refuses (validate_fee_bump sdk l passphrase v e)
unfolding validate_fee_bump
validate_fee_bump-Refuses sdk l passphrase v e =
    search (refusals, check_fee_source-Refuses) depth 20

pub validate_plain-Refuses : (raw : Transaction) → Refuses (validate_plain raw)
unfolding validate_plain
validate_plain-Refuses raw = search refusals

-- ===== src/Classic/Apply/Course.antt =====
-- What a transaction that is not rejected went through: the checks that it passed, and the commit.
use lite_soroban.Prelude.{
  ℕ, ◌≡◌, ◌∙◌, refl, sym, ap, Bool, true, false, List, Option, none, some, arith, inl, inr,
}
use lite_soroban.Xdr.{
  Bytes, DecoratedSignature, Transaction, V1Envelope, TransactionEnvelope, FeeBumpEnvelope,
  tx_fee_bump, tx_v1,
}
use lite_soroban.Sdk.{Sdk}
use lite_soroban.Ledger.{Ledger}
use lite_soroban.Classic.Outcome.{
  TxOutcome, fail, tx_malformed, tx_soroban_invalid, missing_soroban_data, tx_no_account,
  source_missing, Ensures, Ensures-then, Ensures-bind, Ensures-pass, pass, reject, Check-cases,
  refuse_some, or_refuse,
}
use lite_soroban.Classic.Accounts.{load_account, muxed_to_account_id}
use lite_soroban.Classic.Preconditions.{extra_signers_malformed}
use lite_soroban.Classic.Resources.{soroban_resources_problem}
use lite_soroban.Classic.Validate.{
  ValidationOptions, FeeCharge, Validated, single_operation, check_memo, check_resource_fee,
  check_bounds, check_sequence, check_age, check_authority, validate_inner, is_restore, invoker_of,
  op_account_of, checker_of,
}
use lite_soroban.Classic.Commit.{commit_inner}
use lite_soroban.Classic.Apply.{
  bump_outcome, validate_fee_bump, apply_fee_bump, bump_charge, apply_inner, validate_plain,
  plain_charge, apply_envelope, fill_fee, apply_transaction,
}
use lite_soroban.Classic.Apply.Refusal.{
  validate_inner-Refuses, validate_plain-Refuses, validate_fee_bump-Refuses,
}

module _ (sdk : Sdk) (l : Ledger) (passphrase : Bytes) (v : ValidationOptions) where
  -- The checks that `w` is the result of.
  pub record Passed (raw : Transaction) (signatures : List DecoratedSignature) (b : Bool) (size : ℕ)
      (charge : Option FeeCharge) (w : Validated) : Type 0 where
    pub has_operation : single_operation raw.operations ≡ pass w.operation
    pub has_soroban : raw.soroban_data ≡ some w.soroban
    pub within :
        soroban_resources_problem sdk l.fee_settings w.soroban size (is_restore w.operation.body)
        ≡ none
    pub resource_fee :
        check_resource_fee sdk l charge w.soroban size (is_restore w.operation.body)
        ≡ pass w.non_refundable
    pub has_account : load_account l (muxed_to_account_id raw.source_account) ≡ some w.account
    pub sequence : check_sequence l v raw w.account.seq_num ≡ pass tt
    pub has_invoker : w.invoker_id ≡ invoker_of raw w.operation
    pub has_op_account : w.op_account ≡ op_account_of l w.operation w.account
    pub authority :
        check_authority sdk l (checker_of sdk passphrase v raw signatures) raw b charge w ≡ pass tt

  or_refuse-eq-pass {ℓ} :
      {A : Type ℓ} (x : Option A) (o : TxOutcome) {a : A} → or_refuse x o ≡ pass a → x ≡ some a
  or_refuse-eq-pass none o h = cc
  or_refuse-eq-pass (some b) o h = cc

  refuse_some-eq-pass {ℓ} :
      {A : Type ℓ} (x : Option A) (f : A → TxOutcome) {u : Unit {0}}
      → refuse_some x f ≡ pass u
      → x ≡ none
  refuse_some-eq-pass none f h = refl
  refuse_some-eq-pass (some b) f h = cc

  pub validate_inner-Passed :
      (raw : Transaction) (signatures : List DecoratedSignature) (b : Bool) (size : ℕ)
      (charge : Option FeeCharge)
      → Ensures
          (Passed raw signatures b size charge)
          (validate_inner sdk l passphrase v raw signatures b size charge)
  unfolding validate_inner
  validate_inner-Passed raw signatures b size charge =
      Ensures-then (refuse_some (extra_signers_malformed sdk raw.cond) (fail tx_malformed)) _ λ _.
        Ensures-bind (single_operation raw.operations) _ λ op p_op.
          Ensures-then (check_memo raw op) _ λ _. Ensures-bind _ _ λ d p_d. Ensures-then _ _ λ p_r.
            Ensures-bind _ _ λ n p_n. Ensures-then (check_bounds l v raw) _ λ _.
              Ensures-bind _ _ λ a p_a. Ensures-then _ _ λ p_s.
                Ensures-then (check_age l v raw a) _ λ _. Ensures-then _ _ λ p_c.
                  Ensures-pass _ record {
                    has_operation = p_op;
                    has_soroban =
                        or_refuse-eq-pass raw.soroban_data
                          (fail tx_soroban_invalid missing_soroban_data) p_d;
                    within =
                        refuse_some-eq-pass
                          (soroban_resources_problem sdk l.fee_settings d size (is_restore op.body))
                          (fail tx_soroban_invalid) p_r;
                    resource_fee = p_n;
                    has_account =
                        or_refuse-eq-pass (load_account l (muxed_to_account_id raw.source_account))
                          (fail tx_no_account source_missing) p_a;
                    sequence = p_s;
                    has_invoker = refl;
                    has_op_account = refl;
                    authority = p_c;
                  }

module _ (sdk : Sdk) (l : Ledger) (passphrase : Bytes) (v : ValidationOptions) where
  apply_inner_committed :
      (raw : Transaction) (signatures : List DecoratedSignature) (b : Bool) (size : ℕ)
      (charge : Option FeeCharge)
      → (apply_inner sdk l passphrase v raw signatures b size charge).0.rejected ≡ false
      → (w : Validated) × Passed sdk l passphrase v raw signatures b size charge w
        × (apply_inner sdk l passphrase v raw signatures b size charge
            ≡ commit_inner sdk l v raw charge w)
  unfolding apply_inner
  apply_inner_committed raw signatures b size charge h =
      elim (Check-cases (validate_inner sdk l passphrase v raw signatures b size charge)) [
        | inl (o, e) ↦ absurd (
            ground (
              arith,
              (validate_inner-Refuses sdk l passphrase v raw signatures b size charge).at o e,
            ))
        | inr (w, e) ↦ (
          w,
          (validate_inner-Passed sdk l passphrase v raw signatures b size charge).at w e,
          rw (e, apply_inner) refl,
        )
      ]

  filled :
      (e : TransactionEnvelope) (r : TxOutcome × Ledger)
      → (fill_fee e r.0).rejected ≡ false
      → ((fill_fee e r.0, r.1) ≡ r) × (r.0.rejected ≡ false)
  unfolding fill_fee
  filled e r h = ground arith

  -- A plain envelope that is not rejected passed every check, and its outcome is the commit's.
  pub apply_transaction_committed :
      (e : V1Envelope)
      → (apply_transaction sdk l passphrase v (tx_v1 e)).0.rejected ≡ false
      → (w : Validated) × Passed sdk l passphrase v e.tx e.signatures false
          (sdk.envelope_size e)
          (plain_charge v e.tx)
          w
        × (apply_transaction sdk l passphrase v (tx_v1 e)
            ≡ commit_inner sdk l v e.tx (plain_charge v e.tx) w)
  unfolding apply_transaction apply_envelope
  apply_transaction_committed e h = elim (Check-cases (validate_plain e.tx)) [
    | inl (o, p) ↦ absurd (
        ground (
          arith,
          (validate_plain-Refuses e.tx).at o p,
          filled (tx_v1 e) (apply_envelope sdk l passphrase v (tx_v1 e)) h,
        ))
    | inr (u, p) ↦
        let inner =
          apply_inner sdk l passphrase v e.tx e.signatures false (sdk.envelope_size e)
            (plain_charge v e.tx) in
        let same : apply_envelope sdk l passphrase v (tx_v1 e) ≡ inner =
          rw (p, apply_envelope) refl in
        let (f, r) = filled (tx_v1 e) (apply_envelope sdk l passphrase v (tx_v1 e)) h in
        let (w, q, g) =
          apply_inner_committed e.tx e.signatures false (sdk.envelope_size e) (plain_charge v e.tx)
            (cc) in
        (w, q, f ∙ same ∙ g)
  ]

  bump_accepted : (o : TxOutcome) → (bump_outcome o).rejected ≡ false → o.rejected ≡ false
  unfolding bump_outcome
  bump_accepted o h = ground arith

  bump_refused :
      (e : FeeBumpEnvelope) (o : TxOutcome)
      → validate_fee_bump sdk l passphrase v e ≡ reject o
      → apply_envelope sdk l passphrase v (tx_fee_bump e) ≡ (o, l)
  unfolding apply_envelope
  bump_refused e o p = rw (p, apply_fee_bump) refl

  -- A fee bump that is not rejected has an inner transaction that passed every check, and its
  -- outcome is the commit's under an outer code.
  pub bump_committed :
      (e : FeeBumpEnvelope)
      → (apply_transaction sdk l passphrase v (tx_fee_bump e)).0.rejected ≡ false
      → let raw = e.tx.inner_tx.tx in
        (w : Validated) × Passed sdk l passphrase v raw e.tx.inner_tx.signatures true
          (sdk.envelope_size e.tx.inner_tx)
          (bump_charge v e)
          w
        × (apply_transaction sdk l passphrase v (tx_fee_bump e) ≡ (
          bump_outcome (commit_inner sdk l v raw (bump_charge v e) w).0,
          (commit_inner sdk l v raw (bump_charge v e) w).1,
        ))
        × ((commit_inner sdk l v raw (bump_charge v e) w).0.rejected ≡ false)
  unfolding apply_transaction apply_envelope
  bump_committed e h = elim (Check-cases (validate_fee_bump sdk l passphrase v e)) [
    | inl (o, p) ↦ absurd (
        ground (
          arith,
          (validate_fee_bump-Refuses sdk l passphrase v e).at o p,
          filled (tx_fee_bump e) (apply_envelope sdk l passphrase v (tx_fee_bump e)) h,
          bump_refused e o p,
        ))
    | inr (u, p) ↦
        let inner =
          apply_inner sdk l passphrase v e.tx.inner_tx.tx e.tx.inner_tx.signatures true
            (sdk.envelope_size e.tx.inner_tx) (bump_charge v e) in
        let same : apply_envelope sdk l passphrase v (tx_fee_bump e)
            ≡ (bump_outcome inner.0, inner.1) =
          rw (p, apply_fee_bump) refl in
        let (f, r) = filled (tx_fee_bump e) (apply_envelope sdk l passphrase v (tx_fee_bump e)) h in
        let accepted = bump_accepted inner.0 (sym (ap (λ x. x.0.rejected) same) ∙ r) in
        let (w, q, g) =
          apply_inner_committed e.tx.inner_tx.tx e.tx.inner_tx.signatures true
            (sdk.envelope_size e.tx.inner_tx) (bump_charge v e) accepted in
        (
          w,
          q,
          f ∙ same ∙ ap (λ (x : TxOutcome × Ledger). (bump_outcome x.0, x.1)) g,
          sym (ap (λ x. x.0.rejected) g) ∙ accepted,
        )
  ]

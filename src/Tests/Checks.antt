-- ===== src/Tests/Checks.antt =====
-- The checks of the validation, the accounts and the snapshots, each at an input.
use lite_soroban.Prelude.{
  pos, ◌-ℤ◌, ◌+ℤ◌, ◌+◌, ◌*◌, ◌≤◌, max, ◌≤ℤ◌, ◌≡◌, refl, ap, true, List, [], ◌∷◌, ◌++◌, none, some,
  ◌↔◌, ◌≢◌, ◌⊎◌, false,
}
use lite_soroban.Xdr.{
  precond_none, precond_v2, PreconditionsV2, AccountEntry, AccountEntryExtensionV3, Transaction,
}
use lite_soroban.Settings.{testnet_fee_settings}
use lite_soroban.Ledger.{Snapshot, snapshot, restore, advance_ledgers}
use lite_soroban.Ledger.Snapshots.{restore-snapshot}
use lite_soroban.Classic.Accounts.{
  base_fee, account_entry_extension_v3, with_account_entry_extension_v3,
}
use lite_soroban.Classic.Accounts.Extensions.{
  buying_of, selling_of, level_2, sponsorship_of, with_extension_v3_reads_back,
}
use lite_soroban.Classic.Preconditions.{
  bounds_problem, too_early_for_account, min_seq_num, time_bounds, ledger_bounds, seq_time_of,
  seq_ledger_of, min_seq_age_of, min_seq_ledger_gap_of, preconditions_v2,
}
use lite_soroban.Classic.Preconditions.Window.{
  InTime, InLedgers, SequenceFits, bounds_problem_iff, too_early_for_account_iff,
}
use lite_soroban.Classic.Outcome.{pass}
use lite_soroban.Classic.Validate.{check_sequence}
use lite_soroban.Classic.Validate.Sequence.{check_sequence_iff}
use lite_soroban.Classic.Fees.{negative_inclusion_fee, fee_to_charge, bump_rate_problem}
use lite_soroban.Classic.Fees.Bounds.{fee_to_charge_bounds, bump_rate_problem_least}
use lite_soroban.Classic.Resources.{trust_line_asset_valid, soroban_resources_problem}
use lite_soroban.Classic.Resources.Assets.{HasCode, trust_line_asset_valid_iff}
use lite_soroban.Classic.Resources.Limits.{IsWithin, soroban_resources_problem_iff}
use lite_soroban.Xdr.TrustLineAsset.{alphanum4, alphanum12}
use lite_soroban.Tests.Samples.{
  sample_sdk, ledger_with, resources_of, counter_key, bob, alice_account, call, all_checks,
}

abbrev relaxed : PreconditionsV2
relaxed = record {
  time_bounds = none;
  ledger_bounds = none;
  min_seq_num = some (pos 3);
  min_seq_age = 60;
  min_seq_ledger_gap = 2;
  extra_signers = [];
}

bounds_problem_iff_example :
    let l = ledger_with 150 in
    (bounds_problem l precond_none ≡ none) ↔ (
      InTime l.timestamp (time_bounds precond_none)
      × InLedgers l.ledger_seq (ledger_bounds precond_none))
bounds_problem_iff_example = bounds_problem_iff (ledger_with 150) precond_none

abbrev relaxed_tx : Transaction
relaxed_tx = record (call.tx) { seq_num = pos 9; cond = precond_v2 relaxed }

check_sequence_iff_example :
    (check_sequence (ledger_with 150) all_checks relaxed_tx (pos 4) ≡ pass tt) ↔ (
      (relaxed_tx.seq_num ≢ pos ((ledger_with 150).ledger_seq * 4294967296))
      × ((all_checks.sequence_check ≡ false)
          ⊎ SequenceFits (min_seq_num relaxed_tx.cond) (pos 4) relaxed_tx.seq_num))
check_sequence_iff_example = check_sequence_iff (ledger_with 150) all_checks relaxed_tx (pos 4)

too_early_for_account_iff_example :
    let l = ledger_with 150 in
    (too_early_for_account l (precond_v2 relaxed) alice_account ≡ none) ↔ (
      (seq_time_of (account_entry_extension_v3 alice_account)
          + min_seq_age_of (preconditions_v2 (precond_v2 relaxed))
        ≤ l.timestamp)
      × (seq_ledger_of (account_entry_extension_v3 alice_account)
            + min_seq_ledger_gap_of (preconditions_v2 (precond_v2 relaxed))
          ≤ l.ledger_seq))
too_early_for_account_iff_example =
    too_early_for_account_iff (ledger_with 150) (precond_v2 relaxed) alice_account

soroban_resources_problem_iff_example :
    (soroban_resources_problem sample_sdk testnet_fee_settings
        (resources_of [] (counter_key ∷ []))
        300
        true
      ≡ none)
    ↔ IsWithin sample_sdk testnet_fee_settings (resources_of [] (counter_key ∷ [])) 300 true
soroban_resources_problem_iff_example =
    soroban_resources_problem_iff sample_sdk testnet_fee_settings
      (resources_of [] (counter_key ∷ [])) 300 true (tt, tt)

trust_line_asset_valid_iff_example :
    ((trust_line_asset_valid (alphanum4 (85 ∷ 83 ∷ 68 ∷ 0 ∷ []) bob) ≡ true)
      ↔ HasCode (85 ∷ 83 ∷ 68 ∷ 0 ∷ []) 0)
    × ((trust_line_asset_valid (alphanum12 (85 ∷ 83 ∷ 68 ∷ 0 ∷ []) bob) ≡ true)
        ↔ HasCode (85 ∷ 83 ∷ 68 ∷ 0 ∷ []) 4)
trust_line_asset_valid_iff_example = trust_line_asset_valid_iff (85 ∷ 83 ∷ 68 ∷ 0 ∷ []) bob

fee_accepted : negative_inclusion_fee (pos 1000) (pos 400) ≡ none
unfolding negative_inclusion_fee ◌-ℤ◌
fee_accepted = refl

bump_refused : bump_rate_problem (pos 150) (pos 300) 1 ≡ some 600
unfolding bump_rate_problem
bump_refused = refl

fee_to_charge_bounds_example :
    (pos 400 ≤ℤ fee_to_charge (pos 1000) (pos 400) 1)
    × (fee_to_charge (pos 1000) (pos 400) 1 ≤ℤ pos 1000)
    × (fee_to_charge (pos 1000) (pos 400) 1 ≤ℤ pos 400 +ℤ pos (base_fee * max 1 1))
fee_to_charge_bounds_example = fee_to_charge_bounds (pos 1000) (pos 400) 1 fee_accepted

bump_rate_problem_least_example : (bump_rate_problem (pos 700) (pos 300) 1 ≡ none) ↔ (600 ≤ 700)
bump_rate_problem_least_example = bump_rate_problem_least (pos 150) 300 1 600 bump_refused 700

restore-snapshot_example :
    let (taken, id) = snapshot (ledger_with 150) in
    let m = advance_ledgers taken 7 in
    restore m id
    ≡ some (record m {
      store = (ledger_with 150).store;
      ledger_seq = (ledger_with 150).ledger_seq;
      timestamp = (ledger_with 150).timestamp;
      prng_counter = (ledger_with 150).prng_counter;
    })
unfolding advance_ledgers
restore-snapshot_example =
    restore-snapshot (ledger_with 150) (advance_ledgers (snapshot (ledger_with 150)).0 7) []
      (kept _)
  where
    kept : (xs : List Snapshot) → xs ≡ xs ++ []
    kept [] = refl
    kept (x ∷ xs) = ap (λ r. x ∷ r) (kept xs)

-- An account with liabilities and a level 2.
abbrev liable : AccountEntry
liable = record alice_account {
  ext = some (record {
    buying = pos 7;
    selling = pos 8;
    ext =
        some (record {
          num_sponsored = 1;
          num_sponsoring = 2;
          signer_sponsoring_ids = [];
          ext = none;
        });
  });
}

with_extension_v3_reads_back_example :
    let v3 : AccountEntryExtensionV3 = record { seq_ledger = 100; seq_time = 5 } in
    let (sponsored, sponsoring, ids) = sponsorship_of liable.signers (level_2 liable.ext) in
    (with_account_entry_extension_v3 liable v3
      ≡ some (record {
        buying = buying_of liable.ext;
        selling = selling_of liable.ext;
        ext = some (record {
          num_sponsored = sponsored;
          num_sponsoring = sponsoring;
          signer_sponsoring_ids = ids;
          ext = some v3;
        });
      }))
    × (account_entry_extension_v3
          (record liable { ext = with_account_entry_extension_v3 liable v3 })
        ≡ some v3)
with_extension_v3_reads_back_example =
    with_extension_v3_reads_back liable (record { seq_ledger = 100; seq_time = 5 })

-- ===== src/Tests/Parts.antt =====
-- The signature checker and the footprint operations, each at an input.
use lite_soroban.Prelude.{
  arith, pos, ◌+◌, ◌-◌, ◌≤◌, ◌≡◌, ◌≢◌, refl, true, false, List, [], ◌∷◌, map, none, some,
  if◌then◌else◌, ◌&&◌, inl,
}
use native.Mathlib.Decide.{ℕ_discrete}
use lite_soroban.Xdr.{key_of, LedgerKey-discrete, WeightedSigner, key_ed25519, hash_x}
use lite_soroban.Ledger.{new_ledger, put_entry, get_entry, get_entry_ttl}
use lite_soroban.Ledger.Entries.{find, insert}
use lite_soroban.Classic.Accounts.{store_account, fund_account}
use lite_soroban.Classic.Signatures.{
  hint_of, new_checker, check_signature, verifies, pre_authorises, hint_matches, take_first,
}
use lite_soroban.Classic.Signatures.Weight.{
  signature_weight, weight_from, signer_of, ed25519_candidates,
}
use lite_soroban.Classic.Signatures.Matching.{IsSigned, check_signature-IsSigned}
use lite_soroban.Classic.Signatures.Consumption.{Evolves, VerifiesFor, check_signature-Evolves}
use lite_soroban.Classic.Signatures.Unsigned.{NoneAuthorises, check_signature_unsigned}
use lite_soroban.Classic.Footprint.{
  Move, put_moves, timed_entry, apply_extend_footprint_ttl, apply_restore_footprint,
}
use lite_soroban.Classic.Footprint.Moves.{live_for}
use lite_soroban.Classic.Footprint.Collecting.{is_listed}
use lite_soroban.Classic.Footprint.Extend.{ends_before, apply_extend_footprint_ttl_lem}
use lite_soroban.Classic.Footprint.Restore.{
  is_archived, size_sum, apply_restore_footprint_lem, apply_restore_footprint_atomic,
  apply_restore_footprint_bytes,
}
use lite_soroban.Tests.Samples.{
  sample_sdk, ledger_with, ledger_with-IsKeyed, resources_of, counter_key, alice, bob, by_alice,
  by_bob, alice_account,
}

abbrev two_signers : List WeightedSigner
two_signers =
    record { key = key_ed25519 alice; weight = 1 } ∷ record { key = hash_x bob; weight = 300 } ∷ []

both_sign :
    (check_signature sample_sdk (new_checker (by_bob ∷ by_alice ∷ []) (9 ∷ [])) two_signers 256).0
    ≡ true
unfolding new_checker check_signature verifies pre_authorises hint_matches take_first
both_sign = refl

-- A key counts once, however often it signs.
signed_twice :
    signature_weight (λ k s h. some true) (9 ∷ []) alice_account (by_bob ∷ by_alice ∷ by_alice ∷ [])
    ≡ some 1
unfolding signature_weight weight_from signer_of ed25519_candidates hint_of
signed_twice = refl

-- A signature that the SDK refuses to read makes the sum throw.
unreadable_signature :
    signature_weight (λ k s h. none) (9 ∷ []) alice_account (by_bob ∷ by_alice ∷ []) ≡ none
unfolding signature_weight weight_from signer_of ed25519_candidates hint_of
unreadable_signature = refl

check_signature-IsSigned_example :
    IsSigned sample_sdk (new_checker (by_bob ∷ by_alice ∷ []) (9 ∷ [])) two_signers 256
check_signature-IsSigned_example =
    check_signature-IsSigned sample_sdk (new_checker (by_bob ∷ by_alice ∷ []) (9 ∷ [])) two_signers
      256 both_sign

check_signature-Evolves_example :
    let c = new_checker (by_bob ∷ by_alice ∷ []) (9 ∷ []) in
    let c' = (check_signature sample_sdk c two_signers 256).1 in
    Evolves (VerifiesFor sample_sdk c.contents_hash two_signers) c.marks c'.marks
    × (c'.contents_hash ≡ c.contents_hash)
check_signature-Evolves_example =
    check_signature-Evolves sample_sdk (new_checker (by_bob ∷ by_alice ∷ []) (9 ∷ [])) two_signers
      256

none_pre_authorise : NoneAuthorises sample_sdk (9 ∷ []) two_signers
unfolding pre_authorises
none_pre_authorise = refl

check_signature_unsigned_example :
    (check_signature sample_sdk (new_checker [] (9 ∷ [])) two_signers 0).0 ≡ false
check_signature_unsigned_example =
    check_signature_unsigned sample_sdk (9 ∷ []) two_signers 0 none_pre_authorise

extends :
    let a =
      (apply_extend_footprint_ttl sample_sdk
        (ledger_with 150)
        1000
        (resources_of (counter_key ∷ []) [])
        (some (pos 300))).0 in
    (a.short ≡ none) × (a.over_limit ≡ none) × (a.changed ≡ counter_key ∷ [])
unfolding apply_extend_footprint_ttl key_of LedgerKey-discrete ℕ_discrete new_ledger put_entry
    get_entry get_entry_ttl find insert store_account fund_account
extends = (refl, refl, refl)

too_dear :
    (apply_extend_footprint_ttl sample_sdk
      (ledger_with 150)
      1000
      (resources_of (counter_key ∷ []) [])
      (some (pos 10))).0.short
    ≢ none
unfolding apply_extend_footprint_ttl key_of LedgerKey-discrete ℕ_discrete new_ledger put_entry
    get_entry get_entry_ttl find insert store_account fund_account
too_dear = λ e. cc

apply_extend_footprint_ttl_lem_example :
    let n =
      (apply_extend_footprint_ttl sample_sdk
        (ledger_with 150)
        1000
        (resources_of (counter_key ∷ []) [])
        (some (pos 300))).1 in
    (find counter_key n.store ≡ (
      if is_listed (counter_key ∷ []) counter_key
        && ends_before
            (ledger_with 150).ledger_seq
            ((ledger_with 150).ledger_seq + 1000)
            (timed_entry (ledger_with 150) counter_key)
      then live_for ((ledger_with 150).ledger_seq + 1000) (find counter_key (ledger_with 150).store)
      else find counter_key (ledger_with 150).store))
    × (n ≡ record (ledger_with 150) { store = n.store })
unfolding put_entry key_of fund_account store_account new_ledger
apply_extend_footprint_ttl_lem_example =
    apply_extend_footprint_ttl_lem sample_sdk (ledger_with 150) 1000
      (resources_of (counter_key ∷ []) []) (some (pos 300)) counter_key (ledger_with-IsKeyed 150)
      (omega arith) extends.0 extends.1

restores :
    let a =
      (apply_restore_footprint sample_sdk
        (ledger_with 50)
        (resources_of [] (counter_key ∷ []))
        (some (pos 300))).0 in
    (a.short ≡ none) × (a.over_limit ≡ none) × (a.changed ≡ counter_key ∷ [])
unfolding apply_restore_footprint key_of LedgerKey-discrete ℕ_discrete new_ledger put_entry
    get_entry get_entry_ttl find insert store_account fund_account
restores = (refl, refl, refl)

too_dear_restored :
    (apply_restore_footprint sample_sdk
      (ledger_with 50)
      (resources_of [] (counter_key ∷ []))
      (some (pos 10))).0.short
    ≢ none
unfolding apply_restore_footprint key_of LedgerKey-discrete ℕ_discrete new_ledger put_entry
    get_entry get_entry_ttl find insert store_account fund_account
too_dear_restored = λ e. cc

apply_restore_footprint_lem_example :
    let l = ledger_with 50 in
    let n =
      (apply_restore_footprint sample_sdk l
        (resources_of [] (counter_key ∷ []))
        (some (pos 300))).1 in
    (find counter_key n.store ≡ (
      if is_listed (counter_key ∷ []) counter_key
        && is_archived l.ledger_seq (timed_entry l counter_key)
      then live_for
          (l.ledger_seq + l.archival_settings.min_persistent_ttl - 1)
          (find counter_key l.store)
      else find counter_key l.store))
    × (n ≡ record l { store = n.store })
unfolding put_entry key_of fund_account store_account new_ledger
apply_restore_footprint_lem_example =
    apply_restore_footprint_lem sample_sdk (ledger_with 50) (resources_of [] (counter_key ∷ []))
      (some (pos 300)) counter_key (ledger_with-IsKeyed 50) (omega arith) (omega arith) restores.0
      restores.1

apply_restore_footprint_atomic_example :
    (apply_restore_footprint sample_sdk
      (ledger_with 50)
      (resources_of [] (counter_key ∷ []))
      (some (pos 10))).1
    ≡ ledger_with 50
apply_restore_footprint_atomic_example =
    apply_restore_footprint_atomic sample_sdk (ledger_with 50) (resources_of [] (counter_key ∷ []))
      (some (pos 10)) (inl too_dear_restored)

apply_restore_footprint_bytes_example :
    let (a, n) =
      apply_restore_footprint sample_sdk
        (ledger_with 50)
        (resources_of [] (counter_key ∷ []))
        (some (pos 300)) in
    (ms : List Move) × (n ≡ put_moves (ledger_with 50) ms)
    × (a.changed ≡ map (λ m. m.key) ms)
    × (size_sum sample_sdk ms ≤ 500)
    × (size_sum sample_sdk ms ≤ 500)
apply_restore_footprint_bytes_example =
    apply_restore_footprint_bytes sample_sdk (ledger_with 50) (resources_of [] (counter_key ∷ []))
      (some (pos 300)) (ledger_with-IsKeyed 50) restores.0 restores.1

-- ===== src/Classic/Resources/Limits.antt =====
-- The checks of declared resources against the limits that they enforce.
use lite_soroban.Prelude.{
  ℕ, ◌≢◌, false, not, ◌||◌, refl, select, same_bytes, same_bytes_eq, same_bytes_refl, if◌then◌else◌,
  ◌+◌, ◌≤◌, ◌<◌, ◌≡◌, ◌↔◌, Bool, true, List, [], ◌∷◌, ◌++◌, Option, none, some, arith, Bool-cases,
  Option-cases, inl, inr, length, get_elem?, All,
}
use lite_soroban.Xdr.{
  Bytes, AccountId, TrustLineAsset, native, pool_share, alphanum4, alphanum12, is_ttl_key,
  LedgerKey, is_persistent_key, SorobanTransactionData,
}
use lite_soroban.Settings.{NetworkFeeSettings}
use lite_soroban.Sdk.{Sdk}
use lite_soroban.Classic.Outcome.{Detail, Limit, invalid_trustline_asset}
use lite_soroban.Classic.Resources.Assets.{HasCode, trust_line_asset_valid_iff}
use lite_soroban.Classic.Resources.{
  trust_line_asset_valid, is_issuer_of, exceeds, ◌or_else◌, key_type_problem, key_problem,
  keys_problem, not_ascending, index_problem, archived_problem, disk_reads,
  soroban_resources_problem,
}

both_iff : (a b : Option Detail) → ((a or_else b) ≡ none) ↔ ((a ≡ none) × (b ≡ none))
both_iff none b = ground arith
both_iff (some d) b = ground arith

within_iff : (what : Limit) (value limit : ℕ) → (exceeds what value limit ≡ none) ↔ (value ≤ limit)
within_iff what value limit = ground arith

-- A trustline of a pool, or of a credit asset with a valid code that the holder did not issue.
abbrev pub AssetAllowed : AccountId → TrustLineAsset → Type 0
AssetAllowed id native = ⊥
AssetAllowed id (pool_share p) = Unit
AssetAllowed id (alphanum4 code issuer) = HasCode code 0 × (issuer ≢ id)
AssetAllowed id (alphanum12 code issuer) = HasCode code 4 × (issuer ≢ id)

abbrev pub KeyAllowed : LedgerKey → Type 0
KeyAllowed (LedgerKey.account id) = Unit
KeyAllowed (LedgerKey.contract_data c k d) = Unit
KeyAllowed (LedgerKey.contract_code h) = Unit
KeyAllowed (LedgerKey.trustline id asset) = AssetAllowed id asset
KeyAllowed (LedgerKey.other kind) = ⊥

other_bytes : (xs ys : Bytes) → (same_bytes xs ys ≡ false) ↔ (xs ≢ ys)
other_bytes xs ys = elim (Bool-cases (same_bytes xs ys)) [
  | inl e ↦ (λ h. cc, λ n. absurd (n (same_bytes_eq xs ys e)))
  | inr d ↦ (λ _ e. let h = same_bytes_refl ys in let d' = rw e at d in cc, λ _. d)
]

invalid_iff :
    (valid issued : Bool) {P Q : Type 0}
    → (valid ≡ true) ↔ P
    → (issued ≡ false) ↔ Q
    → ((if not valid || false || issued then some invalid_trustline_asset else none) ≡ none)
      ↔ (P × Q)
invalid_iff true true h k = (λ e. cc, λ e. let b = k.1 e.1 in cc)
invalid_iff true false h k = (λ e. (h.0 refl, k.0 refl), λ e. refl)
invalid_iff false issued h k = (λ e. cc, λ e. let b = h.1 e.0 in cc)

key_type_iff : (k : LedgerKey) → (key_type_problem k ≡ none) ↔ KeyAllowed k
unfolding trust_line_asset_valid is_issuer_of
key_type_iff (LedgerKey.account id) = (λ _. tt, λ _. refl)
key_type_iff (LedgerKey.contract_data c k d) = (λ _. tt, λ _. refl)
key_type_iff (LedgerKey.contract_code h) = (λ _. tt, λ _. refl)
key_type_iff (LedgerKey.trustline id native) = (λ e. cc, λ e. absurd e)
key_type_iff (LedgerKey.trustline id (pool_share p)) = (λ _. tt, λ _. refl)
key_type_iff (LedgerKey.trustline id (alphanum4 code issuer)) =
    invalid_iff _ _ (trust_line_asset_valid_iff code issuer).0 (other_bytes issuer id)
key_type_iff (LedgerKey.trustline id (alphanum12 code issuer)) =
    invalid_iff _ _ (trust_line_asset_valid_iff code issuer).1 (other_bytes issuer id)
key_type_iff (LedgerKey.other kind) = (λ e. cc, λ e. absurd e)

-- The limits that a key of the footprint keeps to.
abbrev pub KeyFits : Sdk → NetworkFeeSettings → LedgerKey → Type 0
KeyFits sdk limits k = KeyAllowed k × (sdk.key_size k ≤ limits.max_contract_data_key_size_bytes)

keys_iff :
    (sdk : Sdk) (limits : NetworkFeeSettings) (ks : List LedgerKey)
    → (keys_problem sdk limits ks ≡ none) ↔ All (KeyFits sdk limits) ks
unfolding keys_problem
keys_iff sdk limits [] = ground arith
keys_iff sdk limits (k ∷ ks) =
    let (to, from) = keys_iff sdk limits ks in
    let (split, join) = both_iff (key_problem sdk limits k) (keys_problem sdk limits ks) in
    let (split', join') = both_iff (key_type_problem k) _ in
    let (allowed, allowed') = key_type_iff k in
    let (down, up) =
      within_iff Limit.footprint_key (sdk.key_size k) limits.max_contract_data_key_size_bytes in
    (
      (λ e. let (a, b) = split e in let (c, d) = split' a in ((allowed c, down d), to b)),
      λ h. join (join' (allowed' h.0.0, up h.0.1), from h.1),
    )

-- Strictly ascending from `last`, each the place of a persistent key.
abbrev pub AfterLast : Option ℕ → ℕ → Type 0
AfterLast none index = Unit
AfterLast (some last) index = last < index

abbrev pub IsArchivedList : List LedgerKey → Option ℕ → List ℕ → Type 0
IsArchivedList ks last [] = Unit
IsArchivedList ks last (index ∷ rest) =
    AfterLast last index
    × ((k : LedgerKey) × (get_elem? ks index ≡ some k) × (is_persistent_key k ≡ true))
    × IsArchivedList ks (some index) rest

ascending_iff :
    (last : Option ℕ) (index : ℕ) → (not_ascending last index ≡ none) ↔ AfterLast last index
ascending_iff none index = ground arith
ascending_iff (some last) index = ground arith

index_iff :
    (ks : List LedgerKey) (index : ℕ)
    → (index_problem ks index ≡ none)
      ↔ ((k : LedgerKey) × (get_elem? ks index ≡ some k) × (is_persistent_key k ≡ true))
index_iff ks index = elim (Option-cases (get_elem? ks index)) [
  | inl out ↦ (λ e. absurd (ground arith), λ h. absurd (ground (arith, h.1)))
  | inr (k, at) ↦ elim (Bool-cases (is_persistent_key k)) [
    | inl good ↦ (λ e. (k, at, good), λ h. rw (at, index_problem, good))
    | inr bad ↦ (λ e. absurd (ground arith), λ h. absurd (ground (arith, h.1, h.2)))
  ]
]

archived_iff :
    (ks : List LedgerKey) (last : Option ℕ) (indexes : List ℕ)
    → (archived_problem ks last indexes ≡ none) ↔ IsArchivedList ks last indexes
unfolding archived_problem
archived_iff ks last [] = ground arith
archived_iff ks last (index ∷ rest) =
    let (to, from) = archived_iff ks (some index) rest in
    let (split, join) = both_iff (not_ascending last index) _ in
    let (split', join') = both_iff (index_problem ks index) _ in
    let (up, down) = ascending_iff last index in
    let (here, there) = index_iff ks index in
    (
      (λ e. let (a, b) = split e in let (c, d) = split' b in (up a, here c, to d)),
      λ h. join (down h.0, join' (there h.1, from h.2)),
    )

-- The keys of entries that are not Soroban's.
abbrev pub classic_keys : List LedgerKey → ℕ
classic_keys [] = 0
classic_keys (LedgerKey.contract_data c k d ∷ ks) = classic_keys ks
classic_keys (LedgerKey.contract_code h ∷ ks) = classic_keys ks
classic_keys (LedgerKey.account id ∷ ks) = 1 + classic_keys ks
classic_keys (LedgerKey.trustline id asset ∷ ks) = 1 + classic_keys ks
classic_keys (LedgerKey.other kind ∷ ks) = 1 + classic_keys ks

-- A restore reads from disk all that it names; another operation reads the classic entries and the
-- archived ones.
abbrev pub entries_read : SorobanTransactionData → (is_restore : Bool) → ℕ
entries_read d true = length d.resources.read_write
entries_read d false =
    classic_keys (d.resources.read_only ++ d.resources.read_write) + length d.archived

classic_keys_lem :
    (ks : List LedgerKey) → length (select (λ k. not (is_ttl_key k)) ks) ≡ classic_keys ks
classic_keys_lem [] = refl
classic_keys_lem (LedgerKey.contract_data c k d ∷ ks) = classic_keys_lem ks
classic_keys_lem (LedgerKey.contract_code h ∷ ks) = classic_keys_lem ks
classic_keys_lem (LedgerKey.account id ∷ ks) = omega (arith, classic_keys_lem ks)
classic_keys_lem (LedgerKey.trustline id asset ∷ ks) = omega (arith, classic_keys_lem ks)
classic_keys_lem (LedgerKey.other kind ∷ ks) = omega (arith, classic_keys_lem ks)

entries_read_lem :
    (d : SorobanTransactionData) (is_restore : Bool)
    → disk_reads d is_restore ≡ entries_read d is_restore
entries_read_lem d true = refl
entries_read_lem d false =
    omega (arith, classic_keys_lem (d.resources.read_only ++ d.resources.read_write))

-- No key twice.
abbrev pub AreDistinct : List LedgerKey → Type 0
AreDistinct [] = Unit
AreDistinct (k ∷ ks) = All (λ j. k ≢ j) ks × AreDistinct ks

-- The declared resources keep to every limit of the network.
pub record IsWithin (sdk : Sdk) (limits : NetworkFeeSettings) (d : SorobanTransactionData)
    (tx_size : ℕ) (is_restore : Bool) : Type 0 where
  pub instructions : d.resources.instructions ≤ limits.tx_max_instructions
  pub disk_read_bytes : d.resources.disk_read_bytes ≤ limits.tx_max_disk_read_bytes
  pub write_bytes : d.resources.write_bytes ≤ limits.tx_max_write_bytes
  pub footprint :
      length d.resources.read_only + length d.resources.read_write ≤ limits.tx_max_footprint_entries
  pub disk_read_entries : entries_read d is_restore ≤ limits.tx_max_disk_read_entries
  pub write_entries : length d.resources.read_write ≤ limits.tx_max_write_ledger_entries
  pub keys : All (KeyFits sdk limits) (d.resources.read_only ++ d.resources.read_write)
  pub size : tx_size ≤ limits.tx_max_size_bytes
  pub archived : IsArchivedList d.resources.read_write none d.archived

module _ (sdk : Sdk) (limits : NetworkFeeSettings) (d : SorobanTransactionData) (tx_size : ℕ)
    (is_restore : Bool) where
  -- If no key stands twice in the footprint, declared resources pass exactly when they keep to every limit: the five totals, the number of
  -- written entries, the type and the size of each footprint key, the envelope's size, and archived
  -- indexes that ascend strictly and name persistent keys of the read-write footprint.
  pub soroban_resources_problem_iff :
      AreDistinct (d.resources.read_only ++ d.resources.read_write)
      → (soroban_resources_problem sdk limits d tx_size is_restore ≡ none)
        ↔ IsWithin sdk limits d tx_size is_restore
  unfolding soroban_resources_problem
  soroban_resources_problem_iff distinct =
      let reads = entries_read_lem d is_restore in
      let (keys, keys') = keys_iff sdk limits (d.resources.read_only ++ d.resources.read_write) in
      let (arch, arch') = archived_iff d.resources.read_write none d.archived in
      (
        (λ e. record {
          instructions = ground arith;
          disk_read_bytes = ground arith;
          write_bytes = ground arith;
          footprint = ground arith;
          disk_read_entries = ground arith;
          write_entries = ground arith;
          keys = keys (ground arith);
          size = ground arith;
          archived = arch (ground arith);
        }),
        λ w. ground (arith, keys' w.keys, arch' w.archived),
      )

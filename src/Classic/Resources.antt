-- ===== src/Classic/Resources.antt =====
-- The network's limits on declared resources, of src/classic.ts: `trustLineAssetValid`,
-- `isIssuerOf`, `sorobanResourcesProblem`, `contractEntryTooLarge`.
pub mod Assets
pub mod Limits
use lite_soroban.Prelude.{
  ℕ, zero, suc, ◌+◌, Bool, true, false, not, ◌&&◌, ◌||◌, List, [], ◌∷◌, ◌++◌, Option, none, some,
  if◌then◌else◌, ltb, leb, ◌==◌, length, get_elem?, select, same_bytes,
}
use lite_soroban.Xdr.{
  Bytes, AccountId, TrustLineAsset, native, pool_share, alphanum4, alphanum12, LedgerKey,
  is_ttl_key, is_persistent_key, SorobanResources, SorobanTransactionData,
}
use lite_soroban.Settings.{NetworkFeeSettings}
use lite_soroban.Sdk.{Sdk}
use lite_soroban.Classic.Outcome.{
  Detail, over, Limit, instructions, byte_read, byte_write, footprint_entries, entry_disk_read,
  entry_write, footprint_key, transaction_size, wasm_size, contract_data_size,
  invalid_trustline_asset, archived_not_sorted, unsupported_key_type, archived_out_of_bounds,
  archived_not_persistent,
}

abbrev pub is_ascii_alpha_numeric : ℕ → Bool
is_ascii_alpha_numeric b =
    (leb 0x61 b && leb b 0x7a) || (leb 0x41 b && leb b 0x5a) || (leb 0x30 b && leb b 0x39)

-- The loop over the code's bytes; `none`: an invalid byte.
unfoldable pub scan_code : Bytes → (zeros : Bool) → (chars : ℕ) → Option ℕ
scan_code [] zeros chars = some chars
scan_code (b ∷ bs) zeros chars =
    let padded = scan_code bs true chars in
    let longer = scan_code bs zeros (chars + 1) in
    if b == 0
    then padded
    else if zeros || ltb 0x7f b || not (is_ascii_alpha_numeric b)
    then none
    else longer

abbrev longer_than : ℕ → Option ℕ → Bool
longer_than n none = false
longer_than n (some chars) = ltb n chars

unfoldable pub trust_line_asset_valid : TrustLineAsset → Bool
unfolding scan_code
trust_line_asset_valid native = true
trust_line_asset_valid (pool_share p) = true
trust_line_asset_valid (alphanum4 code issuer) = longer_than 0 (scan_code code false 0)
trust_line_asset_valid (alphanum12 code issuer) = longer_than 4 (scan_code code false 0)

unfoldable pub is_issuer_of : AccountId → TrustLineAsset → Bool
is_issuer_of id native = false
is_issuer_of id (pool_share p) = false
is_issuer_of id (alphanum4 code issuer) = same_bytes issuer id
is_issuer_of id (alphanum12 code issuer) = same_bytes issuer id

abbrev is_native : TrustLineAsset → Bool
is_native native = true
is_native _ = false

-- The `switch` over a footprint key's type.
abbrev pub key_type_problem : LedgerKey → Option Detail
key_type_problem (LedgerKey.account id) = none
key_type_problem (LedgerKey.contract_data c k d) = none
key_type_problem (LedgerKey.contract_code h) = none
key_type_problem (LedgerKey.trustline id asset) =
    if not (trust_line_asset_valid asset) || is_native asset || is_issuer_of id asset
    then some invalid_trustline_asset
    else none
key_type_problem (LedgerKey.other kind) = some (unsupported_key_type kind)

-- `value > limit`, with the diagnostic.
abbrev pub exceeds : Limit → (value limit : ℕ) → Option Detail
exceeds what value limit = if ltb limit value then some (over what value limit) else none

-- The first of two checks that fails.
infixr 30 ◌or_else◌
abbrev pub ◌or_else◌ : Option Detail → Option Detail → Option Detail
none or_else d = d
(some d) or_else e = some d

abbrev pub key_problem : Sdk → NetworkFeeSettings → LedgerKey → Option Detail
key_problem sdk limits k =
    key_type_problem k
    or_else exceeds footprint_key (sdk.key_size k) limits.max_contract_data_key_size_bytes

unfoldable pub keys_problem : Sdk → NetworkFeeSettings → List LedgerKey → Option Detail
unfolding trust_line_asset_valid is_issuer_of
keys_problem sdk limits [] = none
keys_problem sdk limits (k ∷ ks) = key_problem sdk limits k or_else keys_problem sdk limits ks

abbrev not_ascending : Option ℕ → ℕ → Option Detail
not_ascending none index = none
not_ascending (some last) index = if leb index last then some archived_not_sorted else none

abbrev index_problem : List LedgerKey → ℕ → Option Detail
index_problem read_write index = elim (get_elem? read_write index) [
  | none ↦ some (archived_out_of_bounds index (length read_write))
  | some k ↦ if is_persistent_key k then none else some (archived_not_persistent index)
]

-- The loop over the archived indexes, with the last one seen.
unfoldable pub archived_problem : List LedgerKey → Option ℕ → List ℕ → Option Detail
archived_problem read_write last [] = none
archived_problem read_write last (index ∷ rest) =
    not_ascending last index
    or_else index_problem read_write index
    or_else archived_problem read_write (some index) rest

-- `getNumDiskReadEntries`
abbrev pub disk_reads : SorobanTransactionData → Bool → ℕ
disk_reads d true = length d.resources.read_write
disk_reads d false =
    length (select (λ k. not (is_ttl_key k)) (d.resources.read_only ++ d.resources.read_write))
    + length d.archived

unfoldable pub soroban_resources_problem :
    Sdk
    → NetworkFeeSettings
    → SorobanTransactionData
    → (tx_size : ℕ) → (is_restore : Bool) → Option Detail
unfolding keys_problem archived_problem
soroban_resources_problem sdk limits d tx_size is_restore =
    exceeds instructions d.resources.instructions limits.tx_max_instructions
    or_else exceeds byte_read d.resources.disk_read_bytes limits.tx_max_disk_read_bytes
    or_else exceeds byte_write d.resources.write_bytes limits.tx_max_write_bytes
    or_else exceeds footprint_entries entries limits.tx_max_footprint_entries
    or_else exceeds entry_disk_read (disk_reads d is_restore) limits.tx_max_disk_read_entries
    or_else exceeds entry_write (length d.resources.read_write) limits.tx_max_write_ledger_entries
    or_else keys_problem sdk limits (d.resources.read_only ++ d.resources.read_write)
    or_else exceeds transaction_size tx_size limits.tx_max_size_bytes
    or_else archived_problem d.resources.read_write none d.archived
  where
    entries : ℕ
    entries = length d.resources.read_only + length d.resources.read_write

unfoldable pub contract_entry_too_large : NetworkFeeSettings → LedgerKey → ℕ → Option Detail
contract_entry_too_large limits (LedgerKey.contract_code h) size =
    exceeds wasm_size size limits.max_contract_size_bytes
contract_entry_too_large limits (LedgerKey.contract_data c k d) size =
    exceeds contract_data_size size limits.max_contract_data_entry_size_bytes
contract_entry_too_large limits (LedgerKey.account id) size = none
contract_entry_too_large limits (LedgerKey.trustline id asset) size = none
contract_entry_too_large limits (LedgerKey.other kind) size = none

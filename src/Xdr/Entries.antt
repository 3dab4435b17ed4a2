-- ===== src/Xdr/Entries.antt =====
-- Ledger keys and ledger entries, and the key under which the store files an entry
-- (`key_of` in crates/host-wasm/src/lib.rs).
use native.Mathlib.Decide.{ℕ_discrete}
use lite_soroban.Prelude.{ℕ, Bool, true, false, Option, none, some}
use lite_soroban.Xdr.Account.{Bytes, AccountId, AccountEntry, TrustLineAsset, TrustLineEntry}

pub data Durability : Type 0 where
  temporary persistent : Durability

-- `other n`: a key of another entry type, with the value of its type.
pub data LedgerKey : Type 0 where
  account : AccountId → LedgerKey
  trustline : AccountId → TrustLineAsset → LedgerKey
  contract_data : (contract key : Bytes) → Durability → LedgerKey
  contract_code : (hash : Bytes) → LedgerKey
  other : (kind : ℕ) → LedgerKey

unfoldable pub LedgerKey-discrete : Discrete LedgerKey
LedgerKey-discrete = hlevel ℕ_discrete

pub data LedgerEntryData : Type 0 where
  account : AccountEntry → LedgerEntryData
  trustline : TrustLineEntry → LedgerEntryData
  contract_data : (contract key : Bytes) → Durability → (val : Bytes) → LedgerEntryData
  contract_code : (hash code : Bytes) → LedgerEntryData
  other : (kind : ℕ) → LedgerEntryData

pub record LedgerEntry : Type 0 where
  pub last_modified : ℕ
  pub content : LedgerEntryData

-- `none`: an entry of a type that the store refuses.
unfoldable pub key_of : LedgerEntryData → Option LedgerKey
key_of (LedgerEntryData.account a) = some (LedgerKey.account a.account_id)
key_of (LedgerEntryData.trustline t) = some (LedgerKey.trustline t.account_id t.asset)
key_of (LedgerEntryData.contract_data c k d v) = some (LedgerKey.contract_data c k d)
key_of (LedgerEntryData.contract_code h c) = some (LedgerKey.contract_code h)
key_of (LedgerEntryData.other n) = none

-- `isTtlKey`: contract data and code carry a TTL.
abbrev pub is_ttl_key : LedgerKey → Bool
is_ttl_key (LedgerKey.contract_data c k d) = true
is_ttl_key (LedgerKey.contract_code h) = true
is_ttl_key _ = false

abbrev is_persistent : Durability → Bool
is_persistent Durability.persistent = true
is_persistent Durability.temporary = false

-- `isPersistentKey`
abbrev pub is_persistent_key : LedgerKey → Bool
is_persistent_key (LedgerKey.contract_code h) = true
is_persistent_key (LedgerKey.contract_data c k d) = is_persistent d
is_persistent_key _ = false

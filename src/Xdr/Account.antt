-- ===== src/Xdr/Account.antt =====
-- The account side of the XDR types that src/classic.ts and src/fixtures.ts read: account and
-- trustline entries, signers, assets. A union whose only other arm is `v0` is an `Option`.
use lite_soroban.Prelude.{ℕ, ℤ, List, Option}

-- Byte strings: hashes, keys, payloads and encoded values.
abbrev pub Bytes : Type 0
Bytes = List ℕ

-- `xdr.AccountId`: the 32 bytes of its ed25519 public key.
abbrev pub AccountId : Type 0
AccountId = Bytes

pub data MuxedAccount : Type 0 where
  ed25519 : AccountId → MuxedAccount
  med25519 : (id : ℕ) → AccountId → MuxedAccount

pub data SignerKey : Type 0 where
  key_ed25519 : Bytes → SignerKey
  pre_auth_tx : Bytes → SignerKey
  hash_x : Bytes → SignerKey
  signed_payload : (public_key payload : Bytes) → SignerKey

-- `xdr.Signer`, and the `WeightedSigner` of src/classic.ts: a key and its weight.
pub record WeightedSigner : Type 0 where
  pub key : SignerKey
  pub weight : ℕ

pub record DecoratedSignature : Type 0 where
  pub hint : Bytes
  pub signature : Bytes

-- The four threshold bytes.
pub record Thresholds : Type 0 where
  pub master : ℕ
  pub low : ℕ
  pub medium : ℕ
  pub high : ℕ

pub record AccountEntryExtensionV3 : Type 0 where
  pub seq_ledger : ℕ
  pub seq_time : ℕ

pub record AccountEntryExtensionV2 : Type 0 where
  pub num_sponsored : ℕ
  pub num_sponsoring : ℕ
  pub signer_sponsoring_ids : List (Option AccountId)
  pub ext : Option AccountEntryExtensionV3

pub record AccountEntryExtensionV1 : Type 0 where
  pub buying : ℤ
  pub selling : ℤ
  pub ext : Option AccountEntryExtensionV2

pub record AccountEntry : Type 0 where
  pub account_id : AccountId
  pub balance : ℤ
  pub seq_num : ℤ
  pub num_sub_entries : ℕ
  pub inflation_dest : Option AccountId
  pub flags : ℕ
  pub home_domain : Bytes
  pub thresholds : Thresholds
  pub signers : List WeightedSigner
  pub ext : Option AccountEntryExtensionV1

pub data TrustLineAsset : Type 0 where
  native : TrustLineAsset
  pool_share : (pool : Bytes) → TrustLineAsset
  alphanum4 : (code : Bytes) → (issuer : AccountId) → TrustLineAsset
  alphanum12 : (code : Bytes) → (issuer : AccountId) → TrustLineAsset

pub record TrustLineEntry : Type 0 where
  pub account_id : AccountId
  pub asset : TrustLineAsset
  pub balance : ℤ
  pub limit : ℤ
  pub flags : ℕ

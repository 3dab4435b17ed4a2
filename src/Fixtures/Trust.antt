-- ===== src/Fixtures/Trust.antt =====
-- `establishTrustline`, `trustlineKey` and `establishTrustlineIfMissing` of src/fixtures.ts.
use lite_soroban.Prelude.{
  ℕ, ◌+◌, ℤ, pos, Bool, true, ◌++◌, Option, none, some, if◌then◌else◌, leb, length, take, replicate,
}
use lite_soroban.Xdr.{
  Bytes, AccountId, TrustLineAsset, alphanum4, alphanum12, TrustLineEntry, LedgerKey, LedgerEntry,
  LedgerEntryData, Asset, native_asset, credit,
}
use lite_soroban.Ledger.{Ledger, get_entry, put_entry}
use lite_soroban.Classic.Accounts.{load_account, store_account, default_to}
use lite_soroban.Fixtures.{Wallet}

-- `Buffer.concat([Buffer.from(code), Buffer.alloc(n)], n)`
abbrev pub padded : ℕ → Bytes → Bytes
padded n code = take n (code ++ replicate n 0)

unfoldable pub credit_asset : (code : Bytes) → (issuer : AccountId) → TrustLineAsset
credit_asset code issuer =
    if leb (length code) 4
    then alphanum4 (padded 4 code) issuer
    else alphanum12 (padded 12 code) issuer

-- `none`: the native asset has no issuer, on which it throws.
unfoldable pub trustline_key : Wallet → Asset → Option LedgerKey
unfolding credit_asset
trustline_key w native_asset = none
trustline_key w (credit code issuer) =
    some (LedgerKey.trustline w.account_id (credit_asset code issuer))

pub record TrustlineOptions : Type 0 where
  pub limit : Option ℤ
  pub balance : Option ℤ
  pub authorized : Option Bool

abbrev pub no_trustline_options : TrustlineOptions
no_trustline_options = record { limit = none; balance = none; authorized = none }

-- `expectUnionVariant(…, 'trustline')`
abbrev pub expect_trustline : LedgerEntryData → Option TrustLineEntry
expect_trustline (LedgerEntryData.trustline t) = some t
expect_trustline _ = none

abbrev balance_of_entry : Option TrustLineEntry → Option ℤ
balance_of_entry none = none
balance_of_entry (some t) = some t.balance

-- A balance that the caller gives, else the one that is there, else 0; `none`: it throws.
unfoldable pub kept_balance : Option LedgerEntry → Option ℤ → Option ℤ
kept_balance existing (some b) = some b
kept_balance none none = some (pos 0)
kept_balance (some e) none = balance_of_entry (expect_trustline e.content)

abbrev pub trustline_flags : Option Bool → ℕ
trustline_flags o = if default_to o true then 1 else 0

abbrev pub trustline_entry : AccountId → TrustLineAsset → TrustlineOptions → ℤ → TrustLineEntry
trustline_entry id asset opts balance = record {
  account_id = id;
  asset = asset;
  balance = balance;
  limit = default_to opts.limit (pos 9_223_372_036_854_775_807);
  flags = trustline_flags opts.authorized;
}

-- Only a create charges a sub-entry.
unfoldable pub count_sub_entry : Ledger → Option LedgerEntry → AccountId → Ledger
count_sub_entry l (some e) id = l
count_sub_entry l none id = elim (load_account l id) [
  | none ↦ l
  | some a ↦ store_account l (record a { num_sub_entries = a.num_sub_entries + 1 })
]

unfoldable pub write_trustline : Ledger → TrustLineEntry → Ledger
write_trustline l t =
    put_entry l (record { last_modified = l.ledger_seq; content = LedgerEntryData.trustline t })
      none

abbrev pub establish_credit :
    Ledger → AccountId → TrustLineAsset → TrustlineOptions → Option LedgerEntry → Ledger
establish_credit l id asset opts existing = elim (kept_balance existing opts.balance) [
  | none ↦ l
  | some b ↦ count_sub_entry (write_trustline l (trustline_entry id asset opts b)) existing id
]

unfoldable pub establish_trustline : Ledger → Wallet → Asset → TrustlineOptions → Ledger
unfolding credit_asset kept_balance count_sub_entry write_trustline
establish_trustline l w native_asset opts = l
establish_trustline l w (credit code issuer) opts =
    let asset = credit_asset code issuer in
    establish_credit l w.account_id asset opts
      (get_entry l (LedgerKey.trustline w.account_id asset))

abbrev if_missing : Ledger → Wallet → Asset → Option LedgerEntry → Ledger
if_missing l w asset (some e) = l
if_missing l w asset none = establish_trustline l w asset no_trustline_options

unfoldable pub establish_trustline_if_missing : Ledger → Wallet → Asset → Ledger
unfolding establish_trustline
establish_trustline_if_missing l w native_asset = l
establish_trustline_if_missing l w (credit code issuer) =
    if_missing l w (credit code issuer)
      (get_entry l (LedgerKey.trustline w.account_id (credit_asset code issuer)))

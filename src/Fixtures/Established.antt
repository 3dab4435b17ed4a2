-- ===== src/Fixtures/Established.antt =====
-- What `establishTrustline` of src/fixtures.ts leaves in the ledger.
use mathlib.Core.Logic.{ite}
use lite_soroban.Prelude.{
  ◌+◌, ℤ, pos, ◌≡◌, refl, sym, ap, ◌∙◌, Option, none, some, inl, inr, arith, Option-cases,
}
use lite_soroban.Xdr.{
  Bytes, AccountId, AccountEntry, TrustLineAsset, TrustLineEntry, LedgerKey, LedgerKey-discrete,
  LedgerEntry, LedgerEntryData, key_of, credit,
}
use lite_soroban.Ledger.{Ledger, get_entry, put_entry}
use lite_soroban.Ledger.Entries.{find, find-insert}
use lite_soroban.Ledger.Keyed.{IsKeyed, put_entry-IsKeyed}
use lite_soroban.Classic.Accounts.{account_key, load_account}
use lite_soroban.Classic.Accounts.Loading.{load_account_id, stored_under, find-store_account}
use lite_soroban.Fixtures.{Wallet}
use lite_soroban.Fixtures.Trust.{
  credit_asset, TrustlineOptions, expect_trustline, kept_balance, trustline_entry, count_sub_entry,
  write_trustline, establish_trustline, establish_credit,
}

abbrev pub line_key : Wallet → Bytes → AccountId → LedgerKey
line_key w code issuer = LedgerKey.trustline w.account_id (credit_asset code issuer)

abbrev line_of : Option LedgerEntry → Option TrustLineEntry
line_of none = none
line_of (some e) = expect_trustline e.content

-- The trustline that the ledger has for a holder.
unfoldable pub load_trustline : Ledger → Wallet → Bytes → AccountId → Option TrustLineEntry
load_trustline l w code issuer = line_of (get_entry l (line_key w code issuer))

abbrev with_sub_entry : AccountEntry → AccountEntry
with_sub_entry a = record a { num_sub_entries = a.num_sub_entries + 1 }

-- Writing a trustline touches its key alone.
find-write_trustline :
    (l : Ledger) (t : TrustLineEntry) (k : LedgerKey)
    → find k (write_trustline l t).store
      ≡ ite
          (LedgerKey-discrete (LedgerKey.trustline t.account_id t.asset) k)
          (some (record {
            entry = record { last_modified = l.ledger_seq; content = LedgerEntryData.trustline t };
            live_until = none;
          }))
          (find k l.store)
unfolding write_trustline put_entry key_of
find-write_trustline l t k = find-insert (LedgerKey.trustline t.account_id t.asset) k _ l.store

written :
    (l : Ledger) (t : TrustLineEntry)
    → find (LedgerKey.trustline t.account_id t.asset) (write_trustline l t).store
      ≡ some (record {
        entry = record { last_modified = l.ledger_seq; content = LedgerEntryData.trustline t };
        live_until = none;
      })
written l t = ground (arith, find-write_trustline l t (LedgerKey.trustline t.account_id t.asset))

unwritten :
    (l : Ledger) (t : TrustLineEntry) (k : LedgerKey)
    → ¬ (LedgerKey.trustline t.account_id t.asset ≡ k)
    → find k (write_trustline l t).store ≡ find k l.store
unwritten l t k n = ground (arith, find-write_trustline l t k)

load_account-write_trustline :
    (l : Ledger) (t : TrustLineEntry) (id : AccountId)
    → load_account (write_trustline l t) id ≡ load_account l id
unfolding load_account get_entry
load_account-write_trustline l t id =
    rw (unwritten l t (account_key id) (λ e. cc), load_account, get_entry) refl

-- The sub-entry counts in the account alone.
find-count_sub_entry :
    (l : Ledger) (existing : Option LedgerEntry) (id : AccountId) (k : LedgerKey)
    → IsKeyed l.store
    → ¬ (account_key id ≡ k)
    → find k (count_sub_entry l existing id).store ≡ find k l.store
unfolding count_sub_entry
find-count_sub_entry l (some e) id k h n = refl
find-count_sub_entry l none id k h n = elim (Option-cases (load_account l id)) [
  | inl p ↦ rw (p, count_sub_entry) refl
  | inr (a, p) ↦
      rw (p, count_sub_entry)
        (find-store_account l (with_sub_entry a) k (rw (sym (load_account_id l id a h p)) at n))
]

unfoldable pub counted : Option LedgerEntry → Option AccountEntry → Option AccountEntry
counted (some e) a = a
counted none none = none
counted none (some a) = some (with_sub_entry a)

load-count_sub_entry :
    (l : Ledger) (existing : Option LedgerEntry) (id : AccountId)
    → IsKeyed l.store
    → load_account (count_sub_entry l existing id) id ≡ counted existing (load_account l id)
unfolding count_sub_entry counted
load-count_sub_entry l (some e) id h = refl
load-count_sub_entry l none id h = elim (Option-cases (load_account l id)) [
  | inl p ↦ rw (p, count_sub_entry) p
  | inr (a, p) ↦
      rw (p, count_sub_entry) (stored_under l id (with_sub_entry a) (load_account_id l id a h p))
]

is_trustline :
    (c : LedgerEntryData) (id : AccountId) (asset : TrustLineAsset)
    → key_of c ≡ some (LedgerKey.trustline id asset)
    → (t : TrustLineEntry) × (c ≡ LedgerEntryData.trustline t)
unfolding key_of
is_trustline (LedgerEntryData.account a) id asset h = cc
is_trustline (LedgerEntryData.trustline t) id asset h = (t, refl)
is_trustline (LedgerEntryData.contract_data c k d v) id asset h = cc
is_trustline (LedgerEntryData.contract_code k c) id asset h = cc
is_trustline (LedgerEntryData.other n) id asset h = cc

-- The balance of the trustline after: the given one, else that of the trustline before, else 0.
unfoldable pub settled_balance : Option TrustLineEntry → Option ℤ → ℤ
settled_balance t (some b) = b
settled_balance none none = pos 0
settled_balance (some t) none = t.balance

-- What the ledger `m` has after a trustline was established in `l`.
pub record IsEstablished (l m : Ledger) (w : Wallet) (code : Bytes) (issuer : AccountId)
    (opts : TrustlineOptions) : Type 0 where
  pub line :
      load_trustline m w code issuer
      ≡ some (
          trustline_entry w.account_id
            (credit_asset code issuer)
            opts
            (settled_balance (load_trustline l w code issuer) opts.balance))
  pub account :
      load_account m w.account_id
      ≡ counted (get_entry l (line_key w code issuer)) (load_account l w.account_id)
  pub others :
      (k : LedgerKey)
      → ¬ (line_key w code issuer ≡ k)
      → ¬ (account_key w.account_id ≡ k)
      → find k m.store ≡ find k l.store

kept_balance_lem :
    (existing : Option LedgerEntry) (given : Option ℤ)
    → ((e : LedgerEntry)
        → existing ≡ some e
        → (t : TrustLineEntry) × (e.content ≡ LedgerEntryData.trustline t))
    → kept_balance existing given ≡ some (settled_balance (line_of existing) given)
unfolding kept_balance settled_balance
kept_balance_lem existing (some b) h = refl
kept_balance_lem none none h = refl
kept_balance_lem (some e) none h = let (t, q) = h e refl in rw q refl

-- Under the key of a trustline stands a trustline.
entry_is_trustline :
    (l : Ledger) (id : AccountId) (asset : TrustLineAsset) (e : LedgerEntry)
    → IsKeyed l.store
    → get_entry l (LedgerKey.trustline id asset) ≡ some e
    → (t : TrustLineEntry) × (e.content ≡ LedgerEntryData.trustline t)
unfolding get_entry
entry_is_trustline l id asset e h p =
    elim (Option-cases (find (LedgerKey.trustline id asset) l.store)) [
      | inl q ↦ absurd (ground arith)
      | inr (s, q) ↦
          let same : s.entry ≡ e = ground arith in
          rw same at
            (is_trustline s.entry.content id asset (h.at_key (LedgerKey.trustline id asset) s q))
    ]

write_trustline-IsKeyed :
    (l : Ledger) (t : TrustLineEntry) → IsKeyed l.store → IsKeyed (write_trustline l t).store
unfolding write_trustline
write_trustline-IsKeyed l t h = put_entry-IsKeyed l _ none h

load-written :
    (l : Ledger) (t : TrustLineEntry) (existing : Option LedgerEntry)
    → IsKeyed l.store
    → get_entry
        (count_sub_entry (write_trustline l t) existing t.account_id)
        (LedgerKey.trustline t.account_id t.asset)
      ≡ some (record { last_modified = l.ledger_seq; content = LedgerEntryData.trustline t })
unfolding get_entry
load-written l t existing h =
    rw
      (
        find-count_sub_entry (write_trustline l t) existing t.account_id
            (LedgerKey.trustline t.account_id t.asset) (write_trustline-IsKeyed l t h) (λ e. cc),
        written l t,
        get_entry,
      )
      refl

establish_credit_lem :
    (l : Ledger) (id : AccountId) (asset : TrustLineAsset) (opts : TrustlineOptions)
    (existing : Option LedgerEntry) (b : ℤ)
    → kept_balance existing opts.balance ≡ some b
    → establish_credit l id asset opts existing
      ≡ count_sub_entry (write_trustline l (trustline_entry id asset opts b)) existing id
establish_credit_lem l id asset opts existing b h = rw (h, establish_credit) refl

-- Establishing a trustline for a credit asset writes the line, with the limit and the flags of the
-- options, and the balance that is given, or else the one that the holder had, or else 0. It counts
-- a sub-entry of the holder's account exactly when there was no such line before, and changes
-- nothing else.
pub establish_trustline_lem :
    (l : Ledger) (w : Wallet) (code : Bytes) (issuer : AccountId) (opts : TrustlineOptions)
    → IsKeyed l.store
    → IsEstablished l (establish_trustline l w (credit code issuer) opts) w code issuer opts
unfolding establish_trustline load_trustline
establish_trustline_lem l w code issuer opts h =
    let key = line_key w code issuer in
    let existing = get_entry l key in
    let t =
      trustline_entry w.account_id (credit_asset code issuer) opts
        (settled_balance (line_of existing) opts.balance) in
    let m = write_trustline l t in
    let kept =
      kept_balance_lem existing opts.balance
        (λ e p. entry_is_trustline l w.account_id (credit_asset code issuer) e h p) in
    let same : establish_trustline l w (credit code issuer) opts
        ≡ count_sub_entry m existing w.account_id =
      establish_credit_lem l w.account_id (credit_asset code issuer) opts existing _ kept in
    rw same (record {
      line = rw (load-written l t existing h, load_trustline) refl;
      account =
          load-count_sub_entry m existing w.account_id (write_trustline-IsKeyed l t h)
          ∙ ap (counted existing) (load_account-write_trustline l t w.account_id);
      others = λ k n o.
          find-count_sub_entry m existing w.account_id k (write_trustline-IsKeyed l t h) o
          ∙ unwritten l t k n;
    })

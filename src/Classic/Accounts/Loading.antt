-- ===== src/Classic/Accounts/Loading.antt =====
-- What is loaded after an account was stored, bumped or debited.
use mathlib.Core.Logic.{ite}
use lite_soroban.Prelude.{ℤ, ◌-ℤ◌, ◌≡◌, refl, none, some, arith, Option-cases, inl, inr, sym}
use lite_soroban.Xdr.{
  AccountId, AccountEntry, LedgerKey, LedgerKey-discrete, LedgerEntryData, key_of,
}
use lite_soroban.Ledger.{Ledger, get_entry, put_entry}
use lite_soroban.Ledger.Entries.{find, find-insert, find-insert_ne}
use lite_soroban.Ledger.Keyed.{IsKeyed, put_entry-IsKeyed}
use lite_soroban.Classic.Accounts.{
  account_key, load_account, store_account, bump_sequence, debit,
  prepare_account_entry_extension_v3, with_account_entry_extension_v3,
}

-- An account is filed under its own id.
pub load_account_id :
    (l : Ledger) (id : AccountId) (a : AccountEntry)
    → IsKeyed l.store
    → load_account l id ≡ some a
    → a.account_id ≡ id
unfolding load_account get_entry key_of
load_account_id l id a k h = elim (Option-cases (find (account_key id) l.store)) [
  | inl e ↦ absurd (ground arith)
  | inr (s, e) ↦ ground (arith, k.at_key (account_key id) s e)
]

-- Loading after storing gives the account back, and leaves every other account as it was.
pub load_account-store_account :
    (l : Ledger) (a : AccountEntry) (id : AccountId)
    → load_account (store_account l a) id
      ≡ ite
          (LedgerKey-discrete (account_key a.account_id) (account_key id))
          (some a)
          (load_account l id)
unfolding load_account store_account get_entry put_entry key_of
load_account-store_account l a id = ground (
  arith,
  find-insert (account_key a.account_id) (account_key id)
      (record {
        entry = record { last_modified = l.ledger_seq; content = LedgerEntryData.account a };
        live_until = none;
      })
      l.store,
)

pub stored_under :
    (l : Ledger) (id : AccountId) (a : AccountEntry)
    → a.account_id ≡ id
    → load_account (store_account l a) id ≡ some a
stored_under l id a e = ground (arith, load_account-store_account l a id)

pub store_account-IsKeyed :
    (l : Ledger) (a : AccountEntry) → IsKeyed l.store → IsKeyed (store_account l a).store
unfolding store_account
store_account-IsKeyed l a h = put_entry-IsKeyed l _ none h

-- What `bump_sequence` stores for an account.
unfoldable pub bumped : Ledger → AccountEntry → ℤ → AccountEntry
bumped l a to = record a {
  seq_num = to;
  ext = with_account_entry_extension_v3 a (record (prepare_account_entry_extension_v3 a) {
    seq_ledger = l.ledger_seq;
    seq_time = l.timestamp;
  });
}

pub load-bump_sequence :
    (l : Ledger) (id : AccountId) (a : AccountEntry) (to : ℤ)
    → IsKeyed l.store
    → load_account l id ≡ some a
    → load_account (bump_sequence l id to) id ≡ some (bumped l a to)
unfolding bump_sequence bumped
load-bump_sequence l id a to k h =
    rw (h, bump_sequence) (stored_under l id (bumped l a to) (load_account_id l id a k h))

pub load-debit :
    (l : Ledger) (id : AccountId) (a : AccountEntry) (amount : ℤ)
    → IsKeyed l.store
    → load_account l id ≡ some a
    → load_account (debit l id amount) id ≡ some (record a { balance = a.balance -ℤ amount })
unfolding debit
load-debit l id a amount k h =
    rw (h, debit)
      (stored_under l id (record a { balance = a.balance -ℤ amount }) (load_account_id l id a k h))

pub bump_sequence-IsKeyed :
    (l : Ledger) (id : AccountId) (to : ℤ) → IsKeyed l.store → IsKeyed (bump_sequence l id to).store
unfolding bump_sequence bumped
bump_sequence-IsKeyed l id to k = elim (Option-cases (load_account l id)) [
  | inl h ↦ rw (h, bump_sequence) k
  | inr (a, h) ↦ rw (h, bump_sequence) (store_account-IsKeyed l (bumped l a to) k)
]

pub debit-IsKeyed :
    (l : Ledger) (id : AccountId) (amount : ℤ) → IsKeyed l.store → IsKeyed (debit l id amount).store
unfolding debit
debit-IsKeyed l id amount k = elim (Option-cases (load_account l id)) [
  | inl h ↦ rw (h, debit) k
  | inr (a, h) ↦
      rw (h, debit) (store_account-IsKeyed l (record a { balance = a.balance -ℤ amount }) k)
]

-- Entries under other keys are not touched.
pub find-store_account :
    (l : Ledger) (a : AccountEntry) (k : LedgerKey)
    → ¬ (account_key a.account_id ≡ k)
    → find k (store_account l a).store ≡ find k l.store
unfolding store_account put_entry key_of
find-store_account l a k n = find-insert_ne (account_key a.account_id) k _ l.store n

pub find-bump_sequence :
    (l : Ledger) (id : AccountId) (to : ℤ) (k : LedgerKey)
    → IsKeyed l.store
    → ¬ (account_key id ≡ k)
    → find k (bump_sequence l id to).store ≡ find k l.store
unfolding bump_sequence bumped
find-bump_sequence l id to k h n = elim (Option-cases (load_account l id)) [
  | inl e ↦ rw (e, bump_sequence) refl
  | inr (a, e) ↦
      rw (e, bump_sequence)
        (find-store_account l (bumped l a to) k (rw (sym (load_account_id l id a h e)) at n))
]

pub find-debit :
    (l : Ledger) (id : AccountId) (amount : ℤ) (k : LedgerKey)
    → IsKeyed l.store
    → ¬ (account_key id ≡ k)
    → find k (debit l id amount).store ≡ find k l.store
unfolding debit
find-debit l id amount k h n = elim (Option-cases (load_account l id)) [
  | inl e ↦ rw (e, debit) refl
  | inr (a, e) ↦
      rw (e, debit)
        (find-store_account l (record a { balance = a.balance -ℤ amount }) k
          (rw (sym (load_account_id l id a h e)) at n))
]

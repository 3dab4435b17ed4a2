-- ===== src/Rpc/Friendbot.antt =====
-- The friendbot of src/fake-rpc.ts: it creates accounts, and touches none that exists.
use lite_soroban.Prelude.{pos, none, some, ◌≡◌, refl, []}
use lite_soroban.Xdr.{AccountId, AccountEntry, LedgerKey, LedgerEntry}
use lite_soroban.Ledger.{Ledger, get_entry}
use lite_soroban.Ledger.Entries.{find}
use lite_soroban.Classic.Accounts.{account_key, load_account, fund_account}
use lite_soroban.Classic.Accounts.Loading.{stored_under, find-store_account}
use lite_soroban.Classic.Apply.Clocked.{frame, store_account-frame}
use lite_soroban.Rpc.State.{Response}
use lite_soroban.Rpc.Submitting.{friendbot_response}

-- An account as the friendbot makes it.
pub record IsFresh (id : AccountId) (a : AccountEntry) : Type 0 where
  pub owner : a.account_id ≡ id
  pub balance : a.balance ≡ pos 100_000_000_000
  pub no_sub_entries : a.num_sub_entries ≡ 0
  pub no_signers : a.signers ≡ []

-- What the friendbot leaves of the ledger after it has created an account.
pub record IsAirdropped (id : AccountId) (l m : Ledger) : Type 0 where
  pub created : AccountEntry
  pub as_made : IsFresh id created
  pub loaded : load_account m id ≡ some created
  pub others : (k : LedgerKey) → ¬ (account_key id ≡ k) → find k m.store ≡ find k l.store
  pub clock : frame m ≡ frame l

airdrop_lem :
    (l : Ledger) (id : AccountId)
    → get_entry l (account_key id) ≡ none
    → IsAirdropped id l (friendbot_response l (some id)).1
unfolding friendbot_response fund_account
airdrop_lem l id h =
    rw (h, friendbot_response)
      (record {
        created = _;
        as_made = record { owner = refl; balance = refl; no_sub_entries = refl; no_signers = refl };
        loaded = stored_under l id _ refl;
        others = find-store_account l _;
        clock = store_account-frame l _;
      })

-- The friendbot refuses an account that exists and changes nothing; for one that does not, it
-- creates an account of 10,000 XLM without signers or sub-entries, and every other entry and the
-- clock stay as they are.
pub friendbot_lem :
    (l : Ledger) (id : AccountId)
    → ((e : LedgerEntry)
        → get_entry l (account_key id) ≡ some e
        → friendbot_response l (some id) ≡ (Response.http_bad_request, l))
      × (get_entry l (account_key id) ≡ none → IsAirdropped id l (friendbot_response l (some id)).1)
unfolding friendbot_response
friendbot_lem l id = ((λ e h. rw (h, friendbot_response) refl), airdrop_lem l id)

-- ===== src/Ledger.antt =====
-- The `Ledger` class of src/index.ts over the store of `SorobanEnv` (crates/host-wasm/src/lib.rs):
-- entries and their TTLs, the ledger clock, snapshots. What the Soroban host computes, running
-- contracts and pricing, enters as a parameter (Sdk).
pub mod Entries
pub mod Keyed
pub mod Snapshots
use lite_soroban.Prelude.{
  ℕ, ◌+◌, ◌*◌, ◌-◌, ◌%◌, ◌^◌, min, List, [], ◌∷◌, ◌++◌, Bool, true, false, Option, none, some,
  length, get_elem?,
}
use lite_soroban.Xdr.{Bytes, LedgerKey, LedgerEntry, key_of}
use lite_soroban.Settings.{
  NetworkFeeSettings, ArchivalSettings, testnet_fee_settings, testnet_archival_settings,
}
use Entries.{Store, StoredEntry, find, insert, remove}
use mathlib.Core.Option

-- `LedgerSnapshot`
pub record Snapshot : Type 0 where
  pub store : Store
  pub ledger_seq : ℕ
  pub timestamp : ℕ
  pub prng_counter : ℕ

pub record Ledger : Type 0 where
  pub store : Store
  pub ledger_seq : ℕ
  pub timestamp : ℕ
  pub prng_counter : ℕ
  pub snapshots : List Snapshot
  pub archival_settings : ArchivalSettings
  pub fee_settings : NetworkFeeSettings
  pub network_passphrase : Bytes

-- The constructor: an empty store, the clock of `SorobanEnv::new`, testnet's settings.
unfoldable pub new_ledger : Bytes → ℕ → Ledger
new_ledger passphrase seq = record {
  store = [];
  ledger_seq = seq;
  timestamp = 1_700_000_000;
  prng_counter = 0;
  snapshots = [];
  archival_settings = testnet_archival_settings;
  fee_settings = testnet_fee_settings;
  network_passphrase = passphrase;
}

unfoldable pub get_entry : Ledger → LedgerKey → Option LedgerEntry
get_entry l k = Option.map (λ e. e.entry) (find k l.store)

unfoldable pub get_entry_ttl : Ledger → LedgerKey → Option ℕ
get_entry_ttl l k = elim (find k l.store) [ none ↦ none | some e ↦ e.live_until ]

-- A JavaScript number that is passed to Rust as a `u32`.
abbrev pub u32 : ℕ → ℕ
u32 n = n % 4294967296

abbrev pub u32_option : Option ℕ → Option ℕ
u32_option none = none
u32_option (some n) = some (u32 n)

-- An entry of a type without a key is an error of `putEntry`, and changes nothing.
unfoldable pub put_entry : Ledger → LedgerEntry → Option ℕ → Ledger
put_entry l e t = elim (key_of e.content) [
  | none ↦ l
  | some k ↦ record l { store = insert k (record { entry = e; live_until = u32_option t }) l.store }
]

unfoldable pub remove_entry : Ledger → LedgerKey → Ledger
remove_entry l k = record l { store = remove k l.store }

abbrev pub max_u32 : ℕ
max_u32 = 4294967295

abbrev max_u64 : ℕ
max_u64 = 18446744073709551615

-- The step is a `u32`; five seconds a ledger; both counters saturate.
unfoldable pub advance_ledgers : Ledger → ℕ → Ledger
advance_ledgers l n = record l {
  ledger_seq = min (l.ledger_seq + u32 n) max_u32;
  timestamp = min (l.timestamp + u32 n * 5) max_u64;
}

-- The new state and the snapshot's id.
unfoldable pub snapshot : Ledger → Ledger × ℕ
snapshot l = (record l { snapshots = l.snapshots ++ taken ∷ [] }, length l.snapshots)
  where
    taken : Snapshot
    taken = record {
      store = l.store;
      ledger_seq = l.ledger_seq;
      timestamp = l.timestamp;
      prng_counter = l.prng_counter;
    }

-- `none`: no such snapshot.
unfoldable pub restore : Ledger → ℕ → Option Ledger
restore l id = Option.map back (get_elem? l.snapshots id)
  where
    back : Snapshot → Ledger
    back s = record l {
      store = s.store;
      ledger_seq = s.ledger_seq;
      timestamp = s.timestamp;
      prng_counter = s.prng_counter;
    }

-- One item of `ledger_changes` that the host returns.
pub record Change : Type 0 where
  pub key : LedgerKey
  pub new_value : Option LedgerEntry
  pub read_only : Bool
  pub new_live_until : Option ℕ

-- A read-only entry may still get a TTL.
abbrev pub bump_ttl : LedgerKey → Option ℕ → Store → Store
bump_ttl k none m = m
bump_ttl k (some t) m = elim (find k m) [
  | none ↦ m
  | some e ↦ insert k (record e { live_until = some t }) m
]

abbrev pub write_change : Option LedgerEntry → Bool → LedgerKey → Option ℕ → Store → Store
write_change (some e) _ k t m = insert k (record { entry = e; live_until = t }) m
write_change none true k t m = bump_ttl k t m
write_change none false k t m = remove k m

-- The loop of `send` over the changes of a successful call.
unfoldable pub apply_changes : List Change → Store → Store
apply_changes [] m = m
apply_changes (c ∷ cs) m =
    apply_changes cs (write_change c.new_value c.read_only c.key c.new_live_until m)

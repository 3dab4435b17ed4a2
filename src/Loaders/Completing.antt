-- ===== src/Loaders/Completing.antt =====
-- The check for missing settings of `loadFeeSettingsFromRpc` (src/fee-settings.ts).
use lite_soroban.Prelude.{ℕ, ℤ, Option, none, some, ◌≡◌, refl}
use lite_soroban.Settings.{NetworkFeeSettings}
use lite_soroban.Loaders.{Compute, LedgerCost, Partial, complete}

-- Every setting is there, and the fields of the settings are what it says.
pub record IsLoaded (p : Partial) (s : NetworkFeeSettings) : Type 0 where
  pub compute :
      p.compute
      ≡ some (record {
        fee_rate_per_instructions_increment = s.fee_rate_per_instructions_increment;
        tx_max_instructions = s.tx_max_instructions;
        tx_memory_limit = s.tx_memory_limit;
      })
  pub ledger_cost :
      p.ledger_cost
      ≡ some (record {
        tx_max_disk_read_entries = s.tx_max_disk_read_entries;
        tx_max_disk_read_bytes = s.tx_max_disk_read_bytes;
        tx_max_write_ledger_entries = s.tx_max_write_ledger_entries;
        tx_max_write_bytes = s.tx_max_write_bytes;
        fee_disk_read_ledger_entry = s.fee_disk_read_ledger_entry;
        fee_write_ledger_entry = s.fee_write_ledger_entry;
        fee_disk_read_1kb = s.fee_disk_read_1kb;
        soroban_state_target_size_bytes = s.soroban_state_target_size_bytes;
        rent_fee_1kb_soroban_state_size_low = s.rent_fee_1kb_soroban_state_size_low;
        rent_fee_1kb_soroban_state_size_high = s.rent_fee_1kb_soroban_state_size_high;
        soroban_state_rent_fee_growth_factor = s.soroban_state_rent_fee_growth_factor;
      })
  pub ledger_cost_ext : p.ledger_cost_ext ≡ some (s.tx_max_footprint_entries, s.fee_write_1kb)
  pub historical : p.historical ≡ some s.fee_historical_1kb
  pub events : p.events ≡ some (s.tx_max_contract_events_size_bytes, s.fee_contract_events_1kb)
  pub bandwidth : p.bandwidth ≡ some (s.tx_max_size_bytes, s.fee_tx_size_1kb)
  pub max_size : p.max_size ≡ some s.max_contract_size_bytes
  pub data_key_size : p.data_key_size ≡ some s.max_contract_data_key_size_bytes
  pub data_entry_size : p.data_entry_size ≡ some s.max_contract_data_entry_size_bytes
  pub rent_rates :
      p.rent_rates ≡ some (s.persistent_rent_rate_denominator, s.temp_rent_rate_denominator)
  pub state_size : p.state_size ≡ some s.average_soroban_state_size

some_inj {ℓ} : {A : Type ℓ} {a b : A} → some a ≡ some b → a ≡ b
some_inj h = cc

abbrev pub partial_of :
    Option Compute
    → Option LedgerCost
    → Option (ℕ × ℤ)
    → Option ℤ
    → Option (ℕ × ℤ)
    → Option (ℕ × ℤ)
    → Option ℕ
    → Option ℕ
    → Option ℕ
    → Option (ℤ × ℤ)
    → Option ℕ
    → Partial
partial_of c d e h v b m k n r w = record {
  compute = c;
  ledger_cost = d;
  ledger_cost_ext = e;
  historical = h;
  events = v;
  bandwidth = b;
  max_size = m;
  data_key_size = k;
  data_entry_size = n;
  rent_rates = r;
  state_size = w;
}

-- What completes has every setting.
pub complete_to :
    (c : Option Compute) (d : Option LedgerCost) (e : Option (ℕ × ℤ)) (h : Option ℤ)
    (v b : Option (ℕ × ℤ)) (m k n : Option ℕ) (r : Option (ℤ × ℤ)) (w : Option ℕ)
    (s : NetworkFeeSettings)
    → complete (partial_of c d e h v b m k n r w) ≡ some s
    → IsLoaded (partial_of c d e h v b m k n r w) s
unfolding complete
complete_to none d e h v b m k n r w s q = cc
complete_to (some c) none e h v b m k n r w s q = cc
complete_to (some c) (some d) none h v b m k n r w s q = cc
complete_to (some c) (some d) (some e) none v b m k n r w s q = cc
complete_to (some c) (some d) (some e) (some h) none b m k n r w s q = cc
complete_to (some c) (some d) (some e) (some h) (some v) none m k n r w s q = cc
complete_to (some c) (some d) (some e) (some h) (some v) (some b) none k n r w s q = cc
complete_to (some c) (some d) (some e) (some h) (some v) (some b) (some m) none n r w s q = cc
complete_to (some c) (some d) (some e) (some h) (some v) (some b) (some m) (some k) none r w s q =
    cc
complete_to (some c) (some d) (some e) (some h) (some v) (some b) (some m) (some k) (some n) none w
      s q =
    cc
complete_to (some c) (some d) (some e) (some h) (some v) (some b) (some m) (some k) (some n)
      (some r) none s q =
    cc
complete_to (some c) (some d) (some e) (some h) (some v) (some b) (some m) (some k) (some n)
      (some r) (some w) s q =
    rw (← some_inj q) (record {
      compute = refl;
      ledger_cost = refl;
      ledger_cost_ext = refl;
      historical = refl;
      events = refl;
      bandwidth = refl;
      max_size = refl;
      data_key_size = refl;
      data_entry_size = refl;
      rent_rates = refl;
      state_size = refl;
    })

pub complete_from : (p : Partial) (s : NetworkFeeSettings) → IsLoaded p s → complete p ≡ some s
unfolding complete
complete_from p s q =
    rw
      (
        q.compute, q.ledger_cost, q.ledger_cost_ext, q.historical, q.events, q.bandwidth,
        q.max_size, q.data_key_size, q.data_entry_size, q.rent_rates, q.state_size,
      )
      refl

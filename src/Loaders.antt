-- ===== src/Loaders.antt =====
-- The loaders that read a network's settings from a node: `loadFeeSettingsFromRpc`
-- (src/fee-settings.ts), `loadArchivalSettingsFromRpc` (src/state-archival.ts) and
-- `loadCostParamsFromRpc` (src/cost-params.ts); and what installs them (src/index.ts).

pub mod Completing
pub mod Latest
use lite_soroban.Prelude.{ℕ, suc, ◌+◌, ◌/◌, ℤ, List, [], ◌∷◌, Option, none, some, length}
use lite_soroban.Xdr.{Bytes}
use lite_soroban.Settings.{NetworkFeeSettings, ArchivalSettings}
use lite_soroban.Ledger.{Ledger}
use lite_soroban.Classic.Accounts.{default_to}

pub record Compute : Type 0 where
  pub fee_rate_per_instructions_increment : ℤ
  pub tx_max_instructions : ℕ
  pub tx_memory_limit : ℕ

pub record LedgerCost : Type 0 where
  pub tx_max_disk_read_entries : ℕ
  pub tx_max_disk_read_bytes : ℕ
  pub tx_max_write_ledger_entries : ℕ
  pub tx_max_write_bytes : ℕ
  pub fee_disk_read_ledger_entry : ℤ
  pub fee_write_ledger_entry : ℤ
  pub fee_disk_read_1kb : ℤ
  pub soroban_state_target_size_bytes : ℤ
  pub rent_fee_1kb_soroban_state_size_low : ℤ
  pub rent_fee_1kb_soroban_state_size_high : ℤ
  pub soroban_state_rent_fee_growth_factor : ℕ

-- A configuration setting of the network, with the fields that the loaders read.
pub data ConfigSetting : Type 0 where
  contract_compute : Compute → ConfigSetting
  contract_ledger_cost : LedgerCost → ConfigSetting
  contract_ledger_cost_ext : (tx_max_footprint_entries : ℕ) → (fee_write_1kb : ℤ) → ConfigSetting
  contract_historical_data : (fee_historical_1kb : ℤ) → ConfigSetting
  contract_events : (tx_max_size : ℕ) → (fee_1kb : ℤ) → ConfigSetting
  contract_bandwidth : (tx_max_size : ℕ) → (fee_1kb : ℤ) → ConfigSetting
  contract_max_size_bytes : ℕ → ConfigSetting
  contract_data_key_size_bytes : ℕ → ConfigSetting
  contract_data_entry_size_bytes : ℕ → ConfigSetting
  state_archival : ArchivalSettings → (persistent_rate temp_rate : ℤ) → ConfigSetting
  state_size_window : List ℕ → ConfigSetting
  cost_params_cpu : (encoded : Bytes) → ConfigSetting
  cost_params_memory : (encoded : Bytes) → ConfigSetting
  other_setting : ℕ → ConfigSetting

-- `Partial<NetworkFeeSettings>`: the fields of one setting are set together.
pub record Partial : Type 0 where
  pub compute : Option Compute
  pub ledger_cost : Option LedgerCost
  pub ledger_cost_ext : Option (ℕ × ℤ)
  pub historical : Option ℤ
  pub events : Option (ℕ × ℤ)
  pub bandwidth : Option (ℕ × ℤ)
  pub max_size : Option ℕ
  pub data_key_size : Option ℕ
  pub data_entry_size : Option ℕ
  pub rent_rates : Option (ℤ × ℤ)
  pub state_size : Option ℕ

abbrev pub no_settings : Partial
no_settings = record {
  compute = none;
  ledger_cost = none;
  ledger_cost_ext = none;
  historical = none;
  events = none;
  bandwidth = none;
  max_size = none;
  data_key_size = none;
  data_entry_size = none;
  rent_rates = none;
  state_size = none;
}

abbrev pub sum_sizes : List ℕ → ℕ
sum_sizes [] = 0
sum_sizes (n ∷ ns) = n + sum_sizes ns

abbrev pub average : ℕ → List ℕ → ℕ
average n ns = sum_sizes (n ∷ ns) / length (n ∷ ns)

-- The `switch`; `none`: it throws on an empty window.
unfoldable pub read_setting : Partial → ConfigSetting → Option Partial
read_setting p (contract_compute c) = some (record p { compute = some c })
read_setting p (contract_ledger_cost c) = some (record p { ledger_cost = some c })
read_setting p (contract_ledger_cost_ext n f) = some (record p { ledger_cost_ext = some (n, f) })
read_setting p (contract_historical_data f) = some (record p { historical = some f })
read_setting p (contract_events n f) = some (record p { events = some (n, f) })
read_setting p (contract_bandwidth n f) = some (record p { bandwidth = some (n, f) })
read_setting p (contract_max_size_bytes n) = some (record p { max_size = some n })
read_setting p (contract_data_key_size_bytes n) = some (record p { data_key_size = some n })
read_setting p (contract_data_entry_size_bytes n) = some (record p { data_entry_size = some n })
read_setting p (state_archival s x y) = some (record p { rent_rates = some (x, y) })
read_setting p (state_size_window []) = none
read_setting p (state_size_window (n ∷ ns)) = some (record p { state_size = some (average n ns) })
read_setting p (cost_params_cpu b) = some p
read_setting p (cost_params_memory b) = some p
read_setting p (other_setting n) = some p

-- An entry that is no setting, `none`, throws.
unfoldable pub read_settings : List (Option ConfigSetting) → Partial → Option Partial
unfolding read_setting
read_settings [] p = some p
read_settings (none ∷ es) p = none
read_settings (some s ∷ es) p = elim (read_setting p s) [
  | none ↦ none
  | some q ↦ read_settings es q
]

infixl 5 ◌>>=◌
abbrev ◌>>=◌ {ℓ κ} : {A : Type ℓ} {B : Type κ} → Option A → (A → Option B) → Option B
none >>= f = none
some a >>= f = f a

-- `none`: it throws, some setting being missing.
unfoldable pub complete : Partial → Option NetworkFeeSettings
complete p = do
  c ← p.compute
  d ← p.ledger_cost
  e ← p.ledger_cost_ext
  h ← p.historical
  v ← p.events
  b ← p.bandwidth
  m ← p.max_size
  k ← p.data_key_size
  n ← p.data_entry_size
  r ← p.rent_rates
  s ← p.state_size
  some (record {
    fee_rate_per_instructions_increment = c.fee_rate_per_instructions_increment;
    tx_max_instructions = c.tx_max_instructions;
    tx_memory_limit = c.tx_memory_limit;
    tx_max_disk_read_entries = d.tx_max_disk_read_entries;
    tx_max_disk_read_bytes = d.tx_max_disk_read_bytes;
    tx_max_write_ledger_entries = d.tx_max_write_ledger_entries;
    tx_max_write_bytes = d.tx_max_write_bytes;
    fee_disk_read_ledger_entry = d.fee_disk_read_ledger_entry;
    fee_write_ledger_entry = d.fee_write_ledger_entry;
    fee_disk_read_1kb = d.fee_disk_read_1kb;
    soroban_state_target_size_bytes = d.soroban_state_target_size_bytes;
    rent_fee_1kb_soroban_state_size_low = d.rent_fee_1kb_soroban_state_size_low;
    rent_fee_1kb_soroban_state_size_high = d.rent_fee_1kb_soroban_state_size_high;
    soroban_state_rent_fee_growth_factor = d.soroban_state_rent_fee_growth_factor;
    tx_max_footprint_entries = e.0;
    fee_write_1kb = e.1;
    fee_historical_1kb = h;
    tx_max_contract_events_size_bytes = v.0;
    fee_contract_events_1kb = v.1;
    tx_max_size_bytes = b.0;
    fee_tx_size_1kb = b.1;
    max_contract_size_bytes = m;
    max_contract_data_key_size_bytes = k;
    max_contract_data_entry_size_bytes = n;
    persistent_rent_rate_denominator = r.0;
    temp_rent_rate_denominator = r.1;
    average_soroban_state_size = s;
  })

-- The entries are the node's answer.
unfoldable pub load_fee_settings : List (Option ConfigSetting) → Option NetworkFeeSettings
unfolding read_settings complete
load_fee_settings es = read_settings es no_settings >>= complete

-- Only the first entry is read; `none`: it throws.
unfoldable pub load_archival_settings : List (Option ConfigSetting) → Option ArchivalSettings
load_archival_settings (some (state_archival s x y) ∷ es) = some s
load_archival_settings _ = none

-- `CostParams`, and the variables of its loader.
pub record CostParams : Type 0 where
  pub cpu_instructions : Bytes
  pub memory_bytes : Bytes
  pub cpu_limit : Option ℕ
  pub mem_limit : Option ℕ

pub record CostsRead : Type 0 where
  pub cpu : Option Bytes
  pub memory : Option Bytes
  pub limits : Option Compute

abbrev pub read_cost : CostsRead → ConfigSetting → CostsRead
read_cost c (cost_params_cpu b) = record c { cpu = some b }
read_cost c (cost_params_memory b) = record c { memory = some b }
read_cost c (contract_compute v) = record c { limits = some v }
read_cost c s = c

unfoldable pub read_costs : List (Option ConfigSetting) → CostsRead → Option CostsRead
read_costs [] c = some c
read_costs (none ∷ es) c = none
read_costs (some s ∷ es) c = read_costs es (read_cost c s)

abbrev cost_params : CostsRead → Option CostParams
cost_params c = do
  b ← c.cpu
  m ← c.memory
  some (record {
    cpu_instructions = b;
    memory_bytes = m;
    cpu_limit = elim c.limits [ none ↦ none | some v ↦ some v.tx_max_instructions ];
    mem_limit = elim c.limits [ none ↦ none | some v ↦ some v.tx_memory_limit ];
  })

unfoldable pub load_cost_params : List (Option ConfigSetting) → Option CostParams
unfolding read_costs
load_cost_params es =
    read_costs es (record { cpu = none; memory = none; limits = none }) >>= cost_params

abbrev pub set_fee_settings : Ledger → NetworkFeeSettings → Ledger
set_fee_settings l s = record l { fee_settings = s }

abbrev pub set_archival_settings : Ledger → ArchivalSettings → Ledger
set_archival_settings l s = record l { archival_settings = s }

-- The tables go to the host; a limit that is given goes into the fee settings.
unfoldable pub set_cost_params : Ledger → CostParams → Ledger
set_cost_params l p = set_fee_settings l (record (l.fee_settings) {
  tx_max_instructions = default_to p.cpu_limit l.fee_settings.tx_max_instructions;
  tx_memory_limit = default_to p.mem_limit l.fee_settings.tx_memory_limit;
})

-- ===== src/Loaders/Latest.antt =====
-- `loadFeeSettingsFromRpc` of src/fee-settings.ts, setting by setting.
use lite_soroban.Prelude.{
  ◌+◌, ◌/◌, length, ◌↔◌, ℕ, ℤ, List, [], ◌∷◌, All, map, Option, none, some, ◌≡◌, refl, ap, ◌∙◌,
}
use lite_soroban.Settings.{NetworkFeeSettings}
use lite_soroban.Loaders.Completing.{IsLoaded, partial_of, complete_to, complete_from}
use lite_soroban.Loaders.{
  Compute, LedgerCost, ConfigSetting, Partial, no_settings, sum_sizes, read_setting, read_settings,
  complete, load_fee_settings, contract_compute, contract_ledger_cost, contract_ledger_cost_ext,
  contract_historical_data, contract_events, contract_bandwidth, contract_max_size_bytes,
  contract_data_key_size_bytes, contract_data_entry_size_bytes, state_archival, state_size_window,
  cost_params_cpu, cost_params_memory, other_setting,
}

-- What a setting of one kind says; `none`: it is of another kind.
abbrev pub as_compute : ConfigSetting → Option Compute
as_compute (contract_compute c) = some c
as_compute _ = none

abbrev pub as_ledger_cost : ConfigSetting → Option LedgerCost
as_ledger_cost (contract_ledger_cost c) = some c
as_ledger_cost _ = none

abbrev pub as_ledger_cost_ext : ConfigSetting → Option (ℕ × ℤ)
as_ledger_cost_ext (contract_ledger_cost_ext n f) = some (n, f)
as_ledger_cost_ext _ = none

abbrev pub as_historical : ConfigSetting → Option ℤ
as_historical (contract_historical_data f) = some f
as_historical _ = none

abbrev pub as_events : ConfigSetting → Option (ℕ × ℤ)
as_events (contract_events n f) = some (n, f)
as_events _ = none

abbrev pub as_bandwidth : ConfigSetting → Option (ℕ × ℤ)
as_bandwidth (contract_bandwidth n f) = some (n, f)
as_bandwidth _ = none

abbrev pub as_max_size : ConfigSetting → Option ℕ
as_max_size (contract_max_size_bytes n) = some n
as_max_size _ = none

abbrev pub as_data_key_size : ConfigSetting → Option ℕ
as_data_key_size (contract_data_key_size_bytes n) = some n
as_data_key_size _ = none

abbrev pub as_data_entry_size : ConfigSetting → Option ℕ
as_data_entry_size (contract_data_entry_size_bytes n) = some n
as_data_entry_size _ = none

abbrev pub as_rent_rates : ConfigSetting → Option (ℤ × ℤ)
as_rent_rates (state_archival s x y) = some (x, y)
as_rent_rates _ = none

abbrev pub total : List ℕ → ℕ
total [] = 0
total (n ∷ ns) = n + total ns

total_lem : (ns : List ℕ) → sum_sizes ns ≡ total ns
total_lem [] = refl
total_lem (n ∷ ns) = ap (λ k. n + k) (total_lem ns)

-- The mean of the sizes, rounded down.
abbrev pub as_state_size : ConfigSetting → Option ℕ
as_state_size (state_size_window ns) = some (total ns / length ns)
as_state_size _ = none

abbrev later {ℓ} : {A : Type ℓ} → Option A → Option A → Option A
later none old = old
later (some a) old = some a

-- The last setting of a kind.
unfoldable pub last_of {ℓ} :
    {A : Type ℓ} → (ConfigSetting → Option A) → List ConfigSetting → Option A
last_of f [] = none
last_of f (s ∷ ss) = later (last_of f ss) (f s)

-- The last setting of each kind, or what there was.
abbrev pub latest : List ConfigSetting → Partial → Partial
latest ss p = record {
  compute = later (last_of as_compute ss) p.compute;
  ledger_cost = later (last_of as_ledger_cost ss) p.ledger_cost;
  ledger_cost_ext = later (last_of as_ledger_cost_ext ss) p.ledger_cost_ext;
  historical = later (last_of as_historical ss) p.historical;
  events = later (last_of as_events ss) p.events;
  bandwidth = later (last_of as_bandwidth ss) p.bandwidth;
  max_size = later (last_of as_max_size ss) p.max_size;
  data_key_size = later (last_of as_data_key_size ss) p.data_key_size;
  data_entry_size = later (last_of as_data_entry_size ss) p.data_entry_size;
  rent_rates = later (last_of as_rent_rates ss) p.rent_rates;
  state_size = later (last_of as_state_size ss) p.state_size;
}

-- The node's window of state sizes is not empty.
abbrev pub HasWindow : ConfigSetting → Type 0
HasWindow (state_size_window []) = ⊥
HasWindow _ = Unit

read_setting_latest :
    (s : ConfigSetting) (p : Partial) → HasWindow s → read_setting p s ≡ some (latest (s ∷ []) p)
unfolding read_setting last_of
read_setting_latest (contract_compute c) p h = refl
read_setting_latest (contract_ledger_cost c) p h = refl
read_setting_latest (contract_ledger_cost_ext n f) p h = refl
read_setting_latest (contract_historical_data f) p h = refl
read_setting_latest (contract_events n f) p h = refl
read_setting_latest (contract_bandwidth n f) p h = refl
read_setting_latest (contract_max_size_bytes n) p h = refl
read_setting_latest (contract_data_key_size_bytes n) p h = refl
read_setting_latest (contract_data_entry_size_bytes n) p h = refl
read_setting_latest (state_archival s x y) p h = refl
read_setting_latest (state_size_window []) p h = absurd h
read_setting_latest (state_size_window (n ∷ ns)) p h = rw (total_lem ns) refl
read_setting_latest (cost_params_cpu b) p h = refl
read_setting_latest (cost_params_memory b) p h = refl
read_setting_latest (other_setting n) p h = refl

later_assoc {ℓ} : {A : Type ℓ} (x y z : Option A) → later x (later y z) ≡ later (later x y) z
later_assoc none y z = refl
later_assoc (some a) y z = refl

later-none {ℓ} : {A : Type ℓ} (x : Option A) → later x none ≡ x
later-none none = refl
later-none (some a) = refl

latest_cons :
    (s : ConfigSetting) (ss : List ConfigSetting) (p : Partial)
    → latest ss (latest (s ∷ []) p) ≡ latest (s ∷ ss) p
unfolding last_of
latest_cons s ss p = simp (later_assoc, later-none)

read_settings_latest :
    (ss : List ConfigSetting) (p : Partial)
    → All HasWindow ss
    → read_settings (map some ss) p ≡ some (latest ss p)
unfolding read_settings last_of
read_settings_latest [] p h = refl
read_settings_latest (s ∷ ss) p (h, k) =
    rw (read_setting_latest s p h, read_settings)
      (read_settings_latest ss (latest (s ∷ []) p) k ∙ ap some (latest_cons s ss p))

-- The last setting of each kind.
abbrev pub last_settings : List ConfigSetting → Partial
last_settings ss =
    partial_of (last_of as_compute ss) (last_of as_ledger_cost ss) (last_of as_ledger_cost_ext ss)
      (last_of as_historical ss) (last_of as_events ss) (last_of as_bandwidth ss)
      (last_of as_max_size ss) (last_of as_data_key_size ss) (last_of as_data_entry_size ss)
      (last_of as_rent_rates ss) (last_of as_state_size ss)

loaded_latest :
    (ss : List ConfigSetting)
    → All HasWindow ss
    → load_fee_settings (map some ss) ≡ complete (last_settings ss)
unfolding load_fee_settings
loaded_latest ss h = rw (read_settings_latest ss no_settings h) (simp later-none)

-- If the node's entries are all settings and no window of state sizes is empty, settings are loaded
-- exactly when there is a setting of every kind, and then each field is what the last setting of
-- its kind says, the state size being the mean of the window, rounded down.
pub load_fee_settings_lem :
    (ss : List ConfigSetting) (s : NetworkFeeSettings)
    → All HasWindow ss
    → (load_fee_settings (map some ss) ≡ some s) ↔ IsLoaded (last_settings ss) s
load_fee_settings_lem ss s h =
    rw (loaded_latest ss h)
      (complete_to _ _ _ _ _ _ _ _ _ _ _ s, complete_from (last_settings ss) s)

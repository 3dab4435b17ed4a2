-- ===== src/Settings.antt =====
-- The network's settings: `NetworkFeeSettings` and testnet's values (src/fee-settings.ts),
-- `ArchivalSettings` and testnet's values (src/state-archival.ts).
use lite_soroban.Prelude.{ℕ, ℤ, pos, negsuc}

pub record NetworkFeeSettings : Type 0 where
  pub fee_rate_per_instructions_increment : ℤ
  pub tx_max_instructions : ℕ
  pub tx_memory_limit : ℕ
  pub tx_max_disk_read_entries : ℕ
  pub tx_max_disk_read_bytes : ℕ
  pub tx_max_write_ledger_entries : ℕ
  pub tx_max_write_bytes : ℕ
  pub fee_disk_read_ledger_entry : ℤ
  pub fee_write_ledger_entry : ℤ
  pub fee_disk_read_1kb : ℤ
  pub soroban_state_target_size_bytes : ℤ
  pub rent_fee_1kb_soroban_state_size_low : ℤ
  pub rent_fee_1kb_soroban_state_size_high : ℤ
  pub soroban_state_rent_fee_growth_factor : ℕ
  pub tx_max_footprint_entries : ℕ
  pub fee_write_1kb : ℤ
  pub fee_historical_1kb : ℤ
  pub tx_max_contract_events_size_bytes : ℕ
  pub fee_contract_events_1kb : ℤ
  pub tx_max_size_bytes : ℕ
  pub fee_tx_size_1kb : ℤ
  pub max_contract_size_bytes : ℕ
  pub max_contract_data_key_size_bytes : ℕ
  pub max_contract_data_entry_size_bytes : ℕ
  pub persistent_rent_rate_denominator : ℤ
  pub temp_rent_rate_denominator : ℤ
  pub average_soroban_state_size : ℕ

abbrev pub testnet_fee_settings : NetworkFeeSettings
testnet_fee_settings = record {
  fee_rate_per_instructions_increment = pos 3;
  tx_max_instructions = 400_000_000;
  tx_memory_limit = 41_943_040;
  tx_max_disk_read_entries = 200;
  tx_max_disk_read_bytes = 200_000;
  tx_max_write_ledger_entries = 200;
  tx_max_write_bytes = 132_096;
  fee_disk_read_ledger_entry = pos 781;
  fee_write_ledger_entry = pos 1250;
  fee_disk_read_1kb = pos 223;
  soroban_state_target_size_bytes = pos 4_000_000_000;
  rent_fee_1kb_soroban_state_size_low = negsuc 16_999;
  rent_fee_1kb_soroban_state_size_high = pos 10_000;
  soroban_state_rent_fee_growth_factor = 5000;
  tx_max_footprint_entries = 400;
  fee_write_1kb = pos 437;
  fee_historical_1kb = pos 2029;
  tx_max_contract_events_size_bytes = 16_384;
  fee_contract_events_1kb = pos 2500;
  tx_max_size_bytes = 132_096;
  fee_tx_size_1kb = pos 203;
  max_contract_size_bytes = 131_072;
  max_contract_data_key_size_bytes = 250;
  max_contract_data_entry_size_bytes = 65_536;
  persistent_rent_rate_denominator = pos 1215;
  temp_rent_rate_denominator = pos 2430;
  average_soroban_state_size = 3_715_978_052;
}

pub record ArchivalSettings : Type 0 where
  pub min_temporary_ttl : ℕ
  pub min_persistent_ttl : ℕ
  pub max_entry_ttl : ℕ

abbrev pub testnet_archival_settings : ArchivalSettings
testnet_archival_settings = record {
  min_temporary_ttl = 720;
  min_persistent_ttl = 120_960;
  max_entry_ttl = 3_110_400;
}

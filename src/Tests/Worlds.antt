-- ===== src/Tests/Worlds.antt =====
-- Fixtures, authorization and the facade, each property at an input.
use lite_soroban.Sdk.{Sdk}
use lite_soroban.Classic.Accounts.{fund_account, store_account}
use lite_soroban.Prelude.{
  map, ℕ, zero, suc, All, pos, ◌≡◌, refl, List, [], ◌∷◌, ◌++◌, none, some, arith,
}
use mathlib.Core.List.{Perm}
use lite_soroban.Xdr.{
  key_of, Bytes, ScVal, sc_bytes, sc_vec, sc_map, sc_void, account_address, AddressCredentials,
  AuthorizationEntry, val, no_vals, credit, Credentials,
}
use lite_soroban.Ledger.{snapshot, new_ledger, put_entry}
use lite_soroban.Settings.{NetworkFeeSettings, testnet_fee_settings, testnet_archival_settings}
use lite_soroban.Prelude.{◌↔◌}
use lite_soroban.Loaders.{
  ConfigSetting, contract_compute, contract_ledger_cost, contract_ledger_cost_ext,
  contract_historical_data, contract_events, contract_bandwidth, contract_max_size_bytes,
  contract_data_key_size_bytes, contract_data_entry_size_bytes, state_archival, state_size_window,
  load_fee_settings, complete, read_settings, read_setting,
}
use lite_soroban.Loaders.Completing.{IsLoaded}
use lite_soroban.Loaders.Latest.{last_settings, load_fee_settings_lem}
use lite_soroban.Fixtures.Trust.{no_trustline_options, establish_trustline}
use lite_soroban.Fixtures.Established.{IsEstablished, establish_trustline_lem}
use lite_soroban.Auth.{signature_proofs, to_map}
use lite_soroban.Auth.Ordered.{IsSorted, signature_proofs_lem}
use lite_soroban.Facade.{LiteStellar, new_lite_stellar, sandboxed, next_salt}
use lite_soroban.Facade.Signing.{sign_auth_entries_sync, sign_credentials}
use lite_soroban.Facade.Signed.{Each, IsSigned, sign_auth_entries_sync_lem, ReadsBack, signed_entry}
use lite_soroban.Facade.Calls.{apply_host_fn, InvokeOptions, Stage, failed, prepare, send_prepared}
use lite_soroban.Facade.Failing.{apply_host_fn_failed}
use lite_soroban.Facade.Isolation.{sandboxed_lem}
use lite_soroban.Facade.Salts.{next_salt_fresh}
use lite_soroban.Rpc.Runs.{without_counter}
use lite_soroban.Host.{simulate, simulate_with_auth, send, upload_wasm_host_fn}
use lite_soroban.Tests.Samples.{sample_sdk, simulated, ledger_with, ledger_with-IsKeyed, alice, bob}

abbrev usdc : Bytes
usdc = 85 ∷ 83 ∷ 68 ∷ 67 ∷ []

establish_trustline_lem_example :
    IsEstablished
      (ledger_with 150)
      (establish_trustline
        (ledger_with 150)
        (record { account_id = alice })
        (credit usdc bob)
        no_trustline_options)
      (record { account_id = alice })
      usdc
      bob
      no_trustline_options
establish_trustline_lem_example =
    establish_trustline_lem (ledger_with 150) (record { account_id = alice }) usdc bob
      no_trustline_options (ledger_with-IsKeyed 150)

abbrev two_proofs : List (ScVal × ScVal)
two_proofs =
    (sc_bytes (9 ∷ []), sc_bytes (1 ∷ [])) ∷ (sc_bytes (4 ∷ 2 ∷ []), sc_bytes (3 ∷ [])) ∷ []

signature_proofs_lem_example :
    (sorted : List (ScVal × ScVal)) × (signature_proofs sample_sdk two_proofs
      ≡ sc_vec (val (sc_map (to_map sorted)) no_vals))
    × IsSorted sample_sdk.encode_value sorted
    × Perm sorted two_proofs
signature_proofs_lem_example = signature_proofs_lem sample_sdk two_proofs

abbrev no_options : InvokeOptions
no_options = record { caller = none; sign_auth = some sc_bytes; valid_until = none }

-- The call traps on the sample host.
abbrev UploadFails : Type 0
UploadFails =
    (apply_host_fn sample_sdk (ledger_with 150) (upload_wasm_host_fn usdc) alice no_options).0
    ≡ failed Stage.invocation_failed none simulated

upload_traps : UploadFails
unfolding apply_host_fn simulate simulate_with_auth send prepare send_prepared
upload_traps = refl

apply_host_fn_failed_example :
    without_counter
      (apply_host_fn sample_sdk (ledger_with 150) (upload_wasm_host_fn usdc) alice no_options).1
    ≡ without_counter (ledger_with 150)
apply_host_fn_failed_example =
    apply_host_fn_failed sample_sdk (ledger_with 150) (upload_wasm_host_fn usdc) alice no_options
      Stage.invocation_failed none simulated upload_traps

abbrev small_world : LiteStellar
small_world = record (new_lite_stellar (1 ∷ []) 100) { ledger = ledger_with 150 }

-- A body that moves the clock, and returns 7.
abbrev moves_clock : LiteStellar → ℕ × LiteStellar
moves_clock s = (7, record s { ledger = record (s.ledger) { ledger_seq = 5; store = [] } })

nothing_added :
    (moves_clock
      (record small_world { ledger = (snapshot small_world.ledger).0 })).1.ledger.snapshots
    ≡ (snapshot small_world.ledger).0.snapshots ++ []
unfolding snapshot new_ledger fund_account store_account put_entry key_of
nothing_added = refl

sandboxed_lem_example :
    let (r, s') = sandboxed small_world moves_clock in
    (r ≡ some 7)
    × (s'.ledger.store ≡ small_world.ledger.store)
    × (s'.ledger.ledger_seq ≡ small_world.ledger.ledger_seq)
    × (s'.ledger.timestamp ≡ small_world.ledger.timestamp)
    × (s'.ledger.prng_counter ≡ small_world.ledger.prng_counter)
sandboxed_lem_example = sandboxed_lem small_world moves_clock [] nothing_added

abbrev later_world : LiteStellar
later_world = record small_world { salt_counter = 300 }

next_salt_fresh_example : ¬ ((next_salt small_world).0 ≡ (next_salt later_world).0)
next_salt_fresh_example =
    next_salt_fresh small_world later_world (omega arith) (omega arith) (λ e. omega (arith, e))

abbrev proof : Bytes → ScVal
proof payload = sc_bytes (3 ∷ payload)

abbrev unsigned : Bytes → AddressCredentials
unsigned b = record {
  address = account_address b;
  nonce = pos 5;
  expiration = 0;
  signature = sc_void;
}

-- An entry that starts with 1 is signed.
abbrev decode_sample : Bytes → AuthorizationEntry
decode_sample [] = record {
  root_invocation = [];
  credentials = Credentials.source_account_credentials;
}
decode_sample (zero ∷ b) = record {
  root_invocation = b;
  credentials = Credentials.address_credentials (unsigned b);
}
decode_sample (suc n ∷ b) = record {
  root_invocation = b;
  credentials =
      Credentials.address_credentials
        (record (unsigned b) { expiration = 150; signature = proof (1 ∷ []) });
}

abbrev signing_sdk : Sdk
signing_sdk = record sample_sdk {
  encode_authorization = λ e. 1 ∷ e.root_invocation;
  decode_authorization = decode_sample;
}

abbrev to_sign : List Bytes
to_sign = (0 ∷ 7 ∷ []) ∷ (0 ∷ 8 ∷ 9 ∷ []) ∷ []

to_sign_read_back :
    All
      (λ b.
        ReadsBack signing_sdk
          (signed_entry signing_sdk proof (1 ∷ []) 150 (signing_sdk.decode_authorization b)))
      to_sign
unfolding ReadsBack sign_credentials
to_sign_read_back = (refl, (refl, tt))

sign_auth_entries_sync_lem_example :
    Each
      (λ b d.
        IsSigned (signing_sdk.decode_authorization b) (signing_sdk.decode_authorization d) 150 (
          proof
            (signing_sdk.authorization_payload (signing_sdk.decode_authorization b) 150 (1 ∷ []))))
      to_sign
      (sign_auth_entries_sync signing_sdk to_sign proof (1 ∷ []) 150)
sign_auth_entries_sync_lem_example =
    sign_auth_entries_sync_lem signing_sdk to_sign proof (1 ∷ []) 150 to_sign_read_back

-- A setting of every kind, with testnet's values, one of them twice.
abbrev every_setting : List ConfigSetting
every_setting =
    contract_max_size_bytes 100
    ∷ contract_compute (record {
      fee_rate_per_instructions_increment = t.fee_rate_per_instructions_increment;
      tx_max_instructions = t.tx_max_instructions;
      tx_memory_limit = t.tx_memory_limit;
    })
    ∷ contract_ledger_cost (record {
      tx_max_disk_read_entries = t.tx_max_disk_read_entries;
      tx_max_disk_read_bytes = t.tx_max_disk_read_bytes;
      tx_max_write_ledger_entries = t.tx_max_write_ledger_entries;
      tx_max_write_bytes = t.tx_max_write_bytes;
      fee_disk_read_ledger_entry = t.fee_disk_read_ledger_entry;
      fee_write_ledger_entry = t.fee_write_ledger_entry;
      fee_disk_read_1kb = t.fee_disk_read_1kb;
      soroban_state_target_size_bytes = t.soroban_state_target_size_bytes;
      rent_fee_1kb_soroban_state_size_low = t.rent_fee_1kb_soroban_state_size_low;
      rent_fee_1kb_soroban_state_size_high = t.rent_fee_1kb_soroban_state_size_high;
      soroban_state_rent_fee_growth_factor = t.soroban_state_rent_fee_growth_factor;
    })
    ∷ contract_ledger_cost_ext t.tx_max_footprint_entries t.fee_write_1kb
    ∷ contract_historical_data t.fee_historical_1kb
    ∷ contract_events t.tx_max_contract_events_size_bytes t.fee_contract_events_1kb
    ∷ contract_bandwidth t.tx_max_size_bytes t.fee_tx_size_1kb
    ∷ contract_max_size_bytes t.max_contract_size_bytes
    ∷ contract_data_key_size_bytes t.max_contract_data_key_size_bytes
    ∷ contract_data_entry_size_bytes t.max_contract_data_entry_size_bytes
    ∷ state_archival testnet_archival_settings t.persistent_rent_rate_denominator
        t.temp_rent_rate_denominator
    ∷ state_size_window (3_715_978_000 ∷ 3_715_978_105 ∷ [])
    ∷ []
  where
    t : NetworkFeeSettings
    t = testnet_fee_settings

load_fee_settings_lem_example :
    (load_fee_settings (map some every_setting) ≡ some testnet_fee_settings)
    ↔ IsLoaded (last_settings every_setting) testnet_fee_settings
load_fee_settings_lem_example =
    load_fee_settings_lem every_setting testnet_fee_settings
      (tt, (tt, (tt, (tt, (tt, (tt, (tt, (tt, (tt, (tt, (tt, (tt, tt))))))))))))

every_setting_loads : load_fee_settings (map some every_setting) ≡ some testnet_fee_settings
unfolding load_fee_settings read_settings read_setting complete
every_setting_loads = refl

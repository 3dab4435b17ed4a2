-- ===== src/Tests/Samples.antt =====
-- A small world for the tests: a host, two ledgers, and three envelopes.
use lite_soroban.Prelude.{ℕ, pos, true, false, List, [], ◌∷◌, none, some, same_bytes, ◌+◌}
use lite_soroban.Xdr.{
  AccountId, ed25519, DecoratedSignature, AccountEntry, LedgerKey, LedgerEntryData, LedgerEntry,
  Durability, precond_none, memo_none, OperationBody, invoke_host_function, extend_footprint_ttl,
  Bytes, SorobanResources, ScVal, sc_bytes, sc_symbol, sc_void, account_address, contract_address,
  address_credentials, SorobanTransactionData, Transaction, V1Envelope, FeeBumpEnvelope,
}
use lite_soroban.Sdk.{Sdk, HostReply, trapped, Simulation, FootprintSimulation}
use lite_soroban.Ledger.{Ledger, new_ledger, put_entry}
use lite_soroban.Ledger.Entries.{find}
use lite_soroban.Ledger.Keyed.{IsKeyed, put_entry-IsKeyed}
use lite_soroban.Classic.Accounts.{FundOptions, fund_account}
use lite_soroban.Classic.Accounts.Loading.{store_account-IsKeyed}
use lite_soroban.Classic.Validate.{ValidationOptions}

-- A host on which every call traps.
abbrev trapping : HostReply
trapping = record {
  ok = false;
  return_value = none;
  changed_keys = [];
  removed_keys = [];
  events = [];
  diagnostic_events = [];
  result_code = some trapped;
  error = none;
  detail = none;
  rent_fee = pos 0;
  refundable_fee_consumed = pos 0;
  changes = [];
}

abbrev no_resources : SorobanResources
no_resources = record {
  read_only = [];
  read_write = [];
  instructions = 0;
  disk_read_bytes = 0;
  write_bytes = 0;
}

abbrev pub simulated : Simulation
simulated = record {
  ok = true;
  error = none;
  return_value = none;
  resources = no_resources;
  auth = (1 ∷ []) ∷ [];
  restored = [];
  instructions = 0;
  read_bytes = 0;
  write_bytes = 0;
  cpu_insns = 0;
  mem_bytes = 0;
  read_only_keys = [];
  read_write_keys = [];
  events = [];
  diagnostic_events = [];
  min_resource_fee = pos 0;
}

abbrev footprint_simulated : FootprintSimulation
footprint_simulated = record {
  ok = true;
  error = none;
  resources = no_resources;
  min_resource_fee = pos 7;
}

abbrev encode_sample : ScVal → Bytes
encode_sample (sc_bytes b) = b
encode_sample (sc_symbol b) = b
encode_sample _ = []

-- A signature verifies under a key that is equal to it.
abbrev pub sample_sdk : Sdk
sample_sdk = record {
  sha256 = λ b. b;
  verify = λ k s m. same_bytes k s;
  tx_hash = λ p t. p;
  fee_bump_hash = λ p t. p;
  key_size = λ k. 40;
  entry_size = λ e. 100;
  envelope_size = λ e. 300;
  encode_signer_key = λ k. [];
  compute_resource_fee = λ l d n k r. record { non_refundable = pos 100; refundable = pos 50 };
  entry_size_for_rent = λ l k. 100;
  compute_rent_fee = λ l cs. pos 20;
  invoke = λ l f s r a i m. trapping;
  simulate = λ l f s n q u. simulated;
  simulate_with_auth = λ l f s a n q. simulated;
  simulate_extend_ttl = λ l ks to q. footprint_simulated;
  simulate_restore = λ l ks q. footprint_simulated;
  legacy_hash = λ p b. b;
  encode_host_function = λ f. [];
  encode_value = encode_sample;
  encode_authorization = λ a. a.root_invocation;
  decode_authorization = λ b. record {
    root_invocation = b;
    credentials = address_credentials (record {
      address = account_address b;
      nonce = pos 5;
      expiration = 0;
      signature = sc_void;
    });
  };
  decode_event = λ b. record { contract_id = some b; topics = []; event_data = b };
  i128 = λ z. sc_void;
  native_integer = λ b. pos 0;
  asset_contract_id = λ a p. p;
  authorization_payload = λ a n p. p;
  authorize_entry = λ a f n p. a;
  wasm_hash = λ b. b;
  wasm_key = λ b. LedgerKey.contract_code b;
  wasm_entry = λ b. record { last_modified = 0; content = LedgerEntryData.contract_code b b };
  min_live_until = λ l. some (l.ledger_seq + 119);
  address_value = λ b. some (contract_address b);
}

abbrev pub alice : AccountId
alice = 1 ∷ 2 ∷ 3 ∷ 4 ∷ []

abbrev pub bob : AccountId
bob = 5 ∷ 6 ∷ 7 ∷ 8 ∷ []

abbrev pub by_alice : DecoratedSignature
by_alice = record { hint = alice; signature = alice }

abbrev pub by_bob : DecoratedSignature
by_bob = record { hint = bob; signature = bob }

abbrev no_options : FundOptions
no_options = record { balance = none; seq_num = none; thresholds = none; signers = [] }

abbrev pub counter_key : LedgerKey
counter_key = LedgerKey.contract_data (7 ∷ []) (8 ∷ []) Durability.persistent

abbrev pub counter : LedgerEntry
counter = record {
  last_modified = 3;
  content = LedgerEntryData.contract_data (7 ∷ []) (8 ∷ []) Durability.persistent (9 ∷ []);
}

-- Alice's account, and a contract's entry with the given TTL, at ledger 100.
abbrev pub ledger_with : ℕ → Ledger
ledger_with ttl =
    put_entry (fund_account (new_ledger (1 ∷ []) 100) alice no_options) counter (some ttl)

new_ledger-IsKeyed : IsKeyed (new_ledger (1 ∷ []) 100).store
unfolding new_ledger find
new_ledger-IsKeyed = record { at_key = λ k e p. cc }

pub ledger_with-IsKeyed : (ttl : ℕ) → IsKeyed (ledger_with ttl).store
unfolding fund_account
ledger_with-IsKeyed ttl =
    put_entry-IsKeyed (fund_account (new_ledger (1 ∷ []) 100) alice no_options) counter (some ttl)
      (store_account-IsKeyed (new_ledger (1 ∷ []) 100) _ new_ledger-IsKeyed)

abbrev pub all_checks : ValidationOptions
all_checks = record {
  sigverify = true;
  sequence_check = true;
  fee_charging = true;
  timebounds = true;
}

abbrev pub resources_of : List LedgerKey → List LedgerKey → SorobanTransactionData
resources_of ro rw_keys = record {
  resources = record {
    read_only = ro;
    read_write = rw_keys;
    instructions = 1000;
    disk_read_bytes = 500;
    write_bytes = 500;
  };
  resource_fee = pos 400;
  archived = [];
}

abbrev pub tx_of : OperationBody → SorobanTransactionData → Transaction
tx_of body d = record {
  source_account = ed25519 alice;
  fee = 1000;
  seq_num = pos 1;
  cond = precond_none;
  memo = memo_none;
  operations = record { source_account = none; body = body } ∷ [];
  soroban_data = some d;
}

-- A call that traps, and the extension and the restoration of the contract's entry.
abbrev pub call : V1Envelope
call = record {
  tx = tx_of (invoke_host_function (4 ∷ []) []) (resources_of [] (counter_key ∷ []));
  signatures = by_alice ∷ [];
}

abbrev pub extension : V1Envelope
extension = record {
  tx = tx_of (extend_footprint_ttl 1000) (resources_of (counter_key ∷ []) []);
  signatures = by_alice ∷ [];
}

abbrev pub bump : FeeBumpEnvelope
bump = record {
  tx = record { fee_source = ed25519 alice; fee = pos 5000; inner_tx = extension };
  signatures = by_alice ∷ [];
}

abbrev pub alice_account : AccountEntry
alice_account = record {
  account_id = alice;
  balance = pos 100_000_000_000;
  seq_num = pos 0;
  num_sub_entries = 0;
  inflation_dest = none;
  flags = 0;
  home_domain = [];
  thresholds = record { master = 1; low = 0; medium = 0; high = 0 };
  signers = [];
  ext = none;
}

-- A call whose sequence number is used up.
abbrev pub old_call : V1Envelope
old_call = record call { tx = record (call.tx) { seq_num = pos 0 } }

-- ===== src/Facade/Passing.antt =====
-- The methods of src/litestellar.ts that pass a call on to the ledger, the host or the fixtures.
use lite_soroban.Prelude.{ℕ, false, List, Option, none, some}
use lite_soroban.Xdr.{Bytes, AccountId, ScVal, ScAddress, LedgerKey, LedgerEntry}
use lite_soroban.Sdk.{Sdk, Simulation}
use lite_soroban.Ledger
use lite_soroban.Host.{simulate, open_ledger, invoke_host_fn, seed_wasm}
use lite_soroban.Host
use lite_soroban.Fixtures
use lite_soroban.Fixtures.{Wallet, WalletOptions}
use lite_soroban.Fixtures.Tokens
use lite_soroban.Fixtures.Tokens.{Token}
use lite_soroban.Facade.{LiteStellar}
use lite_soroban.Facade.Calls.{InvokeOptions, source_of}

abbrev over : LiteStellar → Ledger.Ledger → LiteStellar
over s l = record s { ledger = l }

unfoldable pub advance_ledgers : LiteStellar → ℕ → LiteStellar
advance_ledgers s n = over s (Ledger.advance_ledgers s.ledger n)

unfoldable pub set_timestamp : LiteStellar → ℕ → LiteStellar
set_timestamp s t = over s (Host.set_timestamp s.ledger t)

unfoldable pub set_entry : LiteStellar → LedgerEntry → Option ℕ → LiteStellar
set_entry s e until = over s (Ledger.put_entry s.ledger e until)

unfoldable pub delete_entry : LiteStellar → LedgerKey → LiteStellar
delete_entry s k = over s (Ledger.remove_entry s.ledger k)

-- `none`: it throws.
unfoldable pub add_contract : Sdk → LiteStellar → (wasm : Bytes) → Option (Bytes × LiteStellar)
unfolding seed_wasm
add_contract sdk s wasm = elim (seed_wasm sdk s.ledger wasm) [
  | none ↦ none
  | some (hash, l) ↦ some (hash, over s l)
]

unfoldable pub snapshot : LiteStellar → LiteStellar × ℕ
snapshot s = let (l, id) = Ledger.snapshot s.ledger in (over s l, id)

-- `none`: it throws, there being no such snapshot.
unfoldable pub restore : LiteStellar → ℕ → Option LiteStellar
restore s id = elim (Ledger.restore s.ledger id) [ none ↦ none | some l ↦ some (over s l) ]

unfoldable pub adopt_account : LiteStellar → AccountId → WalletOptions → Wallet × LiteStellar
adopt_account s id opts = let (w, l) = Fixtures.adopt_account s.ledger id opts in (w, over s l)

unfoldable pub deploy_token :
    Sdk
    → LiteStellar
    → (random_id : AccountId) → (code : Option Bytes) → (issuer : Option Wallet)
    → Option Token × LiteStellar
deploy_token sdk s random_id code issuer =
    let (t, l) = Tokens.deploy_token sdk s.ledger random_id code issuer in (t, over s l)

unfoldable pub native_token :
    Sdk
    → LiteStellar
    → (random_id : AccountId) → (deployer : Option Wallet) → Option Token × LiteStellar
native_token sdk s random_id deployer =
    let (w, s') = source_of s deployer random_id in
    let (t, l) = Tokens.native_token sdk s'.ledger w in (t, over s' l)

unfoldable pub simulate_contract :
    Sdk
    → LiteStellar
    → (random_id : AccountId) → ScAddress
    → (fn : Bytes) → List ScVal
    → InvokeOptions
    → Simulation × LiteStellar
unfolding simulate
simulate_contract sdk s random_id address fn args opts =
    let (w, s') = source_of s opts.caller random_id in
    let f = invoke_host_fn address fn args in
    let (sim, l) = simulate sdk s'.ledger f w.account_id 0 (open_ledger s'.ledger) false in
    (sim, over s' l)

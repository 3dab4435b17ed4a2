-- ===== src/Fixtures/Tokens.antt =====
-- The token handles of src/fixtures.ts: `apply`, `buildToken`, `nativeToken` and `setupWorld`.
use lite_soroban.Prelude.{ℤ, pos, false, List, [], ◌∷◌, Option, none, some, if◌then◌else◌}
use lite_soroban.Xdr.{
  Bytes, AccountId, ScVal, sc_address, ScAddress, HostFunction, create_contract, from_asset,
  stellar_asset, Asset, native_asset, credit, contract_address,
}
use lite_soroban.Sdk.{Sdk, HostReply, Simulation}
use lite_soroban.Ledger.{Ledger}
use lite_soroban.Host.{simulate, send_simulated, open_ledger, invoke_host_fn}
use lite_soroban.Classic.Accounts.{default_to}
use lite_soroban.Fixtures.{Wallet, address, pre_funded_wallet, default_options}
use lite_soroban.Fixtures.Trust.{establish_trustline_if_missing}

-- `Wallet | xdr.ScAddress`
pub data Holder : Type 0 where
  wallet : Wallet → Holder
  raw : ScAddress → Holder

abbrev pub addr_of : Holder → ScAddress
addr_of (wallet w) = address w
addr_of (raw a) = a

abbrev pub sac_create_host_fn : Asset → HostFunction
sac_create_host_fn asset = create_contract (from_asset asset) stellar_asset

abbrev only_ok : HostReply → Option HostReply
only_ok r = if r.ok then some r else none

-- `apply`: `none`: it throws, the simulation or the call having failed.
unfoldable pub apply :
    Sdk → Ledger → HostFunction → (source : AccountId) → Option HostReply × Ledger
unfolding simulate
apply sdk l f source =
    let (sim, l') = simulate sdk l f source 0 (open_ledger l) false in
    let (sent, l'') = send_simulated sdk l' f source sim sim.auth in
    if sim.ok then (only_ok sent, l'') else (none, l')

pub record Token : Type 0 where
  pub asset : Asset
  pub issuer : Wallet
  pub contract : ScAddress

abbrev mint_name : Bytes
mint_name = 109 ∷ 105 ∷ 110 ∷ 116 ∷ []

abbrev transfer_name : Bytes
transfer_name = 116 ∷ 114 ∷ 97 ∷ 110 ∷ 115 ∷ 102 ∷ 101 ∷ 114 ∷ []

abbrev balance_name : Bytes
balance_name = 98 ∷ 97 ∷ 108 ∷ 97 ∷ 110 ∷ 99 ∷ 101 ∷ []

abbrev decimals_name : Bytes
decimals_name = 100 ∷ 101 ∷ 99 ∷ 105 ∷ 109 ∷ 97 ∷ 108 ∷ 115 ∷ []

-- The handle of an asset; `none`: the creation of its contract throws.
abbrev handle_of : Sdk → Ledger → Asset → Wallet → Option HostReply → Option Token
handle_of sdk l asset issuer none = none
handle_of sdk l asset issuer (some r) = some (record {
  asset = asset;
  issuer = issuer;
  contract = contract_address (sdk.asset_contract_id asset l.network_passphrase);
})

unfoldable pub build_token : Sdk → Ledger → Asset → Wallet → Option Token × Ledger
unfolding apply
build_token sdk l asset issuer =
    let (r, l') = apply sdk l (sac_create_host_fn asset) issuer.account_id in
    (handle_of sdk l' asset issuer r, l')

-- A wallet gets a trustline first.
abbrev pub prepare : Ledger → Holder → Asset → Ledger
prepare l (wallet w) asset = establish_trustline_if_missing l w asset
prepare l (raw a) asset = l

unfoldable pub mint : Sdk → Ledger → Token → Holder → ℤ → Option HostReply × Ledger
unfolding apply
mint sdk l t to amount =
    apply sdk (prepare l to t.asset)
      (invoke_host_fn t.contract mint_name (sc_address (addr_of to) ∷ sdk.i128 amount ∷ []))
      t.issuer.account_id

unfoldable pub trust : Ledger → Token → Wallet → Ledger
trust l t holder = establish_trustline_if_missing l holder t.asset

abbrev transfer_call : Sdk → ScAddress → Wallet → Holder → ℤ → HostFunction
transfer_call sdk contract sender to amount =
    invoke_host_fn contract transfer_name
      (sc_address (address sender) ∷ sc_address (addr_of to) ∷ sdk.i128 amount ∷ [])

unfoldable pub transfer : Sdk → Ledger → Token → Wallet → Holder → ℤ → Option HostReply × Ledger
unfolding apply
transfer sdk l t sender to amount =
    apply sdk (prepare l to t.asset) (transfer_call sdk t.contract sender to amount)
      sender.account_id

-- A read is a simulation alone; `none`: it throws.
abbrev returned : Sdk → Simulation → Option ℤ
returned sdk s =
    if s.ok
    then elim s.return_value [ none ↦ none | some v ↦ some (sdk.native_integer v) ]
    else none

unfoldable pub read :
    Sdk → Ledger → ScAddress → (fn : Bytes) → List ScVal → (source : AccountId) → Option ℤ × Ledger
unfolding simulate
read sdk l contract fn args source =
    let (sim, l') =
      simulate sdk l (invoke_host_fn contract fn args) source 0 (open_ledger l) false in
    (returned sdk sim, l')

abbrev pub balance_of : Sdk → Ledger → Token → Holder → Option ℤ × Ledger
balance_of sdk l t who =
    read sdk l t.contract balance_name (sc_address (addr_of who) ∷ []) t.issuer.account_id

abbrev or_zero_balance : Option ℤ → ℤ
or_zero_balance none = pos 0
or_zero_balance (some z) = z

abbrev pub balance_or_zero : Sdk → Ledger → Token → Holder → ℤ × Ledger
balance_or_zero sdk l t who = let (b, l') = balance_of sdk l t who in (or_zero_balance b, l')

abbrev pub decimals : Sdk → Ledger → Token → Option ℤ × Ledger
decimals sdk l t = read sdk l t.contract decimals_name [] t.issuer.account_id

abbrev test_code : Bytes
test_code = 84 ∷ 69 ∷ 83 ∷ 84 ∷ []

abbrev or_test_code : Option Bytes → Bytes
or_test_code none = test_code
or_test_code (some c) = c

-- `deployToken`; `random_id` is used when no issuer is given.
unfoldable pub deploy_token :
    Sdk
    → Ledger
    → (random_id : AccountId) → (code : Option Bytes) → (issuer : Option Wallet)
    → Option Token × Ledger
unfolding build_token pre_funded_wallet
deploy_token sdk l random_id code (some issuer) =
    build_token sdk l (credit (or_test_code code) issuer.account_id) issuer
deploy_token sdk l random_id code none =
    let (issuer, l') = pre_funded_wallet l random_id default_options in
    build_token sdk l' (credit (or_test_code code) issuer.account_id) issuer

-- The handle of native XLM: the deployer stands where the issuer does, and a transfer writes no
-- trustline.
unfoldable pub native_token : Sdk → Ledger → (deployer : Wallet) → Option Token × Ledger
unfolding build_token
native_token sdk l deployer = build_token sdk l native_asset deployer

unfoldable pub native_transfer :
    Sdk → Ledger → Token → Wallet → Holder → ℤ → Option HostReply × Ledger
unfolding apply
native_transfer sdk l t sender to amount =
    apply sdk l (transfer_call sdk t.contract sender to amount) sender.account_id

abbrev credited : Wallet → Token → Option HostReply × Ledger → Option (Wallet × Token) × Ledger
credited w t (none, l) = (none, l)
credited w t (some r, l) = (some (w, t), l)

-- `setupWorld` over a ledger: a wallet, and a token of which some is minted to it; `none`: it throws.
unfoldable pub setup_world :
    Sdk
    → Ledger
    → (wallet_id issuer_id : AccountId) → (xlm : Option ℤ) → (code : Option Bytes)
    → (minted : Option ℤ) → Option (Wallet × Token) × Ledger
unfolding mint deploy_token
setup_world sdk l wallet_id issuer_id xlm code minted =
    let (w, l1) = pre_funded_wallet l wallet_id (record default_options { xlm = xlm }) in
    let (t, l2) = deploy_token sdk l1 issuer_id code none in
    elim t [
      | none ↦ (none, l2)
      | some token ↦
          credited w token
            (mint sdk l2 token (wallet w) (default_to minted (pos 10_000_000_000_000)))
    ]

-- ===== src/Lib.antt =====
-- liteSoroban runs Soroban transactions against an in-memory ledger, with the checks, fees and result
-- codes of stellar-core around soroban-env-host. This library models its classic layer, src/classic.ts,
-- over the ledger of src/index.ts and crates/host-wasm/src/lib.rs, and what stands on it: the RPC
-- adapter, the fixtures, authorization and the facade.
--
-- How the parts interact: `applyTransaction` (Classic/Apply) takes an envelope and the ledger; a fee
-- bump wraps `applyInner`, which validates (Classic/Validate: a chain of checks that reads the ledger
-- and writes nothing) and then commits (Classic/Commit: the sequence number, the fee, the operation,
-- the refund). The operation is a call of the host (Host) or a footprint operation
-- (Classic/Footprint).
--
-- The RPC adapter (Rpc) answers requests from a ledger and from its own records of transactions and
-- events; it submits with `applyTransaction` under the facade's switches, and closes a ledger after
-- each transaction that ran. The fixtures (Fixtures) write accounts and trustlines straight into the
-- ledger and call token contracts through the host. The facade (Facade) holds a ledger, the switches,
-- a payer and a counter for salts, and runs contract calls: simulate, sign, simulate again, send.
--
-- Files:
--   Prelude          numbers, Booleans, lists; Prelude/Int: `bigint` as an integer
--   Xdr              accounts, ledger entries and keys, envelopes, as src/classic.ts reads them
--   Settings         src/fee-settings.ts and src/state-archival.ts: the two records, testnet's values
--   Ledger           `Ledger` (src/index.ts) over the store of `SorobanEnv`
--                    (crates/host-wasm/src/lib.rs): get, put, remove, TTLs, clock, snapshots;
--                    Ledger/Entries: the map; Ledger/Keyed: the invariant that an entry stands under
--                    its own key; Ledger/Snapshots: what restoring one gives back
--   Sdk              the parameter: @stellar/stellar-sdk and the host
--   Host             `send`, the simulations, `seedWasm`, the builders of host functions
--   Classic/Outcome  `TxOutcome`, `fail`, `malformed`, and the early return as a monad (`Check`)
--   Classic/Accounts loading and storing, funding, the reserve, signers, extensions, debits
--   Classic/Signatures     `SignatureChecker`, `checkExtraSigners`; Weight:
--                    `signatureWeight`
--   Classic/Preconditions  bounds, sequence numbers, ages, malformed extra signers
--   Classic/Fees     what a fee has to be, and what is charged
--   Classic/Resources      `sorobanResourcesProblem`, `trustLineAssetValid`, entry sizes
--   Classic/Footprint      `moveTtls`, `applyExtendFootprintTtl`, `applyRestoreFootprint`
--   Classic/Validate, Classic/Commit, Classic/Apply   `applyInner`, `applyFeeBump`,
--                    `applyEnvelope`, `applyTransaction`
--   Rpc              src/fake-rpc.ts: Rpc/Results (outcomes as XDR), Rpc/State (the adapter's records,
--                    requests and answers), Rpc/Reading, Rpc/Simulating, Rpc/Submitting (the
--                    methods), Rpc/Serve (the handler); Rpc/Abstract: the specification
--   Fixtures         src/fixtures.ts: wallets; Fixtures/Trust: trustlines; Fixtures/Tokens: tokens
--   Auth             src/auth.ts; Auth/Sorting: the sort of `signatureProofs`
--   Loaders          the loaders of src/fee-settings.ts, src/state-archival.ts and
--                    src/cost-params.ts, and what installs settings in a ledger
--   Facade           src/litestellar.ts: the object and its switches; Facade/Signing:
--                    `signAuthEntriesSync`; Facade/Calls: `applyHostFn` and the calls through it;
--                    Facade/Passing: the methods that pass a call on
--   Tests            the model on small inputs
-- The modules below each of these hold its theorems.
--
-- State: a ledger is a record that every operation takes and returns. A function that returns early
-- with an outcome is a `Check`: the value it went on with, or that outcome. No definition takes fuel:
-- every loop is over a list.
--
-- What is simplified. Base64 XDR stands for the value it decodes to; encoding a value cannot fail, so
-- the range of a 64-bit field is not checked. A diagnostic text is a constructor with the values
-- printed in it. Membership in the `WeakSet` `unseeded` is a field of the outcome, which building a
-- new outcome clears. Where the source asserts that an account exists, or that an entry is an
-- account, and would throw, the model reads "no account" or leaves the ledger: the callers have
-- loaded it, and a ledger whose entries stand under their own keys has no other entry there. Ledger
-- times and the 64-bit settings that `Number` converts are natural numbers and integers, without the
-- rounding of a JavaScript number above 2^53. A number that goes to Rust as a `u32`, a TTL, a size or a
-- step of the clock, is taken modulo 2^32.
--
-- What is not modelled: the host. A simulation reads the ledger that it is given and changes the counter
-- of the generator alone (`simulate_inner` takes `&self`, and `next_prng_seed` is the one write);
-- its snapshot and recording mode are the host's, inside `Sdk.simulate`. Running a contract, its fees and rents, hashes, signatures and
-- encoded sizes are functions of the record `Sdk`; `Sdk.verify` is false where the SDK throws. So are
-- the checks that the Rust `send` makes before and after the host runs: they are inside `Sdk.invoke`.
-- Of the repository's own code, these are left out: the enforcement switches, `stateHash` and
-- `allKeys` of the ledger, and the cost tables, which the host alone reads; and in
-- src/litestellar.ts the parsing of host errors, the decoding of return values, and getters. The
-- node that the loaders ask is an argument: the entries it answers with. The SDK's `authorizeEntry`
-- and `nativeToScVal` and the random keypairs are parameters or arguments. In the adapter, the JSON
-- around an answer, its constant fields and the texts of its errors are left out; asking for a page
-- of negative size is not expressible. The promise of an asynchronous function is its value.
pub mod Prelude
pub mod Xdr
pub mod Settings
pub mod Ledger
pub mod Sdk
pub mod Host
pub mod Classic
pub mod Rpc
pub mod Fixtures
pub mod Auth
pub mod Loaders
pub mod Facade
pub mod Tests

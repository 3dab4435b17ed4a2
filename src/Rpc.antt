-- ===== src/Rpc.antt =====
-- src/fake-rpc.ts: the JSON-RPC server that answers from the ledger in process.
pub mod Results
pub mod State
pub mod Reading
pub mod Simulating
pub mod Submitting
pub mod Serve
pub mod Log
pub mod Sending
pub mod Runs
pub mod Kept
pub mod Found
pub mod Pages
pub mod Events
pub mod Friendbot
pub mod Abstract

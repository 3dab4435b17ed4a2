-- ===== src/Classic.antt =====
-- src/classic.ts, the classic layer of transaction validation.
pub mod Outcome
pub mod Accounts
pub mod Signatures
pub mod Preconditions
pub mod Fees
pub mod Resources
pub mod Footprint
pub mod Validate
pub mod Commit
pub mod Apply

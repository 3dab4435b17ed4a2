-- ===== src/Tests.antt =====
-- The model run on small inputs, and each property at one of them.
pub mod Samples
pub mod Applying
pub mod Parts
pub mod Checks
pub mod Serving
pub mod Worlds

-- ===== src/Backend.antt =====
-- The registry of inference backends.
pub mod Registry
pub mod Leases

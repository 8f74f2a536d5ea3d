-- ===== src/Cache.antt =====
-- The bounded prefix and session cache: inference_runtime/cache.py.
pub mod Scope
pub mod Entries
pub mod Store
pub mod Leases
pub mod Accounting
pub mod Capacity
pub mod Bounds
pub mod Safety
pub mod Operations
pub mod History
pub mod Isolation
pub mod Validation

-- ===== src/Contracts.antt =====
-- The values that the inference runtime and its backends exchange: inference_runtime/contracts.py.
pub mod Checks
pub mod Capabilities
pub mod Sequences
pub mod Outcomes
pub mod Events
pub mod Agreement

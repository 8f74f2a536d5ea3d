-- ===== src/Scheduler.antt =====
-- The control plane of continuous batching: inference_runtime/continuous_scheduler.py.
pub mod State
pub mod Setup
pub mod Ready
pub mod Queues
pub mod Intake
pub mod Ending
pub mod Completion
pub mod Opening
pub mod Batches
pub mod Decoding
pub mod Loop
pub mod Budgets
pub mod Ledger
pub mod Sound

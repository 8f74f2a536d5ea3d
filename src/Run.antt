-- ===== src/Run.antt =====
-- The event-sourced state of an agent run: agent_runtime/ids.py, contracts.py, events.py and reducer.py.
pub mod Payload
pub mod Lifecycle
pub mod State
pub mod Reducer
pub mod Gates
pub mod Store

-- ===== src/Governance.antt =====
-- Service classes, fair selection and resource admission: inference_runtime/governance.py.
pub mod Policy
pub mod Admission
pub mod Selector
pub mod Snapshots

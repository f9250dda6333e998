-- ===== src/Execution.antt =====
-- src/airgap_ai_gateway/execution.py: the execution of an approved plan.
pub mod Log
pub mod Step
pub mod Validate
pub mod Run
pub mod Keeping
pub mod Context
pub mod Recorded
pub mod Gate
pub mod Report
pub mod Restore
pub mod Output
pub mod Marked

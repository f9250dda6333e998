-- ===== src/Planning.antt =====
-- src/airgap_ai_gateway/planning.py: plans that are saved, reviewed and then executed as they are.
pub mod Text
pub mod Action
pub mod Plan
pub mod Build
pub mod Rollback
pub mod Summary
pub mod Roundtrip
pub mod Scope
pub mod Modes
pub mod Undoable

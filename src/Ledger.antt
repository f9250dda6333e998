-- ===== src/Ledger.antt =====
-- src/airgap_ai_gateway/ledger.py: resource references, ledger entries, the pre-change snapshot and
-- the state ledger of one or more approved runs.
pub mod Ref
pub mod Entry
pub mod Snapshot
pub mod State
pub mod Roundtrip
pub mod Classify

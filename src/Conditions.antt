-- ===== src/Conditions.antt =====
-- src/airgap_ai_gateway/conditions.py: bounded polling of the conditions of Kubernetes resources.
pub mod Checks
pub mod Poll
pub mod Sound

-- ===== src/Manifest.antt =====
-- src/airgap_ai_gateway/manifest.py: the checks of rendered documents, and the patches of a
-- kustomization.
pub mod Reads
pub mod Shape
pub mod Images
pub mod Routes
pub mod Consumers
pub mod Workloads
pub mod Validate
pub mod Safe
pub mod Accepted
pub mod Merge
pub mod Kustomize
pub mod Terminates
pub mod Merged
pub mod Patched

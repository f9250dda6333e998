-- ===== src/Tests.antt =====
-- Runs on concrete data, and the theorems at that data.
mod Data
mod Plans
mod Files
mod Polls
mod Captures
mod Candidates
mod Configs
mod Manifests
mod Patches
mod Applies
mod Bundles

-- ===== src/Configuration.antt =====
-- src/airgap_ai_gateway/configuration.py: reading a configuration and checking it.
pub mod Expect
pub mod Parse
pub mod Validate
pub mod Repeats
pub mod Ports
pub mod Valid
pub mod Parts
pub mod Accepted
pub mod Stated
pub mod Read
pub mod Written
pub mod Roundtrip
pub mod Load
pub mod Loaded

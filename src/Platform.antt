-- ===== src/Platform.antt =====
-- lib/platform-common: what the platform's Rust services share.
pub mod Artifacts
pub mod Identity
mod Tests

-- ===== src/Host.antt =====
-- components/execution-host: the service that compiles and invokes guest modules.
pub mod Config
pub mod Preparation
pub mod Modules
pub mod Dispatch
pub mod Invocation
pub mod Supervisor
pub mod Oci
pub mod Calls
pub mod Session
pub mod Load
mod Tests

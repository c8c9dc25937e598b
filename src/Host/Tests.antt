-- ===== src/Host/Tests.antt =====
-- The properties of components/execution-host on concrete configurations, modules and histories.
mod Session
mod Load
mod Oci
mod Calls
mod Supervisor
mod Configs
mod Registry
mod Metrics

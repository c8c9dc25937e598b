-- ===== src/Host/Dispatch.antt =====
-- components/execution-host/src/dispatch_metrics.rs: the host-wide accounting of queued messages, tasks
-- and executions. The shared `Inner` is a record that each method and each drop takes and returns.
pub mod Counts
pub mod Guards
pub mod Labels
pub mod Balance
pub mod Counters

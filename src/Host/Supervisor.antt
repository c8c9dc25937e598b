-- ===== src/Host/Supervisor.antt =====
-- components/execution-host/src/invocation_supervisor.rs, with the replies of nats.rs: the owner of the
-- queued messages, the executions and the replies, beside the `Inner` of dispatch_metrics.rs.
pub mod Jobs
pub mod Loop
pub mod Steps
pub mod Replies

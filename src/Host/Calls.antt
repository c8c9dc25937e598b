-- ===== src/Host/Calls.antt =====
-- The host calls of a guest: redis_client.rs and host_kv.rs, sql_pool.rs and host_sql.rs, metrics.rs and
-- host_metrics.rs.
pub mod Redis
pub mod Keys
pub mod Pools
pub mod UserMetrics
pub mod MetricSync
pub mod Sql

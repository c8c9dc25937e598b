-- ===== src/Host/Config.antt =====
-- `AppRegistry` of components/execution-host/src/config.rs, with the messages of
-- proto/configsync/v1/configsync.proto that it reads. The map is an association list; the source
-- visits a map in no particular order, and so the theorems speak of membership in a diff's lists.
pub mod Entries
pub mod Registry
pub mod Lookup
pub mod Updates
pub mod Eviction
pub mod Snapshot

-- ===== src/Host/Oci.antt =====
-- components/execution-host/src/oci.rs: the registries that the host may pull from, and what it accepts
-- of them. The URL parser of `reqwest`, the reference parser of `oci_distribution`, `serde_json` and the
-- responses of the registries are arguments; the SHA-256 is the parameter of Platform/Artifacts.
pub mod Responses
pub mod Registries
pub mod Downloads
pub mod Approved
pub mod Plaintext
pub mod Accepted
pub mod Cache

-- ===== src/ModuleCache.antt =====
-- components/module-cache: the service that keeps verified raw Wasm by digest.
pub mod Store
pub mod Server
mod Tests

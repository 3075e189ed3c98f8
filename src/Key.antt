-- ===== src/Key.antt =====
-- crates/matter-sdk-key: key ingestion, account ids and scoped permissions.
pub mod Error
pub mod Scopes
pub mod Suri
pub mod Scheme
pub mod ApiKey
mod Tests

-- ===== src/Chain.antt =====
-- crates/matter-sdk/src/chain: the chain client.
pub mod Amount
pub mod Value
pub mod ScopesTable
pub mod Mode
pub mod Network
pub mod Client
pub mod Recover
pub mod Calls
pub mod Facade
pub mod Connect
pub mod Access
mod Tests

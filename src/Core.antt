-- ===== src/Core.antt =====
-- crates/matter-sdk-core: sealing and opening secrets, the tags and the wire form. The
-- cryptography itself and the byte codecs (the crates matter-crypto, matter-kgc-config, bincode and
-- hex) are parameters.
pub mod Error
pub mod Aad
pub mod Limits
pub mod Wire
pub mod Crypto
pub mod Bound
pub mod Seal
pub mod Open
pub mod Sealed
pub mod Authentic
mod Tests

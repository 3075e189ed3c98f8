-- ===== src/Bindings.antt =====
-- The bindings of bindings/wasm and bindings/python over the core and the keys, beside the C
-- interface of crates/matter-sdk-ffi.
pub mod Wasm
pub mod Python
pub mod Agree
mod Tests

-- ===== src/Core.antt =====
-- crates/snip36-core: types, signing, configuration, proof encoding and the RPC client.
pub mod Json
pub mod Types
pub mod Signing
pub mod Transactions
pub mod Sncast
pub mod Config
pub mod Proof
pub mod Rpc

-- ===== src/Prover.antt =====
-- crates/starknet-transaction-prover-wasm/src: proving a transaction with the virtual OS.
pub mod Errors
pub mod StorageProofs
pub mod SnosProver
pub mod Committer
pub mod Executor
pub mod ClassesProvider
pub mod Runner
pub mod Config

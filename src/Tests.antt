-- ===== src/Tests.antt =====
-- The theorems applied to concrete inputs, with the sample field of Felt/Sample.antt.
mod Core
mod Encoding
mod CoinFlip
mod Deploy
mod Prover
mod StorageProofs
mod Reexecution
mod Libraries
mod Runner
mod Counter
mod Health
mod WebProver

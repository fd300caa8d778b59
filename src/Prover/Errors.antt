-- ===== src/Prover/Errors.antt =====
-- crates/starknet-transaction-prover-wasm/src/errors.rs: the errors that the modelled paths return,
-- of all its enums together, with the interpolated parts of their texts dropped, and a panic of the
-- source as one more.
use snip_36_prover_web.Prelude.{ℕ, String}
use snip_36_prover_web.Reexecution.{ReexecutionError}

pub data ProverError : Type 0 where
  panic : ProverError
  invalid_transaction_type : String → ProverError
  invalid_transaction_input : String → ProverError
  validation_error : ProverError
  invalid_state_diff : String → ProverError
  rpc : ProverError
  serialization_error : ProverError
  invalid_proof_response : String → ProverError
  block_commitment_error : ProverError
  reexecution_error : ReexecutionError → ProverError
  transaction_execution_error : String → ProverError
  transaction_reverted : ℕ → String → ProverError
  state_unavailable : ProverError
  bouncer_lock_error : ProverError
  get_classes_error : ReexecutionError → ProverError
  deprecated_contract_error : ℕ → ProverError
  invalid_bytecode_element : ProverError
  hints_conversion_error : ProverError
  transaction_hash_error : ProverError
  os_execution : ProverError

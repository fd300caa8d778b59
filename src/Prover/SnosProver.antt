-- ===== src/Prover/SnosProver.antt =====
-- crates/starknet-transaction-prover-wasm/src/proving/virtual_snos_prover.rs: what a request to prove
-- a transaction has to pass. The runner, the prover of the `stwo_proving` feature and
-- `max_possible_fee` of the starknet_api crate are outside.
pub mod Validation
use snip_36_prover_web.Prelude.{
  ℕ, Bool, true, false, List, [], ◌∷◌, Option, none, some, ◌==◌, if◌then◌else◌,
}
use snip_36_prover_web.Prelude.Result.{Result, ok, err, ◌>>=◌}
use snip_36_prover_web.Core.Types.{ResourceBounds}
use snip_36_prover_web.Reexecution.{BlockId, number, hash, latest, pending}
use snip_36_prover_web.Prover.Errors.{
  ProverError, panic, invalid_transaction_type, invalid_transaction_input, validation_error,
}

-- `RpcInvokeTransactionV3`
pub record RpcInvokeV3 : Type 0 where
  pub sender_address : ℕ
  pub calldata : List ℕ
  pub signature : List ℕ
  pub nonce : ℕ
  pub resource_bounds : ResourceBounds
  pub tip : ℕ
  pub paymaster_data : List ℕ
  pub account_deployment_data : List ℕ
  pub nonce_da_mode : ℕ
  pub fee_da_mode : ℕ
  pub proof : List ℕ
  pub proof_facts : List ℕ

pub data RpcTransaction : Type 0 where
  invoke : RpcInvokeV3 → RpcTransaction
  declare : RpcTransaction
  deploy_account : RpcTransaction

unfoldable pub extract_rpc_invoke_tx : RpcTransaction → Result ProverError RpcInvokeV3
extract_rpc_invoke_tx (invoke invoke_v3) = ok invoke_v3
extract_rpc_invoke_tx declare =
    err (invalid_transaction_type "Declare transactions are not supported")
extract_rpc_invoke_tx deploy_account =
    err (invalid_transaction_type "DeployAccount transactions are not supported")

unfoldable pub is_empty {ℓ} : {A : Type ℓ} → List A → Bool
is_empty [] = true
is_empty (x ∷ xs) = false

-- `ValidResourceBounds::max_possible_fee` of the bounds and the tip.
abbrev pub MaxFee : Type 0
MaxFee = ResourceBounds → ℕ → ℕ

module _ (max_possible_fee : MaxFee) where
  unfoldable pub validate_transaction_input : RpcInvokeV3 → Bool → Result ProverError (Unit {0})
  unfolding is_empty
  validate_transaction_input tx validate_zero_fee_fields =
      if is_empty tx.proof
      then if is_empty tx.proof_facts
        then if validate_zero_fee_fields
          then if max_possible_fee tx.resource_bounds tx.tip == 0
            then ok tt
            else err (invalid_transaction_input "Max possible fee must be zero")
          else ok tt
        else err (invalid_transaction_input "The proof_facts field must be empty on input.")
      else err (invalid_transaction_input "The proof field must be empty on input.")

-- `VirtualSnosProver`: the runner, what it yields (`O`), and the proving of that (`P`).
pub record VirtualSnosProver (O P : Type 0) : Type 0 where
  pub run_virtual_os : BlockId → List RpcInvokeV3 → Result ProverError O
  pub validate_zero_fee_fields : Bool
  pub stwo_prove : Option (O → Result ProverError P)  -- `none` without the feature

module _ {O P : Type 0} where
  unfoldable pub from_runner :
      (BlockId → List RpcInvokeV3 → Result ProverError O)
      → Option (O → Result ProverError P)
      → VirtualSnosProver O P
  from_runner runner stwo_prove = record {
    run_virtual_os = runner;
    validate_zero_fee_fields = true;
    stwo_prove = stwo_prove;
  }

  unfoldable pub disable_fee_validation : VirtualSnosProver O P → VirtualSnosProver O P
  disable_fee_validation p = record p { validate_zero_fee_fields = false }

  -- Without the feature, `unimplemented!`.
  unfoldable pub prove_virtual_snos_run : VirtualSnosProver O P → O → Result ProverError P
  prove_virtual_snos_run p output = elim p.stwo_prove [
    | none ↦ err panic
    | some prove ↦ prove output
  ]

  prove_checked : MaxFee → VirtualSnosProver O P → BlockId → RpcTransaction → Result ProverError P
  prove_checked max_possible_fee p block_id transaction = do
    invoke_v3 ← extract_rpc_invoke_tx transaction
    _ ← validate_transaction_input max_possible_fee invoke_v3 p.validate_zero_fee_fields
    output ← p.run_virtual_os block_id (invoke_v3 ∷ [])
    prove_virtual_snos_run p output

  unfoldable pub prove_transaction :
      MaxFee → VirtualSnosProver O P → BlockId → RpcTransaction → Result ProverError P
  unfolding prove_checked
  prove_transaction max_possible_fee p pending transaction = err validation_error
  prove_transaction max_possible_fee p block_id transaction =
      prove_checked max_possible_fee p block_id transaction

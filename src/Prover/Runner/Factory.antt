-- ===== src/Prover/Runner/Factory.antt =====
-- RpcRunnerFactory of crates/starknet-transaction-prover-wasm/src/running/runner.rs: a runner whose
-- providers are those of a node. A block's storage proofs come from the RPC client, a function of the
-- block's number and the query.
use snip_36_prover_web.Prelude.{ℕ, Bool, List, map}
use snip_36_prover_web.Prelude.Result.{Result}
use snip_36_prover_web.Prelude.Maps.{Eq}
use snip_36_prover_web.Reexecution.{BlockId, Node, RpcStateReader}
use snip_36_prover_web.Reexecution.Classes.{get_runnable_compiled_class_async}
use snip_36_prover_web.Prover.Errors.{ProverError}
use snip_36_prover_web.Prover.Committer.{StateMaps, MerkleNode, LeafData, FactsLib}
use snip_36_prover_web.Prover.SnosProver.{RpcInvokeV3}
use snip_36_prover_web.Prover.Executor.{v3_tx, RpcVirtualBlockExecutorConfig}
use snip_36_prover_web.Prover.Executor.Run.{
  RpcVirtualBlockExecutor, ExecutorLib, new_executor, execute,
}
use snip_36_prover_web.Prover.ClassesProvider.{CasmContractClass, CasmLib, get_classes}
use snip_36_prover_web.Prover.StorageProofs.{RpcStorageProofsQuery}
use snip_36_prover_web.Prover.StorageProofs.Merge.{StorageProof}
use snip_36_prover_web.Prover.StorageProofs.Commitments.{CommitmentLib}
use snip_36_prover_web.Prover.StorageProofs.Provider.{ChangesLib, get_storage_proofs}
use snip_36_prover_web.Prover.Runner.{ChainInfo, Providers, OsLib, RunnerOutput, run_virtual_os}

-- `RunnerConfig`; of the storage proofs' configuration, whether state changes are included.
pub record RunnerConfig (Bouncer : Type 0) : Type 0 where
  pub include_state_changes : Bool
  pub virtual_block_executor_config : RpcVirtualBlockExecutorConfig Bouncer

-- `M` is the state of the class manager when a run starts.
pub record RpcRunnerFactory (Bouncer M : Type 0) : Type 0 where
  pub node : Node
  pub fetch_proof :
      ℕ → RpcStorageProofsQuery → Result ProverError (StorageProof MerkleNode LeafData)
  pub chain_info : ChainInfo
  pub contract_class_manager : M
  pub runner_config : RunnerConfig Bouncer

-- What the other crates do for the storage proofs.
pub record ProofsLib (K V F Preimage Facts : Type 0) : Type 0 where
  pub facts_lib : FactsLib K V
  pub commitment_lib : CommitmentLib MerkleNode Preimage Facts
  pub changes_lib : ChangesLib K V F Facts
  pub get_contract_addresses : StateMaps → List ℕ

unfoldable pub reader_at :
    {Bouncer M : Type 0} → RpcRunnerFactory Bouncer M → BlockId → RpcStateReader
reader_at factory block_id = record { node = factory.node; block_id = block_id }

unfoldable pub executor_at :
    {Bouncer M : Type 0}
    → RpcRunnerFactory Bouncer M
    → BlockId
    → RpcVirtualBlockExecutor ChainInfo Bouncer
unfolding reader_at
executor_at factory block_id =
    new_executor (reader_at factory block_id) factory.chain_info
      factory.runner_config.virtual_block_executor_config

module _ {G W C Bouncer S A P V0 V1 T M Call Msg K V F Preimage Facts Seg Hints Points : Type 0}
    ⦃eq_key : Eq K⦄ (exec_lib : ExecutorLib G W ChainInfo C Bouncer S A P V0 V1 T M Call Msg)
    (proofs_lib : ProofsLib K V F Preimage Facts) (casm_lib : CasmLib V1 Seg Hints Points) where
  -- `create_runner`
  unfoldable pub create_providers :
      RpcRunnerFactory Bouncer M
      → BlockId
      → Providers G W C Bouncer Call Msg Facts Seg Hints Points M
  create_providers factory block_id = record {
    get_classes = get_classes casm_lib (
        get_runnable_compiled_class_async exec_lib.serde_lib exec_lib.class_lib
          (reader_at factory block_id));
    get_storage_proofs = λ block_number execution_data include.
        get_storage_proofs proofs_lib.facts_lib proofs_lib.commitment_lib proofs_lib.changes_lib
          proofs_lib.get_contract_addresses (factory.fetch_proof block_number) execution_data
          include;
    execute = execute exec_lib (executor_at factory block_id);
  }

module _
    {G W C Bouncer S A P V0 V1 T M Call Msg K V F Preimage Facts Seg Hints Points E Pie : Type 0}
    ⦃eq_key : Eq K⦄ (exec_lib : ExecutorLib G W ChainInfo C Bouncer S A P V0 V1 T M Call Msg)
    (proofs_lib : ProofsLib K V F Preimage Facts) (casm_lib : CasmLib V1 Seg Hints Points) where
  -- The runner that the prover of a transaction is given.
  unfoldable pub run_at :
      OsLib G W E Facts (CasmContractClass Seg Hints Points) Call Pie
      → RpcRunnerFactory Bouncer M
      → BlockId
      → List RpcInvokeV3
      → Result ProverError (RunnerOutput Pie Msg)
  run_at os_lib factory block_id txs =
      run_virtual_os os_lib (create_providers exec_lib proofs_lib casm_lib factory block_id)
        factory.runner_config.include_state_changes block_id factory.chain_info.chain_id
        factory.contract_class_manager (map v3_tx txs)

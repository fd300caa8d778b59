-- ===== src/Prover/Executor/Run.antt =====
-- RpcVirtualBlockExecutor::execute of crates/starknet-transaction-prover-wasm/src/running/
-- virtual_block_executor.rs.
use snip_36_prover_web.Prelude.{
  ℕ, String, Bool, true, false, List, [], ◌∷◌, ◌++◌, map, concat, Option, none, some, ltb,
  if◌then◌else◌,
}
use snip_36_prover_web.Prelude.Result.{Result, ok, err, ◌>>=◌, ◌>>◌, ok_or, collect}
use snip_36_prover_web.Reexecution.{BlockId, Serde, RpcStateReader}
use snip_36_prover_web.Reexecution.Headers.{BlockHeader}
use snip_36_prover_web.Reexecution.Classes.{
  ClassLib, RunnableCompiledClass, CompiledClasses, get_compiled_classes_async,
}
use snip_36_prover_web.Prover.Errors.{
  ProverError, transaction_execution_error, transaction_reverted, state_unavailable,
  bouncer_lock_error,
}
use snip_36_prover_web.Prover.Committer.{StateMaps}
use snip_36_prover_web.Prover.Executor.{
  InvokeTransaction, VirtualBlockExecutionData, StateReader, rpc_blocking_reader,
  simulated_state_reader, RpcVirtualBlockExecutorConfig,
}
use snip_36_prover_web.Prover.Executor.BaseBlock.{
  BlockLib, BlockContext, BaseBlockInfo, base_block_info_async,
}
use snip_36_prover_web.Prover.Executor.Prefetch.{
  SimulationLib, simulate_and_get_initial_reads, prefetch_classes_into_cache,
}

-- `TransactionExecutionOutput`: the execution's information, of which the calls (`Call`) with their
-- results, and its state changes.
pub record TransactionExecutionOutput (Call : Type 0) : Type 0 where
  pub revert_error : Option String
  pub call_infos : List Call
  pub state_maps : StateMaps

pub record ExecutionFlags : Type 0 where
  pub only_query : Bool
  pub charge_fee : Bool
  pub validate : Bool
  pub strict_nonce_check : Bool

-- The state that the executor leaves, and what it says of itself.
pub record BlockState : Type 0 where
  pub get_initial_reads : Option StateMaps
  pub to_state_diff : Option StateMaps

-- After `execute_txs`: a result for each transaction that was executed, the block's state if it is
-- there, and the bouncer's class hashes if its lock is to be had.
pub record Execution (Call : Type 0) : Type 0 where
  pub results : List (Option (TransactionExecutionOutput Call))
  pub block_state : Option BlockState
  pub executed_class_hashes : Option (List ℕ)

-- The blockifier: `T` is its transaction, `R` and `K` its classes, `X` its block context and `M` the
-- class manager.
pub record Blockifier (T R K X M Call Msg : Type 0) : Type 0 where
  pub max_possible_fee : InvokeTransaction → ℕ
  pub from_api : InvokeTransaction → ℕ → ExecutionFlags → Option T
  pub execute_txs : StateReader R K → M → X → List T → Execution Call
  pub set_and_compile : ℕ → K → M → M
  pub get_sorted_l2_to_l1_messages : Call → List Msg

module _ {T R K X M Call Msg : Type 0} (lib : Blockifier T R K X M Call Msg) where
  unfoldable pub flags_of : Bool → InvokeTransaction → ExecutionFlags
  flags_of validate_txs tx = record {
    only_query = false;
    charge_fee = ltb 0 (lib.max_possible_fee tx);
    validate = validate_txs;
    strict_nonce_check = false;
  }

  unfoldable pub convert_invoke_tx : Bool → InvokeTransaction × ℕ → Result ProverError T
  convert_invoke_tx validate_txs (tx, tx_hash) =
      ok_or (lib.from_api tx tx_hash (flags_of validate_txs tx))
        (transaction_execution_error "Failed to convert the transaction")

  unfoldable pub convert_invoke_txs :
      Bool → List (InvokeTransaction × ℕ) → Result ProverError (List T)
  convert_invoke_txs validate_txs txs = collect (convert_invoke_tx validate_txs) txs

  unfoldable pub output_of :
      Option (TransactionExecutionOutput Call)
      → Result ProverError (TransactionExecutionOutput Call)
  output_of result = ok_or result (transaction_execution_error "Transaction execution failed")

  -- The outputs zipped with the hashes of the transactions.
  unfoldable pub reject_reverted :
      List (TransactionExecutionOutput Call) → List ℕ → Result ProverError (Unit {0})
  reject_reverted (output ∷ outputs) (tx_hash ∷ tx_hashes) = elim output.revert_error [
    | some reason ↦ err (transaction_reverted tx_hash reason)
    | none ↦ reject_reverted outputs tx_hashes
  ]
  reject_reverted _ _ = ok tt

  unfoldable pub messages_of : List (TransactionExecutionOutput Call) → List Msg
  messages_of [] = []
  messages_of (output ∷ outputs) =
      concat (map lib.get_sorted_l2_to_l1_messages output.call_infos) ++ messages_of outputs

  -- What follows the execution of the transactions.
  unfoldable pub finish_execution :
      {B : Type 0}
      → B
      → List ℕ
      → Execution Call
      → Result ProverError (VirtualBlockExecutionData (TransactionExecutionOutput Call) Msg B)
  finish_execution base_block_info tx_hashes execution = do
    execution_outputs ← collect output_of execution.results
    reject_reverted execution_outputs tx_hashes
    block_state ← ok_or execution.block_state state_unavailable
    initial_reads ←
        ok_or block_state.get_initial_reads
          (transaction_execution_error "Failed to get initial reads")
    state_diff ←
        ok_or block_state.to_state_diff (transaction_execution_error "Failed to get state diff")
    executed_class_hashes ← ok_or execution.executed_class_hashes bouncer_lock_error
    ok (record {
      execution_outputs = execution_outputs;
      initial_reads = initial_reads;
      state_diff = state_diff;
      executed_class_hashes = executed_class_hashes;
      l2_to_l1_messages = messages_of execution_outputs;
      base_block_info = base_block_info;
    })

-- `RpcVirtualBlockExecutor` with its chain's information.
pub record RpcVirtualBlockExecutor (I Bouncer : Type 0) : Type 0 where
  pub rpc_state_reader : RpcStateReader
  pub chain_info : I
  pub validate_txs : Bool
  pub config : RpcVirtualBlockExecutorConfig Bouncer

module _ {I Bouncer : Type 0} where
  -- `RpcVirtualBlockExecutor::new`, of the reader at the node and the block.
  unfoldable pub new_executor :
      RpcStateReader → I → RpcVirtualBlockExecutorConfig Bouncer → RpcVirtualBlockExecutor I Bouncer
  new_executor reader chain_info config = record {
    rpc_state_reader = reader;
    chain_info = chain_info;
    validate_txs = true;
    config = config;
  }

  unfoldable pub initial_state_maps :
      SimulationLib
      → Serde BlockHeader
      → RpcVirtualBlockExecutor I Bouncer
      → BlockId
      → List (InvokeTransaction × ℕ)
      → Result ProverError StateMaps
  initial_state_maps lib serde_lib executor block_id txs =
      if executor.config.prefetch_state
      then simulate_and_get_initial_reads lib serde_lib executor.rpc_state_reader
          executor.validate_txs block_id txs
      else ok (record {
        nonces = [];
        class_hashes = [];
        storage = [];
        compiled_class_hashes = [];
        declared_contracts = [];
      })

-- The libraries that an execution calls.
pub record ExecutorLib (G W I C Bouncer S A P V0 V1 T M Call Msg : Type 0) : Type 0 where
  pub serde_lib : Serde BlockHeader
  pub class_lib : ClassLib S A P V0 V1
  pub block_lib : BlockLib G W C Bouncer
  pub simulation_lib : SimulationLib
  pub blockifier :
      Blockifier T
        (RunnableCompiledClass V0 V1)
        (CompiledClasses A V0 V1)
        (BlockContext G W I C Bouncer)
        M
        Call
        Msg

module _ {G W I C Bouncer S A P V0 V1 T M Call Msg : Type 0}
    (lib : ExecutorLib G W I C Bouncer S A P V0 V1 T M Call Msg)
    (executor : RpcVirtualBlockExecutor I Bouncer) where
  -- The execution on the prefetched state, with the classes that the manager has.
  unfoldable pub run_block :
      BaseBlockInfo G W I C Bouncer
      → StateMaps
      → M
      → List (InvokeTransaction × ℕ)
      → Result ProverError (
          VirtualBlockExecutionData
            (TransactionExecutionOutput Call)
            Msg
            (BaseBlockInfo G W I C Bouncer))
  run_block base_block_info state_maps manager txs = do
    blockifier_txs ← convert_invoke_txs lib.blockifier executor.validate_txs txs
    finish_execution lib.blockifier base_block_info (map (λ t. t.1) txs) (
        lib.blockifier.execute_txs (simulated_state_reader state_maps rpc_blocking_reader) manager
          base_block_info.block_context blockifier_txs)

  unfoldable pub prefetch : StateMaps → M → M × Result ProverError (Unit {0})
  prefetch state_maps manager =
      prefetch_classes_into_cache
        (get_compiled_classes_async lib.serde_lib lib.class_lib executor.rpc_state_reader)
        lib.blockifier.set_and_compile state_maps manager

  -- The class manager is shared with the caller, so what was put into it is returned with an error too.
  unfoldable pub execute :
      BlockId
      → M
      → List (InvokeTransaction × ℕ)
      → M
        × Result ProverError (
            VirtualBlockExecutionData
              (TransactionExecutionOutput Call)
              Msg
              (BaseBlockInfo G W I C Bouncer))
  execute block_id manager txs =
      elim (base_block_info_async lib.block_lib lib.serde_lib executor.rpc_state_reader
        executor.chain_info executor.config) [
          | err e ↦ (manager, err e)
          | ok base_block_info ↦
              elim (initial_state_maps lib.simulation_lib lib.serde_lib executor block_id txs) [
                | err e ↦ (manager, err e)
                | ok state_maps ↦
                    let fetched = prefetch state_maps manager in
                    (fetched.0, fetched.1 >> run_block base_block_info state_maps fetched.0 txs)
              ]
        ]

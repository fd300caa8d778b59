-- ===== src/Prover/Executor/Executed.antt =====
-- What a successful execute of crates/starknet-transaction-prover-wasm/src/running/
-- virtual_block_executor.rs rests on.
use mathlib.Core.Path.{subst}
use snip_36_prover_web.Prelude.{
  ℕ, ◌≤◌, true, false, List, [], map, length, length-map, All, ◌≡◌, refl, sym, ap, ◌∙◌, inl, inr,
  arith,
}
use snip_36_prover_web.Prelude.Result.{
  Result, ok, ◌>>◌, collect, AllOk, collect-AllOk, AllOk-length, Result-cases, >>=-parts,
  ok_injective,
}
use snip_36_prover_web.Reexecution.{BlockId}
use snip_36_prover_web.Reexecution.Classes.{get_compiled_classes_async}
use snip_36_prover_web.Prover.Errors.{ProverError}
use snip_36_prover_web.Prover.Committer.{StateMaps}
use snip_36_prover_web.Prover.Executor.{
  InvokeTransaction, VirtualBlockExecutionData, StateReader, rpc_blocking_reader,
  simulated_state_reader,
}
use snip_36_prover_web.Prover.Executor.BaseBlock.{BaseBlockInfo, base_block_info_async}
use snip_36_prover_web.Prover.Executor.Prefetch.{simulate_and_get_initial_reads}
use snip_36_prover_web.Prover.Executor.Run.{
  TransactionExecutionOutput, Blockifier, convert_invoke_tx, convert_invoke_txs,
  RpcVirtualBlockExecutor, initial_state_maps, ExecutorLib, run_block, prefetch, execute,
}
use snip_36_prover_web.Prover.Executor.Cached.{IsIn, IsFilled, prefetch_classes_into_cache-IsFilled}
use snip_36_prover_web.Prover.Executor.Finished.{IsFinished, finish_execution-IsFinished}

-- The blockifier returns at most one result for each transaction.
pub record IsBlockifier {T R K X M Call Msg : Type 0} (lib : Blockifier T R K X M Call Msg)
    : Type 0 where
  pub results_le :
      (reader : StateReader R K) (m : M) (x : X) (ts : List T)
      → length (lib.execute_txs reader m x ts).results ≤ length ts

module _ {G W I C Bouncer S A P V0 V1 T M Call Msg : Type 0}
    (lib : ExecutorLib G W I C Bouncer S A P V0 V1 T M Call Msg)
    (executor : RpcVirtualBlockExecutor I Bouncer) where
  -- The state that is prefetched: the reads of a simulation, if that is configured, and else none.
  pub record IsPrefetched (block_id : BlockId) (txs : List (InvokeTransaction × ℕ))
      (state_maps : StateMaps) : Type 0 where
    pub simulated :
        executor.config.prefetch_state ≡ true
        → simulate_and_get_initial_reads lib.simulation_lib lib.serde_lib executor.rpc_state_reader
            executor.validate_txs block_id txs
          ≡ ok state_maps
    pub nothing :
        executor.config.prefetch_state ≡ false
        → (state_maps.nonces ≡ [])
          × (state_maps.class_hashes ≡ [])
          × (state_maps.storage ≡ [])
          × (state_maps.compiled_class_hashes ≡ [])
          × (state_maps.declared_contracts ≡ [])

  initial_state_maps-IsPrefetched :
      (block_id : BlockId) (txs : List (InvokeTransaction × ℕ)) (maps : StateMaps)
      → initial_state_maps lib.simulation_lib lib.serde_lib executor block_id txs ≡ ok maps
      → IsPrefetched block_id txs maps
  unfolding initial_state_maps
  initial_state_maps-IsPrefetched block_id txs maps e = record {
    simulated = λ on. rw (on, initial_state_maps) at e;
    nothing = λ off.
        let same = ok_injective (rw (off, initial_state_maps) at e) in
        (
          sym (ap (λ (m : StateMaps). m.nonces) same),
          sym (ap (λ (m : StateMaps). m.class_hashes) same),
          sym (ap (λ (m : StateMaps). m.storage) same),
          sym (ap (λ (m : StateMaps). m.compiled_class_hashes) same),
          sym (ap (λ (m : StateMaps). m.declared_contracts) same),
        );
  }

  pub record IsExecuted (block_id : BlockId) (given : M) (txs : List (InvokeTransaction × ℕ))
      (manager : M)
      (run_data : VirtualBlockExecutionData
        (TransactionExecutionOutput Call)
        Msg
        (BaseBlockInfo G W I C Bouncer))
      : Type 0 where
    pub base :
        base_block_info_async lib.block_lib lib.serde_lib executor.rpc_state_reader
          executor.chain_info executor.config
        ≡ ok run_data.base_block_info
    pub state_maps : StateMaps
    pub prefetched : IsPrefetched block_id txs state_maps
    pub fetched : List ℕ
    pub filled :
        IsFilled
          (get_compiled_classes_async lib.serde_lib lib.class_lib executor.rpc_state_reader)
          lib.blockifier.set_and_compile
          fetched
          given
          manager
    pub contract_classes : All (λ e. IsIn e.1 fetched) state_maps.class_hashes
    pub declared_classes : All (λ e. IsIn e.0 fetched) state_maps.declared_contracts
    pub blockifier_txs : List T
    pub converted :
        AllOk (convert_invoke_tx lib.blockifier executor.validate_txs) txs blockifier_txs
    pub finished :
        IsFinished lib.blockifier run_data.base_block_info
          (lib.blockifier.execute_txs
            (simulated_state_reader state_maps rpc_blocking_reader)
            manager
            run_data.base_block_info.block_context
            blockifier_txs)
          run_data

  run_block-IsFinished :
      (laws : IsBlockifier lib.blockifier) (base : BaseBlockInfo G W I C Bouncer) (maps : StateMaps)
      (manager : M) (txs : List (InvokeTransaction × ℕ))
      (run_data : VirtualBlockExecutionData
        (TransactionExecutionOutput Call)
        Msg
        (BaseBlockInfo G W I C Bouncer))
      → run_block lib executor base maps manager txs ≡ ok run_data
      → (ts : List T) × AllOk (convert_invoke_tx lib.blockifier executor.validate_txs) txs ts
        × IsFinished lib.blockifier base
            (lib.blockifier.execute_txs
              (simulated_state_reader maps rpc_blocking_reader)
              manager
              base.block_context
              ts)
            run_data
  unfolding run_block convert_invoke_txs
  run_block-IsFinished laws base maps manager txs run_data h =
      >>=-parts (collect (convert_invoke_tx lib.blockifier executor.validate_txs) txs) _ h
        λ ts e h1.
          let all = collect-AllOk _ txs ts e in
          (
            ts,
            all,
            finish_execution-IsFinished lib.blockifier base (map (λ t. t.1) txs) _ run_data
                (omega (
                  arith,
                  laws.results_le (simulated_state_reader maps rpc_blocking_reader) manager
                      base.block_context ts,
                  AllOk-length _ txs ts all,
                  length-map {B = ℕ} (λ (t : InvokeTransaction × ℕ). t.1) txs,
                ))
                h1,
          )

  execute-run :
      (block_id : BlockId) (manager : M) (txs : List (InvokeTransaction × ℕ))
      (base : BaseBlockInfo G W I C Bouncer) (maps : StateMaps)
      → base_block_info_async lib.block_lib lib.serde_lib executor.rpc_state_reader
          executor.chain_info executor.config
        ≡ ok base
      → initial_state_maps lib.simulation_lib lib.serde_lib executor block_id txs ≡ ok maps
      → execute lib executor block_id manager txs ≡ (
        (prefetch lib executor maps manager).0,
        (prefetch lib executor maps manager).1
            >> run_block lib executor base maps (prefetch lib executor maps manager).0 txs,
      )
  unfolding execute
  execute-run block_id manager txs base maps b p = rw (b, p, execute) refl

  run-IsExecuted :
      (laws : IsBlockifier lib.blockifier) (block_id : BlockId) (manager : M)
      (txs : List (InvokeTransaction × ℕ)) (base : BaseBlockInfo G W I C Bouncer) (maps : StateMaps)
      (run_data : VirtualBlockExecutionData
        (TransactionExecutionOutput Call)
        Msg
        (BaseBlockInfo G W I C Bouncer))
      → base_block_info_async lib.block_lib lib.serde_lib executor.rpc_state_reader
          executor.chain_info executor.config
        ≡ ok base
      → initial_state_maps lib.simulation_lib lib.serde_lib executor block_id txs ≡ ok maps
      → ((prefetch lib executor maps manager).1
          >> run_block lib executor base maps (prefetch lib executor maps manager).0 txs)
        ≡ ok run_data
      → IsExecuted block_id manager txs (prefetch lib executor maps manager).0 run_data
  unfolding prefetch
  run-IsExecuted laws block_id manager txs base maps run_data b p h =
      >>=-parts (prefetch lib executor maps manager).1 _ h λ u done ran.
        let (ts, all, fin) =
          run_block-IsFinished laws base maps (prefetch lib executor maps manager).0 txs run_data
            ran in
        let (fetched, filled, hashes, declared) =
          prefetch_classes_into_cache-IsFilled
            (get_compiled_classes_async lib.serde_lib lib.class_lib executor.rpc_state_reader)
            lib.blockifier.set_and_compile maps manager done in
        record {
          base = b ∙ ap ok (sym fin.base);
          state_maps = maps;
          prefetched = initial_state_maps-IsPrefetched block_id txs maps p;
          fetched = fetched;
          filled = filled;
          contract_classes = hashes;
          declared_classes = declared;
          blockifier_txs = ts;
          converted = all;
          finished =
              subst
                (λ (x : BaseBlockInfo G W I C Bouncer).
                  IsFinished lib.blockifier x
                    (lib.blockifier.execute_txs (simulated_state_reader maps rpc_blocking_reader)
                      (prefetch lib executor maps manager).0 x.block_context ts)
                    run_data)
                (sym fin.base) fin;
        }

  -- If `execute` returns data, then they are of the block at the node's header; the prefetched
  -- state is what a simulation of the transactions reports, or empty where prefetching is off; the
  -- class manager was given, before the execution, the class that the node reports for every class
  -- of a contract and every declared class of that state, but for hash zero; the transactions were
  -- executed on that state with that manager, no result is an error or a revert; and the data are
  -- those of the block's state after it, with the messages of all calls in order. This is for a
  -- blockifier that returns at most one result for each transaction.
  pub execute-IsExecuted :
      (laws : IsBlockifier lib.blockifier) (block_id : BlockId) (manager : M)
      (txs : List (InvokeTransaction × ℕ))
      (run_data : VirtualBlockExecutionData
        (TransactionExecutionOutput Call)
        Msg
        (BaseBlockInfo G W I C Bouncer))
      → (execute lib executor block_id manager txs).1 ≡ ok run_data
      → IsExecuted block_id manager txs (execute lib executor block_id manager txs).0 run_data
  unfolding execute
  execute-IsExecuted laws block_id manager txs run_data h =
      elim (Result-cases (
        base_block_info_async lib.block_lib lib.serde_lib executor.rpc_state_reader
          executor.chain_info executor.config)) [
            | inr (e, failure) ↦ absurd (cc (rw (failure, execute) at h))
            | inl (base, b) ↦
                elim (Result-cases
                  (initial_state_maps lib.simulation_lib lib.serde_lib executor block_id txs)) [
                    | inr (e, failure) ↦ absurd (cc (rw (b, failure, execute) at h))
                    | inl (maps, p) ↦
                        let runs = execute-run block_id manager txs base maps b p in
                        subst
                          (λ (r : M
                              × Result ProverError (
                                  VirtualBlockExecutionData (TransactionExecutionOutput Call) Msg
                                    (BaseBlockInfo G W I C Bouncer))).
                            IsExecuted block_id manager txs r.0 run_data)
                          (sym runs)
                          (run-IsExecuted laws block_id manager txs base maps run_data b p (
                            sym (
                              ap
                                (λ (r : M
                                    × Result ProverError (
                                        VirtualBlockExecutionData (TransactionExecutionOutput Call)
                                          Msg (BaseBlockInfo G W I C Bouncer))).
                                  r.1)
                                runs)
                            ∙ h))
                  ]
          ]

-- ===== src/Prover/Executor/Prefetch.antt =====
-- The simulation and the prefetching of classes of crates/starknet-transaction-prover-wasm/src/running/
-- virtual_block_executor.rs. The class manager is outside: a state and the function that puts a class.
use snip_36_prover_web.Prelude.{
  ℕ, String, Bool, false, ◌||◌, List, [], ◌∷◌, ◌++◌, map, Option, ◌==◌, if◌then◌else◌,
}
use snip_36_prover_web.Prelude.Result.{Result, ok, err, ◌>>=◌, ok_or, map_err, collect}
use snip_36_prover_web.Core.Json.{Json, arr, obj, end, field, of_list, strings, get}
use snip_36_prover_web.Reexecution.{
  BlockId, ReexecutionError, Serde, RpcStateReader, block_id_json, send_rpc_request,
}
use snip_36_prover_web.Prover.Errors.{ProverError, reexecution_error, transaction_execution_error}
use snip_36_prover_web.Prover.Committer.{StateMaps}
use snip_36_prover_web.Prover.SnosProver.{RpcInvokeV3}
use snip_36_prover_web.Prover.Executor.{InvokeTransaction, v3_tx, older_tx}
use snip_36_prover_web.Prover.Executor.InitialReads.{RpcInitialReads, to_state_maps}

-- What the crates of the RPC types do: a transaction as JSON, if it can be one, and the entries
-- of the initial reads.
pub record SimulationLib : Type 0 where
  pub rpc_transaction : RpcInvokeV3 → Option Json
  pub parse_initial_reads : Json → Option RpcInitialReads

module _ (lib : SimulationLib) where
  unfoldable pub rpc_tx_of : InvokeTransaction × ℕ → Result ProverError Json
  rpc_tx_of (v3_tx tx, h) =
      ok_or (lib.rpc_transaction tx) (transaction_execution_error "no RPC transaction")
  rpc_tx_of (older_tx t, h) =
      err (transaction_execution_error "Only Invoke V3 transactions are supported for simulate")

  unfoldable pub simulation_flags : Bool → List String
  simulation_flags validate_txs =
      "RETURN_INITIAL_READS" ∷ (if validate_txs then [] else "SKIP_VALIDATE" ∷ [])
      ++ ("SKIP_FEE_CHARGE" ∷ [])

  unfoldable pub simulate_and_get_initial_reads :
      {H : Type 0}
      → Serde H
      → RpcStateReader
      → Bool
      → BlockId
      → List (InvokeTransaction × ℕ)
      → Result ProverError StateMaps
  simulate_and_get_initial_reads serde_lib reader validate_txs block_id txs = do
    rpc_txs ← collect rpc_tx_of txs
    result ← map_err reexecution_error (
        send_rpc_request reader.node "starknet_simulateTransactions" (
          obj (
            field "block_id" (block_id_json serde_lib block_id) (
              field "transactions" (arr (of_list rpc_txs))
                (field "simulation_flags" (arr (strings (simulation_flags validate_txs))) end)))))
    initial_reads ← ok_or (get "initial_reads" result) (
        transaction_execution_error
          "simulateTransactions response missing initial_reads (ensure RETURN_INITIAL_READS and v0.10 endpoint)")
    reads ←
        ok_or (lib.parse_initial_reads initial_reads)
          (transaction_execution_error "Failed to deserialize initial_reads")
    ok (to_state_maps reads)

unfoldable pub contains : ℕ → List ℕ → Bool
contains a [] = false
contains a (b ∷ bs) = b == a || contains a bs

-- `HashSet::extend`
unfoldable pub extend_set : List ℕ → List ℕ → List ℕ
unfolding contains
extend_set set [] = set
extend_set set (a ∷ more) = extend_set (if contains a set then set else set ++ (a ∷ [])) more

unfoldable pub class_hashes_to_fetch : StateMaps → List ℕ
class_hashes_to_fetch state_maps =
    extend_set (extend_set [] (map (λ e. e.1) state_maps.class_hashes))
      (map (λ e. e.0) state_maps.declared_contracts)

module _ {K M : Type 0} (get_compiled_classes : ℕ → Result ReexecutionError K)
    (set_and_compile : ℕ → K → M → M) where
  -- One round of the loop; the class manager keeps what was put before an error.
  unfoldable pub prefetch_class : ℕ → M → M × Result ProverError (Unit {0})
  prefetch_class class_hash manager =
      if class_hash == 0 then (manager, ok tt) else elim (get_compiled_classes class_hash) [
        | ok compiled ↦ (set_and_compile class_hash compiled manager, ok tt)
        | err e ↦ (manager, err (reexecution_error e))
      ]

  unfoldable pub prefetch_classes : List ℕ → M → M × Result ProverError (Unit {0})
  prefetch_classes [] manager = (manager, ok tt)
  prefetch_classes (class_hash ∷ more) manager =
      let step = prefetch_class class_hash manager in
      elim step.1 [ ok done ↦ prefetch_classes more step.0 | err e ↦ (step.0, err e) ]

  unfoldable pub prefetch_classes_into_cache : StateMaps → M → M × Result ProverError (Unit {0})
  prefetch_classes_into_cache state_maps manager =
      prefetch_classes (class_hashes_to_fetch state_maps) manager

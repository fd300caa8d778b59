-- ===== src/Tests/Runner.antt =====
-- The theorems on the execution and the proving of a transaction at a concrete node and concrete
-- libraries.
use snip_36_prover_web.Prelude.{
  ℕ, String, true, false, List, [], ◌∷◌, All, All-weaken, ◌≡◌, ◌==◌, if◌then◌else◌, refl, arith,
}
use snip_36_prover_web.Prelude.Result.{Result, ok, err, collect}
use snip_36_prover_web.Prelude.Maps.{Map, get, insert, nat_key, pair_key}
use snip_36_prover_web.Core.Json.{get as json_get}
use snip_36_prover_web.Core.Types.{zero_fee}
use snip_36_prover_web.Reexecution.{
  ReexecutionError, class_hash_not_found, number, read_reply, send_rpc_request,
  get_block_header_async,
}
use snip_36_prover_web.Reexecution.Headers.{parse_gas_price, try_into_block_info}
use snip_36_prover_web.Reexecution.Classes.{
  RunnableCompiledClass, v1, both_v1, CompiledClasses, get_contract_class_async, compile_sierra,
  get_runnable_compiled_class_async, get_compiled_classes_async,
}
use snip_36_prover_web.Prover.Committer.{StateMaps, MerkleNode, LeafData, binary}
use snip_36_prover_web.Prover.SnosProver.{
  invoke, prove_transaction, extract_rpc_invoke_tx, validate_transaction_input, from_runner,
  prove_virtual_snos_run,
}
use snip_36_prover_web.Prover.SnosProver.Validation.{fee_sum}
use snip_36_prover_web.Prover.Executor.{
  StateReader, VirtualBlockExecutionData, InvokeTransaction, v3_tx,
}
use snip_36_prover_web.Prover.Executor.InitialReads.{extend_entries, to_state_maps}
use snip_36_prover_web.Prover.Executor.BaseBlock.{
  versioned_constants_for, new_base_block_info, base_block_info_async,
}
use snip_36_prover_web.Prover.Executor.Prefetch.{
  rpc_tx_of, simulate_and_get_initial_reads, extend_set, class_hashes_to_fetch, prefetch_class,
  prefetch_classes, prefetch_classes_into_cache,
}
use snip_36_prover_web.Prover.Executor.Run.{
  RpcVirtualBlockExecutor, execute, convert_invoke_tx, convert_invoke_txs, output_of,
  reject_reverted, messages_of, finish_execution, new_executor, initial_state_maps, run_block,
  prefetch,
}
use snip_36_prover_web.Prover.Executor.Cached.{IsIn, IsFilled, prefetch_classes_into_cache-IsFilled}
use snip_36_prover_web.Prover.Executor.Executed.{IsExecuted, execute-IsExecuted}
use snip_36_prover_web.Prover.ClassesProvider.{
  ClassesInput, bytecode_element, compiled_class_v1_to_casm, fetch_casm, get_classes_loop,
  get_classes,
}
use snip_36_prover_web.Prover.StorageProofs.{
  ContractStorageKeys, RpcStorageProofsQuery, count_total_keys,
}
use snip_36_prover_web.Prover.StorageProofs.Merge.{StorageProof, fetch_proofs}
use snip_36_prover_web.Prover.StorageProofs.Commitments.{
  addr_to_leaf, storage_commitment_info, collect_infos, build_storage_commitment_infos,
  create_commitment_infos_without_state_changes,
}
use snip_36_prover_web.Prover.StorageProofs.Provider.{
  ProvidedProofs, check_leaves, create_commitment_infos, get_storage_proofs,
}
use snip_36_prover_web.Prover.Runner.{
  ChainInfo, ExecutionData, create_virtual_os_hints, run_virtual_os,
}
use snip_36_prover_web.Prover.Runner.Factory.{executor_at, create_providers, run_at}
use snip_36_prover_web.Prover.Runner.Composed.{prover, IsProvenRun, prove_transaction-IsProvenRun}
use snip_36_prover_web.Prover.StorageProofs.Queries.{
  insert_in_order, sort, storage_by_address, prepare_query,
}
use snip_36_prover_web.Prover.ClassesProvider.Complete.{HasClass, get_classes-HasClass}
use snip_36_prover_web.Prover.Executor.SimulatedReads.{ReadsLast, simulated_state_reader-last}
use snip_36_prover_web.Prover.StorageProofs.Coverage.{HasHash, Holds, Covers}
use snip_36_prover_web.Prover.StorageProofs.Provided.{IsProvided, get_storage_proofs-IsProvided}
use snip_36_prover_web.Tests.Libraries.{
  invoke_tx, no_maps, reads_node, initial_reads, after_block, plain_exec, plain-IsBlockifier,
  plain_config, sepolia, leaf_of, proofs_for, answer_of, plain_proofs, plain_casm, plain_os,
  plain_factory, count_messages,
}

run_proves :
    prove_transaction fee_sum
      (prover plain_exec plain_proofs plain_casm plain_os plain_factory count_messages fee_sum)
      (number 9)
      (invoke invoke_tx)
    ≡ ok 4
unfolding collect get insert read_reply send_rpc_request get_block_header_async
    get_contract_class_async compile_sierra get_runnable_compiled_class_async
    get_compiled_classes_async parse_gas_price try_into_block_info extend_entries to_state_maps
    versioned_constants_for new_base_block_info base_block_info_async rpc_tx_of
    simulate_and_get_initial_reads extend_set class_hashes_to_fetch prefetch_class prefetch_classes
    prefetch_classes_into_cache convert_invoke_tx convert_invoke_txs output_of reject_reverted
    messages_of finish_execution new_executor initial_state_maps run_block prefetch execute
    count_total_keys fetch_proofs insert_in_order sort storage_by_address prepare_query addr_to_leaf
    storage_commitment_info collect_infos build_storage_commitment_infos
    create_commitment_infos_without_state_changes check_leaves create_commitment_infos
    get_storage_proofs bytecode_element compiled_class_v1_to_casm fetch_casm get_classes_loop
    get_classes create_virtual_os_hints run_virtual_os executor_at create_providers run_at
    extract_rpc_invoke_tx validate_transaction_input from_runner prove_virtual_snos_run
    prove_transaction fee_sum zero_fee json_get
run_proves = refl

prove_transaction-IsProvenRun_example :
    IsProvenRun plain_exec plain_proofs plain_casm plain_os plain_factory count_messages fee_sum
      (number 9)
      (invoke invoke_tx)
      4
prove_transaction-IsProvenRun_example =
    prove_transaction-IsProvenRun plain_exec plain_proofs plain_casm plain_os plain_factory
      count_messages fee_sum plain-IsBlockifier (number 9) (invoke invoke_tx) 4 run_proves

abbrev plain_executor : RpcVirtualBlockExecutor ChainInfo ℕ
plain_executor = record {
  rpc_state_reader = record { node = reads_node; block_id = number 9 };
  chain_info = sepolia;
  validate_txs = true;
  config = plain_config;
}

abbrev hashed_txs : List (InvokeTransaction × ℕ)
hashed_txs = (v3_tx invoke_tx, 1234) ∷ []

block_runs :
    (run_data : ExecutionData ℕ String ℕ ℕ ℕ ℕ) × ((execute plain_exec plain_executor
        (number 9)
        []
        hashed_txs).1
      ≡ ok run_data)
unfolding collect get insert read_reply send_rpc_request get_block_header_async
    get_contract_class_async compile_sierra get_runnable_compiled_class_async
    get_compiled_classes_async parse_gas_price try_into_block_info extend_entries to_state_maps
    versioned_constants_for new_base_block_info base_block_info_async rpc_tx_of
    simulate_and_get_initial_reads extend_set class_hashes_to_fetch prefetch_class prefetch_classes
    prefetch_classes_into_cache convert_invoke_tx convert_invoke_txs output_of reject_reverted
    messages_of finish_execution new_executor initial_state_maps run_block prefetch execute json_get
block_runs = (_, refl)

execute-IsExecuted_example :
    IsExecuted plain_exec plain_executor
      (number 9)
      []
      hashed_txs
      (execute plain_exec plain_executor (number 9) [] hashed_txs).0
      block_runs.0
execute-IsExecuted_example =
    execute-IsExecuted plain_exec plain_executor plain-IsBlockifier (number 9) [] hashed_txs
      block_runs.0 block_runs.1

-- The class 9 is not there, the others are.
abbrev some_classes : ℕ → Result ReexecutionError (CompiledClasses ℕ ℕ ℕ)
some_classes h = if h == 9 then err class_hash_not_found else ok (both_v1 h h)

abbrev two_classes : StateMaps
two_classes = record no_maps {
  class_hashes = (77, 5) ∷ (78, 0) ∷ [];
  declared_contracts = (5, true) ∷ (6, true) ∷ [];
}

classes_prefetched : (prefetch_classes_into_cache some_classes insert two_classes []).1 ≡ ok tt
unfolding prefetch_classes_into_cache class_hashes_to_fetch extend_set prefetch_classes
    prefetch_class insert
classes_prefetched = refl

prefetch_classes_into_cache-IsFilled_example :
    (hs : List ℕ) × IsFilled some_classes insert hs []
      (prefetch_classes_into_cache some_classes insert two_classes []).0
    × All (λ e. IsIn e.1 hs) two_classes.class_hashes
    × All (λ e. IsIn e.0 hs) two_classes.declared_contracts
prefetch_classes_into_cache-IsFilled_example =
    prefetch_classes_into_cache-IsFilled some_classes insert two_classes [] classes_prefetched

abbrev runnable_at : ℕ → Result ReexecutionError (RunnableCompiledClass ℕ ℕ)
runnable_at h = ok (v1 h)

classes_got :
    (classes : ClassesInput ℕ ℕ ℕ) × (get_classes plain_casm runnable_at (5 ∷ 6 ∷ []) ≡ ok classes)
unfolding get_classes get_classes_loop fetch_casm compiled_class_v1_to_casm collect bytecode_element
classes_got = (_, refl)

get_classes-HasClass_example : All (HasClass plain_casm runnable_at classes_got.0) (5 ∷ 6 ∷ [])
get_classes-HasClass_example =
    get_classes-HasClass plain_casm runnable_at (5 ∷ 6 ∷ []) classes_got.0 classes_got.1

abbrev no_reader : StateReader ℕ ℕ
no_reader = record {
  get_storage_at = λ address key. err "none";
  get_nonce_at = λ address. err "none";
  get_class_hash_at = λ address. err "none";
  get_compiled_class = λ class_hash. err "none";
  get_compiled_class_hash = λ class_hash. err "none";
  get_compiled_classes = λ class_hash. err "none";
  is_declared = λ class_hash. ok true;
}

simulated_state_reader-last_test : ReadsLast initial_reads no_reader 77 8
simulated_state_reader-last_test = simulated_state_reader-last initial_reads no_reader 77 8

-- The reads of the block that was executed.
abbrev executed_data : VirtualBlockExecutionData ℕ ℕ ℕ
executed_data = record {
  execution_outputs = 1 ∷ [];
  initial_reads = after_block;
  state_diff = no_maps;
  executed_class_hashes = 5 ∷ [];
  l2_to_l1_messages = [];
  base_block_info = 9;
}

abbrev own_node : ℕ → ℕ → List ℕ
own_node a k = a ∷ []

own_node-held : (a : ℕ) (ks : List ℕ) → Holds {N = MerkleNode} own_node ((a, binary 1 2) ∷ []) a ks
unfolding get
own_node-held a [] = tt
own_node-held a (k ∷ ks) = ((ground arith, tt), own_node-held a ks)

own_node-Covers :
    (cs : List ContractStorageKeys) → Covers {N = MerkleNode} own_node cs (proofs_for cs)
own_node-Covers [] = tt
own_node-Covers (c ∷ cs) = (own_node-held c.contract_address c.storage_keys, own_node-Covers cs)

-- So have the tries of the contracts and of the classes.
abbrev nodes_path : ℕ → List ℕ
nodes_path a = a ∷ []

abbrev nodes_for : List ℕ → Map ℕ MerkleNode
nodes_for [] = []
nodes_for (a ∷ rest) = (a, binary 1 2) ∷ nodes_for rest

nodes_held : (xs : List ℕ) → All (λ a. All (HasHash (nodes_for xs)) (nodes_path a)) xs
unfolding get
nodes_held [] = tt
nodes_held (x ∷ xs) = (
  (ground arith, tt),
  All-weaken _ _ (λ a (h : All (HasHash (nodes_for xs)) (nodes_path a)). (ground (arith, h.0), tt))
      xs (nodes_held xs),
)

abbrev answer_with_nodes : RpcStorageProofsQuery → StorageProof MerkleNode LeafData
answer_with_nodes q = record (answer_of q) {
  classes_proof = nodes_for q.class_hashes;
  nodes = nodes_for q.contract_addresses;
}

get_storage_proofs-IsProvided_example :
    (out : ProvidedProofs (Map ℕ ℕ)) × (get_storage_proofs plain_proofs.facts_lib
        plain_proofs.commitment_lib plain_proofs.changes_lib
        (λ m. 77 ∷ [])
        (λ q. ok (answer_with_nodes q))
        executed_data
        false
      ≡ ok out)
    × IsProvided plain_proofs.facts_lib plain_proofs.commitment_lib plain_proofs.changes_lib
        own_node nodes_path nodes_path leaf_of
        (prepare_query (λ m. 77 ∷ []) executed_data)
        executed_data.initial_reads.storage
        out
get_storage_proofs-IsProvided_example =
    get_storage_proofs-IsProvided plain_proofs.facts_lib plain_proofs.commitment_lib
      plain_proofs.changes_lib own_node nodes_path nodes_path leaf_of (λ m. 77 ∷ [])
      (λ q. ok (answer_with_nodes q)) answer_with_nodes executed_data (tt, tt) (refl, tt)
      (λ q small. (
        refl,
        (
          refl,
          own_node-Covers q.contract_storage_keys,
          nodes_held q.contract_addresses,
          nodes_held q.class_hashes,
        ),
      ))

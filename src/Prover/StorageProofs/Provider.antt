-- ===== src/Prover/StorageProofs/Provider.antt =====
-- get_storage_proofs of crates/starknet-transaction-prover-wasm/src/running/storage_proofs.rs, with the
-- commitment infos of a state with changes, and commit_state_diff of running/committer_utils.rs. The
-- commit itself and the making of commitment infos from a database are other crates'.
use snip_36_prover_web.Prelude.{ℕ, Bool, List, [], ◌∷◌, Option, length, ◌==◌, if◌then◌else◌}
use snip_36_prover_web.Prelude.Result.{Result, ok, err, ◌>>=◌, ok_or}
use snip_36_prover_web.Prelude.Maps.{Map, Eq, insert, nat_key, pair_key}
use snip_36_prover_web.Prover.Errors.{
  ProverError, serialization_error, invalid_proof_response, block_commitment_error,
}
use snip_36_prover_web.Prover.Committer.{
  StateMaps, StateDiff, MerkleNode, LeafData, FactsLib, state_maps_to_committer_state_diff,
  validate_virtual_os_state_diff, create_facts_db_from_storage_proof,
}
use snip_36_prover_web.Prover.Executor.{VirtualBlockExecutionData}
use snip_36_prover_web.Prover.Executor.InitialReads.{extend_entries}
use snip_36_prover_web.Prover.StorageProofs.{RpcStorageProofsQuery}
use snip_36_prover_web.Prover.StorageProofs.Merge.{StorageProof, fetch_proofs}
use snip_36_prover_web.Prover.StorageProofs.Queries.{prepare_query}
use snip_36_prover_web.Prover.StorageProofs.Commitments.{
  CommitmentLib, StateCommitmentInfos, rpc_nodes_to_preimage_map,
  create_commitment_infos_without_state_changes,
}

pub record StateRoots : Type 0 where
  pub contracts_trie_root_hash : ℕ
  pub classes_trie_root_hash : ℕ

-- `K` and `V` are the keys and values of the database, `F` a filled forest.
pub record ChangesLib (K V F Facts : Type 0) : Type 0 where
  pub storage_diff : Map (ℕ × ℕ) ℕ → Map ℕ (Map ℕ ℕ)
  pub commit_block : Map K V → StateRoots → StateDiff → Option F
  pub write_forest : F → Map K V → Option (Map K V)
  pub roots_of : F → StateRoots
  pub create_commitment_infos :
      StateRoots → StateRoots → Map K V → StateMaps → Option (StateCommitmentInfos Facts)
  pub extend_facts : Facts → Facts → Facts

-- The new roots, and the database with what was written to it.
unfoldable pub commit_state_diff :
    {K V F Facts : Type 0}
    → ChangesLib K V F Facts
    → Map K V
    → StateRoots
    → StateDiff
    → Result ProverError (StateRoots × Map K V)
commit_state_diff lib facts_db roots state_diff = do
  filled_forest ← ok_or (lib.commit_block facts_db roots state_diff) block_commitment_error
  written ← ok_or (lib.write_forest filled_forest facts_db) serialization_error
  ok (lib.roots_of filled_forest, written)

extend_classes :
    {Facts : Type 0}
    → (Facts → Facts → Facts)
    → Facts
    → StateCommitmentInfos Facts
    → StateCommitmentInfos Facts
extend_classes extend_facts classes_rpc_facts infos = record infos {
  classes_trie_commitment_info = record infos.classes_trie_commitment_info {
    commitment_facts =
        extend_facts infos.classes_trie_commitment_info.commitment_facts classes_rpc_facts;
  };
}

module _ {K V F Preimage Facts : Type 0} ⦃eq_key : Eq K⦄ (facts_lib : FactsLib K V)
    (lib : CommitmentLib MerkleNode Preimage Facts) (changes : ChangesLib K V F Facts) where
  unfoldable pub create_commitment_infos_with_state_changes :
      StorageProof MerkleNode LeafData
      → RpcStorageProofsQuery
      → StateMaps
      → StateMaps
      → Result ProverError (StateCommitmentInfos Facts)
  unfolding extend_classes
  create_commitment_infos_with_state_changes rpc_proof query extended_initial_reads state_diff = do
    facts_db ← create_facts_db_from_storage_proof facts_lib rpc_proof query extended_initial_reads
    let previous_state_roots : StateRoots = record {
      contracts_trie_root_hash = rpc_proof.contracts_tree_root;
      classes_trie_root_hash = rpc_proof.classes_tree_root;
    }
    let committer_state_diff = state_maps_to_committer_state_diff changes.storage_diff state_diff
    _ ← validate_virtual_os_state_diff committer_state_diff
    committed ← commit_state_diff changes facts_db previous_state_roots committer_state_diff
    infos ←
        ok_or
          (changes.create_commitment_infos previous_state_roots committed.0 committed.1
            extended_initial_reads)
          block_commitment_error
    ok (
        extend_classes changes.extend_facts
          (lib.flatten_preimages (rpc_nodes_to_preimage_map lib rpc_proof.classes_proof)) infos)

-- `StorageProofs`
pub record ProvidedProofs (Facts : Type 0) : Type 0 where
  pub extended_initial_reads : StateMaps
  pub commitment_infos : StateCommitmentInfos Facts

-- The class hashes and nonces of the leaves, zipped with their addresses.
unfoldable pub class_hashes_of_leaves : Map ℕ ℕ → List LeafData → List ℕ → Map ℕ ℕ
class_hashes_of_leaves m (leaf ∷ leaves) (addr ∷ addrs) =
    class_hashes_of_leaves (insert addr leaf.class_hash m) leaves addrs
class_hashes_of_leaves m _ _ = m

unfoldable pub nonces_of_leaves : Map ℕ ℕ → List LeafData → List ℕ → Map ℕ ℕ
nonces_of_leaves m (leaf ∷ leaves) (addr ∷ addrs) =
    nonces_of_leaves (insert addr leaf.nonce m) leaves addrs
nonces_of_leaves m _ _ = m

unfoldable pub extend_initial_reads : List LeafData → List ℕ → Map (ℕ × ℕ) ℕ → StateMaps
extend_initial_reads leaves addrs storage = record {
  nonces = nonces_of_leaves [] leaves addrs;
  class_hashes = class_hashes_of_leaves [] leaves addrs;
  storage = extend_entries (λ e. e) [] storage;
  compiled_class_hashes = [];
  declared_contracts = [];
}

-- The RPC proof has a leaf for each address.
unfoldable pub check_leaves :
    StorageProof MerkleNode LeafData → RpcStorageProofsQuery → Result ProverError (Unit {0})
check_leaves rpc_proof query =
    if length rpc_proof.contract_leaves_data == length query.contract_addresses
    then ok tt
    else err (invalid_proof_response "Contract leaves length mismatch")

module _ {K V F Preimage Facts : Type 0} ⦃eq_key : Eq K⦄ (facts_lib : FactsLib K V)
    (lib : CommitmentLib MerkleNode Preimage Facts) (changes : ChangesLib K V F Facts) where
  unfoldable pub create_commitment_infos :
      Bool
      → StorageProof MerkleNode LeafData
      → RpcStorageProofsQuery
      → StateMaps
      → StateMaps
      → Result ProverError (StateCommitmentInfos Facts)
  create_commitment_infos include_state_changes rpc_proof query extended_initial_reads state_diff =
      if include_state_changes
      then create_commitment_infos_with_state_changes facts_lib lib changes rpc_proof query
          extended_initial_reads state_diff
      else create_commitment_infos_without_state_changes lib rpc_proof query

  unfoldable pub get_storage_proofs :
      {O M B : Type 0}
      → (StateMaps → List ℕ)
      → (RpcStorageProofsQuery → Result ProverError (StorageProof MerkleNode LeafData))
      → VirtualBlockExecutionData O M B
      → Bool
      → Result ProverError (ProvidedProofs Facts)
  get_storage_proofs get_contract_addresses fetch_single execution_data include_state_changes = do
    let query = prepare_query get_contract_addresses execution_data
    rpc_proof ← fetch_proofs fetch_single query
    _ ← check_leaves rpc_proof query
    let reads =
        extend_initial_reads rpc_proof.contract_leaves_data query.contract_addresses
          execution_data.initial_reads.storage
    infos ←
        create_commitment_infos include_state_changes rpc_proof query reads
          execution_data.state_diff
    ok (record { extended_initial_reads = reads; commitment_infos = infos })

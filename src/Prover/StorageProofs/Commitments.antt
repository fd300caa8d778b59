-- ===== src/Prover/StorageProofs/Commitments.antt =====
-- The commitment infos of crates/starknet-transaction-prover-wasm/src/running/storage_proofs.rs for a
-- state without changes: create_commitment_infos_without_state_changes and its parts.
use snip_36_prover_web.Prelude.{ℕ, Bool, List, [], ◌∷◌, length, ◌==◌, if◌then◌else◌}
use snip_36_prover_web.Prelude.Result.{Result, ok, err, ◌>>=◌, ok_or, unwrap_or}
use snip_36_prover_web.Prelude.Maps.{Map, get, insert, nat_key}
use snip_36_prover_web.Prover.Errors.{ProverError, invalid_proof_response}
use snip_36_prover_web.Prover.StorageProofs.{RpcStorageProofsQuery, ContractStorageKeys}
use snip_36_prover_web.Prover.StorageProofs.Merge.{StorageProof}
use snip_36_prover_web.Prover.Committer.{LeafData}

-- The other crates' part: `ContractAddress::try_from` as a test, `Preimage::from`,
-- `flatten_preimages` and `SubTreeHeight::ACTUAL_HEIGHT`.
pub record CommitmentLib (N Preimage Facts : Type 0) : Type 0 where
  pub is_contract_address : ℕ → Bool
  pub preimage_of : N → Preimage
  pub flatten_preimages : Map ℕ Preimage → Facts
  pub actual_height : ℕ

pub record CommitmentInfo (Facts : Type 0) : Type 0 where
  pub previous_root : ℕ
  pub updated_root : ℕ
  pub tree_height : ℕ
  pub commitment_facts : Facts

pub record StateCommitmentInfos (Facts : Type 0) : Type 0 where
  pub contracts_trie_commitment_info : CommitmentInfo Facts
  pub classes_trie_commitment_info : CommitmentInfo Facts
  pub storage_tries_commitment_infos : Map ℕ (CommitmentInfo Facts)

-- The zipped addresses and leaves, collected into a map.
unfoldable pub addr_to_leaf : Map ℕ LeafData → List ℕ → List LeafData → Map ℕ LeafData
addr_to_leaf m (addr ∷ addrs) (leaf ∷ leaves) = addr_to_leaf (insert addr leaf m) addrs leaves
addr_to_leaf m _ _ = m

module _ {N Preimage Facts : Type 0} (lib : CommitmentLib N Preimage Facts) where
  unfoldable pub rpc_nodes_to_preimage_map : Map ℕ N → Map ℕ Preimage
  rpc_nodes_to_preimage_map [] = []
  rpc_nodes_to_preimage_map ((hash, node) ∷ nodes) =
      (hash, lib.preimage_of node) ∷ rpc_nodes_to_preimage_map nodes

  -- The info of a trie that does not change.
  unfoldable pub unchanged_info : ℕ → Map ℕ N → CommitmentInfo Facts
  unchanged_info root nodes = record {
    previous_root = root;
    updated_root = root;
    tree_height = lib.actual_height;
    commitment_facts = lib.flatten_preimages (rpc_nodes_to_preimage_map nodes);
  }

  unfoldable pub storage_commitment_info :
      Map ℕ LeafData → ContractStorageKeys → Map ℕ N → Result ProverError (ℕ × CommitmentInfo Facts)
  storage_commitment_info leaf_of contract_storage_keys storage_proof =
      let addr = contract_storage_keys.contract_address in
      if lib.is_contract_address addr
      then ok_or (get addr leaf_of) (
          invalid_proof_response "Contract address in storage_keys not found in contract_addresses")
        >>= (λ leaf. ok (addr, unchanged_info (unwrap_or leaf.storage_root 0) storage_proof))
      else err (invalid_proof_response "Invalid contract address in storage keys")

  -- The pairs, collected into a map up to the first error.
  unfoldable pub collect_infos :
      Map ℕ LeafData
      → Map ℕ (CommitmentInfo Facts)
      → List ContractStorageKeys
      → List (Map ℕ N)
      → Result ProverError (Map ℕ (CommitmentInfo Facts))
  collect_infos leaf_of infos (csk ∷ csks) (proof ∷ proofs) = do
    entry ← storage_commitment_info leaf_of csk proof
    collect_infos leaf_of (insert entry.0 entry.1 infos) csks proofs
  collect_infos leaf_of infos _ _ = ok infos

  unfoldable pub build_storage_commitment_infos :
      StorageProof N LeafData
      → RpcStorageProofsQuery
      → Result ProverError (Map ℕ (CommitmentInfo Facts))
  build_storage_commitment_infos rpc_proof query =
      let storage_proofs = rpc_proof.contracts_storage_proofs in
      let infos =
        collect_infos (addr_to_leaf [] query.contract_addresses rpc_proof.contract_leaves_data) []
          query.contract_storage_keys storage_proofs in
      if length storage_proofs == length query.contract_storage_keys
      then infos
      else err (invalid_proof_response "Storage proofs length mismatch")

  unfoldable pub create_commitment_infos_without_state_changes :
      StorageProof N LeafData
      → RpcStorageProofsQuery
      → Result ProverError (StateCommitmentInfos Facts)
  create_commitment_infos_without_state_changes rpc_proof query = do
    storage_infos ← build_storage_commitment_infos rpc_proof query
    ok (record {
      contracts_trie_commitment_info = unchanged_info rpc_proof.contracts_tree_root rpc_proof.nodes;
      classes_trie_commitment_info =
          unchanged_info rpc_proof.classes_tree_root rpc_proof.classes_proof;
      storage_tries_commitment_infos = storage_infos;
    })

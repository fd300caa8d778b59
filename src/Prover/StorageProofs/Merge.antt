-- ===== src/Prover/StorageProofs/Merge.antt =====
-- `merge_storage_proofs` and the fetching of crates/starknet-transaction-prover-wasm/src/running/
-- storage_proofs.rs. The RPC client is the function from a query to its answer.
use snip_36_prover_web.Prelude.{
  ℕ, zero, suc, List, [], ◌∷◌, ◌++◌, length, leb, replicate, ◌==◌, if◌then◌else◌,
}
use snip_36_prover_web.Prelude.Result.{Result, ok, err, ◌>>=◌, ok_or, collect}
use snip_36_prover_web.Prelude.Maps.{Map, get, insert, nat_key}
use snip_36_prover_web.Prover.Errors.{ProverError, panic}
use snip_36_prover_web.Prover.StorageProofs.{
  RpcStorageProofsQuery, ContractStorageKeys, count_total_keys, split_query, max_keys_per_request,
}

-- The types of the RPC crate. `N` is a Merkle node, `L` what the trie stores of a contract.
pub record StorageProof (N : Type 0) (L : Type 0) : Type 0 where
  pub classes_proof : Map ℕ N
  pub nodes : Map ℕ N
  pub contract_leaves_data : List L
  pub contracts_storage_proofs : List (Map ℕ N)
  pub contracts_tree_root : ℕ
  pub classes_tree_root : ℕ
  pub block_hash : ℕ

-- The map from an address to its index; a later entry replaces an earlier one.
unfoldable pub addr_to_idx : ℕ → Map ℕ ℕ → List ContractStorageKeys → Map ℕ ℕ
addr_to_idx i m [] = m
addr_to_idx i m (csk ∷ rest) = addr_to_idx (suc i) (insert csk.contract_address i m) rest

module _ {N : Type 0} where
  -- `IndexMap::extend`
  unfoldable pub extend : Map ℕ N → Map ℕ N → Map ℕ N
  extend m [] = m
  extend m ((k, v) ∷ more) = extend (insert k v m) more

  -- `proofs[i].extend(more)`; out of range, a panic.
  unfoldable pub extend_at : ℕ → Map ℕ N → List (Map ℕ N) → Result ProverError (List (Map ℕ N))
  extend_at i more [] = err panic
  extend_at zero more (m ∷ ms) = ok (extend m more ∷ ms)
  extend_at (suc i) more (m ∷ ms) = do out ← extend_at i more ms; ok (m ∷ out)

  -- The inner loop: one chunk's storage proofs, zipped with its contracts.
  unfoldable pub merge_contracts :
      Map ℕ ℕ
      → List ContractStorageKeys
      → List (Map ℕ N)
      → List (Map ℕ N)
      → Result ProverError (List (Map ℕ N))
  merge_contracts index (csk ∷ csks) (p ∷ ps) merged = do
    idx ← ok_or (get csk.contract_address index) panic
    out ← extend_at idx p merged
    merge_contracts index csks ps out
  merge_contracts index _ _ merged = ok merged

module _ {N L : Type 0} where
  unfoldable pub merge_chunk :
      Map ℕ ℕ
      → RpcStorageProofsQuery
      → StorageProof N L
      → StorageProof N L
      → Result ProverError (StorageProof N L)
  merge_chunk index chunk_query proof merged = do
    storage_proofs ←
        merge_contracts index chunk_query.contract_storage_keys proof.contracts_storage_proofs
          merged.contracts_storage_proofs
    ok (record {
      classes_proof = extend merged.classes_proof proof.classes_proof;
      nodes = extend merged.nodes proof.nodes;
      contract_leaves_data = merged.contract_leaves_data ++ proof.contract_leaves_data;
      contracts_storage_proofs = storage_proofs;
      contracts_tree_root = merged.contracts_tree_root;
      classes_tree_root = merged.classes_tree_root;
      block_hash = merged.block_hash;
    })

  unfoldable pub merge_chunks :
      Map ℕ ℕ
      → List RpcStorageProofsQuery
      → List (StorageProof N L)
      → StorageProof N L
      → Result ProverError (StorageProof N L)
  merge_chunks index (q ∷ qs) (p ∷ ps) merged = do
    out ← merge_chunk index q p merged
    merge_chunks index qs ps out
  merge_chunks index _ _ merged = ok merged

  unfoldable pub merge_storage_proofs :
      List (StorageProof N L)
      → List RpcStorageProofsQuery
      → RpcStorageProofsQuery
      → Result ProverError (StorageProof N L)
  merge_storage_proofs [] split_queries original_query = err panic
  merge_storage_proofs (first ∷ more) split_queries original_query =
      let merged =
        merge_chunks (addr_to_idx 0 [] original_query.contract_storage_keys) split_queries
          (first ∷ more)
          (record {
            classes_proof = [];
            nodes = [];
            contract_leaves_data = [];
            contracts_storage_proofs = replicate (length original_query.contract_storage_keys) [];
            contracts_tree_root = first.contracts_tree_root;
            classes_tree_root = first.classes_tree_root;
            block_hash = first.block_hash;
          }) in
      if length (first ∷ more) == length split_queries then merged else err panic

  -- `fetch_single` is `fetch_single_proof` at the block.
  unfoldable pub fetch_split :
      (RpcStorageProofsQuery → Result ProverError (StorageProof N L))
      → RpcStorageProofsQuery
      → Result ProverError (StorageProof N L)
  fetch_split fetch_single query = do
    split_queries ← split_query query max_keys_per_request
    proofs ← collect fetch_single split_queries
    merge_storage_proofs proofs split_queries query

  unfoldable pub fetch_proofs :
      (RpcStorageProofsQuery → Result ProverError (StorageProof N L))
      → RpcStorageProofsQuery
      → Result ProverError (StorageProof N L)
  unfolding fetch_split
  fetch_proofs fetch_single query =
      if leb (count_total_keys query) max_keys_per_request
      then fetch_single query
      else fetch_split fetch_single query

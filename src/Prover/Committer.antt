-- ===== src/Prover/Committer.antt =====
-- crates/starknet-transaction-prover-wasm/src/running/committer_utils.rs: which state changes the
-- virtual OS may make, and the database of facts that the committer reads. The grouping of storage
-- by contract, the tree's hash functions, the keys and the serialization of nodes, and the commit
-- itself are other crates'.
pub mod Changes
pub mod Facts
pub mod Inner
pub mod Stored
pub mod Closed
use snip_36_prover_web.Prelude.{
  ℕ, Bool, true, false, List, [], ◌∷◌, map, Option, none, some, length, ◌==◌, if◌then◌else◌,
}
use snip_36_prover_web.Prelude.Result.{Result, ok, err, ◌>>=◌, ◌>>◌, unwrap_or}
use snip_36_prover_web.Prelude.Maps.{Map, Eq, get, insert, nat_key}
use snip_36_prover_web.Prover.Errors.{ProverError, invalid_state_diff, invalid_proof_response}
use snip_36_prover_web.Prover.StorageProofs.{RpcStorageProofsQuery}
use snip_36_prover_web.Prover.StorageProofs.Merge.{StorageProof}

-- `StateMaps` of the blockifier.
pub record StateMaps : Type 0 where
  pub nonces : Map ℕ ℕ
  pub class_hashes : Map ℕ ℕ
  pub storage : Map (ℕ × ℕ) ℕ
  pub compiled_class_hashes : Map ℕ ℕ
  pub declared_contracts : Map ℕ Bool

-- `StateDiff` of the committer.
pub record StateDiff : Type 0 where
  pub address_to_class_hash : Map ℕ ℕ
  pub address_to_nonce : Map ℕ ℕ
  pub class_hash_to_compiled_class_hash : Map ℕ ℕ
  pub storage_updates : Map ℕ (Map ℕ ℕ)

-- `storage_diff` is the blockifier's conversion of a `StorageView`.
unfoldable pub state_maps_to_committer_state_diff :
    (Map (ℕ × ℕ) ℕ → Map ℕ (Map ℕ ℕ)) → StateMaps → StateDiff
state_maps_to_committer_state_diff storage_diff state_maps = record {
  address_to_class_hash = state_maps.class_hashes;
  address_to_nonce = state_maps.nonces;
  class_hash_to_compiled_class_hash = state_maps.compiled_class_hashes;
  storage_updates = storage_diff state_maps.storage;
}

unfoldable pub validate_updates : Map ℕ ℕ → Result ProverError (Unit {0})
validate_updates [] = ok tt
validate_updates ((key, value) ∷ rest) =
    if value == 0
    then err (invalid_state_diff "Storage deletion not allowed")
    else validate_updates rest

unfoldable pub validate_storage : Map ℕ (Map ℕ ℕ) → Result ProverError (Unit {0})
validate_storage [] = ok tt
validate_storage ((address, storage_diffs) ∷ rest) =
    validate_updates storage_diffs >> validate_storage rest

validate_empty : Map ℕ ℕ → ProverError → Result ProverError (Unit {0})
validate_empty [] e = ok tt
validate_empty (_ ∷ _) e = err e

unfoldable pub validate_virtual_os_state_diff : StateDiff → Result ProverError (Unit {0})
unfolding validate_empty
validate_virtual_os_state_diff d = do
  validate_storage d.storage_updates
  validate_empty d.address_to_class_hash (invalid_state_diff "Contract deployments not allowed")
  validate_empty d.class_hash_to_compiled_class_hash
      (invalid_state_diff "Contract declarations not allowed")

-- starknet_rust_core's `MerkleNode`.
pub data MerkleNode : Type 0 where
  binary : ℕ → ℕ → MerkleNode  -- left, right
  edge : ℕ → ℕ → ℕ → MerkleNode  -- path, length, child

-- `ContractLeafData`
pub record LeafData : Type 0 where
  pub nonce : ℕ
  pub class_hash : ℕ
  pub storage_root : Option ℕ

-- The other crates' part: keys of the database (`K`) and what is stored (`V`).
pub record FactsLib (K V : Type 0) : Type 0 where
  pub inner_key : ℕ → K  -- create_db_key of an inner node's hash
  pub inner_value : ℕ → MerkleNode → Result ProverError V  -- of a filled node, serialized
  pub contract_leaf : ℕ → ℕ → ℕ → Result ProverError (K × V)  -- nonce, class hash, storage root
  pub storage_leaf : ℕ → ℕ → Result ProverError (K × V)  -- address, value
  pub class_leaf : ℕ → Result ProverError (K × V)

module _ {K V : Type 0} ⦃eq_key : Eq K⦄ where
  -- `insert_leaf_node`, of the key and the value that the leaf has.
  unfoldable pub insert_leaf_node :
      Map K V → Result ProverError (K × V) → Result ProverError (Map K V)
  insert_leaf_node db leaf = do kv ← leaf; ok (insert kv.0 kv.1 db)

  unfoldable pub insert_leaves :
      Map K V → List (Result ProverError (K × V)) → Result ProverError (Map K V)
  insert_leaves db [] = ok db
  insert_leaves db (leaf ∷ rest) = do out ← insert_leaf_node db leaf; insert_leaves out rest

  -- `entry(key).or_insert_with`
  unfoldable pub or_insert : K → V → Map K V → Map K V
  or_insert key value db = elim (get key db) [ none ↦ insert key value db | some _ ↦ db ]

  unfoldable pub for_each :
      (Map K V → Map ℕ MerkleNode → Result ProverError (Map K V))
      → Map K V
      → List (Map ℕ MerkleNode)
      → Result ProverError (Map K V)
  for_each f db [] = ok db
  for_each f db (nodes ∷ rest) = do out ← f db nodes; for_each f out rest

module _ {K V : Type 0} ⦃eq_key : Eq K⦄ (L : FactsLib K V) where
  unfoldable pub insert_inner_nodes : Map K V → Map ℕ MerkleNode → Result ProverError (Map K V)
  insert_inner_nodes db [] = ok db
  insert_inner_nodes db ((hash, node) ∷ rest) = do
    value ← L.inner_value hash node
    insert_inner_nodes (insert (L.inner_key hash) value db) rest

  unfoldable pub contract_leaf_of : LeafData → Result ProverError (K × V)
  contract_leaf_of leaf = L.contract_leaf leaf.nonce leaf.class_hash (unwrap_or leaf.storage_root 0)

  unfoldable pub insert_contract_leaves :
      Map K V
      → StorageProof MerkleNode LeafData
      → RpcStorageProofsQuery
      → Result ProverError (Map K V)
  insert_contract_leaves db proof query =
      if length proof.contract_leaves_data == length query.contract_addresses
      then insert_leaves db (map contract_leaf_of proof.contract_leaves_data)
      else err (invalid_proof_response "Contract leaves length mismatch")

  unfoldable pub insert_storage_leaves : Map K V → StateMaps → Result ProverError (Map K V)
  insert_storage_leaves db reads =
      insert_leaves db (map (λ e. L.storage_leaf e.0.0 e.1) reads.storage)

  unfoldable pub insert_compiled_class_leaves : Map K V → StateMaps → Result ProverError (Map K V)
  insert_compiled_class_leaves db reads =
      insert_leaves db (map (λ e. L.class_leaf e.1) reads.compiled_class_hashes)

  unfoldable pub add_dummy_node_for_orphan_child : Map K V → ℕ → Map ℕ MerkleNode → V → Map K V
  add_dummy_node_for_orphan_child db child nodes dummy = elim (get child nodes) [
    | none ↦ or_insert (L.inner_key child) dummy db
    | some _ ↦ db
  ]

  unfoldable pub add_dummies : Map K V → Map ℕ MerkleNode → V → Map ℕ MerkleNode → Map K V
  add_dummies db nodes dummy [] = db
  add_dummies db nodes dummy ((_, binary left right) ∷ rest) =
      add_dummies
        (add_dummy_node_for_orphan_child (add_dummy_node_for_orphan_child db left nodes dummy) right
          nodes dummy)
        nodes dummy rest
  add_dummies db nodes dummy ((_, edge path len child) ∷ rest) =
      add_dummies (add_dummy_node_for_orphan_child db child nodes dummy) nodes dummy rest

  -- The dummy is a binary node whose hash and children are zero.
  unfoldable pub add_dummy_nodes_for_orphan_hashes :
      Map K V → Map ℕ MerkleNode → Result ProverError (Map K V)
  unfolding add_dummies
  add_dummy_nodes_for_orphan_hashes db nodes = do
    dummy ← L.inner_value 0 (binary 0 0)
    ok (add_dummies db nodes dummy nodes)

  unfoldable pub create_facts_db_from_storage_proof :
      StorageProof MerkleNode LeafData
      → RpcStorageProofsQuery
      → StateMaps
      → Result ProverError (Map K V)
  create_facts_db_from_storage_proof proof query reads = do
    let tries = proof.nodes ∷ proof.classes_proof ∷ proof.contracts_storage_proofs
    db ← for_each insert_inner_nodes [] tries
    db ← insert_contract_leaves db proof query
    db ← insert_storage_leaves db reads
    db ← insert_compiled_class_leaves db reads
    for_each add_dummy_nodes_for_orphan_hashes db tries

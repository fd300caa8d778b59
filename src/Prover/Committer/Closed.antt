-- ===== src/Prover/Committer/Closed.antt =====
-- The database that create_facts_db_from_storage_proof (crates/starknet-transaction-prover-wasm/src/
-- running/committer_utils.rs) builds is closed: it holds every node of the proof and its children.
use snip_36_prover_web.Prelude.{
  All-weaken, ℕ, length, List, [], ◌∷◌, All, ◌≡◌, inl, inr, Bool-cases, ◌==◌,
}
use snip_36_prover_web.Prelude.Result.{ok, >>=-parts}
use snip_36_prover_web.Prelude.Maps.{Map, Eq, nat_key}
use snip_36_prover_web.Prover.StorageProofs.{RpcStorageProofsQuery}
use snip_36_prover_web.Prover.StorageProofs.Merge.{StorageProof}
use snip_36_prover_web.Prover.Committer.{
  StateMaps, MerkleNode, LeafData, FactsLib, insert_inner_nodes, insert_contract_leaves,
  insert_storage_leaves, insert_compiled_class_leaves, add_dummy_nodes_for_orphan_hashes, for_each,
  create_facts_db_from_storage_proof,
}
use snip_36_prover_web.Prover.Committer.Facts.{Has, Has-insert_leaves, Has-for_each}
use snip_36_prover_web.Prover.Committer.Stored.{
  IsKeyed, IsStored, IsHashed, create_facts_db-IsStored,
}
use snip_36_prover_web.Prover.Committer.Inner.{
  children_of, hashes_of, HasNode, Has-insert_inner_nodes, inner_nodes-held, Has-dummy_nodes,
  dummy_nodes-held,
}

All-both {ℓ κ μ} :
    {A : Type ℓ} (P : A → Type κ) (Q : A → Type μ) (xs : List A)
    → All P xs
    → All Q xs
    → All (λ x. P x × Q x) xs
All-both P Q [] h k = tt
All-both P Q (x ∷ xs) h k = ((h.0, k.0), All-both P Q xs h.1 k.1)

module _ {K V : Type 0} ⦃eq_key : Eq K⦄ (L : FactsLib K V) where
  AllHashes : Map K V → List (Map ℕ MerkleNode) → Type 0
  AllHashes db = All λ nodes. All (HasNode L db) (hashes_of nodes)

  AllChildren : Map K V → List (Map ℕ MerkleNode) → Type 0
  AllChildren db = All λ nodes. All (HasNode L db) (children_of nodes)

  AllHashes-weaken :
      (db db' : Map K V)
      → ((k : K) → Has db k → Has db' k)
      → (tries : List (Map ℕ MerkleNode)) → AllHashes db tries
      → AllHashes db' tries
  unfolding AllHashes
  AllHashes-weaken db db' g =
      All-weaken _ _ λ nodes.
        All-weaken (HasNode L db) (HasNode L db') (λ c. g (L.inner_key c)) (hashes_of nodes)

  inner_tries-held :
      (tries : List (Map ℕ MerkleNode)) (db db' : Map K V)
      → for_each (insert_inner_nodes L) db tries ≡ ok db'
      → AllHashes db' tries
  unfolding for_each AllHashes
  inner_tries-held [] db db' e = tt
  inner_tries-held (nodes ∷ rest) db db' e =
      >>=-parts (insert_inner_nodes L db nodes) _ e λ out p e1. (
        All-weaken (HasNode L out) (HasNode L db')
            (λ c.
              Has-for_each (insert_inner_nodes L) (λ d d' ns. Has-insert_inner_nodes L ns d d') rest
                out db' (L.inner_key c) e1)
            (hashes_of nodes) (inner_nodes-held L nodes db out p),
        inner_tries-held rest out db' e1,
      )

  dummy_tries-held :
      (tries : List (Map ℕ MerkleNode)) (db db' : Map K V)
      → for_each (add_dummy_nodes_for_orphan_hashes L) db tries ≡ ok db'
      → AllHashes db tries
      → AllChildren db' tries
  unfolding for_each AllHashes AllChildren
  dummy_tries-held [] db db' e h = tt
  dummy_tries-held (nodes ∷ rest) db db' e h =
      >>=-parts (add_dummy_nodes_for_orphan_hashes L db nodes) _ e λ out p e1. (
        All-weaken (HasNode L out) (HasNode L db')
            (λ c.
              Has-for_each (add_dummy_nodes_for_orphan_hashes L) (Has-dummy_nodes L) rest out db'
                (L.inner_key c) e1)
            (children_of nodes) (dummy_nodes-held L db out nodes p h.0),
        dummy_tries-held rest out db' e1
            (AllHashes-weaken db out (λ k. Has-dummy_nodes L db out nodes k p) rest h.1),
      )

  Has-contract_leaves :
      (db db' : Map K V) (proof : StorageProof MerkleNode LeafData) (query : RpcStorageProofsQuery)
      (k : K)
      → insert_contract_leaves L db proof query ≡ ok db'
      → Has db k
      → Has db' k
  unfolding insert_contract_leaves
  Has-contract_leaves db db' proof query k e h =
      elim (Bool-cases (length proof.contract_leaves_data == length query.contract_addresses)) [
        | inl same ↦ Has-insert_leaves _ db db' k (rw (same, insert_contract_leaves) at e) h
        | inr other ↦ absurd (cc (rw (other, insert_contract_leaves) at e))
      ]

  facts_db-held :
      (proof : StorageProof MerkleNode LeafData) (query : RpcStorageProofsQuery) (reads : StateMaps)
      (db : Map K V)
      → create_facts_db_from_storage_proof L proof query reads ≡ ok db
      → AllChildren db (proof.nodes ∷ proof.classes_proof ∷ proof.contracts_storage_proofs)
  unfolding create_facts_db_from_storage_proof insert_storage_leaves insert_compiled_class_leaves
      AllHashes AllChildren
  facts_db-held proof query reads db e =
      let tries = proof.nodes ∷ proof.classes_proof ∷ proof.contracts_storage_proofs in
      >>=-parts (for_each (insert_inner_nodes L) [] tries) _ e λ db1 p e1.
        >>=-parts (insert_contract_leaves L db1 proof query) _ e1 λ db2 q e2.
          >>=-parts (insert_storage_leaves L db2 reads) _ e2 λ db3 r e3.
            >>=-parts (insert_compiled_class_leaves L db3 reads) _ e3 λ db4 c e4.
              let leaves = λ (k : K) (h : Has db1 k).
                Has-insert_leaves _ db3 db4 k c (
                  Has-insert_leaves _ db2 db3 k r
                    (Has-contract_leaves db1 db2 proof query k q h)) in
              let nodes = AllHashes-weaken db1 db4 leaves tries (inner_tries-held tries [] db1 p) in
              dummy_tries-held tries db4 db e4 nodes

  module _ (keys : IsKeyed L) (node_of : ℕ → MerkleNode) where
    -- Where the database has one key for each hash of a node and other keys for leaves, and in all
    -- tries of the proof a hash stands for one node: when the database is built, it has for each
    -- node of the proof's tries (contracts, classes, storage) the serialized form of that node, and
    -- for each node what its children's hashes stand for, be it a node or a dummy.
    pub create_facts_db-closed :
        (proof : StorageProof MerkleNode LeafData) (query : RpcStorageProofsQuery)
        (reads : StateMaps) (db : Map K V)
        → All
            (IsHashed L keys node_of)
            (proof.nodes ∷ proof.classes_proof ∷ proof.contracts_storage_proofs)
        → create_facts_db_from_storage_proof L proof query reads ≡ ok db
        → All
            (λ trie. All (IsStored L db) trie × All (HasNode L db) (children_of trie))
            (proof.nodes ∷ proof.classes_proof ∷ proof.contracts_storage_proofs)
    unfolding AllChildren
    create_facts_db-closed proof query reads db n e =
        All-both _ _ (proof.nodes ∷ proof.classes_proof ∷ proof.contracts_storage_proofs)
          (create_facts_db-IsStored L keys node_of proof query reads db n e)
          (facts_db-held proof query reads db e)

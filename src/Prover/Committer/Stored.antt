-- ===== src/Prover/Committer/Stored.antt =====
-- The values that the database of create_facts_db_from_storage_proof (crates/
-- starknet-transaction-prover-wasm/src/running/committer_utils.rs) has for the nodes of the proof.
use mathlib.Core.Path.{subst}
use snip_36_prover_web.Prelude.{
  ℕ, length, List, [], ◌∷◌, map, All, some, ◌≡◌, ◌≢◌, inl, inr, sym, ap, ◌∙◌, Bool-cases, ◌==◌,
  ==_iff,
}
use snip_36_prover_web.Prelude.Result.{Result, ok, >>=-parts, ok_injective}
use snip_36_prover_web.Prelude.Maps.{Map, Eq, get, insert, get-insert, get-insert_self, nat_key}
use snip_36_prover_web.Prover.Errors.{ProverError}
use snip_36_prover_web.Prover.StorageProofs.{RpcStorageProofsQuery}
use snip_36_prover_web.Prover.StorageProofs.Merge.{StorageProof}
use snip_36_prover_web.Prover.Committer.{
  StateMaps, MerkleNode, binary, LeafData, FactsLib, insert_leaf_node, insert_leaves,
  insert_inner_nodes, contract_leaf_of, insert_contract_leaves, insert_storage_leaves,
  insert_compiled_class_leaves, add_dummy_nodes_for_orphan_hashes, for_each,
  create_facts_db_from_storage_proof,
}
use snip_36_prover_web.Prover.Committer.Facts.{Keeps}
use snip_36_prover_web.Prover.Committer.Inner.{Keeps-dummies}

module _ {K V : Type 0} ⦃eq_key : Eq K⦄ (L : FactsLib K V) where
  -- The keys of the database: one for each hash of an inner node, and others for the leaves.
  pub record IsKeyed : Type 0 where
    pub different : (a b : ℕ) → L.inner_key a ≡ L.inner_key b → a ≡ b
    pub contract_leaves :
        (nonce class_hash root h : ℕ) (kv : K × V)
        → L.contract_leaf nonce class_hash root ≡ ok kv
        → kv.0 ≢ L.inner_key h
    pub storage_leaves :
        (address value h : ℕ) (kv : K × V)
        → L.storage_leaf address value ≡ ok kv
        → kv.0 ≢ L.inner_key h
    pub class_leaves : (hash h : ℕ) (kv : K × V) → L.class_leaf hash ≡ ok kv → kv.0 ≢ L.inner_key h

  -- The node is in the database, in its serialized form.
  abbrev pub IsStored : Map K V → ℕ × MerkleNode → Type 0
  IsStored db (hash, node) =
      (value : V) × (L.inner_value hash node ≡ ok value) × (get (L.inner_key hash) db ≡ some value)

  IsStored-same :
      (db db' : Map K V) (e : ℕ × MerkleNode)
      → get (L.inner_key e.0) db' ≡ get (L.inner_key e.0) db
      → IsStored db e
      → IsStored db' e
  IsStored-same db db' (hash, node) same (v, s, g) = (v, s, same ∙ g)

  other_key : (k j : K) (v : V) (db : Map K V) → k ≢ j → get j (insert k v db) ≡ get j db
  other_key k j v db n = elim (Bool-cases (eq_key.beq k j)) [
    | inl t ↦ absurd (n ((eq_key.beq_iff k j).0 t))
    | inr f ↦ get-insert k j v db ∙ rw f (λ i. get j db)
  ]

  -- Leaves with other keys change no node.
  insert_leaves-same :
      {A : Type 0}
      → (f : A → Result ProverError (K × V)) (k : K)
      → ((a : A) (kv : K × V) → f a ≡ ok kv → kv.0 ≢ k)
      → (xs : List A) (db db' : Map K V) → insert_leaves db (map f xs) ≡ ok db'
      → get k db' ≡ get k db
  unfolding insert_leaves insert_leaf_node
  insert_leaves-same f k h [] db db' e = ap (get k) (sym (ok_injective e))
  insert_leaves-same f k h (a ∷ rest) db db' e =
      >>=-parts (insert_leaf_node db (f a)) _ e λ out p e1. >>=-parts (f a) _ p λ kv q e2.
        insert_leaves-same f k h rest out db' e1
        ∙ ap (get k) (sym (ok_injective e2))
        ∙ other_key kv.0 k kv.1 db (h a kv q)

  module _ (keys : IsKeyed) (node_of : ℕ → MerkleNode) where
    -- The nodes of a trie are those of their hashes.
    abbrev pub IsHashed : Map ℕ MerkleNode → Type 0
    IsHashed = All λ e. e.1 ≡ node_of e.0

    abbrev Stored : Map K V → ℕ → Type 0
    Stored db h = IsStored db (h, node_of h)

    Stored-inserted :
        (db : Map K V) (hash : ℕ) (node : MerkleNode) (value : V)
        → node ≡ node_of hash
        → L.inner_value hash node ≡ ok value
        → Stored (insert (L.inner_key hash) value db) hash
    Stored-inserted db hash node value n p = (
      value,
      subst (λ m. L.inner_value hash m ≡ ok value) n p,
      get-insert_self (L.inner_key hash) value db,
    )

    Stored-insert :
        (db : Map K V) (hash h : ℕ) (node : MerkleNode) (value : V)
        → node ≡ node_of hash
        → L.inner_value hash node ≡ ok value
        → Stored db h
        → Stored (insert (L.inner_key hash) value db) h
    Stored-insert db hash h node value n p s =
        let next = insert (L.inner_key hash) value db in
        elim (Bool-cases (hash == h)) [
          | inl t ↦
              subst (Stored next) ((==_iff hash h).0 t) (Stored-inserted db hash node value n p)
          | inr f ↦
              IsStored-same db next (h, node_of h)
                (other_key (L.inner_key hash) (L.inner_key h) value db
                  (λ q. absurd (cc (f, (==_iff hash h).1 (keys.different hash h q)))))
                s
        ]

    Stored-inner_nodes :
        (nodes : Map ℕ MerkleNode) (db db' : Map K V) (h : ℕ)
        → IsHashed nodes
        → insert_inner_nodes L db nodes ≡ ok db'
        → Stored db h
        → Stored db' h
    unfolding insert_inner_nodes
    Stored-inner_nodes [] db db' h n e s = subst (λ d. Stored d h) (ok_injective e) s
    Stored-inner_nodes ((hash, node) ∷ rest) db db' h n e s =
        >>=-parts (L.inner_value hash node) _ e λ value p e1.
          Stored-inner_nodes rest (insert (L.inner_key hash) value db) db' h n.1 e1
            (Stored-insert db hash h node value n.0 p s)

    abbrev AllStored : Map K V → Map ℕ MerkleNode → Type 0
    AllStored db = All (IsStored db)

    AllStored-weaken :
        (db db' : Map K V)
        → ((h : ℕ) → Stored db h → Stored db' h)
        → (trie : Map ℕ MerkleNode) → IsHashed trie
        → AllStored db trie
        → AllStored db' trie
    AllStored-weaken db db' g [] n s = tt
    AllStored-weaken db db' g ((h, node) ∷ rest) n s = (
      subst (λ m. IsStored db' (h, m)) (sym n.0) (g h (subst (λ m. IsStored db (h, m)) n.0 s.0)),
      AllStored-weaken db db' g rest n.1 s.1,
    )

    AllStored-tries :
        (db db' : Map K V)
        → ((h : ℕ) → Stored db h → Stored db' h)
        → (tries : List (Map ℕ MerkleNode)) → All IsHashed tries
        → All (AllStored db) tries
        → All (AllStored db') tries
    AllStored-tries db db' g [] n s = tt
    AllStored-tries db db' g (trie ∷ rest) n s =
        (AllStored-weaken db db' g trie n.0 s.0, AllStored-tries db db' g rest n.1 s.1)

    inner_nodes-AllStored :
        (nodes : Map ℕ MerkleNode) (db db' : Map K V)
        → IsHashed nodes
        → insert_inner_nodes L db nodes ≡ ok db'
        → AllStored db' nodes
    unfolding insert_inner_nodes
    inner_nodes-AllStored [] db db' n e = tt
    inner_nodes-AllStored ((hash, node) ∷ rest) db db' n e =
        >>=-parts (L.inner_value hash node) _ e λ value p e1.
          let next = insert (L.inner_key hash) value db in
          (
            subst (λ m. IsStored db' (hash, m)) (sym n.0)
                (Stored-inner_nodes rest next db' hash n.1 e1
                  (Stored-inserted db hash node value n.0 p)),
            inner_nodes-AllStored rest next db' n.1 e1,
          )

    Stored-for_each :
        (f : Map K V → Map ℕ MerkleNode → Result ProverError (Map K V))
        → ((db db' : Map K V) (nodes : Map ℕ MerkleNode) (h : ℕ)
            → IsHashed nodes
            → f db nodes ≡ ok db'
            → Stored db h
            → Stored db' h)
        → (tries : List (Map ℕ MerkleNode)) (db db' : Map K V) (h : ℕ) → All IsHashed tries
        → for_each f db tries ≡ ok db'
        → Stored db h
        → Stored db' h
    unfolding for_each
    Stored-for_each f g [] db db' h n e s = subst (λ d. Stored d h) (ok_injective e) s
    Stored-for_each f g (nodes ∷ rest) db db' h n e s =
        >>=-parts (f db nodes) _ e
          λ out p e1. Stored-for_each f g rest out db' h n.1 e1 (g db out nodes h n.0 p s)

    inner_tries-AllStored :
        (tries : List (Map ℕ MerkleNode)) (db db' : Map K V)
        → All IsHashed tries
        → for_each (insert_inner_nodes L) db tries ≡ ok db'
        → All (AllStored db') tries
    unfolding for_each
    inner_tries-AllStored [] db db' n e = tt
    inner_tries-AllStored (nodes ∷ rest) db db' n e =
        >>=-parts (insert_inner_nodes L db nodes) _ e λ out p e1. (
          AllStored-weaken out db'
              (λ h.
                Stored-for_each (insert_inner_nodes L) (λ d d' ns k. Stored-inner_nodes ns d d' k)
                  rest out db' h n.1 e1)
              nodes n.0 (inner_nodes-AllStored nodes db out n.0 p),
          inner_tries-AllStored rest out db' n.1 e1,
        )

    -- A dummy is only stored where there is nothing.
    Stored-Keeps :
        (db db' : Map K V) (h : ℕ) → Keeps db db' (L.inner_key h) → Stored db h → Stored db' h
    unfolding Keeps
    Stored-Keeps db db' h (inl e) s = absurd (cc (e, s.2))
    Stored-Keeps db db' h (inr e) s = IsStored-same db db' (h, node_of h) e s

    Stored-dummy_nodes :
        (db db' : Map K V) (nodes : Map ℕ MerkleNode) (h : ℕ)
        → add_dummy_nodes_for_orphan_hashes L db nodes ≡ ok db'
        → Stored db h
        → Stored db' h
    unfolding add_dummy_nodes_for_orphan_hashes
    Stored-dummy_nodes db db' nodes h e s =
        >>=-parts (L.inner_value 0 (binary 0 0)) _ e λ dummy p e1.
          subst (λ d. Stored d h) (ok_injective e1)
            (Stored-Keeps db _ h (Keeps-dummies L nodes db nodes dummy (L.inner_key h)) s)

    Stored-contract_leaves :
        (db db' : Map K V) (proof : StorageProof MerkleNode LeafData)
        (query : RpcStorageProofsQuery) (h : ℕ)
        → insert_contract_leaves L db proof query ≡ ok db'
        → Stored db h
        → Stored db' h
    unfolding insert_contract_leaves contract_leaf_of
    Stored-contract_leaves db db' proof query h e =
        elim (Bool-cases (length proof.contract_leaves_data == length query.contract_addresses)) [
          | inl same ↦
              IsStored-same db db' (h, node_of h)
                (insert_leaves-same (contract_leaf_of L) (L.inner_key h)
                  (λ leaf. keys.contract_leaves leaf.nonce leaf.class_hash _ h)
                  proof.contract_leaves_data db db' (rw (same, insert_contract_leaves) at e))
          | inr other ↦ absurd (cc (rw (other, insert_contract_leaves) at e))
        ]

    Stored-storage_leaves :
        (db db' : Map K V) (reads : StateMaps) (h : ℕ)
        → insert_storage_leaves L db reads ≡ ok db'
        → Stored db h
        → Stored db' h
    unfolding insert_storage_leaves
    Stored-storage_leaves db db' reads h e =
        IsStored-same db db' (h, node_of h)
          (insert_leaves-same _ (L.inner_key h) (λ r. keys.storage_leaves r.0.0 r.1 h) reads.storage
            db db' e)

    Stored-class_leaves :
        (db db' : Map K V) (reads : StateMaps) (h : ℕ)
        → insert_compiled_class_leaves L db reads ≡ ok db'
        → Stored db h
        → Stored db' h
    unfolding insert_compiled_class_leaves
    Stored-class_leaves db db' reads h e =
        IsStored-same db db' (h, node_of h)
          (insert_leaves-same _ (L.inner_key h) (λ r. keys.class_leaves r.1 h)
            reads.compiled_class_hashes db db' e)

    pub create_facts_db-IsStored :
        (proof : StorageProof MerkleNode LeafData) (query : RpcStorageProofsQuery)
        (reads : StateMaps) (db : Map K V)
        → All IsHashed (proof.nodes ∷ proof.classes_proof ∷ proof.contracts_storage_proofs)
        → create_facts_db_from_storage_proof L proof query reads ≡ ok db
        → All
            (All (IsStored db))
            (proof.nodes ∷ proof.classes_proof ∷ proof.contracts_storage_proofs)
    unfolding create_facts_db_from_storage_proof
    create_facts_db-IsStored proof query reads db n e =
        let tries = proof.nodes ∷ proof.classes_proof ∷ proof.contracts_storage_proofs in
        >>=-parts (for_each (insert_inner_nodes L) [] tries) _ e λ db1 p e1.
          >>=-parts (insert_contract_leaves L db1 proof query) _ e1 λ db2 q e2.
            >>=-parts (insert_storage_leaves L db2 reads) _ e2 λ db3 r e3.
              >>=-parts (insert_compiled_class_leaves L db3 reads) _ e3 λ db4 c e4.
                AllStored-tries db1 db
                  (λ h s.
                    Stored-for_each (add_dummy_nodes_for_orphan_hashes L)
                      (λ d d' ns k _. Stored-dummy_nodes d d' ns k) tries db4 db h n e4
                      (Stored-class_leaves db3 db4 reads h c (
                        Stored-storage_leaves db2 db3 reads h r
                          (Stored-contract_leaves db1 db2 proof query h q s))))
                  tries n (inner_tries-AllStored tries [] db1 n p)

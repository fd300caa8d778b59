-- ===== src/Prover/StorageProofs/Unchanged.antt =====
-- What create_commitment_infos_without_state_changes (crates/starknet-transaction-prover-wasm/src/
-- running/storage_proofs.rs) returns.
use snip_36_prover_web.Prelude.{
  ℕ, true, List, [], ◌∷◌, map, some, length, ◌==◌, All, ◌≡◌, ◌≢◌, refl, ap, ◌∙◌, arith,
}
use snip_36_prover_web.Prelude.Result.{ok, unwrap_or}
use snip_36_prover_web.Prelude.Maps.{Map, get, insert, get-insert, get-insert_self, nat_key}
use snip_36_prover_web.Prover.StorageProofs.{RpcStorageProofsQuery, ContractStorageKeys}
use snip_36_prover_web.Prover.StorageProofs.Merge.{StorageProof}
use snip_36_prover_web.Prover.StorageProofs.Indices.{AllDifferent}
use snip_36_prover_web.Prover.StorageProofs.Commitments.{
  CommitmentLib, CommitmentInfo, addr_to_leaf, rpc_nodes_to_preimage_map, unchanged_info,
  storage_commitment_info, collect_infos, build_storage_commitment_infos,
  create_commitment_infos_without_state_changes, StateCommitmentInfos,
}
use snip_36_prover_web.Prover.Committer.{LeafData}

-- Each entry's address has the leaf at the entry's place.
abbrev pub AllLeaves : Map ℕ LeafData → List ContractStorageKeys → List LeafData → Type 0
AllLeaves leaf_of [] leaves = Unit
AllLeaves leaf_of (c ∷ cs) [] = ⊥
AllLeaves leaf_of (c ∷ cs) (leaf ∷ leaves) =
    (get c.contract_address leaf_of ≡ some leaf) × AllLeaves leaf_of cs leaves

addr_to_leaf-AllLeaves :
    (cs : List ContractStorageKeys) (leaves : List LeafData) (m : Map ℕ LeafData)
    → length leaves ≡ length cs
    → AllDifferent cs
    → ((a : ℕ)
        → All (λ c. a ≢ c.contract_address) cs
        → get a (addr_to_leaf m (map (λ c. c.contract_address) cs) leaves) ≡ get a m)
      × AllLeaves (addr_to_leaf m (map (λ c. c.contract_address) cs) leaves) cs leaves
unfolding addr_to_leaf
addr_to_leaf-AllLeaves [] leaves m l d = ((λ a g. refl), tt)
addr_to_leaf-AllLeaves (c ∷ cs) [] m l d = absurd (omega arith)
addr_to_leaf-AllLeaves (c ∷ cs) (leaf ∷ leaves) m l d =
    let (keep, good) =
      addr_to_leaf-AllLeaves cs leaves (insert c.contract_address leaf m) (omega arith) d.1 in
    (
      (λ a g. keep a g.1 ∙ ground (arith, get-insert c.contract_address a leaf m, g.0)),
      (keep c.contract_address d.0 ∙ get-insert_self c.contract_address leaf m, good),
    )

module _ {N Preimage Facts : Type 0} (lib : CommitmentLib N Preimage Facts) where
  -- The info is that of a trie whose root stays, with the preimages of the nodes under their hashes.
  abbrev pub IsTrie : CommitmentInfo Facts → ℕ → Map ℕ N → Type 0
  IsTrie info root nodes =
      (info.previous_root ≡ root)
      × (info.updated_root ≡ root)
      × (info.tree_height ≡ lib.actual_height)
      × (info.commitment_facts
          ≡ lib.flatten_preimages (map (λ e. (e.0, lib.preimage_of e.1)) nodes))

  preimages-map :
      (nodes : Map ℕ N)
      → rpc_nodes_to_preimage_map lib nodes ≡ map (λ e. (e.0, lib.preimage_of e.1)) nodes
  unfolding rpc_nodes_to_preimage_map
  preimages-map [] = refl
  preimages-map ((hash, node) ∷ nodes) =
      ap (λ r. (hash, lib.preimage_of node) ∷ r) (preimages-map nodes)

  unchanged_info-IsTrie :
      (root : ℕ) (nodes : Map ℕ N) → IsTrie (unchanged_info lib root nodes) root nodes
  unfolding unchanged_info
  unchanged_info-IsTrie root nodes =
      (refl, refl, refl, ap lib.flatten_preimages (preimages-map nodes))

  -- The info of each entry's address is that of an unchanged trie, of the root in the leaf and the
  -- nodes in the proof at the entry's place.
  abbrev pub AllCommitted :
      Map ℕ (CommitmentInfo Facts)
      → List ContractStorageKeys
      → List LeafData
      → List (Map ℕ N)
      → Type 0
  AllCommitted infos [] leaves proofs = Unit
  AllCommitted infos (c ∷ cs) (leaf ∷ leaves) (p ∷ ps) =
      ((info : CommitmentInfo Facts) × (get c.contract_address infos ≡ some info)
        × IsTrie info (unwrap_or leaf.storage_root 0) p)
      × AllCommitted infos cs leaves ps
  AllCommitted infos (c ∷ cs) _ _ = ⊥

  collect_infos-AllCommitted :
      (leaf_of : Map ℕ LeafData) (cs : List ContractStorageKeys) (leaves : List LeafData)
      (ps : List (Map ℕ N)) (infos : Map ℕ (CommitmentInfo Facts))
      → length ps ≡ length cs
      → AllDifferent cs
      → All (λ c. lib.is_contract_address c.contract_address ≡ true) cs
      → AllLeaves leaf_of cs leaves
      → (out : Map ℕ (CommitmentInfo Facts)) × (collect_infos lib leaf_of infos cs ps ≡ ok out)
        × ((a : ℕ) → All (λ c. a ≢ c.contract_address) cs → get a out ≡ get a infos)
        × AllCommitted out cs leaves ps
  unfolding collect_infos storage_commitment_info
  collect_infos-AllCommitted leaf_of [] leaves ps infos l d v h = (infos, refl, (λ a g. refl), tt)
  collect_infos-AllCommitted leaf_of (c ∷ cs) [] ps infos l d v h = absurd h
  collect_infos-AllCommitted leaf_of (c ∷ cs) (leaf ∷ leaves) [] infos l d v h =
      absurd (omega arith)
  collect_infos-AllCommitted leaf_of (c ∷ cs) (leaf ∷ leaves) (p ∷ ps) infos l d v h =
      let info = unchanged_info lib (unwrap_or leaf.storage_root 0) p in
      let (out, run, keep, good) =
        collect_infos-AllCommitted leaf_of cs leaves ps (insert c.contract_address info infos)
          (omega arith) d.1 v.1 h.1 in
      (
        out,
        rw (v.0, h.0) run,
        (λ a g. keep a g.1 ∙ ground (arith, get-insert c.contract_address a info infos, g.0)),
        (
          (
            info,
            keep c.contract_address d.0 ∙ get-insert_self c.contract_address info infos,
            unchanged_info-IsTrie _ p,
          ),
          good,
        ),
      )

  -- The infos of a state without changes.
  pub record IsUnchanged (rpc_proof : StorageProof N LeafData) (query : RpcStorageProofsQuery)
      (infos : StateCommitmentInfos Facts) : Type 0 where
    pub contracts :
        IsTrie infos.contracts_trie_commitment_info rpc_proof.contracts_tree_root rpc_proof.nodes
    pub classes :
        IsTrie infos.classes_trie_commitment_info rpc_proof.classes_tree_root
          rpc_proof.classes_proof
    pub storage :
        AllCommitted infos.storage_tries_commitment_infos query.contract_storage_keys
          rpc_proof.contract_leaves_data rpc_proof.contracts_storage_proofs

  -- If the query has one entry of storage keys for each of its contract addresses, in their order,
  -- no two with one address and each a valid address, and the proof has as many leaves and storage
  -- proofs as the query has entries, then `create_commitment_infos_without_state_changes` returns
  -- infos whose roots do not change: for the contracts and the classes those of the proof's roots
  -- and nodes, and for each entry's address that of the storage root in its leaf, zero if it has
  -- none, and of the nodes of its proof.
  pub create_commitment_infos_without_state_changes-IsUnchanged :
      (rpc_proof : StorageProof N LeafData) (query : RpcStorageProofsQuery)
      → query.contract_addresses ≡ map (λ c. c.contract_address) query.contract_storage_keys
      → AllDifferent query.contract_storage_keys
      → All (λ c. lib.is_contract_address c.contract_address ≡ true) query.contract_storage_keys
      → length rpc_proof.contract_leaves_data ≡ length query.contract_storage_keys
      → length rpc_proof.contracts_storage_proofs ≡ length query.contract_storage_keys
      → (infos : StateCommitmentInfos Facts) × (create_commitment_infos_without_state_changes lib
            rpc_proof query
          ≡ ok infos)
        × IsUnchanged rpc_proof query infos
  unfolding create_commitment_infos_without_state_changes build_storage_commitment_infos
  create_commitment_infos_without_state_changes-IsUnchanged rpc_proof query same d v leaves proofs =
      let cs = query.contract_storage_keys in
      let leaf_of =
        addr_to_leaf [] (map (λ c. c.contract_address) cs) rpc_proof.contract_leaves_data in
      let (keep, found) = addr_to_leaf-AllLeaves cs rpc_proof.contract_leaves_data [] leaves d in
      let (out, run, kept, good) =
        collect_infos-AllCommitted leaf_of cs rpc_proof.contract_leaves_data
          rpc_proof.contracts_storage_proofs [] proofs d v found in
      let counted : (length rpc_proof.contracts_storage_proofs == length cs) ≡ true =
        ground (arith, proofs) in
      (
        record {
          contracts_trie_commitment_info =
              unchanged_info lib rpc_proof.contracts_tree_root rpc_proof.nodes;
          classes_trie_commitment_info =
              unchanged_info lib rpc_proof.classes_tree_root rpc_proof.classes_proof;
          storage_tries_commitment_infos = out;
        },
        rw (counted, same, run) refl,
        record {
          contracts = unchanged_info-IsTrie _ _;
          classes = unchanged_info-IsTrie _ _;
          storage = good;
        },
      )

-- ===== src/Prover/StorageProofs/Fetching.antt =====
-- fetch_proofs (crates/starknet-transaction-prover-wasm/src/running/storage_proofs.rs): the answers to
-- the parts of a query merge into an answer to the query.
use mathlib.Core.Path.{subst}
use snip_36_prover_web.Prelude.{
  ℕ, ◌<◌, ◌≤◌, List, [], ◌∷◌, map, All, All-weaken, length, replicate, length-replicate, concat,
  if◌then◌else◌, ◌≡◌, refl, sym, ap, ◌∙◌, arith, inl, inr, Bool-cases, leb,
}
use snip_36_prover_web.Prelude.Result.{Result, ok, err, collect}
use snip_36_prover_web.Prelude.Maps.{nat_key}
use snip_36_prover_web.Prover.Errors.{ProverError, panic}
use snip_36_prover_web.Prover.StorageProofs.{
  RpcStorageProofsQuery, max_keys_per_request, count_total_keys,
}
use snip_36_prover_web.Prover.StorageProofs.Items.{keys_of}
use snip_36_prover_web.Prover.StorageProofs.Splitting.{split_query-covers}
use snip_36_prover_web.Prover.StorageProofs.Addresses.{AllContracts, AllContracts-parts}
use snip_36_prover_web.Prover.StorageProofs.Coverage.{HasHash, IsKnown, IsFound}
use snip_36_prover_web.Prover.StorageProofs.Merge.{
  StorageProof, addr_to_idx, merge_chunks, merge_storage_proofs, fetch_split, fetch_proofs,
}
use snip_36_prover_web.Prover.StorageProofs.Indices.{
  AllDifferent, addr_to_idx-IsKnown, IsFound-Covers, same_count, count_storage_keys_lem,
}
use snip_36_prover_web.Prover.StorageProofs.Merging.{Answers, merge_chunks-IsMerged}

module _ {N L : Type 0} (path : ℕ → ℕ → List ℕ) (contract_path class_path : ℕ → List ℕ)
    (leaf : ℕ → L) (answer : RpcStorageProofsQuery → StorageProof N L) where
  module _ (fetch_single : RpcStorageProofsQuery → Result ProverError (StorageProof N L)) where
    -- The RPC client answers the request.
    abbrev pub IsAnswered : RpcStorageProofsQuery → Type 0
    IsAnswered q =
        (fetch_single q ≡ ok (answer q)) × Answers path contract_path class_path leaf q (answer q)

    collect-IsAnswered :
        (qs : List RpcStorageProofsQuery)
        → All IsAnswered qs
        → collect fetch_single qs ≡ ok (map answer qs)
    unfolding collect
    collect-IsAnswered [] h = refl
    collect-IsAnswered (q ∷ qs) h = rw (h.0.0, collect-IsAnswered qs h.1) refl

    merge_storage_proofs-Answers :
        (query : RpcStorageProofsQuery) (q : RpcStorageProofsQuery)
        (qs : List RpcStorageProofsQuery)
        → AllDifferent query.contract_storage_keys
        → All
            (λ r.
              AllContracts
                (IsKnown
                  (addr_to_idx 0 [] query.contract_storage_keys)
                  (length query.contract_storage_keys))
                r.contract_storage_keys)
            (q ∷ qs)
        → All IsAnswered (q ∷ qs)
        → concat (map (λ r. r.class_hashes) (q ∷ qs)) ≡ query.class_hashes
        → concat (map (λ r. r.contract_addresses) (q ∷ qs)) ≡ query.contract_addresses
        → concat (map (λ r. keys_of r.contract_storage_keys) (q ∷ qs))
          ≡ keys_of query.contract_storage_keys
        → (out : StorageProof N L) × (merge_storage_proofs (map answer (q ∷ qs)) (q ∷ qs) query
            ≡ ok out)
          × Answers path contract_path class_path leaf query out
    unfolding merge_storage_proofs
    merge_storage_proofs-Answers query q qs d known answered hashes addresses keys =
        let cs = query.contract_storage_keys in
        let start : StorageProof N L = record {
          classes_proof = [];
          nodes = [];
          contract_leaves_data = [];
          contracts_storage_proofs = replicate (length cs) [];
          contracts_tree_root = (answer q).contracts_tree_root;
          classes_tree_root = (answer q).classes_tree_root;
          block_hash = (answer q).block_hash;
        } in
        let n : length cs ≡ length start.contracts_storage_proofs =
          sym (length-replicate (length cs) []) in
        let (out, run, good) =
          merge_chunks-IsMerged path contract_path class_path leaf answer (addr_to_idx 0 [] cs)
            (q ∷ qs) start
            (subst
              (λ k.
                All (λ r. AllContracts (IsKnown (addr_to_idx 0 [] cs) k) r.contract_storage_keys)
                  (q ∷ qs))
              n known)
            (All-weaken _ _ (λ r h. h.1) (q ∷ qs) answered) in
        (
          out,
          ap
                (λ b.
                  if b
                  then merge_chunks (addr_to_idx 0 [] cs) (q ∷ qs) (map answer (q ∷ qs)) start
                  else err panic)
                (same_count answer (q ∷ qs))
              ∙ run,
          (
            good.leaves ∙ ap (map leaf) addresses,
            IsFound-Covers path cs out.contracts_storage_proofs d (good.same_length ∙ sym n) (
                subst
                  (λ ks. All (IsFound path (addr_to_idx 0 [] cs) out.contracts_storage_proofs) ks)
                  keys good.found),
            subst (All (λ a. All (HasHash out.nodes) (contract_path a))) addresses good.contracts,
            subst (All (λ c. All (HasHash out.classes_proof) (class_path c))) hashes good.classes,
          ),
        )

    merge_storage_proofs-parts :
        (query : RpcStorageProofsQuery) (qs : List RpcStorageProofsQuery)
        → AllDifferent query.contract_storage_keys
        → All
            (λ r.
              AllContracts
                (IsKnown
                  (addr_to_idx 0 [] query.contract_storage_keys)
                  (length query.contract_storage_keys))
                r.contract_storage_keys)
            qs
        → All IsAnswered qs
        → concat (map (λ r. r.class_hashes) qs) ≡ query.class_hashes
        → concat (map (λ r. r.contract_addresses) qs) ≡ query.contract_addresses
        → concat (map (λ r. keys_of r.contract_storage_keys) qs)
          ≡ keys_of query.contract_storage_keys
        → max_keys_per_request < count_total_keys query
        → (out : StorageProof N L) × (merge_storage_proofs (map answer qs) qs query ≡ ok out)
          × Answers path contract_path class_path leaf query out
    unfolding count_total_keys
    merge_storage_proofs-parts query [] d known answered hashes addresses keys large = absurd (
        omega (
          arith,
          large,
          ap length hashes,
          ap length addresses,
          ap length keys,
          count_storage_keys_lem query.contract_storage_keys,
        ))
    merge_storage_proofs-parts query (q ∷ qs) d known answered hashes addresses keys large =
        merge_storage_proofs-Answers query q qs d known answered hashes addresses keys

    fetch_split-Answers :
        (query : RpcStorageProofsQuery)
        → AllDifferent query.contract_storage_keys
        → ((q : RpcStorageProofsQuery) → count_total_keys q ≤ max_keys_per_request → IsAnswered q)
        → max_keys_per_request < count_total_keys query
        → (out : StorageProof N L) × (fetch_split fetch_single query ≡ ok out)
          × Answers path contract_path class_path leaf query out
    unfolding fetch_split
    fetch_split-Answers query d client large =
        let (qs, split, sizes, hashes, addresses, keys) =
          split_query-covers query max_keys_per_request (omega arith) in
        let answered : All IsAnswered qs = All-weaken _ _ (λ q h. client q h.1) qs sizes in
        let known =
          AllContracts-parts _ query max_keys_per_request qs split
            (addr_to_idx-IsKnown query.contract_storage_keys d) in
        let (out, run, good) =
          merge_storage_proofs-parts query qs d known answered hashes addresses keys large in
        (out, rw (split, collect-IsAnswered qs answered) run, good)

    -- When no two entries of the query's storage keys have one contract address, and the RPC client
    -- answers every request of at most `max_keys_per_request` keys, with the leaves of the
    -- request's contracts in order, the nodes on the paths of its classes and contracts, and for
    -- each of its entries the nodes on the paths of the entry's keys, then `fetch_proofs` returns,
    -- and its answer has all this for the whole query, whether the query was split or not: the
    -- contracts' leaves in order, the paths of its classes and contracts, and for each entry the
    -- paths of the entry's keys.
    pub fetch_proofs-Answers :
        (query : RpcStorageProofsQuery)
        → AllDifferent query.contract_storage_keys
        → ((q : RpcStorageProofsQuery) → count_total_keys q ≤ max_keys_per_request → IsAnswered q)
        → (out : StorageProof N L) × (fetch_proofs fetch_single query ≡ ok out)
          × Answers path contract_path class_path leaf query out
    unfolding fetch_proofs
    fetch_proofs-Answers query d client =
        elim (Bool-cases (leb (count_total_keys query) max_keys_per_request)) [
          | inl small ↦
              let (run, good) = client query (ground (arith, small)) in
              (answer query, rw small run, good)
          | inr large ↦
              let (out, run, good) = fetch_split-Answers query d client (ground (arith, large)) in
              (out, rw large run, good)
        ]

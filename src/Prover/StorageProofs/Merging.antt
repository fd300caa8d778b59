-- ===== src/Prover/StorageProofs/Merging.antt =====
-- The loops of merge_storage_proofs (crates/starknet-transaction-prover-wasm/src/running/
-- storage_proofs.rs): what the merged proof has of each request.
use mathlib.Core.Path.{subst}
use mathlib.Core.List.{append_assoc, append-nil, map-append}
use snip_36_prover_web.Prelude.{
  ℕ, List, [], ◌∷◌, ◌++◌, map, All, All-append, All-weaken, length, concat, ◌≡◌, refl, sym, ap, ◌∙◌,
}
use snip_36_prover_web.Prelude.Result.{ok}
use snip_36_prover_web.Prelude.Maps.{Map, nat_key}
use snip_36_prover_web.Prover.StorageProofs.{RpcStorageProofsQuery}
use snip_36_prover_web.Prover.StorageProofs.Items.{keys_of}
use snip_36_prover_web.Prover.StorageProofs.Addresses.{AllContracts}
use snip_36_prover_web.Prover.StorageProofs.Coverage.{
  IsKnown, HasHash, HasHash-extend, HasHash-extended, GrowsAt, GrowsAt-refl, GrowsAt-trans, Covers,
  IsFound, IsFound-grows, merge_contracts-finds,
}
use snip_36_prover_web.Prover.StorageProofs.Merge.{StorageProof, extend, merge_chunk, merge_chunks}

All-paths :
    {N : Type 0} (m m' : Map ℕ N) (path_of : ℕ → List ℕ)
    → ((h : ℕ) → HasHash m h → HasHash m' h)
    → (xs : List ℕ) → All (λ x. All (HasHash m) (path_of x)) xs
    → All (λ x. All (HasHash m') (path_of x)) xs
All-paths m m' path_of g = All-weaken _ _ λ x. All-weaken _ _ g (path_of x)

HasHash-extended_by :
    {N : Type 0} → (m more : Map ℕ N) (h : ℕ) → HasHash more h → HasHash (extend m more) h
HasHash-extended_by m more h = HasHash-extended h m more

module _ {N L : Type 0} (path : ℕ → ℕ → List ℕ) (contract_path class_path : ℕ → List ℕ)
    (leaf : ℕ → L) where
  -- The answer has the leaves of the query's contracts, in order, covers its storage keys, and has the
  -- nodes on the paths of its contracts and of its classes.
  abbrev pub Answers : RpcStorageProofsQuery → StorageProof N L → Type 0
  Answers q p =
      (p.contract_leaves_data ≡ map leaf q.contract_addresses)
      × Covers path q.contract_storage_keys p.contracts_storage_proofs
      × All (λ a. All (HasHash p.nodes) (contract_path a)) q.contract_addresses
      × All (λ c. All (HasHash p.classes_proof) (class_path c)) q.class_hashes

  pub record IsMerged (index : Map ℕ ℕ) (addresses hashes : List ℕ) (keys : List (ℕ × ℕ))
      (merged out : StorageProof N L) : Type 0 where
    pub leaves : out.contract_leaves_data ≡ merged.contract_leaves_data ++ map leaf addresses
    pub same_length : length out.contracts_storage_proofs ≡ length merged.contracts_storage_proofs
    pub grows : (j : ℕ) → GrowsAt merged.contracts_storage_proofs out.contracts_storage_proofs j
    pub found : All (IsFound path index out.contracts_storage_proofs) keys
    pub contracts : All (λ a. All (HasHash out.nodes) (contract_path a)) addresses
    pub classes : All (λ c. All (HasHash out.classes_proof) (class_path c)) hashes
    pub keeps_nodes : (h : ℕ) → HasHash merged.nodes h → HasHash out.nodes h
    pub keeps_classes : (h : ℕ) → HasHash merged.classes_proof h → HasHash out.classes_proof h

  merge_chunk-IsMerged :
      (index : Map ℕ ℕ) (q : RpcStorageProofsQuery) (p merged : StorageProof N L)
      → AllContracts
          (IsKnown index (length merged.contracts_storage_proofs))
          q.contract_storage_keys
      → Answers q p
      → (out : StorageProof N L) × (merge_chunk index q p merged ≡ ok out)
        × IsMerged index q.contract_addresses q.class_hashes
            (keys_of q.contract_storage_keys)
            merged
            out
  unfolding merge_chunk
  merge_chunk-IsMerged index q p merged known good =
      let (ms, run, same, grows, found) =
        merge_contracts-finds path index q.contract_storage_keys p.contracts_storage_proofs
          merged.contracts_storage_proofs known good.1 in
      (
        record {
          classes_proof = extend merged.classes_proof p.classes_proof;
          nodes = extend merged.nodes p.nodes;
          contract_leaves_data = merged.contract_leaves_data ++ p.contract_leaves_data;
          contracts_storage_proofs = ms;
          contracts_tree_root = merged.contracts_tree_root;
          classes_tree_root = merged.classes_tree_root;
          block_hash = merged.block_hash;
        },
        rw run refl,
        record {
          leaves = ap (λ y. merged.contract_leaves_data ++ y) good.0;
          same_length = same;
          grows = grows;
          found = found;
          contracts =
              All-paths _ _ contract_path (HasHash-extended_by merged.nodes p.nodes)
                q.contract_addresses good.2;
          classes =
              All-paths _ _ class_path (HasHash-extended_by merged.classes_proof p.classes_proof)
                q.class_hashes good.3;
          keeps_nodes = λ h. HasHash-extend h merged.nodes p.nodes;
          keeps_classes = λ h. HasHash-extend h merged.classes_proof p.classes_proof;
        },
      )

module _ {N L : Type 0} (path : ℕ → ℕ → List ℕ) (contract_path class_path : ℕ → List ℕ)
    (leaf : ℕ → L) (answer : RpcStorageProofsQuery → StorageProof N L) where
  pub merge_chunks-IsMerged :
      (index : Map ℕ ℕ) (qs : List RpcStorageProofsQuery) (merged : StorageProof N L)
      → All
          (λ q.
            AllContracts
              (IsKnown index (length merged.contracts_storage_proofs))
              q.contract_storage_keys)
          qs
      → All (λ q. Answers path contract_path class_path leaf q (answer q)) qs
      → (out : StorageProof N L) × (merge_chunks index qs (map answer qs) merged ≡ ok out)
        × IsMerged path contract_path class_path leaf index
            (concat (map (λ q. q.contract_addresses) qs))
            (concat (map (λ q. q.class_hashes) qs))
            (concat (map (λ q. keys_of q.contract_storage_keys) qs))
            merged
            out
  unfolding merge_chunks
  merge_chunks-IsMerged index [] merged known good = (
    merged,
    refl,
    record {
      leaves = sym (append-nil merged.contract_leaves_data);
      same_length = refl;
      grows = GrowsAt-refl merged.contracts_storage_proofs;
      found = tt;
      contracts = tt;
      classes = tt;
      keeps_nodes = λ h k. k;
      keeps_classes = λ h k. k;
    },
  )
  merge_chunks-IsMerged index (q ∷ qs) merged known good =
      let (next, run1, one) =
        merge_chunk-IsMerged path contract_path class_path leaf index q (answer q) merged known.0
          good.0 in
      let known1 =
        subst (λ n. All (λ q. AllContracts (IsKnown index n) q.contract_storage_keys) qs)
          (sym one.same_length) known.1 in
      let (out, run, rest) = merge_chunks-IsMerged index qs next known1 good.1 in
      (
        out,
        rw run1 run,
        record {
          leaves =
              rest.leaves
              ∙ ap (λ y. y ++ map leaf (concat (map (λ r. r.contract_addresses) qs))) one.leaves
              ∙ append_assoc merged.contract_leaves_data (map leaf q.contract_addresses) _
              ∙ ap (λ y. merged.contract_leaves_data ++ y)
                  (sym (map-append leaf q.contract_addresses _));
          same_length = rest.same_length ∙ one.same_length;
          grows = λ j. GrowsAt-trans _ _ _ j (one.grows j) (rest.grows j);
          found =
              All-append _ (keys_of q.contract_storage_keys) _
                (All-weaken _ _
                  (IsFound-grows path index next.contracts_storage_proofs
                    out.contracts_storage_proofs rest.grows)
                  _ one.found)
                rest.found;
          contracts =
              All-append _ q.contract_addresses _
                (All-paths _ _ contract_path rest.keeps_nodes q.contract_addresses one.contracts)
                rest.contracts;
          classes =
              All-append _ q.class_hashes _
                (All-paths _ _ class_path rest.keeps_classes q.class_hashes one.classes)
                rest.classes;
          keeps_nodes = λ h k. rest.keeps_nodes h (one.keeps_nodes h k);
          keeps_classes = λ h k. rest.keeps_classes h (one.keeps_classes h k);
        },
      )

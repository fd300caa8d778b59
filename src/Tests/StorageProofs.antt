-- ===== src/Tests/StorageProofs.antt =====
-- The theorems on storage proofs at concrete requests.
use snip_36_prover_web.Prelude.{
  ℕ, suc, ltb, none, List, replicate, [], ◌∷◌, map, concat, All, some, ◌≡◌, refl, arith,
}
use snip_36_prover_web.Prelude.Result.{ok}
use snip_36_prover_web.Prelude.Maps.{Map, get, insert, nat_key}
use snip_36_prover_web.Prover.StorageProofs.{
  RpcStorageProofsQuery, ContractStorageKeys, split_query,
}
use snip_36_prover_web.Prover.StorageProofs.Items.{keys_of}
use snip_36_prover_web.Prover.StorageProofs.Splitting.{IsRequest, split_query-covers}
use snip_36_prover_web.Prover.StorageProofs.Merge.{StorageProof, fetch_proofs}
use snip_36_prover_web.Prover.Executor.{VirtualBlockExecutionData}
use snip_36_prover_web.Prover.StorageProofs.Queries.{
  insert_in_order, sort, storage_by_address, prepare_query,
}
use snip_36_prover_web.Prover.StorageProofs.Prepared.{IsPrepared, prepare_query-IsPrepared}
use snip_36_prover_web.Prover.StorageProofs.Commitments.{
  CommitmentLib, StateCommitmentInfos, create_commitment_infos_without_state_changes,
}
use snip_36_prover_web.Prover.StorageProofs.Unchanged.{
  IsUnchanged, create_commitment_infos_without_state_changes-IsUnchanged,
}
use snip_36_prover_web.Prover.StorageProofs.Coverage.{Holds, Covers}
use snip_36_prover_web.Prover.StorageProofs.Merging.{Answers}
use snip_36_prover_web.Prelude.{All-weaken}
use snip_36_prover_web.Prover.StorageProofs.Coverage.{HasHash}
use snip_36_prover_web.Prover.StorageProofs.Fetching.{fetch_proofs-Answers}
use snip_36_prover_web.Prover.Committer.{StateMaps, LeafData}

abbrev big_query : RpcStorageProofsQuery
big_query = record {
  class_hashes = 1 ∷ 2 ∷ [];
  contract_addresses = 10 ∷ 11 ∷ [];
  contract_storage_keys =
      record { contract_address = 10; storage_keys = 5 ∷ 6 ∷ 7 ∷ [] }
      ∷ record { contract_address = 11; storage_keys = 8 ∷ [] }
      ∷ [];
}

split_query-covers_example :
    (qs : List RpcStorageProofsQuery) × (split_query big_query 3 ≡ ok qs)
    × All (IsRequest 3) qs
    × (concat (map (λ q. q.class_hashes) qs) ≡ 1 ∷ 2 ∷ [])
    × (concat (map (λ q. q.contract_addresses) qs) ≡ 10 ∷ 11 ∷ [])
    × (concat (map (λ q. keys_of q.contract_storage_keys) qs)
        ≡ keys_of big_query.contract_storage_keys)
split_query-covers_example = split_query-covers big_query 3 (omega arith)

-- More keys than one request holds.
abbrev large_query : RpcStorageProofsQuery
large_query = record {
  class_hashes = 1 ∷ [];
  contract_addresses = 10 ∷ 11 ∷ [];
  contract_storage_keys =
      record { contract_address = 10; storage_keys = replicate 120 5 }
      ∷ record { contract_address = 11; storage_keys = 8 ∷ [] }
      ∷ [];
}

-- A trie with one node for each contract.
abbrev one_node : ℕ → ℕ → List ℕ
one_node a k = a ∷ []

abbrev one_node_proofs : List ContractStorageKeys → List (Map ℕ ℕ)
one_node_proofs [] = []
one_node_proofs (c ∷ cs) = ((c.contract_address, 1) ∷ []) ∷ one_node_proofs cs

abbrev own_path : ℕ → List ℕ
own_path a = a ∷ []

abbrev own_nodes : List ℕ → Map ℕ ℕ
own_nodes [] = []
own_nodes (a ∷ rest) = (a, 1) ∷ own_nodes rest

HasHash-cons : (x a : ℕ) (m : Map ℕ ℕ) → HasHash m a → HasHash ((x, 1) ∷ m) a
unfolding get
HasHash-cons x a m h = ground (arith, h)

own_nodes-held : (xs : List ℕ) → All (λ a. All (HasHash (own_nodes xs)) (own_path a)) xs
unfolding get
own_nodes-held [] = tt
own_nodes-held (x ∷ xs) = (
  ((ground arith), tt),
  All-weaken _ _ (λ a h. (HasHash-cons x a (own_nodes xs) h.0, tt)) xs (own_nodes-held xs),
)

abbrev one_node_answer : RpcStorageProofsQuery → StorageProof ℕ ℕ
one_node_answer q = record {
  classes_proof = own_nodes q.class_hashes;
  nodes = own_nodes q.contract_addresses;
  contract_leaves_data = map suc q.contract_addresses;
  contracts_storage_proofs = one_node_proofs q.contract_storage_keys;
  contracts_tree_root = 3;
  classes_tree_root = 4;
  block_hash = 5;
}

one_node-held : (a : ℕ) (ks : List ℕ) → Holds {N = ℕ} one_node ((a, 1) ∷ []) a ks
unfolding get
one_node-held a [] = tt
one_node-held a (k ∷ ks) = ((ground arith, tt), one_node-held a ks)

one_node-Covers : (cs : List ContractStorageKeys) → Covers {N = ℕ} one_node cs (one_node_proofs cs)
one_node-Covers [] = tt
one_node-Covers (c ∷ cs) = (one_node-held c.contract_address c.storage_keys, one_node-Covers cs)

fetch_proofs-Answers_example :
    (out : StorageProof ℕ ℕ) × (fetch_proofs (λ q. ok (one_node_answer q)) large_query ≡ ok out)
    × Answers one_node own_path own_path suc large_query out
fetch_proofs-Answers_example =
    fetch_proofs-Answers one_node own_path own_path suc one_node_answer
      (λ q. ok (one_node_answer q)) large_query (((λ e. omega (arith, e)), tt), (tt, tt))
      (λ q small. (
        refl,
        (
          refl,
          one_node-Covers q.contract_storage_keys,
          own_nodes-held q.contract_addresses,
          own_nodes-held q.class_hashes,
        ),
      ))

-- Two contracts, read in turns.
abbrev few_reads : StateMaps
few_reads = record {
  nonces = [];
  class_hashes = [];
  storage = ((11, 8), 0) ∷ ((10, 5), 1) ∷ ((11, 9), 2) ∷ [];
  compiled_class_hashes = [];
  declared_contracts = [];
}

abbrev reads_data : VirtualBlockExecutionData ℕ ℕ ℕ
reads_data = record {
  execution_outputs = 5 ∷ [];
  initial_reads = few_reads;
  state_diff = few_reads;
  executed_class_hashes = 1 ∷ 2 ∷ [];
  l2_to_l1_messages = [];
  base_block_info = 7;
}

reads_prepared : prepare_query (λ r. 11 ∷ 10 ∷ []) reads_data ≡ record {
  class_hashes = 1 ∷ 2 ∷ [];
  contract_addresses = 10 ∷ 11 ∷ [];
  contract_storage_keys =
      record { contract_address = 10; storage_keys = 5 ∷ [] }
      ∷ record { contract_address = 11; storage_keys = 8 ∷ 9 ∷ [] }
      ∷ [];
}
unfolding prepare_query insert_in_order sort storage_by_address get insert
reads_prepared = refl

prepare_query-IsPrepared_example :
    IsPrepared (11 ∷ 10 ∷ []) reads_data (prepare_query (λ r. 11 ∷ 10 ∷ []) reads_data)
prepare_query-IsPrepared_example =
    prepare_query-IsPrepared (λ r. 11 ∷ 10 ∷ []) reads_data
      (((λ e. omega (arith, e)), tt), (tt, tt))

abbrev plain_commitments : CommitmentLib ℕ ℕ (Map ℕ ℕ)
plain_commitments = record {
  is_contract_address = λ a. ltb 0 a;
  preimage_of = suc;
  flatten_preimages = λ m. m;
  actual_height = 251;
}

-- An answer of which one leaf has no storage root.
abbrev two_leaves : StorageProof ℕ LeafData
two_leaves = record {
  classes_proof = (1, 2) ∷ [];
  nodes = (3, 4) ∷ [];
  contract_leaves_data =
      record { nonce = 0; class_hash = 1; storage_root = some 77 }
      ∷ record { nonce = 0; class_hash = 1; storage_root = none }
      ∷ [];
  contracts_storage_proofs = ((5, 6) ∷ []) ∷ [] ∷ [];
  contracts_tree_root = 3;
  classes_tree_root = 1;
  block_hash = 9;
}

create_commitment_infos_without_state_changes-IsUnchanged_example :
    (infos : StateCommitmentInfos (Map ℕ ℕ)) × (create_commitment_infos_without_state_changes
        plain_commitments two_leaves large_query
      ≡ ok infos)
    × IsUnchanged plain_commitments two_leaves large_query infos
create_commitment_infos_without_state_changes-IsUnchanged_example =
    create_commitment_infos_without_state_changes-IsUnchanged plain_commitments two_leaves
      large_query refl (((λ e. omega (arith, e)), tt), (tt, tt)) (refl, (refl, tt)) refl refl

-- ===== src/Tests/Prover.antt =====
-- The theorems on crates/starknet-transaction-prover-wasm at concrete requests.
use snip_36_prover_web.Prelude.{
  ℕ, ◌+◌, ◌*◌, ◌==◌, if◌then◌else◌, true, [], ◌∷◌, All, some, ◌≡◌, ◌↔◌, refl, ap, arith,
}
use snip_36_prover_web.Prelude.Result.{ok, ok_injective}
use snip_36_prover_web.Prelude.Maps.{Map, nat_key}
use snip_36_prover_web.Core.Types.{zero_fee}
use snip_36_prover_web.Prover.StorageProofs.{RpcStorageProofsQuery}
use snip_36_prover_web.Prover.StorageProofs.Merge.{StorageProof}
use snip_36_prover_web.Reexecution.{number}
use snip_36_prover_web.Prover.SnosProver.{
  RpcInvokeV3, invoke, VirtualSnosProver, validate_transaction_input, prove_transaction,
  extract_rpc_invoke_tx, prove_virtual_snos_run,
}
use snip_36_prover_web.Prover.SnosProver.Validation.{
  IsProvable, IsMaxFee, IsProven, fee_sum, validate_transaction_input_iff, zero_fee-valid,
  prove_transaction-IsProven,
}
use snip_36_prover_web.Prover.Committer.{
  StateMaps, StateDiff, MerkleNode, binary, edge, LeafData, FactsLib,
  validate_virtual_os_state_diff, create_facts_db_from_storage_proof, for_each, insert_inner_nodes,
  insert_contract_leaves, insert_leaves, insert_leaf_node, contract_leaf_of, insert_storage_leaves,
  insert_compiled_class_leaves, add_dummy_nodes_for_orphan_hashes,
}
use snip_36_prover_web.Prover.Committer.Changes.{IsAllowed, validate_virtual_os_state_diff_iff}
use snip_36_prover_web.Prover.Committer.Inner.{HasNode, children_of}
use snip_36_prover_web.Prover.Committer.Stored.{IsKeyed, IsStored}
use snip_36_prover_web.Prover.Committer.Closed.{create_facts_db-closed}

-- The sum itself, without a bound, is such a fee.
fee_sum-IsMaxFee : IsMaxFee fee_sum
fee_sum-IsMaxFee = record { sums = λ b tip h. refl }

abbrev invoke_tx : RpcInvokeV3
invoke_tx = record {
  sender_address = 77;
  calldata = 1 ∷ [];
  signature = 2 ∷ 3 ∷ [];
  nonce = 4;
  resource_bounds = zero_fee;
  tip = 0;
  paymaster_data = [];
  account_deployment_data = [];
  nonce_da_mode = 0;
  fee_da_mode = 0;
  proof = [];
  proof_facts = [];
}

zero_fee_test : validate_transaction_input fee_sum invoke_tx true ≡ ok tt
zero_fee_test = zero_fee-valid fee_sum invoke_tx true fee_sum-IsMaxFee refl refl refl refl

validate_transaction_input_iff_example :
    (validate_transaction_input fee_sum invoke_tx true ≡ ok tt) ↔ IsProvable fee_sum true invoke_tx
validate_transaction_input_iff_example = validate_transaction_input_iff fee_sum invoke_tx true

abbrev prover : VirtualSnosProver ℕ ℕ
prover = record {
  run_virtual_os = λ block txs. ok 5;
  validate_zero_fee_fields = true;
  stwo_prove = some (λ output. ok (output + 1));
}

invoke_proves : prove_transaction fee_sum prover (number 9) (invoke invoke_tx) ≡ ok 6
unfolding prove_transaction extract_rpc_invoke_tx validate_transaction_input fee_sum zero_fee
    prove_virtual_snos_run
invoke_proves = refl

prove_transaction-IsProven_example : IsProven fee_sum prover (number 9) (invoke invoke_tx) 6
prove_transaction-IsProven_example =
    prove_transaction-IsProven fee_sum prover (number 9) (invoke invoke_tx) 6 invoke_proves

abbrev diff : StateDiff
diff = record {
  address_to_class_hash = [];
  address_to_nonce = (10, 3) ∷ [];
  class_hash_to_compiled_class_hash = [];
  storage_updates = (10, (5, 1) ∷ []) ∷ [];
}

validate_virtual_os_state_diff_iff_example :
    (validate_virtual_os_state_diff diff ≡ ok tt) ↔ IsAllowed diff
validate_virtual_os_state_diff_iff_example = validate_virtual_os_state_diff_iff diff

-- Keys are the hashes, and leaves are kept under a key of their own.
abbrev facts : FactsLib ℕ ℕ
facts = record {
  inner_key = λ hash. 2 * hash;
  inner_value = λ hash node. ok hash;
  contract_leaf = λ nonce class_hash root. ok (2 * nonce + 1, class_hash);
  storage_leaf = λ address value. ok (2 * address + 1, value);
  class_leaf = λ hash. ok (2 * hash + 1, hash);
}

facts-IsKeyed : IsKeyed facts
facts-IsKeyed = record {
  different = λ a b e. omega (arith, e);
  contract_leaves =
      λ nonce class_hash root h kv e q. omega (arith, ap (λ (p : ℕ × ℕ). p.0) (ok_injective e), q);
  storage_leaves =
      λ address value h kv e q. omega (arith, ap (λ (p : ℕ × ℕ). p.0) (ok_injective e), q);
  class_leaves = λ hash h kv e q. omega (arith, ap (λ (p : ℕ × ℕ). p.0) (ok_injective e), q);
}

abbrev node_of : ℕ → MerkleNode
node_of h =
    if h == 70
    then edge 0 251 71
    else if h == 50
    then binary 51 52
    else if h == 51
    then edge 3 2 53
    else binary 61 62

abbrev proof : StorageProof MerkleNode LeafData
proof = record {
  classes_proof = (70, edge 0 251 71) ∷ [];
  nodes = (50, binary 51 52) ∷ (51, edge 3 2 53) ∷ [];
  contract_leaves_data = record { nonce = 1; class_hash = 2; storage_root = some 60 } ∷ [];
  contracts_storage_proofs = ((60, binary 61 62) ∷ []) ∷ [];
  contracts_tree_root = 50;
  classes_tree_root = 70;
  block_hash = 8;
}

abbrev proof_query : RpcStorageProofsQuery
proof_query = record { class_hashes = []; contract_addresses = 10 ∷ []; contract_storage_keys = [] }

abbrev reads : StateMaps
reads = record {
  nonces = [];
  class_hashes = [];
  storage = ((10, 5), 1) ∷ [];
  compiled_class_hashes = (2, 4) ∷ [];
  declared_contracts = [];
}

proof_builds :
    (db : Map ℕ ℕ) × (create_facts_db_from_storage_proof facts proof proof_query reads ≡ ok db)
unfolding create_facts_db_from_storage_proof for_each insert_inner_nodes insert_contract_leaves
    insert_leaves insert_leaf_node contract_leaf_of insert_storage_leaves
    insert_compiled_class_leaves add_dummy_nodes_for_orphan_hashes
proof_builds = (_, refl)

create_facts_db-closed_example :
    All
      (λ trie.
        All (IsStored facts proof_builds.0) trie
        × All (HasNode facts proof_builds.0) (children_of trie))
      (proof.nodes ∷ proof.classes_proof ∷ proof.contracts_storage_proofs)
create_facts_db-closed_example =
    create_facts_db-closed facts facts-IsKeyed node_of proof proof_query reads proof_builds.0
      ((refl, (refl, tt)), ((refl, tt), ((refl, tt), tt))) proof_builds.1

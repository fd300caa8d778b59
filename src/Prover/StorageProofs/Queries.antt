-- ===== src/Prover/StorageProofs/Queries.antt =====
-- RpcStorageProofsProvider::prepare_query of crates/starknet-transaction-prover-wasm/src/running/
-- storage_proofs.rs: the storage proofs to ask for after the execution of a virtual block.
use snip_36_prover_web.Prelude.{ℕ, List, [], ◌∷◌, ◌++◌, map, leb, if◌then◌else◌}
use snip_36_prover_web.Prelude.Result.{unwrap_or}
use snip_36_prover_web.Prelude.Maps.{Map, get, insert, nat_key}
use snip_36_prover_web.Prover.StorageProofs.{RpcStorageProofsQuery}
use snip_36_prover_web.Prover.Committer.{StateMaps}
use snip_36_prover_web.Prover.Executor.{VirtualBlockExecutionData}

-- `slice::sort`
unfoldable pub insert_in_order : ℕ → List ℕ → List ℕ
insert_in_order a [] = a ∷ []
insert_in_order a (b ∷ bs) =
    let rest = insert_in_order a bs in if leb a b then a ∷ b ∷ bs else b ∷ rest

unfoldable pub sort : List ℕ → List ℕ
sort [] = []
sort (a ∷ rest) = insert_in_order a (sort rest)

-- The loop that pushes each key that was read to the list of its address.
unfoldable pub storage_by_address : Map ℕ (List ℕ) → Map (ℕ × ℕ) ℕ → Map ℕ (List ℕ)
storage_by_address m [] = m
storage_by_address m (((address, key), value) ∷ reads) =
    storage_by_address (insert address (unwrap_or (get address m) [] ++ (key ∷ [])) m) reads

-- `get_contract_addresses` is blockifier's: the set of the addresses that the state maps mention.
unfoldable pub prepare_query :
    {O M B : Type 0}
    → (StateMaps → List ℕ)
    → VirtualBlockExecutionData O M B
    → RpcStorageProofsQuery
prepare_query get_contract_addresses execution_data =
    let initial_reads = execution_data.initial_reads in
    let contract_addresses = sort (get_contract_addresses initial_reads) in
    let by_address = storage_by_address [] initial_reads.storage in
    record {
      class_hashes = execution_data.executed_class_hashes;
      contract_addresses = contract_addresses;
      contract_storage_keys =
          map
            (λ address. record {
              contract_address = address;
              storage_keys = unwrap_or (get address by_address) [];
            })
            contract_addresses;
    }

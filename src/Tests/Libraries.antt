-- ===== src/Tests/Libraries.antt =====
-- A concrete node and concrete libraries, for the theorems on the execution and the proving of a
-- transaction.
use snip_36_prover_web.Prelude.{
  ℕ, suc, ◌+◌, String, true, false, List, [], ◌∷◌, map, Option, none, some, length, ◌≡◌, refl,
  arith,
}
use snip_36_prover_web.Prelude.Result.{Result, ok}
use snip_36_prover_web.Prelude.Maps.{Map, insert, nat_key, pair_key}
use snip_36_prover_web.Core.Json.{null, num, obj, end, field, as_u64}
use snip_36_prover_web.Core.Types.{zero_fee}
use snip_36_prover_web.Reexecution.{success, response, Node}
use snip_36_prover_web.Reexecution.Headers.{BlockHeader, blob}
use snip_36_prover_web.Reexecution.Classes.{sierra, CompiledClasses}
use snip_36_prover_web.Prover.Errors.{ProverError}
use snip_36_prover_web.Prover.Committer.{StateMaps, MerkleNode, binary, LeafData}
use snip_36_prover_web.Prover.SnosProver.{RpcInvokeV3}
use snip_36_prover_web.Prover.Executor.{RpcVirtualBlockExecutorConfig}
use snip_36_prover_web.Prover.Executor.InitialReads.{RpcInitialReads}
use snip_36_prover_web.Prover.Executor.Run.{TransactionExecutionOutput, ExecutorLib}
use snip_36_prover_web.Prover.Executor.Executed.{IsBlockifier}
use snip_36_prover_web.Prover.ClassesProvider.{CasmContractClass, CasmLib, int}
use snip_36_prover_web.Prover.StorageProofs.{RpcStorageProofsQuery, ContractStorageKeys}
use snip_36_prover_web.Prover.StorageProofs.Merge.{StorageProof}
use snip_36_prover_web.Prover.Runner.{ChainInfo, OsLib, RunnerOutput}
use snip_36_prover_web.Prover.Runner.Factory.{RpcRunnerFactory, ProofsLib}

abbrev pub invoke_tx : RpcInvokeV3
invoke_tx = record {
  sender_address = 77;
  calldata = 1 ∷ [];
  signature = 2 ∷ 3 ∷ [];
  nonce = 4;
  resource_bounds = zero_fee;
  tip = 0;
  paymaster_data = [];
  account_deployment_data = [];
  nonce_da_mode = 0;
  fee_da_mode = 0;
  proof = [];
  proof_facts = [];
}

abbrev pub no_maps : StateMaps
no_maps = record {
  nonces = [];
  class_hashes = [];
  storage = [];
  compiled_class_hashes = [];
  declared_contracts = [];
}

abbrev pub header : BlockHeader
header = record {
  block_hash = 100;
  parent_hash = 99;
  block_number = 9;
  sequencer_address = 1;
  new_root = 2;
  timestamp = 3;
  l1_gas_price = record { price_in_fri = 1; price_in_wei = 1 };
  l1_data_gas_price = record { price_in_fri = 1; price_in_wei = 1 };
  l2_gas_price = record { price_in_fri = 1; price_in_wei = 1 };
  l1_da_mode = blob;
  starknet_version = "0.14.0";
  state_diff_commitment = 4;
  event_commitment = 5;
  receipt_commitment = 6;
  transaction_commitment = 7;
  transaction_count = 1;
  event_count = 2;
  state_diff_length = 3;
}

-- It answers each request with the initial reads.
abbrev pub reads_node : Node
reads_node = λ request. response (success (obj (field "initial_reads" null end)))

-- The contract 77 is of the class 5, and the class 6 is declared.
abbrev pub initial_reads : RpcInitialReads
initial_reads = record {
  storage = record { contract_address = 77; key = 8; value = 1 } ∷ [];
  nonces = [];
  class_hashes = record { contract_address = 77; class_hash = 5 } ∷ [];
  declared_contracts = record { class_hash = 6; is_declared = true } ∷ [];
}

abbrev pub one_output : TransactionExecutionOutput ℕ
one_output = record { revert_error = none; call_infos = 40 ∷ 50 ∷ []; state_maps = no_maps }

abbrev pub after_block : StateMaps
after_block = record no_maps { storage = ((77, 8), 1) ∷ [] }

abbrev pub outputs_of : List ℕ → List (Option (TransactionExecutionOutput ℕ))
outputs_of [] = []
outputs_of (t ∷ ts) = some one_output ∷ outputs_of ts

outputs_of-length : (ts : List ℕ) → length (outputs_of ts) ≡ length ts
outputs_of-length [] = refl
outputs_of-length (t ∷ ts) = omega (arith, outputs_of-length ts)

abbrev pub plain_exec :
    ExecutorLib ℕ String ChainInfo ℕ ℕ ℕ ℕ ℕ ℕ ℕ ℕ (Map ℕ (CompiledClasses ℕ ℕ ℕ)) ℕ ℕ
plain_exec = record {
  serde_lib = record {
    felt_json = num;
    felt_hex_string = λ n. "0x1";
    parse_felt = as_u64;
    parse_header = λ j. some header;
  };
  class_lib = record {
    parse_class = λ j. some (sierra 3);
    sierra_of = λ s. s;
    extract_version = some;
    to_string = λ j. "casm";
    compile_v1 = λ text version. some version;
    gunzip = λ bytes. none;
    parse_program = λ text. none;
    compile_v0 = λ program points. none;
  };
  block_lib = record {
    header_lib = record {
      validated_gas_prices = λ prices. 1;
      is_use_kzg_da = λ mode. true;
      parse_version = some;
    };
    concat_counts = λ a b c mode. a + b + c;
    latest_constants = record {
      enable_casm_hash_migration = true;
      min_sierra_version_for_sierra_gas = (1, 7, 0);
      others = 0;
    };
    constants_of = λ version. none;
    default_bouncer = 0;
  };
  simulation_lib = record {
    rpc_transaction = λ tx. some null;
    parse_initial_reads = λ j. some initial_reads;
  };
  blockifier = record {
    max_possible_fee = λ tx. 0;
    from_api = λ tx hash flags. some hash;
    execute_txs = λ reader manager context ts. record {
      results = outputs_of ts;
      block_state =
          some (record { get_initial_reads = some after_block; to_state_diff = some no_maps });
      executed_class_hashes = some (5 ∷ []);
    };
    set_and_compile = insert;
    get_sorted_l2_to_l1_messages = λ call. call ∷ suc call ∷ [];
  };
}

pub plain-IsBlockifier : IsBlockifier plain_exec.blockifier
plain-IsBlockifier = record { results_le = λ reader m x ts. omega (arith, outputs_of-length ts) }

abbrev pub plain_config : RpcVirtualBlockExecutorConfig ℕ
plain_config = record {
  prefetch_state = true;
  bouncer_config = 0;
  use_latest_versioned_constants = true;
}

abbrev pub sepolia : ChainInfo
sepolia = record {
  chain_id = "SN_SEPOLIA";
  fee_token_addresses = record { strk_fee_token_address = 1; eth_fee_token_address = 2 };
  is_l3 = false;
}

abbrev pub leaf_of : ℕ → LeafData
leaf_of a = record { nonce = a; class_hash = 5; storage_root = none }

abbrev pub proofs_for : List ContractStorageKeys → List (Map ℕ MerkleNode)
proofs_for [] = []
proofs_for (c ∷ cs) = ((c.contract_address, binary 1 2) ∷ []) ∷ proofs_for cs

abbrev pub answer_of : RpcStorageProofsQuery → StorageProof MerkleNode LeafData
answer_of q = record {
  classes_proof = [];
  nodes = [];
  contract_leaves_data = map leaf_of q.contract_addresses;
  contracts_storage_proofs = proofs_for q.contract_storage_keys;
  contracts_tree_root = 3;
  classes_tree_root = 4;
  block_hash = 5;
}

abbrev pub plain_proofs : ProofsLib ℕ ℕ ℕ ℕ (Map ℕ ℕ)
plain_proofs = record {
  facts_lib = record {
    inner_key = λ hash. hash;
    inner_value = λ hash node. ok hash;
    contract_leaf = λ nonce class_hash root. ok (nonce, class_hash);
    storage_leaf = λ address value. ok (address, value);
    class_leaf = λ hash. ok (hash, hash);
  };
  commitment_lib = record {
    is_contract_address = λ a. true;
    preimage_of = λ node. 1;
    flatten_preimages = λ m. m;
    actual_height = 251;
  };
  changes_lib = record {
    storage_diff = λ m. [];
    commit_block = λ db roots diff. none;
    write_forest = λ forest db. none;
    roots_of = λ forest. record { contracts_trie_root_hash = 0; classes_trie_root_hash = 0 };
    create_commitment_infos = λ old new db reads. none;
    extend_facts = λ a b. a;
  };
  get_contract_addresses = λ m. 77 ∷ [];
}

abbrev pub plain_casm : CasmLib ℕ ℕ ℕ ℕ
plain_casm = record {
  prime = 101;
  iter_data = λ class. int class ∷ [];
  segment_felt_sizes = λ class. 1;
  casm_hints = some;
  entry_points = λ class. 2;
  compiled_class_hash = λ casm. 30;
  to_bytes_be = λ n. n ∷ [];
}

abbrev pub plain_os : OsLib ℕ String ℕ (Map ℕ ℕ) (CasmContractClass ℕ ℕ ℕ) ℕ ℕ
plain_os = record {
  calculate_transaction_hash = λ chain tx. some 1234;
  central_info = λ output. 1;
  run_os = λ hints. some (length hints.os_block_inputs);
}

abbrev pub plain_factory : RpcRunnerFactory ℕ (Map ℕ (CompiledClasses ℕ ℕ ℕ))
plain_factory = record {
  node = reads_node;
  fetch_proof = λ block q. ok (answer_of q);
  chain_info = sepolia;
  contract_class_manager = [];
  runner_config = record {
    include_state_changes = false;
    virtual_block_executor_config = plain_config;
  };
}

-- The proof of a run is its number of messages.
abbrev pub count_messages : Option (RunnerOutput ℕ ℕ → Result ProverError ℕ)
count_messages = some (λ out. ok (length out.l2_to_l1_messages))

-- ===== src/Tests/WebProver.antt =====
-- The theorem on the web prover at a concrete node and concrete libraries.
use snip_36_prover_web.Prelude.{ℕ, String, [], ◌∷◌, some}
use snip_36_prover_web.Prelude.Result.{ok}
use snip_36_prover_web.Prelude.Maps.{Map, get, nat_key, pair_key}
use snip_36_prover_web.Core.Json.{null, str, obj, end, field, get as json_get}
use snip_36_prover_web.Core.Rpc.{Node}
use snip_36_prover_web.Reexecution.Classes.{CompiledClasses}
use snip_36_prover_web.Prover.SnosProver.{invoke}
use snip_36_prover_web.Prover.StorageProofs.Commitments.{CommitmentInfo}
use snip_36_prover_web.Prover.StorageProofs.Provider.{StateRoots}
use snip_36_prover_web.Prover.Runner.{ChainInfo, RunnerOutput}
use snip_36_prover_web.Prover.Runner.Factory.{ProofsLib}
use snip_36_prover_web.Prover.Config.{sepolia, ProverLib}
use snip_36_prover_web.WebProver.{ProveBlockArgs, WebLib}
use snip_36_prover_web.WebProver.VirtualOs.{ProveTransactionResult, ArtifactLib}
use snip_36_prover_web.Tests.Libraries.{
  invoke_tx, reads_node, plain_exec, answer_of, plain_proofs, plain_casm, plain_os,
}
use snip_36_prover_web.Prover.StorageProofs.Provider.{create_commitment_infos}

abbrev roots : StateRoots
roots = record { contracts_trie_root_hash = 7; classes_trie_root_hash = 8 }

abbrev one_info : CommitmentInfo (Map ℕ ℕ)
one_info = record { previous_root = 3; updated_root = 7; tree_height = 251; commitment_facts = [] }

-- A committer that commits.
abbrev committing_proofs : ProofsLib ℕ ℕ ℕ ℕ (Map ℕ ℕ)
committing_proofs = record plain_proofs {
  changes_lib = record {
    storage_diff = λ m. [];
    commit_block = λ db old diff. some 1;
    write_forest = λ forest db. some db;
    roots_of = λ forest. roots;
    create_commitment_infos = λ old new db reads. some (record {
      contracts_trie_commitment_info = one_info;
      classes_trie_commitment_info = one_info;
      storage_tries_commitment_infos = [];
    });
    extend_facts = λ a b. a;
  };
}

abbrev prover_lib :
    ProverLib ℕ String ℕ ℕ ℕ ℕ ℕ ℕ ℕ ℕ
      (Map ℕ (CompiledClasses ℕ ℕ ℕ))
      ℕ
      ℕ
      ℕ
      ℕ
      ℕ
      ℕ
      (Map ℕ ℕ)
      ℕ
      ℕ
      ℕ
      ℕ
      ℕ
      (ProveTransactionResult ℕ ℕ)
prover_lib = record {
  exec_lib = plain_exec;
  proofs_lib = committing_proofs;
  casm_lib = plain_casm;
  os_lib = plain_os;
  stwo_prove = some (λ out.
      ok (record { proof = 65 ∷ []; proof_facts = 1; l2_to_l1_messages = out.l2_to_l1_messages }));
  network = record {
    node_at = λ url. some reads_node;
    proofs_at = λ url block q. ok (answer_of q);
  };
  manager = [];
  default_bouncer = 0;
}

abbrev artifact_lib : ArtifactLib ℕ ℕ
artifact_lib = record {
  parse_address = λ address. some 1;
  from_utf8 = λ bytes. some "A";
  facts_to_value = λ facts. some null;
  messages_to_value = λ messages. some null;
}

abbrev web_lib : WebLib
web_lib = record {
  parse_transaction_json = λ j. some (invoke invoke_tx);
  chain_of = λ name. sepolia;
}

abbrev nonce_node : Node
nonce_node request = ok (obj (field "result" (str "0x2") end))

abbrev args : ProveBlockArgs
args = record {
  reference_block = 9;
  account_address = "0x4d";
  private_key = "0x63";
  chain_id = "SN_SEPOLIA";
  rpc_url = "http://localhost";
  calldata_strs = "0x1" ∷ [];
}

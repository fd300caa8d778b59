-- ===== src/Tests/Counter.antt =====
-- The theorems on the counter at concrete inputs.
use snip_36_prover_web.Prelude.{
  ℕ, ◌%◌, String, true, false, List, [], ◌∷◌, replicate, none, some, str_eq, if◌then◌else◌, ◌≡◌,
  refl, ap, arith,
}
use snip_36_prover_web.Prelude.Result.{Result, ok, err, unwrap_or, collect}
use snip_36_prover_web.Prelude.Words.{u64_mod}
use snip_36_prover_web.Prelude.Text.{as_bytes}
use snip_36_prover_web.Prelude.Hex.{hex_code}
use snip_36_prover_web.Prelude.Hex.RoundTrip.{parse_hex-hex}
use snip_36_prover_web.Prelude.Maps.{
  Map, get, insert, get-insert_self, get-insert_other, string_key,
}
use snip_36_prover_web.Felt.{prime}
use snip_36_prover_web.Felt.Sample.{sample, sample-IsField}
use snip_36_prover_web.Core.Json.{Json, str, obj, end, field, get as json_get, as_str}
use snip_36_prover_web.Core.Types.{Session}
use snip_36_prover_web.Core.Config.{Config, chain_id_felt}
use snip_36_prover_web.Core.Rpc.{
  Node, RpcError, json_rpc, call, text_field, get_nonce, get_nonce_at_block, add_invoke_transaction,
}
use snip_36_prover_web.Core.Signing.{felt_from_hex, sign, sign_and_build_payload}
use snip_36_prover_web.Counter.{increment_selector, cycle_calldata, expected_increment}
use snip_36_prover_web.Counter.Sessions.{SessionStore, IsSessionStore}
use snip_36_prover_web.Core.Sncast.{Deployer}
use snip_36_prover_web.Counter.Invoke.{
  DeployCounterResponse, deploy_succeeded, deploy_counter, ProofFiles, existing,
  SubmitProofResponse, proof_params, submit_proof,
}
use snip_36_prover_web.Counter.Cycle.{OpenCycle, ProveBlockQuery, exited, World, Completed}
use snip_36_prover_web.Core.Signing.Reading.{ReadsHex}
use snip_36_prover_web.Counter.Multicall.{
  decode_multicall, increment_call, total_increment, cycle_calldata-decodes,
}
use snip_36_prover_web.Counter.Submitted.{IsSubmitted, submit_proof-IsSubmitted}
use snip_36_prover_web.Counter.Opening.{IsDeployed, deploy_counter-IsDeployed}

sample-ReadsHex : ReadsHex sample
sample-ReadsHex = record { reads = λ n h. parse_hex-hex prime n (omega arith) }

address_read : sample.from_hex "0xc0" ≡ some 0xc0
unfolding hex_code
address_read = refl

selector_read :
    sample.from_hex increment_selector
    ≡ some 0x7a44dde9fea32737a5cf3f9683b3235138654aa2d189f6fe44af37a61dc60d
unfolding hex_code
selector_read = refl

-- Three calls of increment(5).
cycle_calldata-decodes_example :
    (felts : List ℕ) × (collect (felt_from_hex sample) (cycle_calldata "0xc0" 5 3) ≡ ok felts)
    × (decode_multicall felts
        ≡ some (
            replicate 3 (
              increment_call 0xc0 0x7a44dde9fea32737a5cf3f9683b3235138654aa2d189f6fe44af37a61dc60d
                5)))
    × (total_increment (
            replicate 3 (
              increment_call 0xc0 0x7a44dde9fea32737a5cf3f9683b3235138654aa2d189f6fe44af37a61dc60d
                5))
          % u64_mod
        ≡ expected_increment 5 3)
cycle_calldata-decodes_example =
    cycle_calldata-decodes sample sample-ReadsHex "0xc0" 0xc0
      0x7a44dde9fea32737a5cf3f9683b3235138654aa2d189f6fe44af37a61dc60d 5 3 address_read
      selector_read (omega arith) (omega arith)

-- The node refuses every transaction.
abbrev refusals : ℕ → Result RpcError String
refusals i = err (json_rpc (str "not yet"))

abbrev empty_session : Session
empty_session = record {
  account_address = none;
  account_deployed = false;
  contract_address = none;
  class_hash = none;
  last_invoke_tx = none;
  invoke_block = none;
  prove_block = none;
  proof_file = none;
  deploy_block = none;
  last_reference_block = none;
}

-- Sessions by their ids; one that is not there is empty.
abbrev plain_store : SessionStore (Map String Session)
plain_store = record {
  get_session = λ id st. unwrap_or (get id st) empty_session;
  update_session_with = λ id f st. insert id (f (unwrap_or (get id st) empty_session)) st;
}

plain-IsSessionStore : IsSessionStore plain_store
plain-IsSessionStore = record {
  same = λ id f st.
      ap (λ o. unwrap_or o empty_session)
        (get-insert_self id (f (unwrap_or (get id st) empty_session)) st);
  other = λ id other_id f st d.
      ap (λ o. unwrap_or o empty_session)
        (get-insert_other id other_id (f (unwrap_or (get id st) empty_session)) st d);
}

abbrev confirmed_at_seven : Json
confirmed_at_seven = obj (field "block_number" (str "0x7") end)

abbrev deployer : Deployer
deployer = record {
  declared = ok (some "0xc1");
  deploy = λ class_hash.
      ok
        (record { success = true; contract_address = some "0xc0"; transaction_hash = some "0xd0" });
}

contract_deploys :
    (x : DeployCounterResponse × Map String Session) × (deploy_counter plain_store deployer
        (λ h. ok confirmed_at_seven)
        []
        "u-1"
      ≡ ok x)
unfolding deploy_counter deploy_succeeded
contract_deploys = (_, refl)

deploy_counter-IsDeployed_example :
    IsDeployed plain_store
      (λ h. ok confirmed_at_seven)
      []
      "u-1"
      contract_deploys.0.0
      contract_deploys.0.1
deploy_counter-IsDeployed_example =
    deploy_counter-IsDeployed plain_store plain-IsSessionStore deployer (λ h. ok confirmed_at_seven)
      [] "u-1" contract_deploys.0.0 contract_deploys.0.1 contract_deploys.1

abbrev server : Config
server = record {
  rpc_url = "http://localhost";
  account_address = "0x1234";
  private_key = "0x63";
  chain_id = "SN_SEPOLIA";
  gateway_url = none;
  project_dir = "";
  output_dir = "output";
  deps_dir = "deps";
}

-- It gives a nonce, and takes any transaction.
abbrev plain_node : Node
plain_node request = ok (
    if str_eq (unwrap_or (text_field "method" request) "") "starknet_getNonce"
    then obj (field "result" (str "0x2") end)
    else obj (field "result" (obj (field "transaction_hash" (str "0xe0") end)) end))

abbrev world : World
world = record {
  output_dir_made = true;
  tx_written = true;
  prover = λ tx block. exited true;
  proof_exists = true;
  proof_size = 3;
  proof_file = some "AAAB";
  proof_facts_file = some "facts";
  from_str = λ text. some ("0x4" ∷ []);
  nodes = λ i. plain_node;
  wait_for_tx = λ tx_hash. ok confirmed_at_seven;
  read_node = plain_node;
}

abbrev cycle : OpenCycle
cycle = record { contract_address = "0xc0"; reference_block = 6 }

abbrev two_calls : ProveBlockQuery
two_calls = record { increment_amount = 5; increments_per_block = 2 }

abbrev proven_session : Session
proven_session = record empty_session {
  contract_address = some "0xc0";
  proof_file = some "u-1.proof";
}

abbrev files : ProofFiles
files = record {
  exists = λ path. true;
  read_proof = λ path. some "AAAB";
  read_proof_facts = λ path. some "facts";
  from_str = λ text. some ("0x4" ∷ []);
}

proof_submits :
    (response : SubmitProofResponse) × (submit_proof sample server plain_node files proven_session
      ≡ ok response)
unfolding hex_code submit_proof proof_params existing collect felt_from_hex chain_id_felt get_nonce
    get_nonce_at_block call json_get as_str sign sign_and_build_payload add_invoke_transaction
    text_field as_bytes
proof_submits = (_, refl)

submit_proof-IsSubmitted_example :
    IsSubmitted sample sample-IsField server plain_node files proven_session proof_submits.0
submit_proof-IsSubmitted_example =
    submit_proof-IsSubmitted sample sample-IsField server plain_node files proven_session
      proof_submits.0 proof_submits.1

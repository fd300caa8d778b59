-- ===== src/Tests/Health.antt =====
-- The health command of the counter at concrete inputs.
use snip_36_prover_web.Prelude.{
  ◌-◌, ◌^◌, String, true, false, List, [], ◌∷◌, none, some, str_eq, if◌then◌else◌, ◌≡◌, ◌↔◌, refl,
}
use snip_36_prover_web.Prelude.Result.{Result, ok, err, unwrap_or}
use snip_36_prover_web.Prelude.Hex.{hex_code}
use snip_36_prover_web.Core.Json.{
  Json, num, str, arr, obj, end, field, strings, get, as_str, as_u64, as_array,
}
use snip_36_prover_web.Core.Config.{Config}
use snip_36_prover_web.Core.Rpc.{
  Node, RpcError, http, call, block_number, chain_id, starknet_call, get_class,
  receipt_block_number, text_field,
}
use snip_36_prover_web.Counter.{counter_value}
use snip_36_prover_web.Counter.Health.{
  check_pass, check_fail, check_rpc, word_of, high_word, balance_wei, ulp_from, round_to, to_f64,
  is_enough, check_balance, check_oz_class, Tools, step_of, require, deploy_confirmed, deploy_flow,
  increment_flow, full_flow, check_full_flow, returned, exited, panicked, runs_full_flow,
  run_health,
}
use snip_36_prover_web.Counter.Health.Laws.{IsHealthy, run_health_iff}

abbrev config : Config
config = record {
  rpc_url = "http://node";
  account_address = "0xa";
  private_key = "0x63";
  chain_id = "SN_SEPOLIA";
  gateway_url = none;
  project_dir = ".";
  output_dir = "output";
  deps_dir = "deps";
}

abbrev answer : List String → String → Json
answer balance method =
    if str_eq method "starknet_blockNumber"
    then num 7
    else if str_eq method "starknet_call"
    then arr (strings balance)
    else str "SN_SEPOLIA"

-- A node whose account has that balance.
abbrev node_of : List String → Node
node_of balance request =
    ok (obj (field "result" (answer balance (unwrap_or (text_field "method" request) "")) end))

abbrev wealthy : Node
wealthy = node_of ("0xde0b6b3a7640000" ∷ "0x0" ∷ [])

abbrev no_tools : Tools
no_tools = record {
  sncast_in_path = false;
  scarb_in_path = false;
  build = err "scarb";
  declare = err "sncast";
  deploy = λ class_hash. err "sncast";
  invoke = λ contract_address. err "sncast";
}

abbrev silent : String → Result RpcError Json
silent tx_hash = err http

abbrev tools : Tools
tools = record {
  sncast_in_path = true;
  scarb_in_path = true;
  build = ok true;
  declare = ok (some "0xc1");
  deploy = λ class_hash. ok (some "0xc0", some "0xd1");
  invoke = λ contract_address. ok (some "0xd2");
}

abbrev confirms : String → Result RpcError Json
confirms tx_hash = ok (obj (field "block_number" (num 7) end))

run_health_iff_example :
    (run_health false false config wealthy tools confirms wealthy ≡ returned)
    ↔ IsHealthy false false config wealthy tools confirms wealthy
run_health_iff_example = run_health_iff false false config wealthy tools confirms wealthy

-- What a run on these nodes unfolds.
unfoldable run_code : Unit {0}
unfolding run_health check_rpc check_balance check_oz_class check_full_flow full_flow deploy_flow
    increment_flow require step_of deploy_confirmed runs_full_flow check_pass check_fail word_of
    high_word balance_wei is_enough to_f64 round_to ulp_from call block_number chain_id
    starknet_call get_class receipt_block_number text_field get as_str as_u64 as_array counter_value
    hex_code
run_code = tt

healthy_test : run_health false false config wealthy tools confirms wealthy ≡ returned
unfolding run_code
healthy_test = refl

-- All seven checks of the full flow pass.
full_flow_test : full_flow tools confirms wealthy ≡ ok 7
unfolding run_code
full_flow_test = refl

no_sncast_test : run_health false false config wealthy no_tools silent wealthy ≡ exited
unfolding run_code
no_sncast_test = refl

overflow_test : run_health true true config wealthy no_tools silent wealthy ≡ panicked
unfolding run_code
overflow_test = refl

-- The high word is added, not shifted: 2^128 wei count as one.
high_word_test :
    run_health false true config (node_of ("0x0" ∷ "0x1" ∷ [])) no_tools silent wealthy ≡ exited
unfolding run_code
high_word_test = refl

rounding_test : (is_enough (10 ^ 18 - 64) ≡ true) × (is_enough (10 ^ 18 - 65) ≡ false)
unfolding run_code
rounding_test = (refl, refl)

-- ===== src/Tests/Reexecution.antt =====
-- The theorems on crates/blockifier-reexecution-wasm at concrete nodes.
use snip_36_prover_web.Prelude.{ℕ, true, false, none, some, ◌≡◌, ◌↔◌, refl}
use snip_36_prover_web.Prelude.Result.{ok, err, ◌>>=◌}
use snip_36_prover_web.Core.Json.{null, num, as_u64}
use snip_36_prover_web.Reexecution.{
  number, pos, ReexecutionError, success, error, response, Node, Serde, RpcStateReader,
  request_body, nonce_params, storage_params, class_hash_params, get_nonce_at_async,
  get_storage_at_async, get_class_hash_at_async, send_rpc_request,
}
use snip_36_prover_web.Reexecution.Reads.{
  HasFelt, IsErrorOf, code_of, reads_iff, send_rpc_request-code,
}
use snip_36_prover_web.Reexecution.Classes.{
  ContractClass, sierra, ClassLib, is_declared_async, get_runnable_compiled_class_async,
  get_compiled_classes_async,
}
use snip_36_prover_web.Reexecution.Agreement.{
  HasClass, IsMissing, class_reply, is_declared_iff, runnable_of,
  get_runnable_compiled_class-agrees,
}

abbrev plain_serde : Serde ℕ
plain_serde = record {
  felt_json = num;
  felt_hex_string = λ n. "0x1";
  parse_felt = as_u64;
  parse_header = as_u64;
}

abbrev seven : RpcStateReader
seven = record { node = λ request. response (success (num 7)); block_id = number 5 }

-- A node that knows no contract.
abbrev empty_node : Node
empty_node = λ request. response (error (pos 20) "Contract not found" none)

abbrev plain_classes : ClassLib ℕ ℕ ℕ ℕ ℕ
plain_classes = record {
  parse_class = λ j. some (sierra 3);
  sierra_of = λ s. s;
  extract_version = some;
  to_string = λ j. "casm";
  compile_v1 = λ text version. some version;
  gunzip = λ bytes. none;
  parse_program = λ text. none;
  compile_v0 = λ program points. none;
}

reads_iff_example :
    ((get_nonce_at_async plain_serde seven 1 ≡ ok 7)
      ↔ HasFelt plain_serde
          (seven.node (request_body "starknet_getNonce" (nonce_params plain_serde (number 5) 1)))
          7)
    × ((get_storage_at_async plain_serde seven 1 2 ≡ ok 7)
        ↔ HasFelt plain_serde
            (seven.node
              (request_body "starknet_getStorageAt" (storage_params plain_serde (number 5) 1 2)))
            7)
    × ((get_class_hash_at_async plain_serde seven 1 ≡ ok 7)
        ↔ HasFelt plain_serde
            (seven.node
              (request_body "starknet_getClassHashAt" (class_hash_params plain_serde (number 5) 1)))
            7)
reads_iff_example = reads_iff plain_serde seven 1 2 7

send_rpc_request-code_example :
    (e : ReexecutionError) × (send_rpc_request empty_node "starknet_getNonce" null ≡ err e)
    × IsErrorOf "starknet_getNonce" "Contract not found" null none (pos 20) e
    × (code_of e ≡ some (pos 20))
send_rpc_request-code_example =
    send_rpc_request-code empty_node "starknet_getNonce" "Contract not found" null (pos 20) none
      refl

is_declared_iff_example :
    ((is_declared_async plain_serde plain_classes seven 9 ≡ ok true) ↔ (
      (class : ContractClass ℕ) × HasClass plain_serde plain_classes
        (class_reply plain_serde plain_classes seven 9)
        class))
    × ((is_declared_async plain_serde plain_classes seven 9 ≡ ok false)
        ↔ IsMissing plain_serde plain_classes (class_reply plain_serde plain_classes seven 9))
is_declared_iff_example = is_declared_iff plain_serde plain_classes seven 9

get_runnable_compiled_class-agrees_example :
    get_runnable_compiled_class_async plain_serde plain_classes seven 9
    ≡ (get_compiled_classes_async plain_serde plain_classes seven 9 >>= λ c. ok (runnable_of c))
get_runnable_compiled_class-agrees_example =
    get_runnable_compiled_class-agrees plain_serde plain_classes seven 9

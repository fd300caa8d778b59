-- ===== src/Reexecution.antt =====
-- crates/blockifier-reexecution-wasm/src: errors.rs and the requests of state_reader/
-- rpc_state_reader.rs. The HTTP client, serde's reading of a response and of a value, and the
-- printing of felts are outside: the node is the function from a request to the reply as it is read.
pub mod Classes
pub mod Reads
pub mod Agreement
pub mod Headers
use snip_36_prover_web.Prelude.{
  ℕ, zero, suc, String, Bool, true, false, List, Option, none, some, ◌==◌, if◌then◌else◌,
}
use snip_36_prover_web.Prelude.Result.{Result, ok, err, ◌>>=◌, ok_or}
use snip_36_prover_web.Core.Json.{Json, num, str, obj, end, field}

pub data BlockId : Type 0 where
  latest : BlockId
  pending : BlockId
  hash : ℕ → BlockId
  number : ℕ → BlockId

-- An i32; `negsuc n` is -(n + 1).
pub data RpcErrorCode : Type 0 where
  pos : ℕ → RpcErrorCode
  negsuc : ℕ → RpcErrorCode

abbrev pub rpc_error_contract_address_not_found : RpcErrorCode
rpc_error_contract_address_not_found = pos 20

abbrev pub rpc_error_block_not_found : RpcErrorCode
rpc_error_block_not_found = pos 24

abbrev pub rpc_class_hash_not_found : RpcErrorCode
rpc_class_hash_not_found = pos 28

abbrev pub rpc_transaction_execution_error : RpcErrorCode
rpc_transaction_execution_error = pos 41

abbrev pub rpc_error_invalid_params : RpcErrorCode
rpc_error_invalid_params = negsuc 32601

abbrev pub same_code : RpcErrorCode → RpcErrorCode → Bool
same_code (pos a) (pos b) = a == b
same_code (negsuc a) (negsuc b) = a == b
same_code _ _ = false

-- The texts of other crates' errors are dropped; a panic of the source is one more error.
pub data ReexecutionError : Type 0 where
  panic : ReexecutionError
  rpc_request : ReexecutionError
  rpc_status : ℕ → ReexecutionError
  rpc_parse : ReexecutionError
  block_not_found : ReexecutionError
  contract_address_not_found : ReexecutionError
  class_hash_not_found : ReexecutionError
  invalid_params : String → String → Option Json → Json → ReexecutionError
  transaction_execution : String → ReexecutionError
  unexpected_rpc : RpcErrorCode → String → ReexecutionError
  serde : ReexecutionError
  state : String → ReexecutionError
  compiled_class : String → ReexecutionError

-- `RpcResponse`: a result, or `RpcSpecError`.
pub data RpcResponse : Type 0 where
  success : Json → RpcResponse
  error : RpcErrorCode → String → Option Json → RpcResponse

-- What comes back of a request: no response, one whose status is no success, a body that is no
-- `RpcResponse`, or a response.
pub data Reply : Type 0 where
  failed : Reply
  bad_status : ℕ → Reply
  unreadable : Reply
  response : RpcResponse → Reply

abbrev pub Node : Type 0
Node = Json → Reply

unfoldable pub request_body : String → Json → Json
request_body method params = obj (
    field "jsonrpc" (str "2.0")
      (field "id" (num 0) (field "method" (str method) (field "params" params end))))

unfoldable pub error_of_code :
    String → Json → RpcErrorCode → String → Option Json → ReexecutionError
error_of_code method params code message info =
    if same_code code rpc_error_block_not_found
    then block_not_found
    else if same_code code rpc_error_contract_address_not_found
    then contract_address_not_found
    else if same_code code rpc_class_hash_not_found
    then class_hash_not_found
    else if same_code code rpc_transaction_execution_error
    then transaction_execution message
    else if same_code code rpc_error_invalid_params
    then invalid_params method message info params
    else unexpected_rpc code message

unfoldable pub read_reply : String → Json → Reply → Result ReexecutionError Json
read_reply method params failed = err rpc_request
read_reply method params (bad_status s) = err (rpc_status s)
read_reply method params unreadable = err rpc_parse
read_reply method params (response (success result)) = ok result
read_reply method params (response (error code message info)) =
    err (error_of_code method params code message info)

unfoldable pub send_rpc_request : Node → String → Json → Result ReexecutionError Json
send_rpc_request node method params = read_reply method params (node (request_body method params))

-- How serde writes felts, and reads felts and headers (`H`).
pub record Serde (H : Type 0) : Type 0 where
  pub felt_json : ℕ → Json
  pub felt_hex_string : ℕ → String
  pub parse_felt : Json → Option ℕ
  pub parse_header : Json → Option H

-- `RpcStateReader`, with its configuration's URL as the node behind it.
pub record RpcStateReader : Type 0 where
  pub node : Node
  pub block_id : BlockId

module _ {H : Type 0} (lib : Serde H) where
  unfoldable pub block_id_json : BlockId → Json
  block_id_json latest = str "latest"
  block_id_json pending = str "pending"
  block_id_json (hash h) = obj (field "block_hash" (lib.felt_json h) end)
  block_id_json (number n) = obj (field "block_number" (num n) end)

  unfoldable pub block_params : BlockId → Json
  block_params block_id = obj (field "block_id" (block_id_json block_id) end)

  unfoldable pub nonce_params : BlockId → ℕ → Json
  nonce_params block_id contract_address = obj (
      field "block_id" (block_id_json block_id)
        (field "contract_address" (lib.felt_json contract_address) end))

  unfoldable pub storage_params : BlockId → ℕ → ℕ → Json
  storage_params block_id contract_address key = obj (
      field "contract_address" (lib.felt_json contract_address)
        (field "key" (lib.felt_json key) (field "block_id" (block_id_json block_id) end)))

  unfoldable pub class_hash_params : BlockId → ℕ → Json
  class_hash_params block_id contract_address = obj (
      field "contract_address" (lib.felt_json contract_address)
        (field "block_id" (block_id_json block_id) end))

  unfoldable pub class_params : BlockId → ℕ → Json
  class_params block_id class_hash = obj (
      field "block_id" (block_id_json block_id)
        (field "class_hash" (str (lib.felt_hex_string class_hash)) end))

  unfoldable pub get_block_header_async : RpcStateReader → Result ReexecutionError H
  get_block_header_async reader = do
    json ←
        send_rpc_request reader.node "starknet_getBlockWithTxHashes" (block_params reader.block_id)
    ok_or (lib.parse_header json) serde

  -- A contract that is not there reads as the default.
  unfoldable pub value_or_default : Result ReexecutionError Json → Result ReexecutionError ℕ
  value_or_default (ok value) = ok_or (lib.parse_felt value) serde
  value_or_default (err contract_address_not_found) = ok 0
  value_or_default (err e) = err e

  unfoldable pub get_nonce_at_async : RpcStateReader → ℕ → Result ReexecutionError ℕ
  get_nonce_at_async reader contract_address = value_or_default (
      send_rpc_request reader.node "starknet_getNonce"
        (nonce_params reader.block_id contract_address))

  unfoldable pub get_storage_at_async : RpcStateReader → ℕ → ℕ → Result ReexecutionError ℕ
  get_storage_at_async reader contract_address key = value_or_default (
      send_rpc_request reader.node "starknet_getStorageAt"
        (storage_params reader.block_id contract_address key))

  unfoldable pub get_class_hash_at_async : RpcStateReader → ℕ → Result ReexecutionError ℕ
  get_class_hash_at_async reader contract_address = value_or_default (
      send_rpc_request reader.node "starknet_getClassHashAt"
        (class_hash_params reader.block_id contract_address))

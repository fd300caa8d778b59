-- ===== src/Core/Rpc.antt =====
-- crates/snip36-core/src/rpc.rs: the JSON-RPC client. The node and the network are outside: they
-- are the function from a request to its response, at each round of a polling loop. Errors keep
-- the JSON that the source prints into their text.
pub mod Polling
pub mod Waiting
pub mod Nonces
use snip_36_prover_web.Prelude.{
  ℕ, zero, suc, ◌+◌, ◌*◌, String, Bool, true, false, ◌&&◌, ◌||◌, List, [], ◌∷◌, Option, none, some,
  leb, ltb, str_eq, if◌then◌else◌,
}
use snip_36_prover_web.Prelude.Result.{Result, ok, err, ◌>>=◌, ok_or, unwrap_or}
use snip_36_prover_web.Prelude.Words.{u64_mod}
use snip_36_prover_web.Prelude.Hex.{parse_hex}
use snip_36_prover_web.Core.Json.{
  Json, num, str, arr, obj, end, field, strings, get, as_str, as_u64, as_array,
}
use snip_36_prover_web.Core.Rpc.Polling.{poll_until, Timing}

pub data RpcError : Type 0 where
  http : RpcError
  json_rpc : Json → RpcError
  unexpected : Json → RpcError
  tx_timeout : String → ℕ → RpcError
  tx_rejected : Json → RpcError
  block_timeout : ℕ → ℕ → RpcError

-- `call_raw`: the response to a request, or a failure of the transport.
abbrev pub Node : Type 0
Node = Json → Result RpcError Json

request : String → Json → Json
request method params = obj (
    field "jsonrpc" (str "2.0")
      (field "method" (str method) (field "params" params (field "id" (num 1) end))))

-- An `error` field makes the response an error, whatever its value.
read_response : Json → Result RpcError Json
read_response resp = elim (get "error" resp) [
  | some error ↦ err (json_rpc error)
  | none ↦ ok_or (get "result" resp) (unexpected resp)
]

unfoldable pub call : Node → String → Json → Result RpcError Json
unfolding request read_response
call node method params = do resp ← node (request method params); read_response resp

unfoldable pub block_number : Node → Result RpcError ℕ
block_number node = do
  result ← call node "starknet_blockNumber" (obj end)
  ok_or (as_u64 result) (unexpected result)

unfoldable pub chain_id : Node → Result RpcError String
chain_id node = do
  result ← call node "starknet_chainId" (obj end)
  ok_or (as_str result) (unexpected result)

parse_nonce : Json → String → Result RpcError ℕ
parse_nonce result hex_str = ok_or (parse_hex u64_mod hex_str) (unexpected result)

unfoldable pub get_nonce_at_block : Node → String → Json → Result RpcError ℕ
unfolding parse_nonce
get_nonce_at_block node address block_id = do
  result ←
      call node "starknet_getNonce"
        (obj (field "block_id" block_id (field "contract_address" (str address) end)))
  hex_str ← ok_or (as_str result) (unexpected result)
  parse_nonce result hex_str

-- The answer for the pre-confirmed block, or else that for the latest.
unfoldable pub get_nonce : Node → String → Result RpcError ℕ
get_nonce node address = elim (get_nonce_at_block node address (str "pre_confirmed")) [
  | ok n ↦ ok n
  | err _ ↦ get_nonce_at_block node address (str "latest")
]

-- `filter_map(as_str)`: what is no text is dropped.
pub texts : List Json → List String
texts [] = []
texts (v ∷ vs) = let rest = texts vs in elim (as_str v) [ none ↦ rest | some s ↦ s ∷ rest ]

unfoldable pub starknet_call : Node → String → String → List String → Result RpcError (List String)
unfolding texts
starknet_call node contract_address selector calldata = do
  result ← call node "starknet_call" (
      obj (
        field "request"
          (obj (
            field "contract_address" (str contract_address) (
              field "entry_point_selector" (str selector)
                (field "calldata" (arr (strings calldata)) end))))
          (field "block_id" (str "latest") end)))
  items ← ok_or (as_array result) (unexpected result)
  ok (texts items)

unfoldable pub get_transaction : Node → String → Result RpcError Json
get_transaction node tx_hash =
    call node "starknet_getTransactionByHash" (obj (field "transaction_hash" (str tx_hash) end))

unfoldable pub get_receipt : Node → String → Result RpcError Json
get_receipt node tx_hash =
    call node "starknet_getTransactionReceipt" (obj (field "transaction_hash" (str tx_hash) end))

unfoldable pub get_class : Node → String → Result RpcError Json
get_class node class_hash =
    call node "starknet_getClass"
      (obj (field "block_id" (str "latest") (field "class_hash" (str class_hash) end)))

unfoldable pub text_field : String → Json → Option String
text_field k j = elim (get k j) [ none ↦ none | some v ↦ as_str v ]

unfoldable pub add_invoke_transaction : Node → Json → Result RpcError String
unfolding text_field
add_invoke_transaction node invoke_tx = do
  result ←
      call node "starknet_addInvokeTransaction" (obj (field "invoke_transaction" invoke_tx end))
  ok_or (text_field "transaction_hash" result) (unexpected result)

unfoldable pub is_text : Option String → String → Bool
is_text none s = false
is_text (some t) s = str_eq t s

unfoldable pub is_missing : Option String → Bool
is_missing none = true
is_missing (some t) = false

unfoldable pub has_field : String → Json → Bool
has_field k j = elim (get k j) [ none ↦ false | some v ↦ true ]

-- What a receipt decides: an error, an answer, or nothing yet.
unfoldable pub judge_receipt : Json → Option (Result RpcError Json)
judge_receipt receipt =
    let status = unwrap_or (text_field "finality_status" receipt) "" in
    let execution_status = text_field "execution_status" receipt in
    if str_eq status "REJECTED" || is_text execution_status "REVERTED"
    then some (err (tx_rejected receipt))
    else if (str_eq status "ACCEPTED_ON_L2" || str_eq status "ACCEPTED_ON_L1")
        && (has_field "block_number" receipt
            && (is_missing execution_status || is_text execution_status "SUCCEEDED"))
    then some (ok receipt)
    else none

-- One round of `wait_for_tx`: a failed request decides nothing.
unfoldable pub attempt_receipt : String → Node → Option (Result RpcError Json)
attempt_receipt tx_hash node = elim (get_receipt node tx_hash) [
  | err _ ↦ none
  | ok receipt ↦ judge_receipt receipt
]

unfoldable pub wait_for_tx : (ℕ → Node) → Timing → String → ℕ → ℕ → Option (Result RpcError Json)
wait_for_tx nodes timing tx_hash timeout_secs poll_interval_secs =
    poll_until timing timeout_secs poll_interval_secs
      (λ round. attempt_receipt tx_hash (nodes round)) (err (tx_timeout tx_hash timeout_secs))

-- One round of `wait_for_block_after`.
unfoldable pub attempt_block : ℕ → Node → Option (Result RpcError ℕ)
attempt_block after node = elim (block_number node) [
  | err _ ↦ none
  | ok current ↦ if ltb after current then some (ok current) else none
]

unfoldable pub wait_for_block_after : (ℕ → Node) → Timing → ℕ → ℕ → ℕ → Option (Result RpcError ℕ)
wait_for_block_after nodes timing after timeout_secs poll_interval_secs =
    poll_until timing timeout_secs poll_interval_secs (λ round. attempt_block after (nodes round))
      (err (block_timeout after timeout_secs))

-- The block number of a receipt, given as a number or as a hexadecimal text.
number_or_hex : Json → Option ℕ
number_or_hex bn = elim (as_u64 bn) [
  | some n ↦ some n
  | none ↦ elim (as_str bn) [ some s ↦ parse_hex u64_mod s | none ↦ none ]
]

unfoldable pub receipt_block_number : Json → Option ℕ
unfolding number_or_hex
receipt_block_number receipt = elim (get "block_number" receipt) [
  | none ↦ none
  | some bn ↦ number_or_hex bn
]

-- ===== src/Reexecution/Reads.antt =====
-- What the requests of crates/blockifier-reexecution-wasm/src/state_reader/rpc_state_reader.rs make of
-- a reply.
use snip_36_prover_web.Prelude.{
  ℕ, String, true, false, Bool-cases, ◌≢◌, Option, none, some, ◌≡◌, ◌↔◌, Option-cases, ap, ◌⊎◌, inl,
  inr, refl, arith,
}
use snip_36_prover_web.Prelude.Result.{ok, err, ok_or, ok_injective}
use snip_36_prover_web.Core.Json.{Json}
use snip_36_prover_web.Reexecution.{
  RpcErrorCode, pos, negsuc, same_code, ReexecutionError, block_not_found,
  contract_address_not_found, class_hash_not_found, invalid_params, transaction_execution,
  unexpected_rpc, serde, success, error, Node, Reply, failed, bad_status, unreadable, response,
  request_body, error_of_code, read_reply, send_rpc_request, Serde, RpcStateReader, nonce_params,
  storage_params, class_hash_params, value_or_default, get_nonce_at_async, get_storage_at_async,
  get_class_hash_at_async,
}

-- The code and, where the error keeps it, the message of the error response behind an error.
unfoldable pub code_of : ReexecutionError → Option RpcErrorCode
code_of block_not_found = some (pos 24)
code_of contract_address_not_found = some (pos 20)
code_of class_hash_not_found = some (pos 28)
code_of (transaction_execution message) = some (pos 41)
code_of (invalid_params method message info params) = some (negsuc 32601)
code_of (unexpected_rpc code message) = some code
code_of _ = none

same_code-eq : (a b : RpcErrorCode) → same_code a b ≡ true → a ≡ b
same_code-eq (pos a) (pos b) h = ground arith
same_code-eq (negsuc a) (negsuc b) h = ground arith
same_code-eq (pos a) (negsuc b) h = cc
same_code-eq (negsuc a) (pos b) h = cc

pub code_of-error_of_code :
    (method message : String) (params : Json) (info : Option Json) (code : RpcErrorCode)
    → code_of (error_of_code method params code message info) ≡ some code
unfolding code_of error_of_code
code_of-error_of_code method message params info (pos c) = ground arith
code_of-error_of_code method message params info (negsuc c) = ground arith

module _ {H : Type 0} (lib : Serde H) where
  -- The reply is a value that reads as the number, or says that there is no such contract.
  abbrev pub HasFelt : Reply → ℕ → Type 0
  HasFelt reply n =
      ((value : Json) × (reply ≡ response (success value)) × (lib.parse_felt value ≡ some n))
      ⊎ ((message : String) × (info : Option Json) × (reply
            ≡ response (error (pos 20) message info))
          × (n ≡ 0))

  value_or_default_err :
      (e : ReexecutionError) (n : ℕ)
      → value_or_default lib (err e) ≡ ok n
      → (e ≡ contract_address_not_found) × (n ≡ 0)
  unfolding value_or_default
  value_or_default_err contract_address_not_found n h = (refl, ground arith)
  value_or_default_err e n h = absurd cc

  from_error :
      (method message : String) (params : Json) (info : Option Json) (code : RpcErrorCode) (n : ℕ)
      → value_or_default lib (err (error_of_code method params code message info)) ≡ ok n
      → HasFelt (response (error code message info)) n
  unfolding code_of
  from_error method message params info code n h =
      let (missing, none_there) = value_or_default_err _ n h in
      let same : code ≡ pos 20 =
        cc (code_of-error_of_code method message params info code, ap code_of missing) in
      inr (message, info, ap (λ c. response (error c message info)) same, none_there)

  from_value :
      (value : Json) (n : ℕ)
      → ok_or (lib.parse_felt value) serde ≡ ok n
      → lib.parse_felt value ≡ some n
  from_value value n h = elim (Option-cases (lib.parse_felt value)) [
    | inl unread ↦ absurd (cc (rw unread at h))
    | inr (a, read) ↦ rw read (ap some (ok_injective (rw read at h)))
  ]

  read_reply-HasFelt :
      (method : String) (params : Json) (reply : Reply) (n : ℕ)
      → value_or_default lib (read_reply method params reply) ≡ ok n
      → HasFelt reply n
  unfolding value_or_default read_reply
  read_reply-HasFelt method params failed n h = absurd cc
  read_reply-HasFelt method params (bad_status s) n h = absurd cc
  read_reply-HasFelt method params unreadable n h = absurd cc
  read_reply-HasFelt method params (response (success v)) n h = inl (v, refl, from_value v n h)
  read_reply-HasFelt method params (response (error code message info)) n h =
      from_error method message params info code n h

  HasFelt-read_reply :
      (method : String) (params : Json) (reply : Reply) (n : ℕ)
      → HasFelt reply n
      → value_or_default lib (read_reply method params reply) ≡ ok n
  unfolding value_or_default read_reply error_of_code
  HasFelt-read_reply method params reply n (inl (v, e, p)) = rw (e, p) refl
  HasFelt-read_reply method params reply n (inr (message, info, e, z)) = rw (e, z) refl

  value_or_default_iff :
      (method : String) (params : Json) (reply : Reply) (n : ℕ)
      → (value_or_default lib (read_reply method params reply) ≡ ok n) ↔ HasFelt reply n
  value_or_default_iff method params reply n =
      (read_reply-HasFelt method params reply n, HasFelt-read_reply method params reply n)

  -- Each of the three reads of the state returns a number exactly when the reply to its request is
  -- a value that reads as the number, or the error that there is no such contract, and the number
  -- is zero.
  pub reads_iff :
      (reader : RpcStateReader) (address key n : ℕ)
      → ((get_nonce_at_async lib reader address ≡ ok n)
          ↔ HasFelt
              (reader.node
                (request_body "starknet_getNonce" (nonce_params lib reader.block_id address)))
              n)
        × ((get_storage_at_async lib reader address key ≡ ok n)
            ↔ HasFelt
                (reader.node (
                  request_body "starknet_getStorageAt"
                    (storage_params lib reader.block_id address key)))
                n)
        × ((get_class_hash_at_async lib reader address ≡ ok n)
            ↔ HasFelt
                (reader.node (
                  request_body "starknet_getClassHashAt"
                    (class_hash_params lib reader.block_id address)))
                n)
  unfolding get_nonce_at_async get_storage_at_async get_class_hash_at_async send_rpc_request
  reads_iff reader address key n =
      (value_or_default_iff _ _ _ n, value_or_default_iff _ _ _ n, value_or_default_iff _ _ _ n)

-- What the error of a code is: one of its own for 24, 20, 28, 41 and -32602, and an unexpected error
-- with the code for every other.
pub record IsErrorOf (method message : String) (params : Json) (info : Option Json)
    (code : RpcErrorCode) (e : ReexecutionError) : Type 0 where
  pub block : code ≡ pos 24 → e ≡ block_not_found
  pub contract : code ≡ pos 20 → e ≡ contract_address_not_found
  pub class : code ≡ pos 28 → e ≡ class_hash_not_found
  pub execution : code ≡ pos 41 → e ≡ transaction_execution message
  pub invalid : code ≡ negsuc 32601 → e ≡ invalid_params method message info params
  pub other :
      code ≢ pos 24
      → code ≢ pos 20
      → code ≢ pos 28
      → code ≢ pos 41
      → code ≢ negsuc 32601
      → e ≡ unexpected_rpc code message

same_code-false : (a b : RpcErrorCode) → a ≢ b → same_code a b ≡ false
same_code-false a b n = elim (Bool-cases (same_code a b)) [
  | inl t ↦ absurd (n (same_code-eq a b t))
  | inr f ↦ f
]

error_of_code-IsErrorOf :
    (method message : String) (params : Json) (info : Option Json) (code : RpcErrorCode)
    → IsErrorOf method message params info code (error_of_code method params code message info)
unfolding error_of_code
error_of_code-IsErrorOf method message params info code = record {
  block = λ e. rw e refl;
  contract = λ e. rw e refl;
  class = λ e. rw e refl;
  execution = λ e. rw e refl;
  invalid = λ e. rw e refl;
  other = λ a b c d f.
      rw
        (
          same_code-false code (pos 24) a,
          same_code-false code (pos 20) b,
          same_code-false code (pos 28) c,
          same_code-false code (pos 41) d,
          same_code-false code (negsuc 32601) f,
          error_of_code,
        )
        refl;
}

-- An error response of the node is read as the error of its code, from which the code is read back:
-- the codes 20, 24, 28, 41 and -32602 have errors of their own, and every other an unexpected error
-- with the code.
pub send_rpc_request-code :
    (node : Node) (method message : String) (params : Json) (code : RpcErrorCode)
    (info : Option Json)
    → node (request_body method params) ≡ response (error code message info)
    → (e : ReexecutionError) × (send_rpc_request node method params ≡ err e)
      × IsErrorOf method message params info code e
      × (code_of e ≡ some code)
unfolding send_rpc_request read_reply
send_rpc_request-code node method message params code info h = (
  error_of_code method params code message info,
  rw h refl,
  error_of_code-IsErrorOf method message params info code,
  code_of-error_of_code method message params info code,
)

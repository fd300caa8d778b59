-- ===== src/Counter/Invoke.antt =====
-- invoke_increment, read_counter, deploy_counter and submit_proof of apps/counter/src/routes.rs. A
-- handler that looks into the sessions again after it awaited takes the state of each look. The
-- node, processes and their output, regular expressions, files and serde_json's parser are outside.
use snip_36_prover_web.Prelude.{ℕ, String, Bool, List, [], ◌∷◌, Option, none, some, if◌then◌else◌}
use snip_36_prover_web.Prelude.Result.{Result, ok, err, ◌>>=◌, ok_or, map_err, collect}
use snip_36_prover_web.Felt.{FeltLib}
use snip_36_prover_web.Core.Json.{Json, num, str, obj, end, field, get}
use snip_36_prover_web.Core.Types.{Session, SubmitParams}
use snip_36_prover_web.Core.Config.{Config, chain_id_felt}
use snip_36_prover_web.Core.Proof.{trim}
use snip_36_prover_web.Core.Rpc.{
  Node, RpcError, starknet_call, get_nonce, add_invoke_transaction, receipt_block_number,
  text_field,
}
use snip_36_prover_web.Core.Sncast.{Deployer}
use snip_36_prover_web.Core.Signing.{felt_from_hex, sign_and_build_payload}
use snip_36_prover_web.Prelude.Http.{HttpError, bad_request, internal_error, gateway_timeout}
use snip_36_prover_web.Core.Transactions.{invoke_json}
use snip_36_prover_web.Counter.{
  increment_selector, get_counter_selector, playground_bounds, increment_calldata, counter_value,
}
use snip_36_prover_web.Counter.Sessions.{
  SessionStore, set_last_invoke_tx, set_invoke_block, set_deployed,
}

pub record InvokeRequest : Type 0 where
  pub session_id : String
  pub amount : ℕ
  pub signature_r : String
  pub signature_s : String
  pub nonce : ℕ

pub record InvokeResponse : Type 0 where
  pub tx_hash : String
  pub block_number : Option ℕ
  pub warning : Option String

-- The transaction of `invoke_increment`, or what the session lacks.
unfoldable pub invoke_tx : Session → InvokeRequest → Result HttpError Json
invoke_tx session req = do
  contract_address ← ok_or session.contract_address (bad_request "No counter contract deployed")
  account_address ← ok_or session.account_address (bad_request "No account deployed")
  ok (
      invoke_json account_address (increment_calldata contract_address req.amount) req.nonce
        playground_bounds (req.signature_r ∷ req.signature_s ∷ []))

unfoldable pub invoke_payload : Json → Json
invoke_payload tx = obj (
    field "jsonrpc" (str "2.0") (
      field "method" (str "starknet_addInvokeTransaction")
        (field "params" (obj (field "invoke_transaction" tx end)) (field "id" (num 1) end))))

-- The transaction's hash in the response.
unfoldable pub submitted_hash : Json → Result HttpError String
submitted_hash resp = elim (get "error" resp) [
  | some error ↦ err (bad_request "error")
  | none ↦ elim (get "result" resp) [
    | none ↦ err (internal_error "Unexpected RPC response")
    | some result ↦
        ok_or (text_field "transaction_hash" result) (internal_error "Unexpected RPC response")
  ]
]

-- What the handler does before it waits: the hash.
unfoldable pub submit_invoke : Session → Node → InvokeRequest → Result HttpError String
submit_invoke session node req = do
  tx ← invoke_tx session req
  resp ← map_err (λ e. internal_error "RPC") (node (invoke_payload tx))
  submitted_hash resp

unfoldable pub confirmed_block : Result RpcError Json → Option ℕ
confirmed_block (ok receipt) = receipt_block_number receipt
confirmed_block (err e) = none

unfoldable pub invoke_response : String → Result RpcError Json → InvokeResponse
invoke_response tx_hash (ok receipt) = record {
  tx_hash = tx_hash;
  block_number = receipt_block_number receipt;
  warning = none;
}
invoke_response tx_hash (err e) = record {
  tx_hash = tx_hash;
  block_number = none;
  warning = some "Tx submitted but not yet confirmed";
}

module _ {St : Type 0} (store : SessionStore St) where
  unfoldable pub record_block : String → Option ℕ → St → St
  record_block session_id none st = st
  record_block session_id (some block) st =
      store.update_session_with session_id (set_invoke_block block) st

  -- `before` is the state that is read; `others` is what other requests do while this one waits.
  unfoldable pub invoke_increment :
      Node
      → (String → Result RpcError Json)
      → (St → St)
      → St
      → InvokeRequest
      → Result HttpError (InvokeResponse × St)
  invoke_increment node wait_for_tx others before req = do
    tx_hash ← submit_invoke (store.get_session req.session_id before) node req
    let submitted =
        others (store.update_session_with req.session_id (set_last_invoke_tx tx_hash) before)
    let receipt = wait_for_tx tx_hash
    ok (
      invoke_response tx_hash receipt,
      record_block req.session_id (confirmed_block receipt) submitted,
    )

-- The response of `read_counter`.
unfoldable pub read_counter : Node → String → Result HttpError ℕ
read_counter node contract_address = do
  result ←
      map_err (λ e. internal_error "RPC")
        (starknet_call node contract_address get_counter_selector [])
  ok (counter_value result)

pub record DeployCounterResponse : Type 0 where
  pub class_hash : String
  pub contract_address : String
  pub tx_hash : String
  pub block_number : Option ℕ

unfoldable pub deploy_succeeded : Bool → Result HttpError (Unit {0})
deploy_succeeded success = if success then ok tt else err (internal_error "Counter deploy failed")

module _ {St : Type 0} (store : SessionStore St) where
  -- `later` is the state after the waiting. The wait for the next block changes nothing.
  unfoldable pub deploy_counter :
      Deployer
      → (String → Result RpcError Json)
      → St
      → String
      → Result HttpError (DeployCounterResponse × St)
  deploy_counter deployer wait_for_tx later session_id = do
    declare_output ← map_err internal_error deployer.declared
    class_hash ← ok_or declare_output (internal_error "Declare failed")
    deploy_output ← map_err internal_error (deployer.deploy class_hash)
    _ ← deploy_succeeded deploy_output.success
    contract_address ← ok_or deploy_output.contract_address (internal_error "Deploy failed")
    tx_hash ←
        ok_or deploy_output.transaction_hash
          (internal_error "Deploy succeeded but no transaction_hash in output")
    receipt ← map_err (λ e. gateway_timeout "not confirmed") (wait_for_tx tx_hash)
    let block_number = receipt_block_number receipt
    ok (
      record {
        class_hash = class_hash;
        contract_address = contract_address;
        tx_hash = tx_hash;
        block_number = block_number;
      },
      store.update_session_with session_id (set_deployed contract_address class_hash block_number)
          later,
    )

-- The files of a proof, as they are found under the session's path.
pub record ProofFiles : Type 0 where
  pub exists : String → Bool
  pub read_proof : String → Option String
  pub read_proof_facts : String → Option String
  pub from_str : String → Option (List String)

unfoldable pub existing : ProofFiles → String → Result HttpError (Unit {0})
existing files proof_file =
    if files.exists proof_file then ok tt else err (bad_request "No proof file available")

pub record SubmitProofResponse : Type 0 where
  pub tx_hash : Option String
  pub local_tx_hash : Option String

module _ (F : FeltLib) where
  -- The parameters that `submit_proof` signs: one increment, by the configured account.
  unfoldable pub proof_params : Config → Node → ProofFiles → Session → Result HttpError SubmitParams
  proof_params config node files session = do
    proof_file ← ok_or session.proof_file (bad_request "No proof file available")
    _ ← existing files proof_file
    contract_address ← ok_or session.contract_address (bad_request "No counter contract in session")
    proof ← ok_or (files.read_proof proof_file) (internal_error "Failed to read proof file")
    facts_json ←
        ok_or (files.read_proof_facts proof_file) (internal_error "Failed to read proof_facts file")
    facts_hex ← ok_or (files.from_str facts_json) (internal_error "Invalid proof_facts JSON")
    proof_facts ← map_err internal_error (collect (felt_from_hex F) facts_hex)
    contract ← map_err internal_error (felt_from_hex F contract_address)
    selector ← map_err internal_error (felt_from_hex F increment_selector)
    sender ← map_err internal_error (felt_from_hex F config.account_address)
    private_key ← map_err internal_error (felt_from_hex F config.private_key)
    chain_id ← map_err (λ e. internal_error "chain id") (chain_id_felt F config)
    nonce ← map_err (λ e. internal_error "RPC") (get_nonce node config.account_address)
    ok (record {
      sender_address = sender;
      private_key = private_key;
      calldata = 1 ∷ contract ∷ selector ∷ 1 ∷ 1 ∷ [];
      proof_base64 = trim proof;
      proof_facts = proof_facts;
      nonce = F.from_uint nonce;
      chain_id = chain_id;
      resource_bounds = playground_bounds;
    })

  unfoldable pub submit_proof :
      Config → Node → ProofFiles → Session → Result HttpError SubmitProofResponse
  submit_proof config node files session = do
    params ← proof_params config node files session
    signed ← map_err (λ e. internal_error "signing") (sign_and_build_payload F params)
    rpc_tx_hash ←
        map_err (λ e. record { status = 502; message = "RPC submission failed" })
          (add_invoke_transaction node signed.1)
    ok (record { tx_hash = some rpc_tx_hash; local_tx_hash = some (F.to_hex signed.0) })

-- ===== src/Counter/Cycle.antt =====
-- prove_block of apps/counter/src/routes.rs and the task that it spawns: construct the transaction,
-- prove it at the session's reference block, sign it again with the proof facts, submit it until the
-- node takes it, wait for it and read the counter. The task's outcome is what it sends last on its
-- event stream; its progress lines are left out. The prover's process, the files, serde_json's
-- parser and the node are outside.
use snip_36_prover_web.Prelude.{
  ℕ, String, Bool, ◌&&◌, List, [], ◌∷◌, Option, none, some, ltb, if◌then◌else◌,
}
use snip_36_prover_web.Prelude.Result.{Result, ok, err, ◌>>=◌, ok_or, map_err, collect, unwrap_or}
use snip_36_prover_web.Prelude.Retry.{retry}
use snip_36_prover_web.Felt.{FeltLib}
use snip_36_prover_web.Core.Json.{Json, num, obj, end, field}
use snip_36_prover_web.Core.Types.{default, Session, SubmitParams}
use snip_36_prover_web.Core.Config.{Config, ConfigError, chain_id_felt}
use snip_36_prover_web.Core.Proof.{ProofError, trim, parse_proof_facts_json}
use snip_36_prover_web.Core.Rpc.{
  Node, RpcError, json_rpc, get_nonce_at_block, add_invoke_transaction, starknet_call,
  receipt_block_number,
}
use snip_36_prover_web.Core.Signing.{
  InvokeV3, Signature, SignError, compute_invoke_v3_tx_hash, sign, felt_from_hex,
  sign_and_build_payload,
}
use snip_36_prover_web.Prelude.Http.{HttpError, bad_request}
use snip_36_prover_web.Core.Transactions.{unproven_tx, invoke_json}
use snip_36_prover_web.Counter.{
  get_counter_selector, cycle_calldata, expected_increment, counter_value,
}
use snip_36_prover_web.Counter.Sessions.{SessionStore, set_last_reference_block}

pub record ProveBlockQuery : Type 0 where
  pub increment_amount : ℕ  -- u64
  pub increments_per_block : ℕ  -- u32

abbrev pub max_attempts : ℕ
max_attempts = 20

pub data CycleError : Type 0 where
  bad_calldata : String → CycleError
  bad_sender : String → CycleError
  bad_private_key : String → CycleError
  bad_chain_id : ConfigError → CycleError
  no_nonce : RpcError → CycleError
  signing_failed : SignError → CycleError
  no_output_dir : CycleError
  tx_not_written : CycleError
  prover_not_spawned : CycleError
  proof_failed : CycleError
  no_proof : CycleError
  no_proof_facts : CycleError
  invalid_proof_facts : ProofError → CycleError
  bad_proof_facts : String → CycleError
  submission_failed : RpcError → CycleError
  retries_exhausted : CycleError
  not_confirmed : RpcError → CycleError

-- What the request is for: the contract and the reference block.
pub record OpenCycle : Type 0 where
  pub contract_address : String
  pub reference_block : ℕ

unfoldable pub or_deploy_block : Session → Option ℕ
or_deploy_block session = elim session.last_reference_block [
  | some block ↦ some block
  | none ↦ session.deploy_block
]

unfoldable pub open_cycle : Session → Result HttpError OpenCycle
open_cycle session = do
  contract_address ← ok_or session.contract_address (bad_request "No counter contract deployed")
  reference_block ← ok_or (or_deploy_block session) (bad_request "Deploy block not tracked")
  ok (record { contract_address = contract_address; reference_block = reference_block })

pub record Constructed : Type 0 where
  pub tx : InvokeV3
  pub private_key : ℕ
  pub signature : Signature
  pub tx_json : Json

-- The transaction that is proven; it has the default fee bounds.
unfoldable pub cycle_tx : ℕ → List ℕ → ℕ → ℕ → InvokeV3
cycle_tx sender calldata chain_id nonce = unproven_tx default sender calldata chain_id nonce

unfoldable pub at_block : ℕ → Json
at_block n = obj (field "block_number" (num n) end)

module _ (F : FeltLib) where
  unfoldable pub construct :
      Config → Node → OpenCycle → ProveBlockQuery → Result CycleError Constructed
  construct config node cycle params = do
    let calldata_strs =
        cycle_calldata cycle.contract_address params.increment_amount params.increments_per_block
    calldata ← map_err bad_calldata (collect (felt_from_hex F) calldata_strs)
    sender ← map_err bad_sender (felt_from_hex F config.account_address)
    private_key ← map_err bad_private_key (felt_from_hex F config.private_key)
    chain_id ← map_err bad_chain_id (chain_id_felt F config)
    nonce ←
        map_err no_nonce
          (get_nonce_at_block node config.account_address (at_block cycle.reference_block))
    let tx = cycle_tx sender calldata chain_id (F.from_uint nonce)
    sig ← map_err signing_failed (sign F private_key (compute_invoke_v3_tx_hash F tx))
    ok (record {
      tx = tx;
      private_key = private_key;
      signature = sig;
      tx_json =
          invoke_json config.account_address calldata_strs nonce default
            (F.to_hex sig.r ∷ F.to_hex sig.s ∷ []);
    })

pub data ProverRun : Type 0 where
  not_spawned : ProverRun
  exited : Bool → ProverRun

-- What the task finds: the files after the prover's run, and the node's answers at each attempt.
pub record World : Type 0 where
  pub output_dir_made : Bool
  pub tx_written : Bool
  pub prover : Json → ℕ → ProverRun  -- of the transaction and the reference block
  pub proof_exists : Bool
  pub proof_size : ℕ
  pub proof_file : Option String
  pub proof_facts_file : Option String
  pub from_str : String → Option (List String)
  pub nodes : ℕ → Node
  pub wait_for_tx : String → Result RpcError Json
  pub read_node : Node

unfoldable pub run_prover : World → Json → ℕ → Result CycleError (Unit {0})
run_prover w tx_json block =
    if w.output_dir_made
    then if w.tx_written
      then elim (w.prover tx_json block) [
        | not_spawned ↦ err prover_not_spawned
        | exited success ↦ if success && w.proof_exists then ok tt else err proof_failed
      ]
      else err tx_not_written
    else err no_output_dir

-- The body of the submission loop: an outcome, or nothing where it sleeps and tries again.
unfoldable pub judge_submission : ℕ → Result RpcError String → Option (Result CycleError String)
judge_submission attempt (ok accepted_tx_hash) = some (ok accepted_tx_hash)
judge_submission attempt (err (json_rpc msg)) =
    if ltb attempt max_attempts then none else some (err (submission_failed (json_rpc msg)))
judge_submission attempt (err e) = some (err (submission_failed e))

unfoldable pub submit_with_retries : (ℕ → Result RpcError String) → Result CycleError String
submit_with_retries replies =
    retry (λ i. judge_submission i (replies i)) (err retries_exhausted) max_attempts 1

-- An answer that is an error reads as zero.
unfoldable pub read_value : Result RpcError (List String) → ℕ
read_value (ok result) = counter_value result
read_value (err e) = 0

pub record Completed : Type 0 where
  pub tx_hash : String
  pub counter_value : ℕ
  pub proof_size : ℕ
  pub increment : ℕ

module _ (F : FeltLib) where
  unfoldable pub submit_params : World → Constructed → Result CycleError SubmitParams
  submit_params w made = do
    proof ← ok_or w.proof_file no_proof
    facts_str ← ok_or w.proof_facts_file no_proof_facts
    facts_hex ← map_err invalid_proof_facts (parse_proof_facts_json w.from_str facts_str)
    facts ← map_err bad_proof_facts (collect (felt_from_hex F) facts_hex)
    ok (record {
      sender_address = made.tx.sender_address;
      private_key = made.private_key;
      calldata = made.tx.calldata;
      proof_base64 = trim proof;
      proof_facts = facts;
      nonce = made.tx.nonce;
      chain_id = made.tx.chain_id;
      resource_bounds = default;
    })

  -- The task up to the receipt of the transaction: its hash, and its block or 0.
  unfoldable pub included :
      Config → Node → World → OpenCycle → ProveBlockQuery → Result CycleError (String × ℕ)
  included config node w cycle params = do
    made ← construct F config node cycle params
    _ ← run_prover w made.tx_json cycle.reference_block
    signed_params ← submit_params w made
    signed ← map_err signing_failed (sign_and_build_payload F signed_params)
    rpc_tx_hash ← submit_with_retries (λ i. add_invoke_transaction (w.nodes i) signed.1)
    receipt ← map_err not_confirmed (w.wait_for_tx rpc_tx_hash)
    ok (rpc_tx_hash, unwrap_or (receipt_block_number receipt) 0)

  -- `later` is the state of the sessions once the transaction is included.
  unfoldable pub prove_task :
      {St : Type 0}
      → SessionStore St
      → Config
      → Node
      → World
      → St
      → String
      → OpenCycle
      → ProveBlockQuery
      → Result CycleError (Completed × St)
  prove_task store config node w later session_id cycle params = do
    (tx_hash, block) ← included config node w cycle params
    ok (
      record {
        tx_hash = tx_hash;
        counter_value =
            read_value (starknet_call w.read_node cycle.contract_address get_counter_selector []);
        proof_size = w.proof_size;
        increment = expected_increment params.increment_amount params.increments_per_block;
      },
      store.update_session_with session_id (set_last_reference_block block) later,
    )

-- ===== src/CoinFlip/Play.antt =====
-- The task that play_coinflip (apps/coinflip/src/routes.rs) spawns: construct the transaction that
-- is proven, prove it, read the settlement message, submit the proof, wait, settle. What the
-- server sends on its event stream is the outcome; its progress lines are left out. The prover's
-- process, the files, serde_json's parser, the gateway and the node are outside.
pub mod Consistent
use Prim.Native.String.{◌++◌}
use snip_36_prover_web.Prelude.{
  ℕ, String, Bool, true, false, ◌&&◌, List, [], ◌∷◌, map, Option, none, some, get_elem?, length,
  leb, str_eq, if◌then◌else◌,
}
use snip_36_prover_web.Prelude.Result.{Result, ok, err, ◌>>=◌, ok_or, map_err, collect, unwrap_or}
use snip_36_prover_web.Prelude.Hex.{hex}
use snip_36_prover_web.Felt.{FeltLib}
use snip_36_prover_web.Core.Json.{
  Json, num, str, arr, obj, nil, end, field, strings, get, as_array, as_str,
}
use snip_36_prover_web.Core.Types.{ResourceBounds, zero_fee, default, to_rpc_json, SubmitParams}
use snip_36_prover_web.Core.Config.{Config, ConfigError, chain_id_felt}
use snip_36_prover_web.Core.Proof.{ProofError, trim, parse_proof_facts_json}
use snip_36_prover_web.Core.Rpc.{Node, RpcError, get_nonce_at_block, receipt_block_number, texts}
use snip_36_prover_web.Core.Signing.{
  InvokeV3, Signature, SignError, compute_invoke_v3_tx_hash, sign, felt_from_hex,
  sign_and_build_payload,
}
use snip_36_prover_web.Core.Transactions.{unproven_tx, invoke_json}
use snip_36_prover_web.CoinFlip.State.{Deployment, session_felt_of}
use snip_36_prover_web.CoinFlip.Deposit.{Sncast, InvokeResult, sncast_invoke}
use snip_36_prover_web.CoinFlip.Reveal.{OpenPlay}
use snip_36_prover_web.CoinFlip.Submission.{Reply, Outcome, accepted, submit_payload}
use snip_36_prover_web.CoinFlip.Settlement.{Settlement, read_settlement}

pub data PlayError : Type 0 where
  bad_calldata : String → PlayError
  bad_sender : String → PlayError
  bad_private_key : String → PlayError
  bad_chain_id : ConfigError → PlayError
  no_nonce : RpcError → PlayError
  signing_failed : SignError → PlayError
  tx_not_written : PlayError
  prover_not_spawned : PlayError
  proof_failed : PlayError
  no_proof : PlayError
  no_proof_facts : PlayError
  invalid_proof_facts : ProofError → PlayError
  bad_proof_facts : String → PlayError
  not_submitted : Outcome → PlayError
  not_confirmed : RpcError → PlayError

-- What Phase 1 makes: the transaction for the prover, and what Phase 3 reuses.
pub record Constructed : Type 0 where
  pub tx : InvokeV3
  pub private_key : ℕ
  pub signature : Signature
  pub tx_json : Json

-- PLAY_SELECTOR of selectors.rs.
abbrev pub play_selector : String
play_selector = "0x21c4a0db2b08b026c4e31bf76d5dd9b92aa54c0978df57474355786073775e8"

unfoldable pub play_calldata : OpenPlay → List String
play_calldata play =
    "0x1"
    ∷ play.deployment.contract_address
    ∷ play_selector
    ∷ "0x3"
    ∷ hex play.seed_block
    ∷ play.player
    ∷ hex play.bet
    ∷ []

unfoldable pub block_id : ℕ → Json
block_id n = obj (field "block_number" (num n) end)

unfoldable pub standard_tx : ℕ → List ℕ → ℕ → ℕ → InvokeV3
standard_tx sender calldata chain_id nonce = unproven_tx zero_fee sender calldata chain_id nonce

module _ (F : FeltLib) where
  unfoldable pub proven_json : String → List String → ℕ → Signature → Json
  proven_json account_address calldata_strs nonce sig =
      invoke_json account_address calldata_strs nonce zero_fee
        (F.to_hex sig.r ∷ F.to_hex sig.s ∷ [])

  unfoldable pub construct : Config → Node → OpenPlay → Result PlayError Constructed
  construct config node play = do
    let calldata_strs = play_calldata play
    calldata ← map_err bad_calldata (collect (felt_from_hex F) calldata_strs)
    sender ← map_err bad_sender (felt_from_hex F config.account_address)
    private_key ← map_err bad_private_key (felt_from_hex F config.private_key)
    chain_id ← map_err bad_chain_id (chain_id_felt F config)
    nonce ←
        map_err no_nonce (get_nonce_at_block node config.account_address (block_id play.seed_block))
    let tx = standard_tx sender calldata chain_id (F.from_uint nonce)
    sig ← map_err signing_failed (sign F private_key (compute_invoke_v3_tx_hash F tx))
    ok (record {
      tx = tx;
      private_key = private_key;
      signature = sig;
      tx_json = proven_json config.account_address calldata_strs nonce sig;
    })

pub data ProverRun : Type 0 where
  not_spawned : ProverRun
  exited : Bool → ProverRun

-- What the task finds: the files after the prover's run, and the answers of the outside world.
pub record World : Type 0 where
  pub tx_written : Bool
  pub prover : Json → ℕ → ProverRun  -- of the transaction and the reference block
  pub proof_size : ℕ
  pub messages : Option Json
  pub proof_file : Option String
  pub proof_facts_file : Option String
  pub from_str : String → Option (List String)
  pub replies : Json → ℕ → Reply
  pub wait_for_tx : String → Result RpcError Json
  pub bank : Option Deployment
  pub sncast : Sncast

pub record PlayResult : Type 0 where
  pub settled : Settlement
  pub bet_label : String
  pub tx_hash : String
  pub settle_tx_hash : String
  pub proof_size : ℕ
  pub seed : String
  pub player : String

unfoldable pub run_prover : World → Json → ℕ → Result PlayError (Unit {0})
run_prover w tx_json block =
    if w.tx_written
    then elim (w.prover tx_json block) [
      | not_spawned ↦ err prover_not_spawned
      | exited success ↦ if success then ok tt else err proof_failed
    ]
    else err tx_not_written

-- Phase 5 reports no failure: without a bank or a hash, the settlement's hash is empty.
unfoldable pub settle : World → String → String → String
settle w session_id seed_arg = elim w.bank [
  | none ↦ ""
  | some bank ↦
      elim (sncast_invoke w.sncast bank.contract_address "settle"
        (session_felt_of session_id ++ " " ++ seed_arg)) [
          | err _ ↦ ""
          | ok result ↦ unwrap_or result.tx_hash ""
        ]
]

unfoldable pub accepted_by_gateway : Outcome → Result PlayError (Unit {0})
accepted_by_gateway accepted = ok tt
accepted_by_gateway outcome = err (not_submitted outcome)

module _ (F : FeltLib) where
  unfoldable pub submit_params : World → Constructed → Result PlayError SubmitParams
  submit_params w made = do
    proof ← ok_or w.proof_file no_proof
    facts_str ← ok_or w.proof_facts_file no_proof_facts
    facts_hex ← map_err invalid_proof_facts (parse_proof_facts_json w.from_str facts_str)
    facts ← map_err bad_proof_facts (collect (felt_from_hex F) facts_hex)
    ok (record {
      sender_address = made.tx.sender_address;
      private_key = made.private_key;
      calldata = made.tx.calldata;
      proof_base64 = trim proof;
      proof_facts = facts;
      nonce = made.tx.nonce;
      chain_id = made.tx.chain_id;
      resource_bounds = default;
    })

  unfoldable pub play_task : Config → Node → World → String → OpenPlay → Result PlayError PlayResult
  play_task config node w session_id play = do
    made ← construct F config node play
    _ ← run_prover w made.tx_json play.seed_block
    params ← submit_params w made
    signed ← map_err signing_failed (sign_and_build_payload F params)
    _ ← accepted_by_gateway (submit_payload (w.replies signed.1))
    let tx_hash = F.to_hex signed.0
    _ ← map_err not_confirmed (w.wait_for_tx tx_hash)
    ok (record {
      settled = read_settlement w.messages;
      bet_label = if leb play.bet 0 then "heads" else "tails";
      tx_hash = tx_hash;
      settle_tx_hash = settle w session_id (hex play.seed_block);
      proof_size = w.proof_size;
      seed = hex play.seed_block;
      player = play.player;
    })

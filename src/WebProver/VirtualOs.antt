-- ===== src/WebProver/VirtualOs.antt =====
-- crates/snip36-virtual-os/src/lib.rs: a prover of the default configuration, for one transaction. The
-- reading of an address and of UTF-8, and serde's writing of facts and messages are outside.
use snip_36_prover_web.Prelude.{ℕ, String, List, Option, none, some}
use snip_36_prover_web.Prelude.Result.{Result, ok, ◌>>=◌, ok_or, map_err}
use snip_36_prover_web.Core.Json.{Json}
use snip_36_prover_web.Core.Proof.{trim}
use snip_36_prover_web.Prover.Errors.{ProverError}
use snip_36_prover_web.Prover.SnosProver.{RpcTransaction}
use snip_36_prover_web.Prover.Config.{ChainId, ProverConfig, default_prover_config}

pub record VirtualOsConfig : Type 0 where
  pub rpc_url : String
  pub block_number : ℕ
  pub strk_fee_token : Option String
  pub chain_id : ChainId
  pub transaction : RpcTransaction

pub record VirtualOsArtifacts : Type 0 where
  pub proof : String
  pub proof_facts : Json
  pub l2_to_l1_messages : Json

-- `ProveTransactionResult`; the proof is its bytes.
pub record ProveTransactionResult (ProofFacts Msg : Type 0) : Type 0 where
  pub proof : List ℕ
  pub proof_facts : ProofFacts
  pub l2_to_l1_messages : List Msg

-- The causes that are reported as one report.
pub data VirtualOsError : Type 0 where
  bad_fee_token : VirtualOsError
  not_proven : ProverError → VirtualOsError
  proof_not_text : VirtualOsError
  not_written : VirtualOsError

pub record ArtifactLib (ProofFacts Msg : Type 0) : Type 0 where
  pub parse_address : String → Option ℕ
  pub from_utf8 : List ℕ → Option String
  pub facts_to_value : ProofFacts → Option Json
  pub messages_to_value : List Msg → Option Json

module _ {ProofFacts Msg Bouncer : Type 0} (lib : ArtifactLib ProofFacts Msg)
    (default_bouncer : Bouncer) where
  unfoldable pub fee_token : Option String → Result VirtualOsError (Option ℕ)
  fee_token none = ok none
  fee_token (some address) = do
    token ← ok_or (lib.parse_address address) bad_fee_token
    ok (some token)

  unfoldable pub prover_config : VirtualOsConfig → Option ℕ → ProverConfig Bouncer
  prover_config config token = record (default_prover_config default_bouncer) {
    rpc_node_url = config.rpc_url;
    chain_id = config.chain_id;
    strk_fee_token_address = token;
  }

  unfoldable pub artifacts_of :
      ProveTransactionResult ProofFacts Msg → Result VirtualOsError VirtualOsArtifacts
  artifacts_of result = do
    proof ← ok_or (lib.from_utf8 result.proof) proof_not_text
    proof_facts ← ok_or (lib.facts_to_value result.proof_facts) not_written
    messages ← ok_or (lib.messages_to_value result.l2_to_l1_messages) not_written
    ok (record { proof = trim proof; proof_facts = proof_facts; l2_to_l1_messages = messages })

  -- `prove` is the prover of a configuration, at a block.
  unfoldable pub run_virtual_os :
      (ProverConfig Bouncer
        → ℕ
        → RpcTransaction
        → Result ProverError (ProveTransactionResult ProofFacts Msg))
      → VirtualOsConfig
      → Result VirtualOsError VirtualOsArtifacts
  run_virtual_os prove config = do
    token ← fee_token config.strk_fee_token
    result ←
        map_err not_proven
          (prove (prover_config config token) config.block_number config.transaction)
    artifacts_of result

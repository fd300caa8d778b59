-- ===== src/WebProver/ProvenBlock.antt =====
-- What a result of prove_block (crates/snip36-web-prover/src/lib.rs) rests on, down to the node.
use snip_36_prover_web.Prelude.{ℕ, String, true, none, ◌⊎◌, List, Option, some, ◌≡◌}
use snip_36_prover_web.Prelude.Result.{Result, ok, collect}
use snip_36_prover_web.Prelude.Maps.{Eq}
use snip_36_prover_web.Felt.{FeltLib}
use snip_36_prover_web.Core.Types.{zero_fee}
use snip_36_prover_web.Core.Proof.{trim}
use snip_36_prover_web.Core.Rpc.{Node, get_nonce_at_block}
use snip_36_prover_web.Core.Signing.{
  Signature, chain_id_felt, compute_invoke_v3_tx_hash, sign, felt_from_hex,
}
use snip_36_prover_web.Core.Signing.Written.{IsWritten}
use snip_36_prover_web.Core.Transactions.{unproven_tx}
use snip_36_prover_web.Prover.SnosProver.{RpcTransaction, MaxFee}
use snip_36_prover_web.Prover.Config.{ChainId, ProverConfig, ProverLib, prove_at}
use snip_36_prover_web.Prover.Config.Proven.{IsProvenAt}
use snip_36_prover_web.WebProver.{ProveBlockArgs, ProveBlockResult, WebLib, reference}
use snip_36_prover_web.WebProver.VirtualOs.{
  VirtualOsConfig, VirtualOsArtifacts, VirtualOsError, ProveTransactionResult, ArtifactLib,
  run_virtual_os,
}

-- The transaction that is signed: its parts are those of the arguments, and its nonce is the account's
-- at the reference block; it has no fee and no proof.
pub record IsSigned (F : FeltLib) (rpc : Node) (args : ProveBlockArgs) (result : ProveBlockResult)
    : Type 0 where
  pub sender : ℕ
  pub calldata : List ℕ
  pub private_key : ℕ
  pub nonce : ℕ
  pub tx_hash : ℕ
  pub signature : Signature
  pub calldata_read : collect (felt_from_hex F) args.calldata_strs ≡ ok calldata
  pub sender_read : felt_from_hex F args.account_address ≡ ok sender
  pub key_read : felt_from_hex F args.private_key ≡ ok private_key
  pub nonce_read :
      get_nonce_at_block rpc args.account_address (reference args.reference_block) ≡ ok nonce
  pub hash :
      compute_invoke_v3_tx_hash F
        (unproven_tx zero_fee sender calldata (chain_id_felt F args.chain_id) (F.from_uint nonce))
      ≡ tx_hash
  pub signed : sign F private_key tx_hash ≡ ok signature
  pub written :
      IsWritten F
        (chain_id_felt F args.chain_id)
        result.tx_json
        (unproven_tx zero_fee sender calldata (chain_id_felt F args.chain_id) (F.from_uint nonce))
        signature
  pub hash_reported : result.tx_hash ≡ F.to_hex tx_hash
  pub signature_reported : result.signature ≡ (F.to_hex signature.r, F.to_hex signature.s)

module _
    {G W C Bouncer S A P V0 V1 T M Call Msg K V F' Preimage Facts Seg Hints Points E Pie
      ProofFacts : Type 0}
    ⦃eq_key : Eq K⦄
    (lib : ProverLib G W C Bouncer S A P V0 V1 T M Call Msg K V F' Preimage Facts Seg Hints Points E
      Pie
      (ProveTransactionResult ProofFacts Msg))
    (max_possible_fee : MaxFee) (artifact_lib : ArtifactLib ProofFacts Msg) where
  -- `run_virtual_os` on the prover of the libraries.
  abbrev pub virtual_os : VirtualOsConfig → Result VirtualOsError VirtualOsArtifacts
  virtual_os = run_virtual_os artifact_lib lib.default_bouncer (prove_at lib max_possible_fee)

  -- The configuration of a prover: of the URL, the chain and the fee token, and else the defaults: fee
  -- fields are checked, state changes are included, and the state is prefetched.
  pub record IsProverConfig (url : String) (chain_id : ChainId) (token : Option ℕ)
      (config : ProverConfig Bouncer) : Type 0 where
    pub at_url : config.rpc_node_url ≡ url
    pub on_chain : config.chain_id ≡ chain_id
    pub paid_in : config.strk_fee_token_address ≡ token
    pub checked : config.validate_zero_fee_fields ≡ true
    pub includes : config.runner_config.include_state_changes ≡ true
    pub prefetches : config.runner_config.virtual_block_executor_config.prefetch_state ≡ true

  -- The artifacts are those of a proof of the transaction at a block, by a prover at the URL and on the
  -- chain, of the fee token at the address.
  pub record IsRunAt (url : String) (chain_id : ChainId) (address : Option String)
      (block_number : ℕ) (transaction : RpcTransaction) (artifacts : VirtualOsArtifacts)
      : Type 0 where
    pub token : Option ℕ
    pub config : ProverConfig Bouncer
    pub proof : ProveTransactionResult ProofFacts Msg
    pub token_read :
        ((address ≡ none) × (token ≡ none))
        ⊎ ((a : String) × (n : ℕ) × (address ≡ some a)
            × (artifact_lib.parse_address a ≡ some n)
            × (token ≡ some n))
    pub configured : IsProverConfig url chain_id token config
    pub proven : IsProvenAt lib max_possible_fee config block_number transaction proof
    pub text : String
    pub proof_text : artifact_lib.from_utf8 proof.proof ≡ some text
    pub proof_written : artifacts.proof ≡ trim text
    pub facts_written : artifact_lib.facts_to_value proof.proof_facts ≡ some artifacts.proof_facts
    pub messages_written :
        artifact_lib.messages_to_value proof.l2_to_l1_messages ≡ some artifacts.l2_to_l1_messages

  pub record IsProvenBlock (F : FeltLib) (web_lib : WebLib) (rpc : Node) (args : ProveBlockArgs)
      (result : ProveBlockResult) : Type 0 where
    pub signed : IsSigned F rpc args result
    pub transaction : RpcTransaction
    pub read : web_lib.parse_transaction_json result.tx_json ≡ some transaction
    pub artifacts : VirtualOsArtifacts
    pub run :
        IsRunAt args.rpc_url
          (web_lib.chain_of args.chain_id)
          (some "0x04718f5a0fc34cc1af16a1cdee98ffb20c31f5cd61d6ab07201858f4287c938d")
          args.reference_block
          transaction
          artifacts
    pub reported :
        (result.proof ≡ trim artifacts.proof)
        × (result.proof_facts ≡ artifacts.proof_facts)
        × (result.messages ≡ artifacts.l2_to_l1_messages)

-- ===== src/Counter/Completed.antt =====
-- A cycle that prove_block (apps/counter/src/routes.rs) completes was proven, submitted and included,
-- and the transaction submitted is the one proven.
use snip_36_prover_web.Prelude.{ℕ, String, true, List, ◌≡◌}
use snip_36_prover_web.Prelude.Result.{ok, collect, unwrap_or}
use snip_36_prover_web.Felt.{FeltLib, IsField}
use snip_36_prover_web.Core.Json.{Json}
use snip_36_prover_web.Core.Types.{SubmitParams}
use snip_36_prover_web.Core.Config.{Config, chain_id_felt}
use snip_36_prover_web.Core.Signing.Reading.{ReadsHex}
use snip_36_prover_web.Core.Signing.Payload.{IsVerifiable}
use snip_36_prover_web.Core.Signing.Written.{IsWritten}
use snip_36_prover_web.Core.Rpc.{
  Node, get_nonce_at_block, add_invoke_transaction, receipt_block_number,
}
use snip_36_prover_web.Core.Signing.{
  compute_invoke_v3_tx_hash, sign, submitted_tx, sign_and_build_payload, felt_from_hex,
}
use snip_36_prover_web.Counter.{cycle_calldata}
use snip_36_prover_web.Counter.Cycle.{
  ProveBlockQuery, OpenCycle, Constructed, World, exited, at_block, cycle_tx,
}

-- The transaction that is signed for the prover: its parts are read from the request and the
-- configuration, and its nonce is the account's at the reference block, of a transaction with no
-- proof.
pub record IsConstructed (F : FeltLib) (config : Config) (node : Node) (cycle : OpenCycle)
    (params : ProveBlockQuery) (made : Constructed) : Type 0 where
  pub sender : ℕ
  pub calldata : List ℕ
  pub chain_id : ℕ
  pub nonce : ℕ
  pub calldata_read :
      collect
        (felt_from_hex F)
        (cycle_calldata cycle.contract_address params.increment_amount params.increments_per_block)
      ≡ ok calldata
  pub sender_read : felt_from_hex F config.account_address ≡ ok sender
  pub key_read : felt_from_hex F config.private_key ≡ ok made.private_key
  pub chain_read : chain_id_felt F config ≡ ok chain_id
  pub nonce_read :
      get_nonce_at_block node config.account_address (at_block cycle.reference_block) ≡ ok nonce
  pub built : made.tx ≡ cycle_tx sender calldata chain_id (F.from_uint nonce)
  pub signed : sign F made.private_key (compute_invoke_v3_tx_hash F made.tx) ≡ ok made.signature
  pub written : IsWritten F chain_id made.tx_json made.tx made.signature

module _ (F : FeltLib) (L : IsField F) (H : ReadsHex F) where
  -- What a transaction that was included rests on.
  pub record IsIncluded (config : Config) (node : Node) (w : World) (cycle : OpenCycle)
      (params : ProveBlockQuery) (tx_hash : String) (block : ℕ) : Type 0 where
    pub made : Constructed
    pub signed_params : SubmitParams
    pub hash : ℕ
    pub payload : Json
    pub attempt : ℕ
    pub receipt : Json
    pub constructed : IsConstructed F config node cycle params made
    pub proven : w.prover made.tx_json cycle.reference_block ≡ exited true
    pub signed : sign_and_build_payload F signed_params ≡ ok (hash, payload)
    pub verifiable : IsVerifiable F L signed_params hash payload
    pub same :
        submitted_tx F signed_params ≡ record made.tx { proof_facts = signed_params.proof_facts }
    pub accepted : add_invoke_transaction (w.nodes attempt) payload ≡ ok tx_hash
    pub confirmed : w.wait_for_tx tx_hash ≡ ok receipt
    pub at : unwrap_or (receipt_block_number receipt) 0 ≡ block

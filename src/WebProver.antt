-- ===== src/WebProver.antt =====
-- crates/snip36-web-prover/src/lib.rs: a call signed with no fee, and proven at a block in the virtual
-- OS. serde's reading of a transaction and of an id of a chain are outside.
pub mod VirtualOs
pub mod ProvenBlock
use snip_36_prover_web.Prelude.{ℕ, String, List, [], ◌∷◌, Option, some}
use snip_36_prover_web.Prelude.Result.{Result, ok, err, ◌>>=◌, ok_or, map_err, collect}
use snip_36_prover_web.Felt.{FeltLib}
use snip_36_prover_web.Core.Json.{Json, num, obj, end, field}
use snip_36_prover_web.Core.Types.{zero_fee, strk_token}
use snip_36_prover_web.Core.Proof.{trim}
use snip_36_prover_web.Core.Rpc.{Node, RpcError, get_nonce_at_block}
use snip_36_prover_web.Core.Signing.{
  InvokeV3, SignError, chain_id_felt, compute_invoke_v3_tx_hash, sign, felt_from_hex,
}
use snip_36_prover_web.Core.Transactions.{unproven_tx, invoke_json}
use snip_36_prover_web.Prover.SnosProver.{RpcTransaction}
use snip_36_prover_web.Prover.Config.{ChainId}
use snip_36_prover_web.WebProver.VirtualOs.{VirtualOsConfig, VirtualOsArtifacts, VirtualOsError}

pub record ProveBlockArgs : Type 0 where
  pub reference_block : ℕ
  pub account_address : String
  pub private_key : String
  pub chain_id : String
  pub rpc_url : String
  pub calldata_strs : List String

pub record ProveBlockResult : Type 0 where
  pub tx_json : Json
  pub proof : String
  pub proof_facts : Json
  pub messages : Json
  pub tx_hash : String
  pub signature : String × String

-- The variants that `prove_block` reports.
pub data WebProverError : Type 0 where
  parse_calldata : String → WebProverError
  invalid_account_address : String → WebProverError
  invalid_private_key : String → WebProverError
  nonce_at_block : ℕ → RpcError → WebProverError
  signing : SignError → WebProverError
  not_a_transaction : WebProverError
  run_virtual_os_failed : VirtualOsError → WebProverError

-- `parse_transaction_json`, and `ChainId::from`.
pub record WebLib : Type 0 where
  pub parse_transaction_json : Json → Option RpcTransaction
  pub chain_of : String → ChainId

unfoldable pub reference : ℕ → Json
reference block = obj (field "block_number" (num block) end)

unfoldable pub virtual_os_config : WebLib → ProveBlockArgs → RpcTransaction → VirtualOsConfig
virtual_os_config lib args transaction = record {
  rpc_url = args.rpc_url;
  block_number = args.reference_block;
  strk_fee_token = some strk_token;
  chain_id = lib.chain_of args.chain_id;
  transaction = transaction;
}

module _ (F : FeltLib) (lib : WebLib) where
  -- The virtual OS (`run_virtual_os`) is that of VirtualOs.
  unfoldable pub prove_block :
      (VirtualOsConfig → Result VirtualOsError VirtualOsArtifacts)
      → Node
      → ProveBlockArgs
      → Result WebProverError ProveBlockResult
  prove_block run_virtual_os rpc args = do
    calldata ← map_err parse_calldata (collect (felt_from_hex F) args.calldata_strs)
    sender ← map_err invalid_account_address (felt_from_hex F args.account_address)
    private_key ← map_err invalid_private_key (felt_from_hex F args.private_key)
    nonce ←
        map_err (nonce_at_block args.reference_block)
          (get_nonce_at_block rpc args.account_address (reference args.reference_block))
    let tx =
        unproven_tx zero_fee sender calldata (chain_id_felt F args.chain_id) (F.from_uint nonce)
    let tx_hash = compute_invoke_v3_tx_hash F tx
    sig ← map_err signing (sign F private_key tx_hash)
    let tx_json =
        invoke_json args.account_address args.calldata_strs nonce zero_fee
          (F.to_hex sig.r ∷ F.to_hex sig.s ∷ [])
    transaction ← ok_or (lib.parse_transaction_json tx_json) not_a_transaction
    artifacts ←
        map_err run_virtual_os_failed (run_virtual_os (virtual_os_config lib args transaction))
    ok (record {
      tx_json = tx_json;
      proof = trim artifacts.proof;
      proof_facts = artifacts.proof_facts;
      messages = artifacts.l2_to_l1_messages;
      tx_hash = F.to_hex tx_hash;
      signature = (F.to_hex sig.r, F.to_hex sig.s);
    })

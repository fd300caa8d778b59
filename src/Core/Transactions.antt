-- ===== src/Core/Transactions.antt =====
-- The invoke transactions that prove_block of crates/snip36-web-prover/src/lib.rs, prove_block of
-- apps/counter/src/routes.rs and play_coinflip of apps/coinflip/src/routes.rs make for the prover.
use snip_36_prover_web.Prelude.{ℕ, String, List, []}
use snip_36_prover_web.Prelude.Hex.{hex}
use snip_36_prover_web.Core.Json.{Json, str, arr, obj, nil, end, field, strings}
use snip_36_prover_web.Core.Types.{ResourceBounds, to_rpc_json}
use snip_36_prover_web.Core.Signing.{InvokeV3}

-- Without tip, paymaster, deployment and proof facts, in the data availability mode of L1.
abbrev pub unproven_tx : ResourceBounds → ℕ → List ℕ → ℕ → ℕ → InvokeV3
unproven_tx resource_bounds sender calldata chain_id nonce = record {
  sender_address = sender;
  calldata = calldata;
  chain_id = chain_id;
  nonce = nonce;
  tip = 0;
  resource_bounds = resource_bounds;
  paymaster_data = [];
  account_deployment_data = [];
  nonce_da_mode = 0;
  fee_da_mode = 0;
  proof_facts = [];
}

-- The invoke transaction of version 3 as JSON; the signature is two texts.
unfoldable pub invoke_json : String → List String → ℕ → ResourceBounds → List String → Json
invoke_json account_address calldata nonce resource_bounds signature = obj (
    field "type" (str "INVOKE") (
      field "version" (str "0x3") (
        field "sender_address" (str account_address) (
          field "calldata" (arr (strings calldata)) (
            field "nonce" (str (hex nonce)) (
              field "resource_bounds" (to_rpc_json resource_bounds) (
                field "tip" (str "0x0") (
                  field "paymaster_data" (arr nil) (
                    field "account_deployment_data" (arr nil) (
                      field "nonce_data_availability_mode" (str "L1") (
                        field "fee_data_availability_mode" (str "L1")
                          (field "signature" (arr (strings signature)) end))))))))))))

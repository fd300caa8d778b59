-- ===== src/CoinFlip/Deploy.antt =====
-- deploy_coinflip and deploy_bank of apps/coinflip/src/routes.rs. A handler that looks into the state
-- again after it awaited takes the state of each look. The runs of sncast, the node and the file of the
-- deployments are outside.
pub mod Laws
use Prim.Native.String.{◌++◌}
use snip_36_prover_web.Prelude.{◌*◌, ◌^◌, String, Bool, none, some, if◌then◌else◌}
use snip_36_prover_web.Prelude.Result.{Result, ok, err, ◌>>=◌, ok_or, map_err, unwrap_or}
use snip_36_prover_web.Prelude.Http.{HttpError, internal_error, gateway_timeout}
use snip_36_prover_web.Prelude.Hex.{hex}
use snip_36_prover_web.Core.Json.{Json}
use snip_36_prover_web.Core.Types.{strk_token}
use snip_36_prover_web.Core.Rpc.{RpcError, receipt_block_number}
use snip_36_prover_web.Core.Sncast.{Deployer}
use snip_36_prover_web.CoinFlip.State.{Deployment, State}
use snip_36_prover_web.CoinFlip.Deposit.{Sncast, sncast_invoke}

unfoldable pub deploy_exited : Bool → Result HttpError (Unit {0})
deploy_exited success = if success then ok tt else err (internal_error "CoinFlip deploy failed")

-- The declaration and the deployment of the CoinFlip contract, confirmed. The wait for the declaration
-- decides nothing.
unfoldable pub new_coinflip :
    Deployer → (String → Result RpcError Json) → Result HttpError Deployment
new_coinflip deployer wait_for_tx = do
  declare_output ← map_err internal_error deployer.declared
  class_hash ← ok_or declare_output (internal_error "CoinFlip declare failed")
  deploy_output ← map_err internal_error (deployer.deploy class_hash)
  _ ← deploy_exited deploy_output.success
  contract_address ←
      ok_or deploy_output.contract_address (internal_error "No contract_address in deploy output")
  tx_hash ←
      ok_or deploy_output.transaction_hash (internal_error "No transaction_hash in deploy output")
  receipt ← map_err (λ e. gateway_timeout "not confirmed") (wait_for_tx tx_hash)
  ok (record {
    contract_address = contract_address;
    class_hash = class_hash;
    deploy_block = unwrap_or (receipt_block_number receipt) 0;
  })

-- The deployment that is there already, or a new one, which `after` then holds.
unfoldable pub deploy_coinflip :
    Deployer
    → (String → Result RpcError Json)
    → State
    → State
    → Result HttpError (Deployment × State)
deploy_coinflip deployer wait_for_tx before after = elim before.coinflip [
  | some d ↦ ok (d, before)
  | none ↦ do
    deployment ← new_coinflip deployer wait_for_tx
    ok (deployment, record after { coinflip = some deployment })
]

-- The same for the CoinFlipBank contract; whether the command succeeded is not looked at.
unfoldable pub new_bank : Deployer → (String → Result RpcError Json) → Result HttpError Deployment
new_bank deployer wait_for_tx = do
  declare_output ← map_err internal_error deployer.declared
  class_hash ← ok_or declare_output (internal_error "CoinFlipBank declare failed")
  deploy_output ← map_err internal_error (deployer.deploy class_hash)
  contract_address ←
      ok_or deploy_output.contract_address (internal_error "CoinFlipBank deploy failed")
  tx_hash ← ok_or deploy_output.transaction_hash (internal_error "No tx_hash in deploy output")
  receipt ← map_err (λ e. gateway_timeout "not confirmed") (wait_for_tx tx_hash)
  ok (record {
    contract_address = contract_address;
    class_hash = class_hash;
    deploy_block = unwrap_or (receipt_block_number receipt) 0;
  })

-- The approval of the bank, and its funds of 10 STRK.
unfoldable pub fund_bank : Sncast → String → Result HttpError (Unit {0})
fund_bank sncast contract_address = do
  approve ← map_err internal_error (
      sncast_invoke sncast strk_token "approve"
        (contract_address ++ " 0xffffffffffffffffffffffffffffffff 0x0"))
  fund ← map_err internal_error (
      sncast_invoke sncast strk_token "transfer"
        (contract_address ++ (" " ++ (hex (10 * 10 ^ 18) ++ " 0x0"))))
  ok tt

unfoldable pub deploy_bank :
    Deployer
    → (String → Result RpcError Json)
    → Sncast
    → State
    → State
    → Result HttpError (Deployment × State)
deploy_bank deployer wait_for_tx sncast before after = elim before.bank [
  | some d ↦ ok (d, before)
  | none ↦ do
    deployment ← new_bank deployer wait_for_tx
    _ ← fund_bank sncast deployment.contract_address
    ok (deployment, record after { bank = some deployment })
]

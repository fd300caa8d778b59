-- ===== src/CoinFlip/Deploy/Laws.antt =====
-- What deploy_bank and deploy_coinflip of apps/coinflip/src/routes.rs return and leave.
use Prim.Native.String.{◌++◌}
use mathlib.Core.Path.{subst}
use snip_36_prover_web.Prelude.{
  ◌*◌, ◌^◌, String, Option, none, some, ◌≡◌, ◌⊎◌, inl, inr, refl, sym, ap, ◌∙◌, arith, Option-cases,
}
use snip_36_prover_web.Prelude.Result.{
  Result, ok, >>=-parts, ok_injective, map_err, map_err-ok, ok_or, ok_or-ok, unwrap_or,
}
use snip_36_prover_web.Prelude.Hex.{hex}
use snip_36_prover_web.Prelude.Http.{internal_error}
use snip_36_prover_web.Core.Json.{Json}
use snip_36_prover_web.Core.Types.{strk_token}
use snip_36_prover_web.Core.Rpc.{RpcError, receipt_block_number}
use snip_36_prover_web.Core.Sncast.{Deployer, DeployOutput}
use snip_36_prover_web.CoinFlip.State.{Deployment, State}
use snip_36_prover_web.CoinFlip.Deposit.{Sncast, InvokeResult, sncast_invoke}
use snip_36_prover_web.CoinFlip.Deploy.{new_bank, fund_bank, deploy_bank}

-- The class was declared, and the transaction that deployed the contract confirmed.
pub record IsNew (deployer : Deployer) (wait_for_tx : String → Result RpcError Json)
    (d : Deployment) : Type 0 where
  pub output : DeployOutput
  pub tx_hash : String
  pub receipt : Json
  pub declared : deployer.declared ≡ ok (some d.class_hash)
  pub deployed : deployer.deploy d.class_hash ≡ ok output
  pub address_found : output.contract_address ≡ some d.contract_address
  pub hash_found : output.transaction_hash ≡ some tx_hash
  pub confirmed : wait_for_tx tx_hash ≡ ok receipt
  pub block : d.deploy_block ≡ unwrap_or (receipt_block_number receipt) 0

-- sncast ran twice: for an approval of the bank, and for a transfer of 10 STRK to it. What it found
-- in the output, if anything, is not looked at.
pub record IsRequested (sncast : Sncast) (contract_address : String) : Type 0 where
  pub approval : Option String
  pub transfer : Option String
  pub approval_ran :
      sncast.invoke strk_token "approve"
        (contract_address ++ " 0xffffffffffffffffffffffffffffffff 0x0")
      ≡ ok approval
  pub transfer_ran :
      sncast.invoke strk_token "transfer"
        (contract_address ++ (" " ++ (hex (10 * 10 ^ 18) ++ " 0x0")))
      ≡ ok transfer

new_bank-IsNew :
    (deployer : Deployer) (wait_for_tx : String → Result RpcError Json) (d : Deployment)
    → new_bank deployer wait_for_tx ≡ ok d
    → IsNew deployer wait_for_tx d
unfolding new_bank
new_bank-IsNew deployer wait_for_tx d e =
    >>=-parts (map_err internal_error deployer.declared) _ e λ found m e1.
      >>=-parts (ok_or found _) _ e1 λ class_hash c e2.
        >>=-parts (map_err internal_error (deployer.deploy class_hash)) _ e2 λ output o e3.
          >>=-parts (ok_or output.contract_address _) _ e3 λ address a e4.
            >>=-parts (ok_or output.transaction_hash _) _ e4 λ tx_hash t e5.
              >>=-parts (map_err _ (wait_for_tx tx_hash)) _ e5 λ receipt r e6.
                subst (IsNew deployer wait_for_tx) (ok_injective e6) (record {
                  output = output;
                  tx_hash = tx_hash;
                  receipt = receipt;
                  declared =
                      let x = map_err-ok _ deployer.declared _ m in
                      let y = ok_or-ok found _ _ c in cc;
                  deployed = map_err-ok _ _ _ o;
                  address_found = ok_or-ok _ _ _ a;
                  hash_found = ok_or-ok _ _ _ t;
                  confirmed = map_err-ok _ _ _ r;
                  block = refl;
                })

sncast_invoke-ran :
    (sncast : Sncast) (address function calldata : String) {result : InvokeResult}
    → sncast_invoke sncast address function calldata ≡ ok result
    → (found : Option String) × (sncast.invoke address function calldata ≡ ok found)
unfolding sncast_invoke
sncast_invoke-ran sncast address function calldata e =
    >>=-parts (sncast.invoke address function calldata) _ e λ found ran e1. (found, ran)

fund_bank-IsRequested :
    (sncast : Sncast) (contract_address : String)
    → fund_bank sncast contract_address ≡ ok tt
    → IsRequested sncast contract_address
unfolding fund_bank
fund_bank-IsRequested sncast contract_address e =
    >>=-parts (map_err internal_error (sncast_invoke sncast strk_token "approve" _)) _ e
      λ approval a e1.
        >>=-parts (map_err internal_error (sncast_invoke sncast strk_token "transfer" _)) _ e1
          λ transfer t e2.
            let (approved, a_ran) = sncast_invoke-ran sncast _ _ _ (map_err-ok _ _ approval a) in
            let (sent, t_ran) = sncast_invoke-ran sncast _ _ _ (map_err-ok _ _ transfer t) in
            record {
              approval = approved;
              transfer = sent;
              approval_ran = a_ran;
              transfer_ran = t_ran;
            }

deploy_bank_again :
    (deployer : Deployer) (wait_for_tx : String → Result RpcError Json) (sncast : Sncast)
    (before after : State) (d : Deployment)
    → before.bank ≡ some d
    → deploy_bank deployer wait_for_tx sncast before after ≡ ok (d, before)
unfolding deploy_bank
deploy_bank_again deployer wait_for_tx sncast before after d e = ground arith

module _ (deployer : Deployer) (wait_for_tx : String → Result RpcError Json) (sncast : Sncast) where
  deploy_bank_recorded :
      (before after : State) (d : Deployment) (st' : State)
      → before.bank ≡ none
      → deploy_bank deployer wait_for_tx sncast before after ≡ ok (d, st')
      → IsNew deployer wait_for_tx d
        × IsRequested sncast d.contract_address
        × (st' ≡ record after { bank = some d })
  unfolding deploy_bank
  deploy_bank_recorded before after d st' unset e =
      >>=-parts (new_bank deployer wait_for_tx) _ (rw (unset, deploy_bank) at e) λ made m e1.
        >>=-parts (fund_bank sncast made.contract_address) _ e1 λ u f e2.
          let same : made ≡ d = cc in
          let stored : record after { bank = some made } ≡ st' = cc in
          (
            subst (IsNew deployer wait_for_tx) same (new_bank-IsNew deployer wait_for_tx made m),
            subst (λ (x : Deployment). IsRequested sncast x.contract_address) same
                (fund_bank-IsRequested sncast made.contract_address f),
            sym stored ∙ ap (λ (x : Deployment). record after { bank = some x }) same,
          )

  -- If `deploy_bank` returns a bank, then it was recorded before and nothing is changed, or there
  -- was none and this one was declared and deployed in a confirmed transaction, sncast ran for an
  -- approval of it and for a transfer of 10 STRK to it, and only then it was recorded, all else of
  -- the state staying. Either way the bank is recorded, and a later call returns it and changes
  -- nothing, whatever sncast and the node do then. That sncast ran does not say that the approval
  -- or the transfer was accepted.
  pub deploy_bank-IsRequested :
      (before after : State) (d : Deployment) (st' : State)
      → deploy_bank deployer wait_for_tx sncast before after ≡ ok (d, st')
      → (((before.bank ≡ some d) × (st' ≡ before))
          ⊎ ((before.bank ≡ none)
              × IsNew deployer wait_for_tx d
              × IsRequested sncast d.contract_address
              × (st' ≡ record after { bank = some d })))
        × (st'.bank ≡ some d)
        × ((others : Deployer) (waits : String → Result RpcError Json) (runs : Sncast)
              (later : State)
            → deploy_bank others waits runs st' later ≡ ok (d, st'))
  deploy_bank-IsRequested before after d st' e = elim (Option-cases before.bank) [
    | inl unset ↦
        let (new, funded, stored) = deploy_bank_recorded before after d st' unset e in
        let there : st'.bank ≡ some d = ap (λ (s : State). s.bank) stored in
        (
          inr (unset, new, funded, stored),
          there,
          λ o w r later. deploy_bank_again o w r st' later d there,
        )
    | inr (b, set) ↦
        let kept = sym (deploy_bank_again deployer wait_for_tx sncast before after b set) ∙ e in
        let same : b ≡ d = cc in
        let unchanged : before ≡ st' = cc in
        let there : st'.bank ≡ some d =
          ap (λ (s : State). s.bank) (sym unchanged) ∙ set ∙ ap some same in
        (
          inl (set ∙ ap some same, sym unchanged),
          there,
          λ o w r later. deploy_bank_again o w r st' later d there,
        )
  ]

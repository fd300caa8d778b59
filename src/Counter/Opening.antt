-- ===== src/Counter/Opening.antt =====
-- Which cycle prove_block of apps/counter/src/routes.rs opens after a deployment.
use mathlib.Core.Path.{subst}
use snip_36_prover_web.Prelude.{ℕ, String, Option, none, some, ◌≡◌, ◌≢◌, refl, ap, ◌∙◌}
use snip_36_prover_web.Prelude.Result.{
  Result, ok, err, >>=-parts, ok_injective, map_err, map_err-ok, ok_or,
}
use snip_36_prover_web.Prelude.Http.{bad_request, internal_error}
use snip_36_prover_web.Core.Json.{Json}
use snip_36_prover_web.Core.Types.{Session}
use snip_36_prover_web.Core.Rpc.{RpcError, receipt_block_number}
use snip_36_prover_web.Counter.Sessions.{SessionStore, IsSessionStore, set_deployed}
use snip_36_prover_web.Core.Sncast.{Deployer}
use snip_36_prover_web.Counter.Invoke.{DeployCounterResponse, deploy_succeeded, deploy_counter}
use snip_36_prover_web.Counter.Cycle.{open_cycle, or_deploy_block}

open_cycle-deployed :
    (address class_hash : String) (block : ℕ) (session : Session)
    → open_cycle (set_deployed address class_hash (some block) session)
      ≡ ok (record { contract_address = address; reference_block = block })
unfolding open_cycle set_deployed or_deploy_block
open_cycle-deployed address class_hash block session = refl

open_cycle-untracked :
    (address class_hash : String) (session : Session)
    → open_cycle (set_deployed address class_hash none session)
      ≡ err (bad_request "Deploy block not tracked")
unfolding open_cycle set_deployed or_deploy_block
open_cycle-untracked address class_hash session = refl

module _ {St : Type 0} (store : SessionStore St) where
  -- What the deployment of a contract leaves.
  pub record IsDeployed (wait_for_tx : String → Result RpcError Json) (later : St)
      (session_id : String) (response : DeployCounterResponse) (after : St) : Type 0 where
    pub receipt : Json
    pub confirmed : wait_for_tx response.tx_hash ≡ ok receipt
    pub block_reported : response.block_number ≡ receipt_block_number receipt
    pub opens :
        (block : ℕ)
        → response.block_number ≡ some block
        → open_cycle (store.get_session session_id after)
          ≡ ok (record { contract_address = response.contract_address; reference_block = block })
    pub refuses :
        response.block_number ≡ none
        → open_cycle (store.get_session session_id after)
          ≡ err (bad_request "Deploy block not tracked")
    pub others :
        (other_id : String)
        → other_id ≢ session_id
        → store.get_session other_id after ≡ store.get_session other_id later

  -- If `deploy_counter` returns a contract, then its transaction was confirmed, and the next cycle of
  -- the session is on that contract at the block of the receipt; where the receipt has no block, the
  -- session's next cycle is refused, the contract being there. No other session is changed. This is for
  -- a store of sessions in which an update is seen in its session and in no other.
  pub deploy_counter-IsDeployed :
      (laws : IsSessionStore store) (deployer : Deployer)
      (wait_for_tx : String → Result RpcError Json) (later : St) (session_id : String)
      (response : DeployCounterResponse) (after : St)
      → deploy_counter store deployer wait_for_tx later session_id ≡ ok (response, after)
      → IsDeployed wait_for_tx later session_id response after
  unfolding deploy_counter
  deploy_counter-IsDeployed laws deployer wait_for_tx later session_id response after e =
      >>=-parts (map_err internal_error deployer.declared) _ e λ found d e1.
        >>=-parts (ok_or found _) _ e1 λ class_hash c e2.
          >>=-parts (map_err internal_error (deployer.deploy class_hash)) _ e2 λ output o e3.
            >>=-parts (deploy_succeeded output.success) _ e3 λ u s e4.
              >>=-parts (ok_or output.contract_address _) _ e4 λ address a e5.
                >>=-parts (ok_or output.transaction_hash _) _ e5 λ tx_hash t e6.
                  >>=-parts (map_err _ (wait_for_tx tx_hash)) _ e6 λ receipt r e7.
                    let block_number = receipt_block_number receipt in
                    let update = set_deployed address class_hash block_number in
                    let seen = laws.same session_id update later in
                    subst
                      (λ (x : DeployCounterResponse × St).
                        IsDeployed wait_for_tx later session_id x.0 x.1)
                      (ok_injective e7)
                      (record {
                        receipt = receipt;
                        confirmed = map_err-ok _ _ receipt r;
                        block_reported = refl;
                        opens = λ block b.
                            ap open_cycle (
                              seen
                              ∙ ap
                                  (λ (n : Option ℕ).
                                    set_deployed address class_hash n
                                      (store.get_session session_id later))
                                  b)
                            ∙ open_cycle-deployed address class_hash block _;
                        refuses = λ b.
                            ap open_cycle (
                              seen
                              ∙ ap
                                  (λ (n : Option ℕ).
                                    set_deployed address class_hash n
                                      (store.get_session session_id later))
                                  b)
                            ∙ open_cycle-untracked address class_hash _;
                        others = λ other_id n. laws.other session_id other_id update later n;
                      })

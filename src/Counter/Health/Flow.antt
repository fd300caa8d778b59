-- ===== src/Counter/Health/Flow.antt =====
-- When check_full_flow of apps/counter/src/health.rs counts no failure.
use snip_36_prover_web.Prelude.{
  ℕ, ◌+◌, ◌≤◌, String, Bool, true, false, Option, none, some, ◌≡◌, refl, arith, inl, inr,
  Option-cases, leb, [], List,
}
use snip_36_prover_web.Prelude.Result.{
  Result, ok, err, ok_or, map_err, >>=-parts, map_err-ok, ok_or-ok, Result-cases,
}
use snip_36_prover_web.Core.Json.{Json}
use snip_36_prover_web.Core.Rpc.{Node, RpcError, starknet_call, receipt_block_number}
use snip_36_prover_web.Counter.{get_counter_selector, counter_value}
use snip_36_prover_web.Counter.Health.{
  Tools, step_of, require, deploy_confirmed, deploy_flow, increment_flow, full_flow,
}

-- A counter was built, declared and deployed, and a transaction of the deployment that is found in the
-- output was confirmed.
pub record IsCounter (tools : Tools) (wait_for_tx : String → Result RpcError Json)
    (contract_address : String) : Type 0 where
  pub class_hash : String
  pub deploy_tx : Option String
  pub built : tools.build ≡ ok true
  pub declared : tools.declare ≡ ok (some class_hash)
  pub deployed : tools.deploy class_hash ≡ ok (some contract_address, deploy_tx)
  pub deploy_seen : (tx : String) → deploy_tx ≡ some tx → (seen : Json) × (wait_for_tx tx ≡ ok seen)

-- An increment of the counter was confirmed, and the counter is at 1 or more.
pub record IsCounted (tools : Tools) (wait_for_tx : String → Result RpcError Json) (later : Node)
    (contract_address : String) : Type 0 where
  pub invoke_tx : String
  pub receipt : Json
  pub values : List String
  pub invoked : tools.invoke contract_address ≡ ok (some invoke_tx)
  pub confirmed : wait_for_tx invoke_tx ≡ ok receipt
  pub read : starknet_call later contract_address get_counter_selector [] ≡ ok values
  pub incremented : 1 ≤ counter_value values

pub record IsIncremented (tools : Tools) (wait_for_tx : String → Result RpcError Json)
    (later : Node) : Type 0 where
  pub contract_address : String
  pub sncast_found : tools.sncast_in_path ≡ true
  pub scarb_found : tools.scarb_in_path ≡ true
  pub counter : IsCounter tools wait_for_tx contract_address
  pub counted : IsCounted tools wait_for_tx later contract_address

require-true :
    (passed : ℕ) (holds : Bool) (u : Unit {0}) → require passed holds ≡ ok u → holds ≡ true
unfolding require
require-true passed true u e = refl
require-true passed false u e = absurd cc

step_of-some :
    {A : Type 0} (passed : ℕ) (found : Result String (Option A)) (a : A)
    → step_of passed found ≡ ok a
    → found ≡ ok (some a)
unfolding step_of
step_of-some passed (err e) a h = absurd cc
step_of-some passed (ok none) a h = absurd cc
step_of-some passed (ok (some b)) a h = let same : b ≡ a = cc in cc

deploy_confirmed-ok :
    (wait_for_tx : String → Result RpcError Json) (tx : String) (n : ℕ)
    → deploy_confirmed wait_for_tx (some tx) ≡ ok n
    → (seen : Json) × (wait_for_tx tx ≡ ok seen)
unfolding deploy_confirmed
deploy_confirmed-ok wait_for_tx tx n e = elim (Result-cases (wait_for_tx tx)) [
  | inl seen ↦ seen
  | inr (x, w) ↦ absurd (cc (rw (w, deploy_confirmed) at e))
]

-- What is seen is enough for the deployment's checks.
deploy_confirmed_total :
    (wait_for_tx : String → Result RpcError Json) (deploy_tx : Option String)
    → ((tx : String) → deploy_tx ≡ some tx → (seen : Json) × (wait_for_tx tx ≡ ok seen))
    → (n : ℕ) × (deploy_confirmed wait_for_tx deploy_tx ≡ ok n)
unfolding deploy_confirmed
deploy_confirmed_total wait_for_tx none h = (3, refl)
deploy_confirmed_total wait_for_tx (some tx) h =
    let (seen, w) = h tx refl in
    elim (Option-cases (receipt_block_number seen)) [
      | inl b ↦ (3, rw (w, b, deploy_confirmed) refl)
      | inr (n, b) ↦ (4, rw (w, b, deploy_confirmed) refl)
    ]

module _ (tools : Tools) (wait_for_tx : String → Result RpcError Json) where
  deploy_flow-IsCounter :
      (contract_address : String) (passed : ℕ)
      → deploy_flow tools wait_for_tx ≡ ok (contract_address, passed)
      → IsCounter tools wait_for_tx contract_address
  unfolding deploy_flow
  deploy_flow-IsCounter contract_address passed e =
      >>=-parts (map_err _ tools.build) _ e λ built b e1. >>=-parts (require 0 built) _ e1 λ u t e2.
        >>=-parts (step_of 1 tools.declare) _ e2 λ class_hash d e3.
          >>=-parts (map_err _ (tools.deploy class_hash)) _ e3 λ (address, deploy_tx) o e4.
            >>=-parts (ok_or address 2) _ e4 λ found a e5.
              >>=-parts (deploy_confirmed wait_for_tx deploy_tx) _ e5 λ n c e6. record {
                class_hash = class_hash;
                deploy_tx = deploy_tx;
                built =
                    let y = require-true 0 built u t in
                    let z = map_err-ok _ tools.build built b in cc;
                declared = step_of-some 1 _ _ d;
                deployed =
                    let y = ok_or-ok address _ _ a in
                    let z = map_err-ok _ (tools.deploy class_hash) _ o in
                    let same : found ≡ contract_address = cc in cc;
                deploy_seen = λ tx s. deploy_confirmed-ok wait_for_tx tx n (rw s at c);
              }

  IsCounter-deploy_flow :
      (contract_address : String)
      → IsCounter tools wait_for_tx contract_address
      → (passed : ℕ) × (deploy_flow tools wait_for_tx ≡ ok (contract_address, passed))
  unfolding deploy_flow require step_of
  IsCounter-deploy_flow contract_address h =
      let (n, c) = deploy_confirmed_total wait_for_tx h.deploy_tx h.deploy_seen in
      (n, rw (h.built, h.declared, h.deployed, c, deploy_flow) refl)

  module _ (later : Node) where
    increment_flow-IsCounted :
        (contract_address : String) (passed n : ℕ)
        → increment_flow tools wait_for_tx later contract_address passed ≡ ok n
        → IsCounted tools wait_for_tx later contract_address
    unfolding increment_flow
    increment_flow-IsCounted contract_address passed n e =
        >>=-parts (step_of passed (tools.invoke contract_address)) _ e λ invoke_tx i e1.
          >>=-parts (map_err _ (wait_for_tx invoke_tx)) _ e1 λ receipt w e2.
            >>=-parts (map_err _ (starknet_call later contract_address _ [])) _ e2 λ values v e3.
              >>=-parts (require _ _) _ e3 λ u r e4.
                let counted = require-true _ _ u r in
                record {
                  invoke_tx = invoke_tx;
                  receipt = receipt;
                  values = values;
                  invoked = step_of-some passed _ _ i;
                  confirmed = map_err-ok _ _ receipt w;
                  read = map_err-ok _ _ values v;
                  incremented = ground (arith, counted);
                }

    IsCounted-increment_flow :
        (contract_address : String) (passed : ℕ)
        → IsCounted tools wait_for_tx later contract_address
        → increment_flow tools wait_for_tx later contract_address passed ≡ ok (passed + 3)
    unfolding increment_flow require step_of
    IsCounted-increment_flow contract_address passed h =
        let counted : leb 1 (counter_value h.values) ≡ true =
          (let x = h.incremented in ground arith) in
        rw (h.invoked, h.confirmed, h.read, counted, increment_flow) refl

    pub full_flow-IsIncremented :
        (n : ℕ) → full_flow tools wait_for_tx later ≡ ok n → IsIncremented tools wait_for_tx later
    unfolding full_flow
    full_flow-IsIncremented n e = >>=-parts (require 0 _) _ e λ u p e1.
        >>=-parts (deploy_flow tools wait_for_tx) _ e1 λ (contract_address, passed) d e2.
          let paths = require-true 0 _ u p in
          record {
            contract_address = contract_address;
            sncast_found = ground (arith, paths);
            scarb_found = ground (arith, paths);
            counter = deploy_flow-IsCounter contract_address passed d;
            counted = increment_flow-IsCounted contract_address passed n e2;
          }

    pub IsIncremented-full_flow :
        IsIncremented tools wait_for_tx later → (n : ℕ) × (full_flow tools wait_for_tx later ≡ ok n)
    unfolding full_flow require
    IsIncremented-full_flow h =
        let (passed, d) = IsCounter-deploy_flow h.contract_address h.counter in
        let i = IsCounted-increment_flow h.contract_address passed h.counted in
        (passed + 3, rw (d, i, h.sncast_found, h.scarb_found, full_flow) refl)

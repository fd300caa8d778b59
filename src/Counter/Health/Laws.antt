-- ===== src/Counter/Health/Laws.antt =====
-- When the health command of apps/counter/src/health.rs ends well.
use snip_36_prover_web.Prelude.{
  ℕ, String, Bool, true, false, ◌≡◌, ◌↔◌, refl, arith, inl, inr, Bool-cases, Option-cases, ltb,
  if◌then◌else◌,
}
use snip_36_prover_web.Prelude.Result.{Result}
use snip_36_prover_web.Core.Json.{Json}
use snip_36_prover_web.Core.Config.{Config}
use snip_36_prover_web.Core.Rpc.{Node, RpcError}
use snip_36_prover_web.Counter.Health.Flow.{IsIncremented}
use snip_36_prover_web.Counter.Health.{
  Checks, check_rpc, check_balance, check_oz_class, Tools, check_full_flow, returned, exited,
  runs_full_flow, run_health,
}
use snip_36_prover_web.Counter.Health.Judged.{
  Judged, holds, fails, IsReachable, IsFunded, IsDeclared, check_rpc-Judged, check_balance-Judged,
  check_balance-never_none, check_oz_class-Judged, check_balance_overflow, check_full_flow-Judged,
  Judged-le, Judged-iff,
}

-- Four checks from no failure count none exactly if all hold.
stages_iff :
    {P Q R S : Type 0} {passed : ℕ} {reached balanced declared checks : Checks}
    → Judged P (record { passed = passed; failed = 0 }) reached
    → Judged Q reached balanced
    → Judged R balanced declared
    → Judged S declared checks
    → (checks.failed ≡ 0) ↔ (P × Q × R × S)
stages_iff r b o f =
    let lr = Judged-le _ _ _ r in
    let lb = Judged-le _ _ _ b in
    let lo = Judged-le _ _ _ o in
    let lf = Judged-le _ _ _ f in
    (
      λ z. (
        (Judged-iff _ _ _ r).1 (omega (arith, z, lr, lb, lo, lf)),
        (Judged-iff _ _ _ b).1 (omega (arith, z, lr, lb, lo, lf)),
        (Judged-iff _ _ _ o).1 (omega (arith, z, lr, lb, lo, lf)),
        (Judged-iff _ _ _ f).1 (omega (arith, z, lr, lb, lo, lf)),
      ),
      λ (p, q, d, s). omega (
        arith,
        (Judged-iff _ _ _ r).0 p,
        (Judged-iff _ _ _ b).0 q,
        (Judged-iff _ _ _ o).0 d,
        (Judged-iff _ _ _ f).0 s,
      ),
    )

-- The last check, which may be skipped.
flow_stage-Judged :
    (runs : Bool) (tools : Tools) (wait_for_tx : String → Result RpcError Json) (later : Node)
    (checks : Checks)
    → Judged
        (runs ≡ true → IsIncremented tools wait_for_tx later)
        checks
        (if runs then check_full_flow tools wait_for_tx later checks else checks)
flow_stage-Judged true tools wait_for_tx later checks =
    elim (check_full_flow-Judged tools wait_for_tx later checks) [
      | holds p e ↦ holds (λ x. p) e
      | fails n l ↦ fails (λ f. n (f refl)) l
    ]
flow_stage-Judged false tools wait_for_tx later checks = holds (λ x. absurd cc) refl

-- A run ends well exactly if no failure is counted.
run_ends : (failed : ℕ) → (if ltb 0 failed then exited else returned) ≡ returned → failed ≡ 0
run_ends failed e = ground arith

ends_run : (failed : ℕ) → failed ≡ 0 → (if ltb 0 failed then exited else returned) ≡ returned
ends_run failed e = ground arith

-- What the health command looks for.
pub record IsHealthy (overflow_checks quick : Bool) (config : Config) (node : Node) (tools : Tools)
    (wait_for_tx : String → Result RpcError Json) (later : Node) : Type 0 where
  pub unchecked : overflow_checks ≡ false
  pub reachable : IsReachable node
  pub funded : IsFunded node config.account_address
  pub declared : IsDeclared node
  pub flows : runs_full_flow quick config ≡ true → IsIncremented tools wait_for_tx later

-- The health command returns `Ok(())` exactly if the build does not check overflow and the node has
-- a block and a chain id, the sum of the two words of the master account's balance, modulo 2^128,
-- is one STRK less 64 wei or more, the account class is declared and, unless the flow is skipped
-- for `--quick` or for want of a key, a counter was built, declared, deployed and incremented and
-- the increment is seen. Where overflow is checked it never does.
pub run_health_iff :
    (overflow_checks quick : Bool) (config : Config) (node : Node) (tools : Tools)
    (wait_for_tx : String → Result RpcError Json) (later : Node)
    → (run_health overflow_checks quick config node tools wait_for_tx later ≡ returned)
      ↔ IsHealthy overflow_checks quick config node tools wait_for_tx later
unfolding run_health
run_health_iff overflow_checks quick config node tools wait_for_tx later =
    let new : Checks = record { passed = 0; failed = 0 } in
    let account = config.account_address in
    let reached = check_rpc node new in
    let r = check_rpc-Judged node new in
    elim (Option-cases (check_balance overflow_checks node account reached)) [
      | inl p ↦ (
        λ e. absurd (cc (rw (p, run_health) at e)),
        λ h. absurd (check_balance-never_none node account reached (rw h.unchecked at p)),
      )
      | inr (balanced, p) ↦
          let o = check_oz_class-Judged node balanced in
          let declared = check_oz_class node balanced in
          let f =
            flow_stage-Judged (runs_full_flow quick config) tools wait_for_tx later declared in
          elim (Bool-cases overflow_checks) [
            | inl t ↦
                let l = check_balance_overflow node account reached balanced (rw t at p) in
                (
                  λ e.
                      let z = run_ends _ (rw (p, run_health) at e) in
                      absurd (omega (arith, z, l, Judged-le _ _ _ o, Judged-le _ _ _ f)),
                  λ h. absurd (let u = h.unchecked in cc),
                )
            | inr t ↦
                let b = check_balance-Judged node account reached balanced (rw t at p) in
                let all = stages_iff r b o f in
                (
                  λ e.
                      let (reachable, funded, found, flows) =
                        all.0 (run_ends _ (rw (p, run_health) at e)) in
                      record {
                        unchecked = t;
                        reachable = reachable;
                        funded = funded;
                        declared = found;
                        flows = flows;
                      },
                  λ h.
                      rw (p, run_health)
                        (ends_run _ (all.1 (h.reachable, h.funded, h.declared, h.flows))),
                )
          ]
    ]

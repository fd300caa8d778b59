-- ===== src/Counter/Health.antt =====
-- apps/counter/src/health.rs: the checks of the health command and its end. The processes and what is
-- found in their output, and the node, are outside; what is logged is left out.
pub mod Rounding
pub mod Flow
pub mod Judged
pub mod Laws
use snip_36_prover_web.Prelude.{
  ℕ, zero, suc, ◌+◌, ◌-◌, ◌*◌, ◌/◌, ◌%◌, ◌^◌, String, Bool, true, false, not, ◌&&◌, ◌||◌, List, [],
  ◌∷◌, Option, none, some, ltb, leb, ◌==◌, str_eq, if◌then◌else◌,
}
use snip_36_prover_web.Prelude.Hex.{parse_hex}
use snip_36_prover_web.Prelude.Words.{u64_mod, u128_mod}
use snip_36_prover_web.Prelude.Result.{Result, ok, err, ◌>>=◌, ok_or, map_err, unwrap_or}
use snip_36_prover_web.Core.Json.{Json}
use snip_36_prover_web.Core.Types.{strk_token, oz_account_class_hash, balance_of_selector}
use snip_36_prover_web.Core.Config.{Config}
use snip_36_prover_web.Core.Rpc.{
  Node, RpcError, block_number, chain_id, starknet_call, get_class, receipt_block_number,
}
use snip_36_prover_web.Counter.{get_counter_selector, counter_value}

-- The two counters of the checks.
pub record Checks : Type 0 where
  pub passed : ℕ
  pub failed : ℕ

unfoldable pub check_pass : Checks → Checks
check_pass checks = record checks { passed = checks.passed + 1 }

unfoldable pub check_fail : Checks → Checks
check_fail checks = record checks { failed = checks.failed + 1 }

unfoldable pub check_rpc : Node → Checks → Checks
check_rpc node checks = elim (block_number node) [
  | err e ↦ check_fail checks
  | ok block ↦
      if ltb 0 block
      then elim (chain_id node) [
        | ok id ↦ check_pass (check_pass checks)
        | err e ↦ check_fail (check_pass checks)
      ]
      else check_fail checks
]

-- `u128::from_str_radix(..).unwrap_or(0)`
unfoldable pub word_of : String → ℕ
word_of value = unwrap_or (parse_hex u128_mod value) 0

unfoldable pub high_word : List String → ℕ
high_word [] = 0
high_word (value ∷ more) = word_of value

-- `low + (high << 128)` on u128. A shift by all the bits panics where overflow is checked; elsewhere it
-- shifts by the amount modulo 128, which is 0, and the sum wraps around.
unfoldable pub balance_wei : Bool → ℕ → ℕ → Option ℕ
balance_wei overflow_checks low high =
    if overflow_checks then none else some ((low + high) % u128_mod)

-- The distance of the doubles around `n`, of 53 bits; 76 doublings are enough for a u128.
unfoldable pub ulp_from : ℕ → ℕ → ℕ → ℕ
ulp_from zero n u = u
ulp_from (suc fuel) n u =
    let wider = ulp_from fuel n (2 * u) in if ltb n (2 ^ 53 * u) then u else wider

-- The nearest multiple of `u`, at a tie the even one.
unfoldable pub round_to : ℕ → ℕ → ℕ
round_to u n =
    let q = n / u in
    let r = n % u in if ltb (2 * r) u || (2 * r == u && q % 2 == 0) then q * u else (q + 1) * u

-- `as f64`
unfoldable pub to_f64 : ℕ → ℕ
to_f64 n = round_to (ulp_from 76 n 1) n

-- `balance_wei as f64 / 1e18 >= 1.0`: the quotient rounds to 1 from 1 - 2^-54 on.
unfoldable pub is_enough : ℕ → Bool
is_enough balance = leb ((2 ^ 54 - 1) * 10 ^ 18) (to_f64 balance * 2 ^ 54)

-- `none` is a panic.
unfoldable pub check_balance : Bool → Node → String → Checks → Option Checks
check_balance overflow_checks node master_address checks =
    elim (starknet_call node strk_token balance_of_selector (master_address ∷ [])) [
      | err e ↦ some (check_fail checks)
      | ok [] ↦ some (check_fail checks)
      | ok (low ∷ more) ↦ elim (balance_wei overflow_checks (word_of low) (high_word more)) [
        | none ↦ none
        | some balance ↦ some (if is_enough balance then check_pass checks else check_fail checks)
      ]
    ]

unfoldable pub check_oz_class : Node → Checks → Checks
check_oz_class node checks = elim (get_class node oz_account_class_hash) [
  | ok class ↦ check_pass checks
  | err e ↦ check_fail checks
]

-- The runs of `which`, scarb and sncast with what is found in their output: whether the build
-- succeeded, the class hash, the contract's address and the hash of its transaction, and that of
-- the increment. A command that does not run is an error's text.
pub record Tools : Type 0 where
  pub sncast_in_path : Bool
  pub scarb_in_path : Bool
  pub build : Result String Bool
  pub declare : Result String (Option String)
  pub deploy : String → Result String (Option String × Option String)
  pub invoke : String → Result String (Option String)

-- A step of the full flow, after `passed` checks: its error is the early return, whose check failed.
unfoldable pub step_of : {A : Type 0} → ℕ → Result String (Option A) → Result ℕ A
step_of passed found = do output ← map_err (λ e. passed) found; ok_or output passed

unfoldable pub require : ℕ → Bool → Result ℕ (Unit {0})
require passed holds = if holds then ok tt else err passed

-- The wait for the deployment, if its hash is found, and how many of its checks pass. The wait for the
-- next block decides nothing.
unfoldable pub deploy_confirmed : (String → Result RpcError Json) → Option String → Result ℕ ℕ
deploy_confirmed wait_for_tx none = ok 3
deploy_confirmed wait_for_tx (some tx) = elim (wait_for_tx tx) [
  | err e ↦ err 3
  | ok receipt ↦ elim (receipt_block_number receipt) [ none ↦ ok 3 | some bn ↦ ok 4 ]
]

-- The counter that is built, declared and deployed, and the checks that passed.
unfoldable pub deploy_flow : Tools → (String → Result RpcError Json) → Result ℕ (String × ℕ)
deploy_flow tools wait_for_tx = do
  built ← map_err (λ e. 0) tools.build
  _ ← require 0 built
  class_hash ← step_of 1 tools.declare
  deployed ← map_err (λ e. 2) (tools.deploy class_hash)
  contract_address ← ok_or deployed.0 2
  passed ← deploy_confirmed wait_for_tx deployed.1
  ok (contract_address, passed)

-- The increment of that counter, and the value that is read then. `later` is the node once the
-- increment is confirmed.
unfoldable pub increment_flow :
    Tools → (String → Result RpcError Json) → Node → String → ℕ → Result ℕ ℕ
increment_flow tools wait_for_tx later contract_address passed = do
  invoke_tx ← step_of passed (tools.invoke contract_address)
  _ ← map_err (λ e. passed + 1) (wait_for_tx invoke_tx)
  values ← map_err (λ e. passed + 2) (starknet_call later contract_address get_counter_selector [])
  _ ← require (passed + 2) (leb 1 (counter_value values))
  ok (passed + 3)

-- The checks that passed, up to the one that failed if there is one. The import of the account decides
-- nothing.
unfoldable pub full_flow : Tools → (String → Result RpcError Json) → Node → Result ℕ ℕ
full_flow tools wait_for_tx later = do
  _ ← require 0 (tools.sncast_in_path && tools.scarb_in_path)
  (contract_address, passed) ← deploy_flow tools wait_for_tx
  increment_flow tools wait_for_tx later contract_address passed

unfoldable pub check_full_flow : Tools → (String → Result RpcError Json) → Node → Checks → Checks
check_full_flow tools wait_for_tx later checks = elim (full_flow tools wait_for_tx later) [
  | ok n ↦ record checks { passed = checks.passed + n }
  | err n ↦ record { passed = checks.passed + n; failed = checks.failed + 1 }
]

-- How the command ends: `Ok(())`, `exit(1)`, or the panic of a check.
pub data HealthEnd : Type 0 where
  returned : HealthEnd
  exited : HealthEnd
  panicked : HealthEnd

unfoldable pub runs_full_flow : Bool → Config → Bool
runs_full_flow quick config = not quick && not (str_eq config.private_key "")

unfoldable pub run_health :
    Bool → Bool → Config → Node → Tools → (String → Result RpcError Json) → Node → HealthEnd
run_health overflow_checks quick config node tools wait_for_tx later =
    elim (check_balance overflow_checks node config.account_address
      (check_rpc node (record { passed = 0; failed = 0 }))) [
        | none ↦ panicked
        | some balanced ↦
            let declared = check_oz_class node balanced in
            let checks =
              if runs_full_flow quick config
              then check_full_flow tools wait_for_tx later declared
              else declared in
            if ltb 0 checks.failed then exited else returned
      ]

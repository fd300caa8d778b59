-- ===== src/Counter/Health/Judged.antt =====
-- What each check of apps/counter/src/health.rs counts.
use snip_36_prover_web.Prelude.{
  ℕ, ◌+◌, ◌%◌, ◌^◌, ◌≤◌, ◌<◌, String, true, false, List, [], ◌∷◌, none, some, ◌≡◌, ◌≢◌, ◌↔◌, refl,
  arith, inl, inr, Bool-cases, ltb,
}
use snip_36_prover_web.Prelude.Words.{u128_mod}
use snip_36_prover_web.Prelude.Result.{Result, ok, Result-cases}
use snip_36_prover_web.Core.Json.{Json}
use snip_36_prover_web.Core.Types.{strk_token, oz_account_class_hash, balance_of_selector}
use snip_36_prover_web.Core.Rpc.{Node, RpcError, block_number, chain_id, starknet_call, get_class}
use snip_36_prover_web.Counter.Health.Rounding.{is_enough_iff}
use snip_36_prover_web.Counter.Health.Flow.{
  IsIncremented, full_flow-IsIncremented, IsIncremented-full_flow,
}
use snip_36_prover_web.Counter.Health.{
  Checks, check_pass, check_fail, check_rpc, word_of, high_word, balance_wei, is_enough,
  check_balance, check_oz_class, Tools, full_flow, check_full_flow,
}

-- A check of `P` counts no failure if `P` holds, and one if it does not.
pub data Judged (P : Type 0) (before after : Checks) : Type 0 where
  holds : P → after.failed ≡ before.failed → Judged P before after
  fails : ¬ P → before.failed < after.failed → Judged P before after

pub record IsReachable (node : Node) : Type 0 where
  pub block : ℕ
  pub id : String
  pub reached : block_number node ≡ ok block
  pub positive : 0 < block
  pub chain : chain_id node ≡ ok id

pub check_rpc-Judged :
    (node : Node) (checks : Checks) → Judged (IsReachable node) checks (check_rpc node checks)
unfolding check_rpc check_pass check_fail
check_rpc-Judged node checks = elim (Result-cases (block_number node)) [
  | inr (e, b) ↦ rw (b, check_rpc) (fails (λ h. absurd (let x = h.reached in cc)) (omega arith))
  | inl (block, b) ↦ elim (Bool-cases (ltb 0 block)) [
    | inr z ↦
        rw (b, z, check_rpc)
          (fails
            (λ h.
              let same : h.block ≡ block = (let x = h.reached in cc) in
              let pos = h.positive in ground arith)
            (omega arith))
    | inl p ↦ elim (Result-cases (chain_id node)) [
      | inl (id, c) ↦
          rw (b, p, c, check_rpc)
            (holds
              (record { block = block; id = id; reached = b; positive = ground arith; chain = c })
              refl)
      | inr (e, c) ↦
          rw (b, p, c, check_rpc) (fails (λ h. absurd (let x = h.chain in cc)) (omega arith))
    ]
  ]
]

-- What the master account must hold: one STRK, of which the doubles forgive 64 wei. The balance is the
-- sum of its two words, since the high word is not shifted.
pub record IsFunded (node : Node) (address : String) : Type 0 where
  pub low : String
  pub more : List String
  pub answered : starknet_call node strk_token balance_of_selector (address ∷ []) ≡ ok (low ∷ more)
  pub enough : 10 ^ 18 ≤ (word_of low + high_word more) % u128_mod + 64

pub check_balance-Judged :
    (node : Node) (address : String) (checks : Checks) (after : Checks)
    → check_balance false node address checks ≡ some after
    → Judged (IsFunded node address) checks after
unfolding check_balance balance_wei check_pass check_fail
check_balance-Judged node address checks after e =
    elim (Result-cases (starknet_call node strk_token balance_of_selector (address ∷ []))) [
      | inr (x, c) ↦
          fails (λ h. absurd (let y = h.answered in cc))
            (ground (arith, (rw (c, check_balance) at e)))
      | inl ([], c) ↦
          fails (λ h. absurd (let y = h.answered in cc))
            (ground (arith, (rw (c, check_balance) at e)))
      | inl (low ∷ more, c) ↦
          elim (Bool-cases (is_enough ((word_of low + high_word more) % u128_mod))) [
            | inl t ↦
                holds
                  (record { low = low; more = more; answered = c; enough = (is_enough_iff _).0 t })
                  (ground (arith, (rw (c, t, check_balance) at e)))
            | inr f ↦
                fails
                  (λ h. absurd (let y = h.answered in let z = (is_enough_iff _).1 h.enough in cc))
                  (ground (arith, (rw (c, f, check_balance) at e)))
          ]
    ]

pub check_balance-never_none :
    (node : Node) (address : String) (checks : Checks)
    → check_balance false node address checks ≢ none
unfolding check_balance balance_wei
check_balance-never_none node address checks e = ground arith

pub record IsDeclared (node : Node) : Type 0 where
  pub class : Json
  pub found : get_class node oz_account_class_hash ≡ ok class

pub check_oz_class-Judged :
    (node : Node) (checks : Checks) → Judged (IsDeclared node) checks (check_oz_class node checks)
unfolding check_oz_class check_pass check_fail
check_oz_class-Judged node checks = elim (Result-cases (get_class node oz_account_class_hash)) [
  | inl (class, c) ↦ rw (c, check_oz_class) (holds (record { class = class; found = c }) refl)
  | inr (x, c) ↦ rw (c, check_oz_class) (fails (λ h. absurd (let y = h.found in cc)) (omega arith))
]

pub check_balance_overflow :
    (node : Node) (address : String) (checks after : Checks)
    → check_balance true node address checks ≡ some after
    → checks.failed < after.failed
unfolding check_balance balance_wei check_fail
check_balance_overflow node address checks after e = ground arith

pub check_full_flow-Judged :
    (tools : Tools) (wait_for_tx : String → Result RpcError Json) (later : Node) (checks : Checks)
    → Judged
        (IsIncremented tools wait_for_tx later)
        checks
        (check_full_flow tools wait_for_tx later checks)
unfolding check_full_flow
check_full_flow-Judged tools wait_for_tx later checks =
    elim (Result-cases (full_flow tools wait_for_tx later)) [
      | inl (n, f) ↦
          rw (f, check_full_flow) (holds (full_flow-IsIncremented tools wait_for_tx later n f) refl)
      | inr (n, f) ↦
          rw (f, check_full_flow)
            (fails
              (λ h. let (m, g) = IsIncremented-full_flow tools wait_for_tx later h in absurd cc)
              (omega arith))
    ]

pub Judged-le :
    (P : Type 0) (before after : Checks) → Judged P before after → before.failed ≤ after.failed
Judged-le P before after (holds p e) = omega arith
Judged-le P before after (fails n l) = omega arith

pub Judged-iff :
    (P : Type 0) (before after : Checks)
    → Judged P before after
    → P ↔ (after.failed ≡ before.failed)
Judged-iff P before after (holds p e) = (λ x. e, λ x. p)
Judged-iff P before after (fails n l) = (λ p. absurd (n p), λ e. absurd (omega arith))

-- ===== src/CoinFlip/Submission.antt =====
-- The loop of play_coinflip (apps/coinflip/src/routes.rs) that submits the signed transaction to
-- the gateway. The HTTP client is outside: it is the function from an attempt to its reply.
pub mod Attempts
use text.Mathlib.Text.{starts_with}
use snip_36_prover_web.Prelude.{
  ℕ, String, Bool, true, false, ◌&&◌, ◌||◌, Option, none, some, ltb, str_eq, if◌then◌else◌, ◌≡◌,
  refl,
}
use snip_36_prover_web.Prelude.Result.{unwrap_or}
use snip_36_prover_web.Prelude.Retry.{retry}
use snip_36_prover_web.Core.Json.{Json}
use snip_36_prover_web.Core.Rpc.{text_field}

abbrev pub max_attempts : ℕ
max_attempts = 20

pub data Reply : Type 0 where
  body : Json → Reply
  unreadable : Reply
  failed : Reply

pub data Outcome : Type 0 where
  accepted : Outcome
  rejected : Json → Outcome
  response_unreadable : Outcome
  request_failed : Outcome
  not_accepted : Outcome

-- `str::contains`
unfoldable pub contains : String → String → Bool
contains String.[] pattern = str_eq pattern ""
contains (String.◌∷◌ c s) pattern = starts_with (String.◌∷◌ c s) pattern || contains s pattern

unfoldable pub is_received : Json → Bool
is_received b = str_eq (unwrap_or (text_field "code" b) "") "TRANSACTION_RECEIVED"

unfoldable pub is_not_ready : Json → Bool
is_not_ready b =
    let msg = unwrap_or (text_field "message" b) "" in
    contains msg "too recent" || contains msg "stored block hash: 0"

-- The body of the loop: an outcome, or nothing where it sleeps and tries again.
unfoldable pub judge_reply : ℕ → Reply → Option Outcome
judge_reply attempt (body b) =
    if is_received b
    then some accepted
    else if is_not_ready b && ltb attempt max_attempts
    then none
    else some (rejected b)
judge_reply attempt unreadable = some response_unreadable
judge_reply attempt failed = some request_failed

-- `for attempt in 1..=max_attempts`; after the loop, `if !accepted`.
unfoldable pub submit_payload : (ℕ → Reply) → Outcome
submit_payload replies = retry (λ i. judge_reply i (replies i)) not_accepted max_attempts 1

contains_test : contains "block is too recent to prove" "too recent" ≡ true
unfolding contains
contains_test = refl

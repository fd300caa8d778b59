-- ===== src/CoinFlip/Submission/Attempts.antt =====
-- How the submission loop of play_coinflip (apps/coinflip/src/routes.rs) ends.
use snip_36_prover_web.Prelude.{ℕ, true, false, ◌≡◌}
use snip_36_prover_web.Core.Json.{Json}
use snip_36_prover_web.CoinFlip.Submission.{Reply, body, is_received, is_not_ready}

-- At attempt `i` the gateway was not ready.
pub record IsWaiting (replies : ℕ → Reply) (i : ℕ) : Type 0 where
  pub reply : Json
  pub replied : replies i ≡ body reply
  pub not_received : is_received reply ≡ false
  pub not_ready : is_not_ready reply ≡ true

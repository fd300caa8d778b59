-- ===== src/CoinFlip/Lifecycle/Felt.antt =====
-- The felt under which a session is known on chain (commit_bet and play_coinflip of
-- apps/coinflip/src/routes.rs).
use mathlib.Core.Option
use snip_36_prover_web.Prelude.{String, Option, none, some, ◌≡◌}
use snip_36_prover_web.Prelude.Maps.{string_key}
use snip_36_prover_web.CoinFlip.State.{BetCommitment, State, session_felt_of}

-- The felt of a session that is there is `0x` and the digits of its UUID.
IsFelt : String → Option BetCommitment → Type 0
IsFelt session_id none = Unit
IsFelt session_id (some c) = c.session_felt ≡ session_felt_of session_id

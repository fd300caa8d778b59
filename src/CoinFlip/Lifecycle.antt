-- ===== src/CoinFlip/Lifecycle.antt =====
-- The life of a session under the requests of all players (the router of apps/coinflip/src/
-- routes.rs): each write to the shared state is one event, and a run is any sequence of them, so
-- that the requests interleave as they like.
pub mod Replay
pub mod Felt
pub mod Honest
use mathlib.Core.Path.{subst}
use mathlib.Core.Option
use snip_36_prover_web.Prelude.{
  ℕ, ◌≤◌, String, Bool, true, false, List, [], ◌∷◌, Option, none, some, min, str_eq, eq_iff,
  eq_refl, if◌then◌else◌, All, ◌≡◌, ◌≢◌, refl, sym, ap, ◌∙◌, arith,
}
use snip_36_prover_web.Prelude.Result.{ok, unwrap_or}
use snip_36_prover_web.Prelude.Maps.{get, get-insert, get-insert_self, string_key}
use snip_36_prover_web.Felt.{FeltLib}
use snip_36_prover_web.CoinFlip.State.{
  Deployment, BetCommitment, State, put_commitment, update_commitment, session_felt_of,
}
use snip_36_prover_web.CoinFlip.Deposit.{CommitRequest, commit_bet, set_bet_amount, set_seed_block}
use snip_36_prover_web.CoinFlip.Deposit.Laws.{get-update_commitment}
use snip_36_prover_web.CoinFlip.Reveal.{PlayQuery, OpenPlay, open_play, commitment_of}
use snip_36_prover_web.CoinFlip.Reveal.Laws.{open_play_iff, open_play-consumes}

-- `CoinFlipAppState::new`, with what the file of the deployments held.
unfoldable pub new_state : Option Deployment → Option Deployment → State
new_state coinflip bank = record { coinflip = coinflip; bank = bank; commitments = [] }

pub data Event : Type 0 where
  committed : String → CommitRequest → Event
  amount_set : String → String → Event
  seed_locked : String → ℕ → Event
  play_requested : String → PlayQuery → Event
  coinflip_deployed : Deployment → Event
  bank_deployed : Deployment → Event

module _ (F : FeltLib) where
  unfoldable pub step : Event → State → State
  step (committed session_id req) st = (commit_bet session_id req st).1
  step (amount_set session_id amount) st = update_commitment session_id (set_bet_amount amount) st
  step (seed_locked session_id seed) st = update_commitment session_id (set_seed_block seed) st
  step (play_requested session_id params) st = (open_play F session_id params st).1
  step (coinflip_deployed d) st = record {
    coinflip = some d;
    bank = st.bank;
    commitments = st.commitments;
  }
  step (bank_deployed d) st = record {
    coinflip = st.coinflip;
    bank = some d;
    commitments = st.commitments;
  }

  unfoldable pub run : List Event → State → State
  run [] st = st
  run (e ∷ es) st = run es (step e st)

-- An event that does not commit the session (its UUID is not drawn again).
unfoldable pub IsElsewhere : String → Event → Type 0
IsElsewhere session_id (committed other req) = str_eq other session_id ≡ false
IsElsewhere session_id _ = Unit

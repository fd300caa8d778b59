-- ===== src/CoinFlip/Lifecycle/Replay.antt =====
-- A session is played at most once (play_coinflip of apps/coinflip/src/routes.rs), however the
-- requests interleave.
use snip_36_prover_web.Prelude.{
  String, List, [], ◌∷◌, none, eq_refl, All, ◌≡◌, ◌≢◌, refl, ◌∙◌, arith,
}
use snip_36_prover_web.Prelude.Result.{ok}
use snip_36_prover_web.Prelude.Maps.{get, get-insert, string_key}
use snip_36_prover_web.Felt.{FeltLib}
use snip_36_prover_web.CoinFlip.State.{State, put_commitment}
use snip_36_prover_web.CoinFlip.Deposit.{commit_bet, set_bet_amount, set_seed_block}
use snip_36_prover_web.CoinFlip.Deposit.Laws.{get-update_commitment}
use snip_36_prover_web.CoinFlip.Reveal.{PlayQuery, OpenPlay, open_play}
use snip_36_prover_web.CoinFlip.Reveal.Laws.{open_play_iff, open_play-consumes}
use snip_36_prover_web.CoinFlip.Lifecycle.{
  Event, step, run, IsElsewhere, committed, amount_set, seed_locked, play_requested,
  coinflip_deployed, bank_deployed,
}

module _ (F : FeltLib) where
  step-absent :
      (session_id : String) (e : Event) (st : State)
      → IsElsewhere session_id e
      → get session_id st.commitments ≡ none
      → get session_id (step F e st).commitments ≡ none
  unfolding IsElsewhere step commit_bet put_commitment
  step-absent id (committed other req) st h g = get-insert other id _ st.commitments ∙ rw h g
  step-absent id (amount_set other amount) st h g =
      ground (arith, get-update_commitment other id (set_bet_amount amount) st)
  step-absent id (seed_locked other seed) st h g =
      ground (arith, get-update_commitment other id (set_seed_block seed) st)
  step-absent id (play_requested other params) st h g =
      let (_, _, kept) = open_play-consumes F other id params st in ground arith
  step-absent id (coinflip_deployed d) st h g = g
  step-absent id (bank_deployed d) st h g = g

  run-absent :
      (session_id : String) (es : List Event) (st : State)
      → All (IsElsewhere session_id) es
      → get session_id st.commitments ≡ none
      → get session_id (run F es st).commitments ≡ none
  unfolding run
  run-absent id [] st h g = g
  run-absent id (e ∷ es) st h g = run-absent id es (step F e st) h.1 (step-absent id e st h.0 g)

  -- A session for which a game was opened opens no second one, whatever requests of whatever
  -- players are served in between, as long as the session is not committed again.
  pub run-no_replay :
      (session_id : String) (first second : PlayQuery) (st : State) (opened again : OpenPlay)
      (es : List Event)
      → (open_play F session_id first st).0 ≡ ok opened
      → All (IsElsewhere session_id) es
      → (open_play F session_id second (run F es (open_play F session_id first st).1)).0 ≢ ok again
  run-no_replay id first second st opened again es e h e' =
      let entitled = (open_play_iff F id first st opened).0 e in
      let (_, _, kept) = open_play-consumes F id id first st in
      let gone : get id (open_play F id first st).1.commitments ≡ none =
        kept ∙ rw (entitled.deployed, eq_refl id) refl in
      let later = (open_play_iff F id second (run F es (open_play F id first st).1) again).0 e' in
      absurd (cc (later.committed, run-absent id es (open_play F id first st).1 h gone))

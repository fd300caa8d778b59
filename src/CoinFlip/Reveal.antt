-- ===== src/CoinFlip/Reveal.antt =====
-- The checks of play_coinflip (apps/coinflip/src/routes.rs), before the spawned task.
pub mod Laws
use snip_36_prover_web.Prelude.{ℕ, String, Option, none, some, min, str_eq, if◌then◌else◌}
use snip_36_prover_web.Prelude.Result.{Result, ok, err, ◌>>=◌, ok_or}
use snip_36_prover_web.Prelude.Maps.{get, string_key}
use snip_36_prover_web.Felt.{FeltLib}
use snip_36_prover_web.CoinFlip.State.{
  Deployment, BetCommitment, State, HttpError, bad_request, forget_commitment,
}

pub record PlayQuery : Type 0 where
  pub player : String
  pub bet : ℕ  -- u8
  pub nonce : String

-- What the spawned task of `play_coinflip` starts from.
pub record OpenPlay : Type 0 where
  pub deployment : Deployment
  pub player : String
  pub bet : ℕ
  pub seed_block : ℕ

module _ (F : FeltLib) where
  -- pedersen(bet, nonce), as the player computes it.
  unfoldable pub commitment_of : ℕ → ℕ → String
  commitment_of bet nonce = F.to_hex (F.pedersen_hash (F.from_uint bet) nonce)

  open_bet : Deployment → BetCommitment → PlayQuery → ℕ → ℕ → Result HttpError OpenPlay
  open_bet deployment commitment params bet nonce =
      if str_eq (commitment_of bet nonce) commitment.commitment
      then ok (record {
        deployment = deployment;
        player = params.player;
        bet = bet;
        seed_block = commitment.seed_block;
      })
      else err (bad_request "Commitment mismatch")

  check_bet : Deployment → BetCommitment → PlayQuery → ℕ → Result HttpError OpenPlay
  unfolding open_bet
  check_bet deployment commitment params bet = do
    nonce ← ok_or (F.from_hex params.nonce) (bad_request "Invalid nonce")
    open_bet deployment commitment params bet nonce

  -- The checks on the player and on the revealed bet, which is cut at 1.
  unfoldable pub reveal : Deployment → BetCommitment → PlayQuery → Result HttpError OpenPlay
  unfolding check_bet
  reveal deployment commitment params =
      if str_eq params.player commitment.player
      then check_bet deployment commitment params (min params.bet 1)
      else err (bad_request "Player address does not match commitment.")

  -- `play_coinflip` up to the spawned task: the commitment is taken out before it is checked.
  unfoldable pub open_play : String → PlayQuery → State → Result HttpError OpenPlay × State
  open_play session_id params st = elim st.coinflip [
    | none ↦ (err (bad_request "CoinFlip contract not deployed."), st)
    | some deployment ↦ elim (get session_id st.commitments) [
      | none ↦ (err (bad_request "No commitment found for this session."), st)
      | some commitment ↦ (reveal deployment commitment params, forget_commitment session_id st)
    ]
  ]

-- ===== src/CoinFlip/Lifecycle/Honest.antt =====
-- What a player gets that reveals the bet it committed to (apps/coinflip/src/routes.rs).
use snip_36_prover_web.Prelude.{
  ℕ, ◌≤◌, String, Option, none, some, min, ◌≡◌, refl, sym, ap, ◌∙◌, arith,
}
use snip_36_prover_web.Prelude.Result.{ok, unwrap_or}
use snip_36_prover_web.Prelude.Maps.{get, get-insert_self, string_key}
use snip_36_prover_web.Felt.{FeltLib}
use snip_36_prover_web.CoinFlip.State.{
  Deployment, BetCommitment, State, put_commitment, update_commitment, session_felt_of,
}
use snip_36_prover_web.CoinFlip.Deposit.{CommitRequest, commit_bet, set_seed_block}
use snip_36_prover_web.CoinFlip.Reveal.{open_play, commitment_of}
use snip_36_prover_web.CoinFlip.Reveal.Laws.{open_play_iff}

-- The seed block that is locked, where one is.
pub lock_seed : String → Option ℕ → State → State
lock_seed session_id none st = st
lock_seed session_id (some seed) st = update_commitment session_id (set_seed_block seed) st

update_held :
    (session_id : String) (f : BetCommitment → BetCommitment) (c : BetCommitment) (st : State)
    → get session_id st.commitments ≡ some c
    → update_commitment session_id f st ≡ put_commitment session_id (f c) st
unfolding update_commitment
update_held id f c st h = rw (h, update_commitment) refl

module _ (F : FeltLib) where
  held_commitment :
      (session_id : String) (lock : Option ℕ) (req : CommitRequest) (st : State)
      → let st' = lock_seed session_id lock (commit_bet session_id req st).1 in
        (st'.coinflip ≡ st.coinflip)
        × (get session_id st'.commitments
            ≡ some (record {
              commitment = req.commitment;
              seed_block = unwrap_or lock 0;
              player = req.player;
              bet_amount = none;
              session_felt = session_felt_of session_id;
            }))
  unfolding lock_seed commit_bet put_commitment set_seed_block
  held_commitment id none req st = (refl, get-insert_self id _ st.commitments)
  held_commitment id (some seed) req st =
      let st' = (commit_bet id req st).1 in
      let written =
        update_held id (set_seed_block seed) _ st' (get-insert_self id _ st.commitments) in
      (
        ap (λ (s : State). s.coinflip) written,
        ap (λ (s : State). get id s.commitments) written ∙ get-insert_self id _ st'.commitments,
      )

  -- A player that commits to a bet of 0 or 1 and reveals it is given a game with that bet, and
  -- the seed is the block that was locked in between, or 0 where none was: nothing makes the
  -- server wait for a deposit.
  pub honest_play :
      (session_id player nonce_hex : String) (bet nonce : ℕ) (lock : Option ℕ) (d : Deployment)
      (st : State)
      → bet ≤ 1
      → st.coinflip ≡ some d
      → F.from_hex nonce_hex ≡ some nonce
      → (open_play F session_id
          (record { player = player; bet = bet; nonce = nonce_hex })
          (lock_seed session_id lock
            (commit_bet session_id
              (record { commitment = commitment_of F bet nonce; player = player })
              st).1)).0
        ≡ ok (record { deployment = d; player = player; bet = bet; seed_block = unwrap_or lock 0 })
  honest_play id player nonce_hex bet nonce lock d st small deployed read =
      let (coinflip, held) =
        held_commitment id lock (record { commitment = commitment_of F bet nonce; player = player })
          st in
      let cut : min bet 1 ≡ bet = omega arith in
      (open_play_iff F id _ _ _).1 (record {
        deployment = d;
        commitment = _;
        nonce = nonce;
        deployed = coinflip ∙ deployed;
        committed = held;
        same_player = refl;
        nonce_read = read;
        bound = ap (λ b. commitment_of F b nonce) cut;
        opened =
            ap
              (λ b. record {
                deployment = d;
                player = player;
                bet = b;
                seed_block = unwrap_or lock 0;
              })
              (sym cut);
      })

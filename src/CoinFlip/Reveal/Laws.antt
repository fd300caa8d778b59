-- ===== src/CoinFlip/Reveal/Laws.antt =====
-- When play_coinflip (apps/coinflip/src/routes.rs) opens a game, and what it leaves of the session.
use snip_36_prover_web.Prelude.{
  ℕ, String, Bool, true, false, ◌&&◌, none, some, min, str_eq, eq_iff, eq_refl, if◌then◌else◌, ◌≡◌,
  ◌↔◌, sym, ap, ◌∙◌, arith, Option-cases, Bool-cases, inl, inr,
}
use snip_36_prover_web.Prelude.Result.{ok}
use snip_36_prover_web.Prelude.Maps.{get, get-remove, string_key}
use snip_36_prover_web.Felt.{FeltLib}
use snip_36_prover_web.CoinFlip.State.{Deployment, BetCommitment, State, forget_commitment}
use snip_36_prover_web.CoinFlip.Reveal.{PlayQuery, OpenPlay, commitment_of, reveal, open_play}

-- What entitles a request to a game: a deployment, the session's commitment, its player, and a bet
-- of 0 or 1 whose hash with the nonce is the commitment. The game's seed is the commitment's.
pub record IsEntitled (F : FeltLib) (session_id : String) (params : PlayQuery) (st : State)
    (play : OpenPlay) : Type 0 where
  pub deployment : Deployment
  pub commitment : BetCommitment
  pub nonce : ℕ
  pub deployed : st.coinflip ≡ some deployment
  pub committed : get session_id st.commitments ≡ some commitment
  pub same_player : params.player ≡ commitment.player
  pub nonce_read : F.from_hex params.nonce ≡ some nonce
  pub bound : commitment_of F (min params.bet 1) nonce ≡ commitment.commitment
  pub opened : play ≡ record {
    deployment = deployment;
    player = params.player;
    bet = min params.bet 1;
    seed_block = commitment.seed_block;
  }

abbrev pub is_deployed : State → Bool
is_deployed st = elim st.coinflip [ none ↦ false | some d ↦ true ]

module _ (F : FeltLib) where
  IsEntitled-of_open :
      (session_id : String) (params : PlayQuery) (st : State) (play : OpenPlay)
      → (open_play F session_id params st).0 ≡ ok play
      → IsEntitled F session_id params st play
  unfolding open_play reveal
  IsEntitled-of_open session_id params st play e = elim (Option-cases st.coinflip) [
    | inl none_deployed ↦ absurd (cc (rw (none_deployed, open_play) at e))
    | inr (d, deployed) ↦ elim (Option-cases (get session_id st.commitments)) [
      | inl none_committed ↦ absurd (cc (rw (deployed, none_committed, open_play) at e))
      | inr (c, committed) ↦ elim (Bool-cases (str_eq params.player c.player)) [
        | inl same ↦ elim (Option-cases (F.from_hex params.nonce)) [
          | inl none_read ↦
              absurd (cc (rw (deployed, committed, same, none_read, open_play, reveal) at e))
          | inr (n, read) ↦
              elim (Bool-cases (str_eq (commitment_of F (min params.bet 1) n) c.commitment)) [
                | inl bound ↦
                    let opened =
                      rw (deployed, committed, same, read, bound, open_play, reveal) at e in
                    record {
                      deployment = d;
                      commitment = c;
                      nonce = n;
                      deployed = deployed;
                      committed = committed;
                      same_player = (eq_iff params.player c.player).0 same;
                      nonce_read = read;
                      bound = (eq_iff (commitment_of F (min params.bet 1) n) c.commitment).0 bound;
                      opened = cc;
                    }
                | inr mismatch ↦
                    absurd
                      (cc (rw (deployed, committed, same, read, mismatch, open_play, reveal) at e))
              ]
        ]
        | inr other ↦ absurd (cc (rw (deployed, committed, other, open_play, reveal) at e))
      ]
    ]
  ]

  open_play-of_IsEntitled :
      (session_id : String) (params : PlayQuery) (st : State) (play : OpenPlay)
      → IsEntitled F session_id params st play
      → (open_play F session_id params st).0 ≡ ok play
  unfolding open_play reveal
  open_play-of_IsEntitled session_id params st play h =
      rw
        (
          h.deployed,
          h.committed,
          h.same_player,
          eq_refl h.commitment.player,
          h.nonce_read,
          h.bound,
          eq_refl h.commitment.commitment,
          open_play,
          reveal,
        )
        (ap ok (
          sym (
            h.opened
            ∙ ap
                (λ p. record {
                  deployment = h.deployment;
                  player = p;
                  bet = min params.bet 1;
                  seed_block = h.commitment.seed_block;
                })
                h.same_player)))

  pub open_play_iff :
      (session_id : String) (params : PlayQuery) (st : State) (play : OpenPlay)
      → ((open_play F session_id params st).0 ≡ ok play) ↔ IsEntitled F session_id params st play
  open_play_iff session_id params st play = (
    IsEntitled-of_open session_id params st play,
    open_play-of_IsEntitled session_id params st play,
  )

  -- Where a contract is deployed, `play_coinflip` removes the session's commitment on every
  -- outcome, a refusal included; the other sessions and the deployments stay, and without a
  -- deployed contract every session stays.
  pub open_play-consumes :
      (session_id other : String) (params : PlayQuery) (st : State)
      → let st' = (open_play F session_id params st).1 in
        (st'.coinflip ≡ st.coinflip)
        × (st'.bank ≡ st.bank)
        × (get other st'.commitments ≡ (
            if is_deployed st && str_eq session_id other then none else get other st.commitments))
  unfolding open_play forget_commitment
  open_play-consumes session_id other params st = (
    ground arith,
    ground arith,
    ground (arith, get-remove session_id other st.commitments, eq_iff session_id other),
  )

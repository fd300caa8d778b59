-- ===== src/CoinFlip/Deposit/Laws.antt =====
-- What confirm_deposit (apps/coinflip/src/routes.rs) locks, and when.
use mathlib.Core.Option
use snip_36_prover_web.Prelude.{
  ℕ, String, Option, none, some, str_eq, eq_iff, if◌then◌else◌, ◌≡◌, inl, inr, arith, Option-cases,
}
use snip_36_prover_web.Prelude.Result.{ok, err}
use snip_36_prover_web.Prelude.Maps.{get, get-insert, string_key}
use snip_36_prover_web.Core.Json.{Json}
use snip_36_prover_web.Core.Rpc.{receipt_block_number}
use snip_36_prover_web.CoinFlip.State.{
  Deployment, BetCommitment, State, put_commitment, update_commitment,
}
use snip_36_prover_web.CoinFlip.Deposit.{Sncast}

-- The block in which the match transaction was confirmed, where it was.
abbrev pub match_block : Sncast → String → Option ℕ
match_block sncast tx = elim (sncast.confirm tx) [
  | ok receipt ↦ receipt_block_number receipt
  | err _ ↦ none
]

-- What a success of `match_deposit` rests on.
pub record IsMatch (sncast : Sncast) (session_id tx_hash : String) (st : State) (match_tx : String)
    (block : Option ℕ) : Type 0 where
  pub receipt : Json
  pub bank : Deployment
  pub commitment : BetCommitment
  pub deposited : sncast.confirm tx_hash ≡ ok receipt
  pub has_bank : st.bank ≡ some bank
  pub committed : get session_id st.commitments ≡ some commitment
  pub invoked :
      sncast.invoke bank.contract_address "match_deposit" commitment.session_felt
      ≡ ok (some match_tx)
  pub confirmed : block ≡ match_block sncast match_tx

pub get-update_commitment :
    (session_id other : String) (f : BetCommitment → BetCommitment) (st : State)
    → get other (update_commitment session_id f st).commitments ≡ (
        if str_eq session_id other
        then Option.map f (get other st.commitments)
        else get other st.commitments)
unfolding update_commitment put_commitment
get-update_commitment session_id other f st = elim (Option-cases (get session_id st.commitments)) [
  | inl missing ↦ ground (arith, eq_iff session_id other)
  | inr (c, found) ↦
      ground (arith, eq_iff session_id other, get-insert session_id other (f c) st.commitments)
]

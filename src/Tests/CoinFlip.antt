-- ===== src/Tests/CoinFlip.antt =====
-- The theorems on apps/coinflip at concrete sessions.
use mathlib.Core.Option
use snip_36_prover_web.Prelude.{
  ℕ, suc, true, ◌&&◌, List, [], ◌∷◌, Option, none, some, str_eq, if◌then◌else◌, All, ◌≡◌, ◌≢◌, refl,
  arith,
}
use snip_36_prover_web.Prelude.Result.{ok, collect}
use snip_36_prover_web.Prelude.Maps.{get, insert, string_key}
use snip_36_prover_web.Prelude.Hex.{hex_code}
use snip_36_prover_web.Prelude.Text.{as_bytes}
use snip_36_prover_web.Core.Signing.Reading.{ReadsHex}
use snip_36_prover_web.Prelude.Hex.RoundTrip.{parse_hex-hex}
use snip_36_prover_web.Felt.Sample.{sample, sample-IsField}
use snip_36_prover_web.Felt.{prime}
use snip_36_prover_web.Core.Json.{Json, num, str, obj, end, field, get as get_key, as_str}
use snip_36_prover_web.Core.Rpc.{Node, get_nonce_at_block, call, text_field}
use snip_36_prover_web.CoinFlip.State.{
  Deployment, BetCommitment, State, session_felt_of, put_commitment,
}
use snip_36_prover_web.CoinFlip.Deposit.{Sncast, CommitRequest, commit_bet}
use snip_36_prover_web.CoinFlip.Reveal.{PlayQuery, OpenPlay, open_play, commitment_of, reveal}
use snip_36_prover_web.CoinFlip.Reveal.Laws.{is_deployed, open_play-consumes}
use snip_36_prover_web.CoinFlip.Lifecycle.{
  Event, seed_locked, committed, play_requested, run, new_state, IsElsewhere,
}
use snip_36_prover_web.CoinFlip.Lifecycle.Replay.{run-no_replay}
use snip_36_prover_web.CoinFlip.Lifecycle.Honest.{lock_seed, honest_play}
use snip_36_prover_web.CoinFlip.Submission.{Reply, body, submit_payload, judge_reply, is_received}
use snip_36_prover_web.Core.Config.{Config, chain_id_felt}
use snip_36_prover_web.Core.Proof.{parse_proof_facts_json}
use snip_36_prover_web.Core.Signing.{felt_from_hex, sign, sign_and_build_payload}
use snip_36_prover_web.CoinFlip.Play.{
  World, PlayResult, exited, play_task, construct, play_calldata, run_prover, submit_params,
  accepted_by_gateway,
}
use snip_36_prover_web.CoinFlip.Play.Consistent.{IsPlayed, play_task-IsPlayed}
use snip_36_prover_web.Prelude.Retry.{retry}

abbrev contract : Deployment
contract = record { contract_address = "0xc0"; class_hash = "0xc1"; deploy_block = 40 }

abbrev bank : Deployment
bank = record { contract_address = "0xba"; class_hash = "0xbb"; deploy_block = 41 }

abbrev alice : CommitRequest
alice = record { commitment = commitment_of sample 1 6; player = "0xa" }

abbrev query : PlayQuery
query = record { player = "0xa"; bet = 1; nonce = "0x6" }

abbrev fresh : State
fresh = new_state (some contract) (some bank)

abbrev committed_state : State
committed_state = (commit_bet "u-1" alice fresh).1

abbrev opened : OpenPlay
opened = record { deployment = contract; player = "0xa"; bet = 1; seed_block = 0 }

alice_opens : (open_play sample "u-1" query committed_state).0 ≡ ok opened
unfolding open_play reveal commit_bet get new_state commitment_of hex_code put_commitment insert
alice_opens = refl

open_play-consumes_test :
    let st' = (open_play sample "u-1" query committed_state).1 in
    (st'.coinflip ≡ committed_state.coinflip)
    × (st'.bank ≡ committed_state.bank)
    × (get "u-2" st'.commitments ≡ (
        if is_deployed committed_state && str_eq "u-1" "u-2"
        then none
        else get "u-2" committed_state.commitments))
open_play-consumes_test = open_play-consumes sample "u-1" "u-2" query committed_state

abbrev meanwhile : List Event
meanwhile = committed "u-2" alice ∷ seed_locked "u-1" 50 ∷ play_requested "u-2" query ∷ []

meanwhile-IsElsewhere : All (IsElsewhere "u-1") meanwhile
unfolding IsElsewhere
meanwhile-IsElsewhere = (refl, (tt, (tt, tt)))

run-no_replay_example :
    (open_play sample "u-1" query
      (run sample meanwhile (open_play sample "u-1" query committed_state).1)).0
    ≢ ok opened
run-no_replay_example =
    run-no_replay sample "u-1" query query committed_state opened opened meanwhile alice_opens
      meanwhile-IsElsewhere

abbrev alice_held : BetCommitment
alice_held = record {
  commitment = commitment_of sample 1 6;
  seed_block = 50;
  player = "0xa";
  bet_amount = none;
  session_felt = session_felt_of "u-1";
}

nonce_read : sample.from_hex "0x6" ≡ some 6
unfolding hex_code
nonce_read = refl

honest_play_example :
    (open_play sample "u-1" query (lock_seed "u-1" none (commit_bet "u-1" alice fresh).1)).0
    ≡ ok opened
unfolding new_state
honest_play_example =
    honest_play sample "u-1" "0xa" "0x6" 1 6 none contract fresh (omega arith) refl nonce_read

-- The deposit and the match are confirmed in block 44.
abbrev receipt : Json
receipt = obj (field "block_number" (num 44) end)

abbrev sncast : Sncast
sncast = record {
  invoke = λ address function calldata. ok (some "0xfeed");
  confirm = λ tx_hash. ok receipt;
}

abbrev silent : Node
silent request = ok (obj end)

-- The gateway is not ready twice, then accepts.
abbrev replies : ℕ → Reply
replies (suc (suc (suc i))) = body (obj (field "code" (str "TRANSACTION_RECEIVED") end))
replies _ =
    body (obj (field "code" (str "ERROR") (field "message" (str "block is too recent") end)))

-- A game from its seed block 0 to its settlement.
abbrev server : Config
server = record {
  rpc_url = "http://localhost";
  account_address = "0x1234";
  private_key = "0x63";
  chain_id = "SN_SEPOLIA";
  gateway_url = none;
  project_dir = "";
  output_dir = "output";
  deps_dir = "deps";
}

abbrev nonce_node : Node
nonce_node request = ok (obj (field "result" (str "0x2") end))

abbrev world : World
world = record {
  tx_written = true;
  prover = λ tx block. exited true;
  proof_size = 3;
  messages = none;
  proof_file = some "AAAB";
  proof_facts_file = some "facts";
  from_str = λ text. some ("0x4" ∷ []);
  replies = λ payload i. body (obj (field "code" (str "TRANSACTION_RECEIVED") end));
  wait_for_tx = λ tx_hash. ok receipt;
  bank = some bank;
  sncast = sncast;
}

world_plays :
    (result : PlayResult) × (play_task sample server nonce_node world "u-1" opened ≡ ok result)
unfolding play_task construct collect play_calldata felt_from_hex hex_code chain_id_felt
    get_nonce_at_block call get_key as_str sign run_prover submit_params parse_proof_facts_json
    sign_and_build_payload accepted_by_gateway submit_payload retry judge_reply is_received
    text_field as_bytes
world_plays = (_, refl)

sample-ReadsHex : ReadsHex sample
sample-ReadsHex = record { reads = λ n h. parse_hex-hex prime n (omega arith) }

play_task-IsPlayed_example :
    IsPlayed sample sample-IsField server nonce_node world "u-1" opened world_plays.0
play_task-IsPlayed_example =
    play_task-IsPlayed sample sample-IsField sample-ReadsHex server nonce_node world "u-1" opened
      world_plays.0 world_plays.1

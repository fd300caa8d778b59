-- ===== src/CoinFlip/Deposit.antt =====
-- The handlers of apps/coinflip/src/routes.rs that make a session: commit_bet, deposit_info and
-- confirm_deposit, with sncast_invoke. A handler that looks into the shared state twice takes the
-- state of each look, since other requests run in between. The session's UUID, the process
-- runner, the regular expressions, the node and the floating-point product of deposit_info are
-- outside.
pub mod Laws
use snip_36_prover_web.Prelude.{ℕ, String, Bool, true, Option, none, some, max}
use snip_36_prover_web.Prelude.Result.{Result, ok, err, ◌>>=◌, ok_or, map_err}
use snip_36_prover_web.Prelude.Maps.{get, string_key}
use snip_36_prover_web.Prelude.Hex.{hex}
use snip_36_prover_web.Core.Json.{Json}
use snip_36_prover_web.Core.Types.{strk_token}
use snip_36_prover_web.Core.Rpc.{Node, RpcError, block_number, receipt_block_number}
use snip_36_prover_web.CoinFlip.State.{
  Deployment, BetCommitment, State, HttpError, bad_request, internal_error, gateway_timeout,
  session_felt_of, put_commitment, update_commitment,
}

pub record CommitRequest : Type 0 where
  pub commitment : String
  pub player : String

pub record CommitResponse : Type 0 where
  pub session_id : String
  pub seed_block : ℕ

unfoldable pub commit_bet : String → CommitRequest → State → CommitResponse × State
commit_bet session_id req st = (
  record { session_id = session_id; seed_block = 0 },
  put_commitment session_id
      (record {
        commitment = req.commitment;
        seed_block = 0;
        player = req.player;
        bet_amount = none;
        session_felt = session_felt_of session_id;
      })
      st,
)

unfoldable pub deployed_bank : State → Result HttpError Deployment
deployed_bank st = ok_or st.bank (bad_request "Bank not deployed")

unfoldable pub session_commitment : State → String → Result HttpError BetCommitment
session_commitment st session_id =
    ok_or (get session_id st.commitments) (bad_request "No commitment for this session")

pub record DepositInfo : Type 0 where
  pub bank_address : String
  pub strk_address : String
  pub session_felt : String
  pub bet_amount_low : String
  pub bet_amount_high : String
  pub seed : String
  pub bet : String

unfoldable pub set_bet_amount : String → BetCommitment → BetCommitment
set_bet_amount amount c = record {
  commitment = c.commitment;
  seed_block = c.seed_block;
  player = c.player;
  bet_amount = some amount;
  session_felt = c.session_felt;
}

-- `amount_wei` is `(req.bet_amount * 1e18) as u128`; `before` is the state that is read, `after`
-- the one that is written.
unfoldable pub deposit_info : String → ℕ → State → State → Result HttpError (DepositInfo × State)
deposit_info session_id amount_wei before after = do
  bank ← deployed_bank before
  commitment ← session_commitment before session_id
  let amount_low = hex amount_wei
  ok (
    record {
      bank_address = bank.contract_address;
      strk_address = strk_token;
      session_felt = commitment.session_felt;
      bet_amount_low = amount_low;
      bet_amount_high = "0x0";
      seed = hex commitment.seed_block;
      bet = "0x0";
    },
    update_commitment session_id (set_bet_amount amount_low) after,
  )

pub record InvokeResult : Type 0 where
  pub tx_hash : Option String
  pub block_number : Option ℕ

-- What `sncast_invoke` runs: the command, which yields a text that holds the hash or none, and
-- `wait_for_tx` on that hash.
pub record Sncast : Type 0 where
  pub invoke : String → String → String → Result String (Option String)
  pub confirm : String → Result RpcError Json

confirmed_in : Sncast → String → Option ℕ
confirmed_in sncast tx = elim (sncast.confirm tx) [
  | ok receipt ↦ receipt_block_number receipt
  | err _ ↦ none
]

-- A confirmation that fails is logged, and the call succeeds without a block number.
unfoldable pub sncast_invoke : Sncast → String → String → String → Result String InvokeResult
unfolding confirmed_in
sncast_invoke sncast contract_address function calldata = do
  found ← sncast.invoke contract_address function calldata
  elim found [
    | none ↦ ok (record { tx_hash = none; block_number = none })
    | some tx ↦ ok (record { tx_hash = some tx; block_number = confirmed_in sncast tx })
  ]

pub record ConfirmDepositResponse : Type 0 where
  pub matched : Bool
  pub match_tx_hash : String

-- The first part of `confirm_deposit`, up to the match transaction, and its hash.
unfoldable pub match_deposit :
    Sncast → String → String → State → Result HttpError (String × Option ℕ)
match_deposit sncast session_id tx_hash st = do
  _ ← map_err (λ _. gateway_timeout "Deposit tx not confirmed") (sncast.confirm tx_hash)
  bank ← deployed_bank st
  commitment ← session_commitment st session_id
  match_result ←
      map_err internal_error
        (sncast_invoke sncast bank.contract_address "match_deposit" commitment.session_felt)
  match_tx ← ok_or match_result.tx_hash (internal_error "Bank match: no tx hash in output")
  ok (match_tx, match_result.block_number)

-- `unwrap_or(0)` of a request for the latest block.
unfoldable pub latest_block : Node → ℕ
latest_block node = elim (block_number node) [ ok n ↦ n | err _ ↦ 0 ]

unfoldable pub confirmed_block : Node → Option ℕ → ℕ
confirmed_block node (some bn) = bn
confirmed_block node none = latest_block node

unfoldable pub coinflip_deploy_block : State → ℕ
coinflip_deploy_block st = elim st.coinflip [ none ↦ 0 | some d ↦ d.deploy_block ]

unfoldable pub set_seed_block : ℕ → BetCommitment → BetCommitment
set_seed_block seed_block c = record {
  commitment = c.commitment;
  seed_block = seed_block;
  player = c.player;
  bet_amount = c.bet_amount;
  session_felt = c.session_felt;
}

-- `before` is the state once the deposit is confirmed, `after` the one once the match is.
unfoldable pub confirm_deposit :
    Sncast
    → Node
    → String
    → String
    → State
    → State
    → Result HttpError ConfirmDepositResponse × State
confirm_deposit sncast node session_id tx_hash before after =
    elim (match_deposit sncast session_id tx_hash before) [
      | err e ↦ (err e, after)
      | ok (match_tx, block) ↦
          let seed_block = max (confirmed_block node block) (coinflip_deploy_block after) in
          (
            ok (record { matched = true; match_tx_hash = match_tx }),
            update_commitment session_id (set_seed_block seed_block) after,
          )
    ]

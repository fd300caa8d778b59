-- ===== src/CoinFlip/State.antt =====
-- apps/coinflip/src/state.rs: the sessions' commitments and the deployments. Errors of the handlers
-- keep the fixed part of their texts. The file of the deployments is outside.
pub use snip_36_prover_web.Prelude.Http.{HttpError, bad_request, internal_error, gateway_timeout}
use Prim.Native.Char.{code}
use snip_36_prover_web.Prelude.{ℕ, String, Option, none, some, ◌==◌, if◌then◌else◌}
use snip_36_prover_web.Prelude.Maps.{Map, get, insert, remove, string_key}

-- `CoinFlipDeployment` and `BankDeployment`.
pub record Deployment : Type 0 where
  pub contract_address : String
  pub class_hash : String
  pub deploy_block : ℕ

pub record BetCommitment : Type 0 where
  pub commitment : String
  pub seed_block : ℕ
  pub player : String
  pub bet_amount : Option String
  pub session_felt : String

-- `CoinFlipAppState`, without the generic `AppState`.
pub record State : Type 0 where
  pub coinflip : Option Deployment
  pub bank : Option Deployment
  pub commitments : Map String BetCommitment

-- `replace('-', "")`
remove_dashes : String → String
remove_dashes String.[] = String.[]
remove_dashes (String.◌∷◌ c s) =
    let rest = remove_dashes s in if code c == 45 then rest else String.◌∷◌ c rest

unfoldable pub session_felt_of : String → String
unfolding remove_dashes
session_felt_of session_id = String.◌∷◌ "0" (String.◌∷◌ "x" (remove_dashes session_id))

unfoldable pub put_commitment : String → BetCommitment → State → State
put_commitment session_id c st = record {
  coinflip = st.coinflip;
  bank = st.bank;
  commitments = insert session_id c st.commitments;
}

-- `get_mut` and an assignment; of a missing session, nothing.
unfoldable pub update_commitment : String → (BetCommitment → BetCommitment) → State → State
update_commitment session_id f st = elim (get session_id st.commitments) [
  | none ↦ st
  | some c ↦ put_commitment session_id (f c) st
]

unfoldable pub forget_commitment : String → State → State
forget_commitment session_id st = record {
  coinflip = st.coinflip;
  bank = st.bank;
  commitments = remove session_id st.commitments;
}

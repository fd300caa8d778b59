-- ===== src/CoinFlip/Settlement.antt =====
-- How play_coinflip (apps/coinflip/src/routes.rs) reads the outcome from the prover's messages.
use snip_36_prover_web.Prelude.{
  String, Bool, false, List, [], ◌∷◌, Option, none, some, get_elem?, length, leb, str_eq,
  if◌then◌else◌,
}
use snip_36_prover_web.Prelude.Result.{unwrap_or}
use snip_36_prover_web.Core.Json.{Json, get, as_array}
use snip_36_prover_web.Core.Rpc.{texts}

-- The first message's payload is [player, seed, bet, outcome, won]; of anything else, nothing.
pub record Settlement : Type 0 where
  pub outcome_label : String
  pub won : Bool

first_payload : Json → Option (List Json)
first_payload msg_json = elim (get "l2_to_l1_messages" msg_json) [
  | none ↦ none
  | some msgs ↦ elim (as_array msgs) [
    | none ↦ none
    | some [] ↦ none
    | some (first ∷ _) ↦ elim (get "payload" first) [ none ↦ none | some p ↦ as_array p ]
  ]
]

label_of : Option String → String
label_of f = if str_eq (unwrap_or f "") "0x0" then "heads" else "tails"

unfoldable pub settlement : List String → Settlement
unfolding label_of
settlement fields =
    if leb 5 (length fields)
    then record {
      outcome_label = label_of (get_elem? fields 3);
      won = str_eq (unwrap_or (get_elem? fields 4) "") "0x1";
    }
    else record { outcome_label = ""; won = false }

-- `messages` is the parsed file, where it is there and parses.
unfoldable pub read_settlement : Option Json → Settlement
unfolding first_payload
read_settlement none = settlement []
read_settlement (some msg_json) = elim (first_payload msg_json) [
  | none ↦ settlement []
  | some payload ↦ settlement (texts payload)
]

-- ===== src/Counter.antt =====
-- apps/counter/src/routes.rs, and the selectors of selectors.rs: the calldata and the transactions
-- that the handlers of the counter make.
pub mod Sessions
pub mod Invoke
pub mod Cycle
pub mod Multicall
pub mod Attempts
pub mod Completed
pub mod Submitted
pub mod Opening
pub mod Health
use snip_36_prover_web.Prelude.{ℕ, zero, suc, ◌*◌, ◌%◌, String, List, [], ◌∷◌, Option, none, some}
use snip_36_prover_web.Prelude.Hex.{hex, parse_hex}
use snip_36_prover_web.Prelude.Words.{u64_mod}
use snip_36_prover_web.Prelude.Result.{unwrap_or}
use snip_36_prover_web.Core.Json.{Json, str, arr, obj, nil, end, field, strings}
use snip_36_prover_web.Core.Types.{ResourceBounds, sepolia_gas_price_ceil, to_rpc_json}

abbrev pub increment_selector : String
increment_selector = "0x7a44dde9fea32737a5cf3f9683b3235138654aa2d189f6fe44af37a61dc60d"

abbrev pub get_counter_selector : String
get_counter_selector = "0x3370263ab53343580e77063a719a5865004caff7f367ec136a6cdd34b6786ca"

unfoldable pub playground_bounds : ResourceBounds
playground_bounds = record {
  l1_gas = record { max_amount = 0x0; max_price_per_unit = sepolia_gas_price_ceil };
  l2_gas = record { max_amount = 0x2000000; max_price_per_unit = 0x2cb417800 };
  l1_data_gas = record { max_amount = 0x1b0; max_price_per_unit = sepolia_gas_price_ceil };
}

-- The multicall of one `increment(amount)`.
unfoldable pub increment_calldata : String → ℕ → List String
increment_calldata contract_address amount =
    "0x1" ∷ contract_address ∷ increment_selector ∷ "0x1" ∷ hex amount ∷ []

-- The calls that the loop of `prove_block` pushes.
unfoldable pub push_calls : String → ℕ → ℕ → List String
push_calls contract_address amount zero = []
push_calls contract_address amount (suc n) =
    contract_address
    ∷ increment_selector
    ∷ "0x1"
    ∷ hex amount
    ∷ push_calls contract_address amount n

unfoldable pub cycle_calldata : String → ℕ → ℕ → List String
cycle_calldata contract_address amount calls = hex calls ∷ push_calls contract_address amount calls

-- A product of `u64`, which wraps around in a release build.
unfoldable pub expected_increment : ℕ → ℕ → ℕ
expected_increment amount calls = amount * calls % u64_mod

-- The value in the answer of `get_counter`.
unfoldable pub counter_value : List String → ℕ
counter_value [] = 0
counter_value (s ∷ more) = unwrap_or (parse_hex u64_mod s) 0

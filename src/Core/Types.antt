-- ===== src/Core/Types.antt =====
-- crates/snip36-core/src/types.rs: resource bounds, submission parameters, the session.
use snip_36_prover_web.Prelude.{ℕ, ◌<◌, String, List, Bool, Option}
use snip_36_prover_web.Prelude.Words.{u64_mod, u128_mod}
use snip_36_prover_web.Prelude.Hex.{hex}
use snip_36_prover_web.Core.Json.{Json, str, obj, end, field}

pub record ResourceBound : Type 0 where
  pub max_amount : ℕ  -- u64
  pub max_price_per_unit : ℕ  -- u128

pub record ResourceBounds : Type 0 where
  pub l1_gas : ResourceBound
  pub l2_gas : ResourceBound
  pub l1_data_gas : ResourceBound

-- The widths of the fields.
pub record FitsBound (b : ResourceBound) : Type 0 where
  pub amount : b.max_amount < u64_mod
  pub price : b.max_price_per_unit < u128_mod

pub record FitsBounds (b : ResourceBounds) : Type 0 where
  pub l1 : FitsBound b.l1_gas
  pub l2 : FitsBound b.l2_gas
  pub l1_data : FitsBound b.l1_data_gas

abbrev pub sepolia_gas_price_ceil : ℕ
sepolia_gas_price_ceil = 0x38d7ea4c68000

unfoldable pub default : ResourceBounds
default = record {
  l1_gas = record { max_amount = 0x10000; max_price_per_unit = sepolia_gas_price_ceil };
  l2_gas = record { max_amount = 0x7000000; max_price_per_unit = 0x1dcd65000 };
  l1_data_gas = record { max_amount = 0x1b0; max_price_per_unit = sepolia_gas_price_ceil };
}

unfoldable pub zero_fee : ResourceBounds
zero_fee = record {
  l1_gas = record { max_amount = 0; max_price_per_unit = 0 };
  l2_gas = record { max_amount = 0x7000000; max_price_per_unit = 0 };
  l1_data_gas = record { max_amount = 0x1b0; max_price_per_unit = 0 };
}

unfoldable pub bound_json : ResourceBound → Json
bound_json b = obj (
    field "max_amount" (str (hex b.max_amount))
      (field "max_price_per_unit" (str (hex b.max_price_per_unit)) end))

unfoldable pub to_rpc_json : ResourceBounds → Json
to_rpc_json b = obj (
    field "l1_gas" (bound_json b.l1_gas)
      (field "l2_gas" (bound_json b.l2_gas) (field "l1_data_gas" (bound_json b.l1_data_gas) end)))

unfoldable pub to_gateway_json : ResourceBounds → Json
to_gateway_json b = obj (
    field "L1_GAS" (bound_json b.l1_gas)
      (field "L2_GAS" (bound_json b.l2_gas) (field "L1_DATA_GAS" (bound_json b.l1_data_gas) end)))

pub record ProofOutput : Type 0 where
  pub proof_base64 : String
  pub proof_facts : List String

-- The key and the felts are canonical values.
pub record SubmitParams : Type 0 where
  pub sender_address : ℕ
  pub private_key : ℕ
  pub calldata : List ℕ
  pub proof_base64 : String
  pub proof_facts : List ℕ
  pub nonce : ℕ
  pub chain_id : ℕ
  pub resource_bounds : ResourceBounds

pub record Session : Type 0 where
  pub account_address : Option String
  pub account_deployed : Bool
  pub contract_address : Option String
  pub class_hash : Option String
  pub last_invoke_tx : Option String
  pub invoke_block : Option ℕ
  pub prove_block : Option ℕ
  pub proof_file : Option String
  pub deploy_block : Option ℕ
  pub last_reference_block : Option ℕ

abbrev pub strk_token : String
strk_token = "0x04718f5a0fc34cc1af16a1cdee98ffb20c31f5cd61d6ab07201858f4287c938d"

abbrev pub oz_account_class_hash : String
oz_account_class_hash = "0x05b4b537eaa2399e3aa99c4e2e0208ebd6c71bc1467938cd52c798c601e43564"

abbrev pub balance_of_selector : String
balance_of_selector = "0x35a73cd311a05d46deda634c5ee045db92f811b4e74bca4437fcb5302b7af33"

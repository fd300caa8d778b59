-- ===== src/Reexecution/Headers.antt =====
-- The block header of crates/blockifier-reexecution-wasm/src/state_reader/rpc_objects.rs and its
-- conversion. `validated_gas_prices` and the reading of a version are other crates'.
use snip_36_prover_web.Prelude.{ℕ, String, Bool, Option, ◌==◌, if◌then◌else◌}
use snip_36_prover_web.Prelude.Result.{Result, ok, err, ◌>>=◌, ok_or, map_err}
use snip_36_prover_web.Reexecution.{
  ReexecutionError, state, Serde, RpcStateReader, get_block_header_async,
}

pub record GasPricePerToken : Type 0 where
  pub price_in_fri : ℕ
  pub price_in_wei : ℕ

pub data L1DataAvailabilityMode : Type 0 where
  calldata : L1DataAvailabilityMode
  blob : L1DataAvailabilityMode

pub record BlockHeader : Type 0 where
  pub block_hash : ℕ
  pub parent_hash : ℕ
  pub block_number : ℕ
  pub sequencer_address : ℕ
  pub new_root : ℕ
  pub timestamp : ℕ
  pub l1_gas_price : GasPricePerToken
  pub l1_data_gas_price : GasPricePerToken
  pub l2_gas_price : GasPricePerToken
  pub l1_da_mode : L1DataAvailabilityMode
  pub starknet_version : String
  pub state_diff_commitment : ℕ
  pub event_commitment : ℕ
  pub receipt_commitment : ℕ
  pub transaction_commitment : ℕ
  pub transaction_count : ℕ
  pub event_count : ℕ
  pub state_diff_length : ℕ

-- The arguments of `validated_gas_prices`, in its order.
pub record GasPrices : Type 0 where
  pub eth_l1_gas_price : ℕ
  pub strk_l1_gas_price : ℕ
  pub eth_l1_data_gas_price : ℕ
  pub strk_l1_data_gas_price : ℕ
  pub eth_l2_gas_price : ℕ
  pub strk_l2_gas_price : ℕ

-- `G` are the block's gas prices, `W` its version.
pub record BlockInfo (G W : Type 0) : Type 0 where
  pub block_number : ℕ
  pub sequencer_address : ℕ
  pub block_timestamp : ℕ
  pub gas_prices : G
  pub use_kzg_da : Bool
  pub starknet_version : W

pub record HeaderLib (G W : Type 0) : Type 0 where
  pub validated_gas_prices : GasPrices → G
  pub is_use_kzg_da : L1DataAvailabilityMode → Bool
  pub parse_version : String → Option W

-- `NonzeroGasPrice::new`
unfoldable pub parse_gas_price : ℕ → Result String ℕ
parse_gas_price gas_price = if gas_price == 0 then err "invalid gas price" else ok gas_price

module _ {G W : Type 0} (lib : HeaderLib G W) where
  unfoldable pub try_into_block_info : BlockHeader → Result String (BlockInfo G W)
  try_into_block_info header = do
    eth_l1 ← parse_gas_price header.l1_gas_price.price_in_wei
    strk_l1 ← parse_gas_price header.l1_gas_price.price_in_fri
    eth_l1_data ← parse_gas_price header.l1_data_gas_price.price_in_wei
    strk_l1_data ← parse_gas_price header.l1_data_gas_price.price_in_fri
    eth_l2 ← parse_gas_price header.l2_gas_price.price_in_wei
    strk_l2 ← parse_gas_price header.l2_gas_price.price_in_fri
    version ← ok_or (lib.parse_version header.starknet_version) "invalid version"
    ok (record {
      block_number = header.block_number;
      sequencer_address = header.sequencer_address;
      block_timestamp = header.timestamp;
      gas_prices = lib.validated_gas_prices (record {
        eth_l1_gas_price = eth_l1;
        strk_l1_gas_price = strk_l1;
        eth_l1_data_gas_price = eth_l1_data;
        strk_l1_data_gas_price = strk_l1_data;
        eth_l2_gas_price = eth_l2;
        strk_l2_gas_price = strk_l2;
      });
      use_kzg_da = lib.is_use_kzg_da header.l1_da_mode;
      starknet_version = version;
    })

  unfoldable pub get_block_info_async :
      Serde BlockHeader → RpcStateReader → Result ReexecutionError (BlockInfo G W)
  get_block_info_async serde_lib reader = do
    header ← get_block_header_async serde_lib reader
    map_err state (try_into_block_info header)

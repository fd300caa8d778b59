-- ===== src/Prover/Config.antt =====
-- crates/starknet-transaction-prover-wasm/src/config.rs, get_chain_info of
-- crates/blockifier-reexecution-wasm/src/utils.rs, and the prover that VirtualSnosProver::new of
-- proving/virtual_snos_prover.rs makes of a configuration. The network behind a URL is outside.
pub mod Proven
use snip_36_prover_web.Prelude.{ℕ, String, Bool, true, false, Option, none, some}
use snip_36_prover_web.Prelude.Result.{Result, ok, err, ◌>>=◌, ok_or, unwrap_or}
use snip_36_prover_web.Prelude.Maps.{Eq}
use snip_36_prover_web.Reexecution.{Node, number}
use snip_36_prover_web.Prover.Errors.{ProverError, panic}
use snip_36_prover_web.Prover.Committer.{MerkleNode, LeafData}
use snip_36_prover_web.Prover.SnosProver.{
  RpcTransaction, MaxFee, VirtualSnosProver, from_runner, prove_transaction,
}
use snip_36_prover_web.Prover.Executor.{default_executor_config}
use snip_36_prover_web.Prover.Executor.Run.{ExecutorLib}
use snip_36_prover_web.Prover.ClassesProvider.{CasmContractClass, CasmLib}
use snip_36_prover_web.Prover.StorageProofs.{RpcStorageProofsQuery}
use snip_36_prover_web.Prover.StorageProofs.Merge.{StorageProof}
use snip_36_prover_web.Prover.Runner.{ChainInfo, OsLib, RunnerOutput}
use snip_36_prover_web.Prover.Runner.Factory.{RunnerConfig, RpcRunnerFactory, ProofsLib, run_at}

pub data ChainId : Type 0 where
  mainnet : ChainId
  sepolia : ChainId
  integration_sepolia : ChainId
  other : String → ChainId

-- How starknet_api writes a chain's id.
unfoldable pub chain_name : ChainId → String
chain_name mainnet = "SN_MAIN"
chain_name sepolia = "SN_SEPOLIA"
chain_name integration_sepolia = "SN_INTEGRATION_SEPOLIA"
chain_name (other name) = name

abbrev pub strk_fee_contract_address : ℕ
strk_fee_contract_address = 0x04718f5a0fc34cc1af16a1cdee98ffb20c31f5cd61d6ab07201858f4287c938d

abbrev pub eth_fee_contract_address : ℕ
eth_fee_contract_address = 0x49d36570d4e46f48e99674bd3fcc84644ddd6b96f7c741b1562b82f9e004dc7

known_chain : ChainId → Option ℕ → ChainInfo
known_chain chain_id strk_fee_token_address_override = record {
  chain_id = chain_name chain_id;
  fee_token_addresses = record {
    strk_fee_token_address = unwrap_or strk_fee_token_address_override strk_fee_contract_address;
    eth_fee_token_address = eth_fee_contract_address;
  };
  is_l3 = false;
}

-- A chain that is not known is `unimplemented!`.
unfoldable pub get_chain_info : ChainId → Option ℕ → Result ProverError ChainInfo
unfolding known_chain
get_chain_info (other name) strk_override = err panic
get_chain_info chain_id strk_override = ok (known_chain chain_id strk_override)

pub record ProverConfig (Bouncer : Type 0) : Type 0 where
  pub rpc_node_url : String
  pub chain_id : ChainId
  pub strk_fee_token_address : Option ℕ
  pub validate_zero_fee_fields : Bool
  pub runner_config : RunnerConfig Bouncer

-- The defaults of `RunnerConfig`, `StorageProofConfig` and the executor's configuration.
unfoldable pub default_runner_config : {Bouncer : Type 0} → Bouncer → RunnerConfig Bouncer
default_runner_config bouncer = record {
  include_state_changes = true;
  virtual_block_executor_config = default_executor_config bouncer;
}

unfoldable pub default_prover_config : {Bouncer : Type 0} → Bouncer → ProverConfig Bouncer
default_prover_config bouncer = record {
  rpc_node_url = "";
  chain_id = sepolia;
  strk_fee_token_address = none;
  validate_zero_fee_fields = true;
  runner_config = default_runner_config bouncer;
}

-- What is behind a URL: a node, if it is a URL, and its storage proofs.
pub record Network : Type 0 where
  pub node_at : String → Option Node
  pub proofs_at :
      String → ℕ → RpcStorageProofsQuery → Result ProverError (StorageProof MerkleNode LeafData)

module _ {Bouncer M : Type 0} (network : Network) (manager : M) where
  unfoldable pub new_factory :
      ProverConfig Bouncer → Result ProverError (RpcRunnerFactory Bouncer M)
  new_factory config = do
    node ← ok_or (network.node_at config.rpc_node_url) panic
    chain_info ← get_chain_info config.chain_id config.strk_fee_token_address
    ok (record {
      node = node;
      fetch_proof = network.proofs_at config.rpc_node_url;
      chain_info = chain_info;
      contract_class_manager = manager;
      runner_config = config.runner_config;
    })

-- All that the prover calls of other crates.
pub record ProverLib
    (G W C Bouncer S A P V0 V1 T M Call Msg K V F Preimage Facts Seg Hints Points E Pie R : Type 0)
    : Type 0 where
  pub exec_lib : ExecutorLib G W ChainInfo C Bouncer S A P V0 V1 T M Call Msg
  pub proofs_lib : ProofsLib K V F Preimage Facts
  pub casm_lib : CasmLib V1 Seg Hints Points
  pub os_lib : OsLib G W E Facts (CasmContractClass Seg Hints Points) Call Pie
  pub stwo_prove : Option (RunnerOutput Pie Msg → Result ProverError R)
  pub network : Network
  pub manager : M
  pub default_bouncer : Bouncer

module _
    {G W C Bouncer S A P V0 V1 T M Call Msg K V F Preimage Facts Seg Hints Points E Pie R : Type 0}
    ⦃eq_key : Eq K⦄
    (lib : ProverLib G W C Bouncer S A P V0 V1 T M Call Msg K V F Preimage Facts Seg Hints Points E
      Pie R) where
  -- `VirtualSnosProver::new`
  unfoldable pub new_prover :
      ProverConfig Bouncer → Result ProverError (VirtualSnosProver (RunnerOutput Pie Msg) R)
  new_prover config = do
    factory ← new_factory lib.network lib.manager config
    ok
        (record (from_runner (run_at lib.exec_lib lib.proofs_lib lib.casm_lib lib.os_lib factory)
          lib.stwo_prove) { validate_zero_fee_fields = config.validate_zero_fee_fields })

  -- `prove_transaction` of crates/snip36-virtual-os/src/lib.rs: at a block's number.
  unfoldable pub prove_at :
      MaxFee → ProverConfig Bouncer → ℕ → RpcTransaction → Result ProverError R
  prove_at max_possible_fee config block_number transaction = do
    prover ← new_prover config
    prove_transaction max_possible_fee prover (number block_number) transaction

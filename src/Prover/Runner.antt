-- ===== src/Prover/Runner.antt =====
-- crates/starknet-transaction-prover-wasm/src/running/runner.rs: the transactions hashed and
-- executed, the input of the virtual OS made of what the providers return, and the virtual OS run
-- on it. The hash of a transaction, the conversion of an execution's information and the virtual OS
-- itself are other crates'.
pub mod Factory
pub mod Input
pub mod Composed
use snip_36_prover_web.Prelude.{ℕ, String, Bool, false, List, [], ◌∷◌, map, Option, none, some}
use snip_36_prover_web.Prelude.Result.{Result, ok, err, ◌>>=◌, ok_or, collect}
use snip_36_prover_web.Prelude.Maps.{Map, Eq, nat_key}
use snip_36_prover_web.Reexecution.{BlockId}
use snip_36_prover_web.Reexecution.Headers.{BlockInfo}
use snip_36_prover_web.Prover.Errors.{ProverError, transaction_hash_error, os_execution}
use snip_36_prover_web.Prover.Committer.{StateMaps}
use snip_36_prover_web.Prover.Executor.{InvokeTransaction, VirtualBlockExecutionData}
use snip_36_prover_web.Prover.Executor.InitialReads.{extend_entries}
use snip_36_prover_web.Prover.Executor.BaseBlock.{
  BaseBlockInfo, BlockContext, BlockHeaderCommitments,
}
use snip_36_prover_web.Prover.Executor.Run.{TransactionExecutionOutput}
use snip_36_prover_web.Prover.ClassesProvider.{CasmContractClass, ClassesInput}
use snip_36_prover_web.Prover.StorageProofs.Commitments.{CommitmentInfo}
use snip_36_prover_web.Prover.StorageProofs.Provider.{ProvidedProofs}

pub record FeeTokenAddresses : Type 0 where
  pub strk_fee_token_address : ℕ
  pub eth_fee_token_address : ℕ

pub record ChainInfo : Type 0 where
  pub chain_id : String
  pub fee_token_addresses : FeeTokenAddresses
  pub is_l3 : Bool

pub record OsChainInfo : Type 0 where
  pub chain_id : String
  pub strk_fee_token_address : ℕ

-- `G` and `W` are gas prices and versions, `E` the central execution information, `Facts` commitment
-- facts, `Casm` classes in CASM form.
pub record VirtualOsBlockInput (G W E Facts Casm : Type 0) : Type 0 where
  pub contract_state_commitment_info : CommitmentInfo Facts
  pub address_to_storage_commitment_info : Map ℕ (CommitmentInfo Facts)
  pub contract_class_commitment_info : CommitmentInfo Facts
  pub chain_info : OsChainInfo
  pub transactions : List (InvokeTransaction × ℕ)
  pub tx_execution_infos : List E
  pub block_info : BlockInfo G W
  pub initial_reads : StateMaps
  pub base_block_hash : ℕ
  pub base_block_header_commitments : BlockHeaderCommitments
  pub prev_base_block_hash : ℕ
  pub compiled_classes : Map ℕ Casm

-- `OsBlockInput`; a transaction is an invoke transaction of an account, with its hash.
pub record OsBlockInput (G W E Facts : Type 0) : Type 0 where
  pub block_hash_commitments : BlockHeaderCommitments
  pub contract_state_commitment_info : CommitmentInfo Facts
  pub address_to_storage_commitment_info : Map ℕ (CommitmentInfo Facts)
  pub contract_class_commitment_info : CommitmentInfo Facts
  pub transactions : List (InvokeTransaction × ℕ)
  pub tx_execution_infos : List E
  pub prev_block_hash : ℕ
  pub block_info : BlockInfo G W
  pub initial_reads : StateMaps
  pub declared_class_hash_to_component_hashes : Map ℕ (List ℕ)
  pub new_block_hash : ℕ
  pub old_block_number_and_hash : Option (ℕ × ℕ)
  pub class_hashes_to_migrate : List (ℕ × ℕ)

pub record OsHintsConfig : Type 0 where
  pub debug_mode : Bool
  pub full_output : Bool
  pub use_kzg_da : Bool
  pub chain_info : OsChainInfo
  pub public_keys : Option (List ℕ)
  pub rng_seed_salt : Option ℕ

-- `OsHints` with its `StarknetOsInput`.
pub record OsHints (G W E Facts Casm : Type 0) : Type 0 where
  pub os_block_inputs : List (OsBlockInput G W E Facts)
  pub deprecated_compiled_classes : Map ℕ Casm
  pub compiled_classes : Map ℕ Casm
  pub os_hints_config : OsHintsConfig

-- `From<VirtualOsBlockInput> for OsHints`
unfoldable pub to_os_hints :
    {G W E Facts Casm : Type 0} → VirtualOsBlockInput G W E Facts Casm → OsHints G W E Facts Casm
to_os_hints block_input = record {
  os_block_inputs =
      record {
        block_hash_commitments = block_input.base_block_header_commitments;
        contract_state_commitment_info = block_input.contract_state_commitment_info;
        address_to_storage_commitment_info = block_input.address_to_storage_commitment_info;
        contract_class_commitment_info = block_input.contract_class_commitment_info;
        transactions = block_input.transactions;
        tx_execution_infos = block_input.tx_execution_infos;
        prev_block_hash = block_input.prev_base_block_hash;
        block_info = block_input.block_info;
        initial_reads = block_input.initial_reads;
        declared_class_hash_to_component_hashes = [];
        new_block_hash = block_input.base_block_hash;
        old_block_number_and_hash = none;
        class_hashes_to_migrate = [];
      }
      ∷ [];
  deprecated_compiled_classes = [];
  compiled_classes = block_input.compiled_classes;
  os_hints_config = record {
    debug_mode = false;
    full_output = false;
    use_kzg_da = false;
    chain_info = block_input.chain_info;
    public_keys = none;
    rng_seed_salt = none;
  };
}

-- The data of an execution, of the runner's chain information.
abbrev pub ExecutionData : Type 0 → Type 0 → Type 0 → Type 0 → Type 0 → Type 0 → Type 0
ExecutionData G W C Bouncer Call Msg =
    VirtualBlockExecutionData (TransactionExecutionOutput Call) Msg
      (BaseBlockInfo G W ChainInfo C Bouncer)

-- The three providers of `Runner`, with the class manager `M` that an execution may change.
pub record Providers (G W C Bouncer Call Msg Facts Seg Hints Points M : Type 0) : Type 0 where
  pub get_classes : List ℕ → Result ProverError (ClassesInput Seg Hints Points)
  pub get_storage_proofs :
      ℕ → ExecutionData G W C Bouncer Call Msg → Bool → Result ProverError (ProvidedProofs Facts)
  pub execute :
      BlockId
      → M
      → List (InvokeTransaction × ℕ)
      → M × Result ProverError (ExecutionData G W C Bouncer Call Msg)

-- `E` is the central execution information, `Pie` the Cairo PIE of a run.
pub record OsLib (G W E Facts Casm Call Pie : Type 0) : Type 0 where
  pub calculate_transaction_hash : String → InvokeTransaction → Option ℕ
  pub central_info : TransactionExecutionOutput Call → E
  pub run_os : OsHints G W E Facts Casm → Option Pie

pub record RunnerOutput (Pie Msg : Type 0) : Type 0 where
  pub cairo_pie : Pie
  pub l2_to_l1_messages : List Msg

module _ {G W C Bouncer Call Msg Facts Seg Hints Points M E Pie : Type 0}
    (lib : OsLib G W E Facts (CasmContractClass Seg Hints Points) Call Pie)
    (providers : Providers G W C Bouncer Call Msg Facts Seg Hints Points M)
    (include_state_changes : Bool) where
  -- The class hashes are extended, and no class is declared.
  pub os_reads : StateMaps → ClassesInput Seg Hints Points → StateMaps
  os_reads reads classes = record reads {
    compiled_class_hashes =
        extend_entries (λ e. e) reads.compiled_class_hashes
          classes.class_hash_to_compiled_class_hash;
    declared_contracts = [];
  }

  pub block_input :
      ExecutionData G W C Bouncer Call Msg
      → ClassesInput Seg Hints Points
      → ProvidedProofs Facts
      → List (InvokeTransaction × ℕ)
      → VirtualOsBlockInput G W E Facts (CasmContractClass Seg Hints Points)
  unfolding os_reads
  block_input execution_data classes storage_proofs txs =
      let base = execution_data.base_block_info in
      let chain = base.block_context.chain_info in
      let infos = storage_proofs.commitment_infos in
      record {
        contract_state_commitment_info = infos.contracts_trie_commitment_info;
        address_to_storage_commitment_info = infos.storage_tries_commitment_infos;
        contract_class_commitment_info = infos.classes_trie_commitment_info;
        chain_info = record {
          chain_id = chain.chain_id;
          strk_fee_token_address = chain.fee_token_addresses.strk_fee_token_address;
        };
        transactions = txs;
        tx_execution_infos = map lib.central_info execution_data.execution_outputs;
        block_info = base.block_context.block_info;
        initial_reads = os_reads storage_proofs.extended_initial_reads classes;
        base_block_hash = base.base_block_hash;
        base_block_header_commitments = base.base_block_header_commitments;
        prev_base_block_hash = base.prev_base_block_hash;
        compiled_classes = classes.compiled_classes;
      }

  unfoldable pub create_virtual_os_hints :
      ExecutionData G W C Bouncer Call Msg
      → List (InvokeTransaction × ℕ)
      → Result ProverError (OsHints G W E Facts (CasmContractClass Seg Hints Points))
  unfolding block_input
  create_virtual_os_hints execution_data txs = do
    classes ← providers.get_classes execution_data.executed_class_hashes
    storage_proofs ←
        providers.get_storage_proofs
          execution_data.base_block_info.block_context.block_info.block_number execution_data
          include_state_changes
    ok (to_os_hints (block_input execution_data classes storage_proofs txs))

  -- Each transaction with its hash.
  pub hashed : String → InvokeTransaction → Result ProverError (InvokeTransaction × ℕ)
  hashed chain_id tx = do
    tx_hash ← ok_or (lib.calculate_transaction_hash chain_id tx) transaction_hash_error
    ok (tx, tx_hash)

  pub finish_run :
      List (InvokeTransaction × ℕ)
      → ExecutionData G W C Bouncer Call Msg
      → Result ProverError (RunnerOutput Pie Msg)
  finish_run txs execution_data = do
    os_hints ← create_virtual_os_hints execution_data txs
    cairo_pie ← ok_or (lib.run_os os_hints) os_execution
    ok (record { cairo_pie = cairo_pie; l2_to_l1_messages = execution_data.l2_to_l1_messages })

  unfoldable pub run_virtual_os :
      BlockId → String → M → List InvokeTransaction → Result ProverError (RunnerOutput Pie Msg)
  unfolding hashed finish_run
  run_virtual_os block_id chain_id manager txs = do
    txs_with_hashes ← collect (hashed chain_id) txs
    execution_data ← (providers.execute block_id manager txs_with_hashes).1
    finish_run txs_with_hashes execution_data

-- ===== src/Prover/Runner/Input.antt =====
-- What create_virtual_os_hints of crates/starknet-transaction-prover-wasm/src/running/runner.rs
-- makes for the virtual OS.
use snip_36_prover_web.Prelude.{ℕ, Bool, List, [], ◌∷◌, map, ◌≡◌, refl}
use snip_36_prover_web.Prelude.Maps.{get, nat_key}
use snip_36_prover_web.Prover.Committer.{StateMaps}
use snip_36_prover_web.Prover.Executor.SimulatedReads.{last_of, get-extend_entries}
use snip_36_prover_web.Prover.Executor.{InvokeTransaction}
use snip_36_prover_web.Prover.ClassesProvider.{CasmContractClass, ClassesInput}
use snip_36_prover_web.Prover.StorageProofs.Provider.{ProvidedProofs}
use snip_36_prover_web.Prover.Runner.{
  ExecutionData, Providers, OsLib, OsHints, OsBlockInput, to_os_hints, block_input, os_reads,
}

module _ {Seg Hints Points : Type 0} where
  -- The state that the virtual OS starts from: what was read, with the hashes of the executed classes,
  -- and no declaration.
  pub record IsInitial (reads : StateMaps) (classes : ClassesInput Seg Hints Points)
      (initial : StateMaps) : Type 0 where
    pub nonces : initial.nonces ≡ reads.nonces
    pub class_hashes : initial.class_hashes ≡ reads.class_hashes
    pub storage : initial.storage ≡ reads.storage
    pub compiled :
        (h : ℕ)
        → get h initial.compiled_class_hashes
          ≡ last_of
              (λ e. e)
              (get h reads.compiled_class_hashes)
              h
              classes.class_hash_to_compiled_class_hash
    pub none_declared : initial.declared_contracts ≡ []

module _ {G W C Bouncer Call Msg Facts Seg Hints Points E Pie : Type 0}
    (lib : OsLib G W E Facts (CasmContractClass Seg Hints Points) Call Pie) where
  -- The input of the virtual OS: one block, at the execution's block and chain, with the transactions,
  -- what is known of their execution, the classes, and the commitments of the proofs.
  pub record IsInput (execution_data : ExecutionData G W C Bouncer Call Msg)
      (classes : ClassesInput Seg Hints Points) (proofs : ProvidedProofs Facts)
      (txs : List (InvokeTransaction × ℕ))
      (hints : OsHints G W E Facts (CasmContractClass Seg Hints Points)) : Type 0 where
    pub block : OsBlockInput G W E Facts
    pub one_block : hints.os_block_inputs ≡ block ∷ []
    pub transactions : block.transactions ≡ txs
    pub execution_infos :
        block.tx_execution_infos ≡ map lib.central_info execution_data.execution_outputs
    pub compiled : hints.compiled_classes ≡ classes.compiled_classes
    pub none_deprecated : hints.deprecated_compiled_classes ≡ []
    pub contracts_trie :
        block.contract_state_commitment_info
        ≡ proofs.commitment_infos.contracts_trie_commitment_info
    pub storage_tries :
        block.address_to_storage_commitment_info
        ≡ proofs.commitment_infos.storage_tries_commitment_infos
    pub classes_trie :
        block.contract_class_commitment_info ≡ proofs.commitment_infos.classes_trie_commitment_info
    pub initial : IsInitial proofs.extended_initial_reads classes block.initial_reads
    pub block_info : block.block_info ≡ execution_data.base_block_info.block_context.block_info
    pub block_hash : block.new_block_hash ≡ execution_data.base_block_info.base_block_hash
    pub previous_hash : block.prev_block_hash ≡ execution_data.base_block_info.prev_base_block_hash
    pub commitments :
        block.block_hash_commitments ≡ execution_data.base_block_info.base_block_header_commitments
    pub chain :
        hints.os_hints_config.chain_info.chain_id
        ≡ execution_data.base_block_info.block_context.chain_info.chain_id
    pub fee_token :
        hints.os_hints_config.chain_info.strk_fee_token_address
        ≡ execution_data.base_block_info.block_context.chain_info.fee_token_addresses.strk_fee_token_address

module _ {G W C Bouncer Call Msg Facts Seg Hints Points M E Pie : Type 0}
    (lib : OsLib G W E Facts (CasmContractClass Seg Hints Points) Call Pie)
    (providers : Providers G W C Bouncer Call Msg Facts Seg Hints Points M) (include : Bool) where
  pub block_input-IsInput :
      (execution_data : ExecutionData G W C Bouncer Call Msg)
      (classes : ClassesInput Seg Hints Points) (proofs : ProvidedProofs Facts)
      (txs : List (InvokeTransaction × ℕ))
      → IsInput lib execution_data classes proofs txs
          (to_os_hints (block_input lib providers include execution_data classes proofs txs))
  unfolding to_os_hints block_input os_reads
  block_input-IsInput execution_data classes proofs txs = record {
    block = _;
    one_block = refl;
    transactions = refl;
    execution_infos = refl;
    compiled = refl;
    none_deprecated = refl;
    contracts_trie = refl;
    storage_tries = refl;
    classes_trie = refl;
    initial = record {
      nonces = refl;
      class_hashes = refl;
      storage = refl;
      compiled =
          λ h. get-extend_entries (λ (e : ℕ × ℕ). e) h _ classes.class_hash_to_compiled_class_hash;
      none_declared = refl;
    };
    block_info = refl;
    block_hash = refl;
    previous_hash = refl;
    commitments = refl;
    chain = refl;
    fee_token = refl;
  }

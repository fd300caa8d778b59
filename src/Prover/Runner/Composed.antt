-- ===== src/Prover/Runner/Composed.antt =====
-- The prover of transactions on a runner of a node:
-- crates/starknet-transaction-prover-wasm/src/proving/ virtual_snos_prover.rs over
-- running/runner.rs.
use mathlib.Core.Path.{subst}
use snip_36_prover_web.Prelude.{
  ℕ, String, Bool, true, List, [], ◌∷◌, Option, some, All, ◌≡◌, ◌≢◌, refl, sym, ap, ◌∙◌,
}
use snip_36_prover_web.Prelude.Result.{
  Result, ok, ok_or, ok_or-ok, collect, AllOk, collect-AllOk, ok_injective, >>=-parts,
}
use snip_36_prover_web.Prelude.Maps.{Eq, nat_key}
use snip_36_prover_web.Reexecution.{BlockId, pending}
use snip_36_prover_web.Reexecution.Classes.{get_runnable_compiled_class_async}
use snip_36_prover_web.Prover.Errors.{ProverError, transaction_hash_error, os_execution}
use snip_36_prover_web.Prover.SnosProver.{
  RpcInvokeV3, RpcTransaction, invoke, MaxFee, VirtualSnosProver, from_runner, prove_transaction,
  prove_virtual_snos_run,
}
use snip_36_prover_web.Prover.SnosProver.Validation.{IsProvable, prove_transaction-IsProven}
use snip_36_prover_web.Prover.Executor.{InvokeTransaction, v3_tx}
use snip_36_prover_web.Prover.Executor.Run.{ExecutorLib, execute}
use snip_36_prover_web.Prover.Executor.Executed.{IsBlockifier, IsExecuted, execute-IsExecuted}
use snip_36_prover_web.Prover.Executor.Finished.{all_messages}
use snip_36_prover_web.Prover.ClassesProvider.{CasmContractClass, CasmLib, ClassesInput}
use snip_36_prover_web.Prover.ClassesProvider.Complete.{HasClass, get_classes-HasClass}
use snip_36_prover_web.Prover.StorageProofs.Provider.{ProvidedProofs, get_storage_proofs}
use snip_36_prover_web.Prover.Runner.{
  ChainInfo, ExecutionData, Providers, OsLib, OsHints, RunnerOutput, to_os_hints, block_input,
  create_virtual_os_hints, hashed, finish_run, run_virtual_os,
}
use snip_36_prover_web.Prover.Runner.Factory.{
  RpcRunnerFactory, ProofsLib, reader_at, executor_at, create_providers, run_at,
}
use snip_36_prover_web.Prover.Runner.Input.{IsInput, block_input-IsInput}

module _ {G W C Bouncer Call Msg Facts Seg Hints Points M E Pie : Type 0}
    (lib : OsLib G W E Facts (CasmContractClass Seg Hints Points) Call Pie)
    (providers : Providers G W C Bouncer Call Msg Facts Seg Hints Points M) (include : Bool) where
  -- The virtual OS ran on the input made of one execution of the hashed transactions.
  pub record IsRun (block_id : BlockId) (chain_id : String) (manager : M)
      (txs : List InvokeTransaction) (out : RunnerOutput Pie Msg) : Type 0 where
    pub hashed_txs : List (InvokeTransaction × ℕ)
    pub hashes : AllOk (hashed lib providers include chain_id) txs hashed_txs
    pub execution_data : ExecutionData G W C Bouncer Call Msg
    pub executed : (providers.execute block_id manager hashed_txs).1 ≡ ok execution_data
    pub classes : ClassesInput Seg Hints Points
    pub classes_found : providers.get_classes execution_data.executed_class_hashes ≡ ok classes
    pub proofs : ProvidedProofs Facts
    pub proofs_found :
        providers.get_storage_proofs
          execution_data.base_block_info.block_context.block_info.block_number execution_data
          include
        ≡ ok proofs
    pub ran :
        lib.run_os
          (to_os_hints (block_input lib providers include execution_data classes proofs hashed_txs))
        ≡ some out.cairo_pie
    pub messages : out.l2_to_l1_messages ≡ execution_data.l2_to_l1_messages

  run_virtual_os-IsRun :
      (block_id : BlockId) (chain_id : String) (manager : M) (txs : List InvokeTransaction)
      (out : RunnerOutput Pie Msg)
      → run_virtual_os lib providers include block_id chain_id manager txs ≡ ok out
      → IsRun block_id chain_id manager txs out
  unfolding run_virtual_os finish_run create_virtual_os_hints
  run_virtual_os-IsRun block_id chain_id manager txs out h =
      >>=-parts (collect (hashed lib providers include chain_id) txs) _ h λ hs e h1.
        >>=-parts (providers.execute block_id manager hs).1 _ h1 λ run_data x h2.
          >>=-parts (create_virtual_os_hints lib providers include run_data hs) _ h2
            λ hints made h3. >>=-parts (ok_or (lib.run_os hints) os_execution) _ h3 λ pie p h4.
              >>=-parts (providers.get_classes run_data.executed_class_hashes) _ made
                λ classes c m1.
                  >>=-parts
                    (providers.get_storage_proofs
                      run_data.base_block_info.block_context.block_info.block_number run_data
                      include)
                    _ m1
                    λ proofs s m2.
                      subst (IsRun block_id chain_id manager txs) (ok_injective h4) (record {
                        hashed_txs = hs;
                        hashes = collect-AllOk _ txs hs e;
                        execution_data = run_data;
                        executed = x;
                        classes = classes;
                        classes_found = c;
                        proofs = proofs;
                        proofs_found = s;
                        ran = rw (ok_injective m2) (ok_or-ok _ _ _ p);
                        messages = refl;
                      })

  -- The one transaction of a run with its hash.
  one_hashed :
      (chain_id : String) (tx : InvokeTransaction) (hs : List (InvokeTransaction × ℕ))
      → AllOk (hashed lib providers include chain_id) (tx ∷ []) hs
      → (tx_hash : ℕ) × (lib.calculate_transaction_hash chain_id tx ≡ some tx_hash)
        × (hs ≡ (tx, tx_hash) ∷ [])
  unfolding hashed
  one_hashed chain_id tx [] h = absurd h
  one_hashed chain_id tx (t ∷ u ∷ ts) h = absurd h.1
  one_hashed chain_id tx (t ∷ []) h =
      >>=-parts (ok_or (lib.calculate_transaction_hash chain_id tx) transaction_hash_error) _ h.0
        λ tx_hash e same. (
          tx_hash,
          ok_or-ok _ _ _ e,
          ap (λ (x : InvokeTransaction × ℕ). x ∷ []) (sym (ok_injective same)),
        )

module _
    {G W C Bouncer S A P V0 V1 T M Call Msg K V F Preimage Facts Seg Hints Points E Pie R : Type 0}
    ⦃eq_key : Eq K⦄ (exec_lib : ExecutorLib G W ChainInfo C Bouncer S A P V0 V1 T M Call Msg)
    (proofs_lib : ProofsLib K V F Preimage Facts) (casm_lib : CasmLib V1 Seg Hints Points)
    (os_lib : OsLib G W E Facts (CasmContractClass Seg Hints Points) Call Pie)
    (factory : RpcRunnerFactory Bouncer M)
    (stwo_prove : Option (RunnerOutput Pie Msg → Result ProverError R))
    (max_possible_fee : MaxFee) where
  -- The prover on the factory's runners.
  abbrev pub prover : VirtualSnosProver (RunnerOutput Pie Msg) R
  prover = from_runner (run_at exec_lib proofs_lib casm_lib os_lib factory) stwo_prove

  -- What the return of a proof rests on, down to the node.
  pub record IsProvenRun (block_id : BlockId) (transaction : RpcTransaction) (result : R)
      : Type 0 where
    pub tx : RpcInvokeV3
    pub tx_hash : ℕ
    pub finalized : block_id ≢ pending
    pub invoked : transaction ≡ invoke tx
    pub provable : IsProvable max_possible_fee true tx
    pub hash_found :
        os_lib.calculate_transaction_hash factory.chain_info.chain_id (v3_tx tx) ≡ some tx_hash
    pub manager : M
    pub execution_data : ExecutionData G W C Bouncer Call Msg
    pub executed :
        IsExecuted exec_lib
          (executor_at factory block_id)
          block_id
          factory.contract_class_manager
          ((v3_tx tx, tx_hash) ∷ [])
          manager
          execution_data
    pub classes : ClassesInput Seg Hints Points
    pub classes_there :
        All
          (HasClass casm_lib
            (get_runnable_compiled_class_async exec_lib.serde_lib exec_lib.class_lib
              (reader_at factory block_id))
            classes)
          execution_data.executed_class_hashes
    pub proofs : ProvidedProofs Facts
    pub proofs_found :
        get_storage_proofs proofs_lib.facts_lib proofs_lib.commitment_lib proofs_lib.changes_lib
          proofs_lib.get_contract_addresses
          (factory.fetch_proof execution_data.base_block_info.block_context.block_info.block_number)
          execution_data
          factory.runner_config.include_state_changes
        ≡ ok proofs
    pub output : RunnerOutput Pie Msg
    pub hints : OsHints G W E Facts (CasmContractClass Seg Hints Points)
    pub input : IsInput os_lib execution_data classes proofs ((v3_tx tx, tx_hash) ∷ []) hints
    pub ran : os_lib.run_os hints ≡ some output.cairo_pie
    pub messages :
        output.l2_to_l1_messages ≡ all_messages exec_lib.blockifier execution_data.execution_outputs
    pub proven : prove_virtual_snos_run prover output ≡ ok result

  -- If the prover of a node's runner returns a proof, then the block is not pending and the
  -- transaction is an invoke that is provable with zero fee; exactly that transaction, with its
  -- hash, was executed at the block and not reverted, on the node's state and with the node's
  -- classes given to the class manager; the virtual OS ran on one block with that transaction, what
  -- is known of its execution, all executed classes, the state that was read, and the commitments
  -- of the storage proofs; and its output, with the messages of the execution's calls, was proven.
  -- This is for a blockifier that returns at most one result for each transaction.
  pub prove_transaction-IsProvenRun :
      (laws : IsBlockifier exec_lib.blockifier) (block_id : BlockId) (transaction : RpcTransaction)
      (result : R)
      → prove_transaction max_possible_fee prover block_id transaction ≡ ok result
      → IsProvenRun block_id transaction result
  unfolding from_runner run_at create_providers
  prove_transaction-IsProvenRun laws block_id transaction result h =
      let p = prove_transaction-IsProven max_possible_fee prover block_id transaction result h in
      let providers = create_providers exec_lib proofs_lib casm_lib factory block_id in
      let include = factory.runner_config.include_state_changes in
      let run =
        run_virtual_os-IsRun os_lib providers include block_id factory.chain_info.chain_id
          factory.contract_class_manager (v3_tx p.tx ∷ []) p.output p.executed in
      let (tx_hash, found, same) =
        one_hashed os_lib providers include factory.chain_info.chain_id (v3_tx p.tx) run.hashed_txs
          run.hashes in
      let executed =
        execute-IsExecuted exec_lib (executor_at factory block_id) laws block_id
          factory.contract_class_manager run.hashed_txs run.execution_data run.executed in
      record {
        tx = p.tx;
        tx_hash = tx_hash;
        finalized = p.finalized;
        invoked = p.invoked;
        provable = p.provable;
        hash_found = found;
        manager =
            (execute exec_lib (executor_at factory block_id) block_id factory.contract_class_manager
              run.hashed_txs).0;
        execution_data = run.execution_data;
        executed =
            subst
              (λ hs.
                IsExecuted exec_lib (executor_at factory block_id) block_id
                  factory.contract_class_manager hs
                  (execute exec_lib (executor_at factory block_id) block_id
                    factory.contract_class_manager run.hashed_txs).0
                  run.execution_data)
              same executed;
        classes = run.classes;
        classes_there =
            get_classes-HasClass casm_lib
              (get_runnable_compiled_class_async exec_lib.serde_lib exec_lib.class_lib
                (reader_at factory block_id))
              run.execution_data.executed_class_hashes run.classes run.classes_found;
        proofs = run.proofs;
        proofs_found = run.proofs_found;
        output = p.output;
        hints = to_os_hints (
            block_input os_lib providers include run.execution_data run.classes run.proofs
              ((v3_tx p.tx, tx_hash) ∷ []));
        input =
            block_input-IsInput os_lib providers include run.execution_data run.classes run.proofs
              _;
        ran =
            subst
              (λ hs.
                os_lib.run_os (
                  to_os_hints (
                    block_input os_lib providers include run.execution_data run.classes run.proofs
                      hs))
                ≡ some p.output.cairo_pie)
              same run.ran;
        messages = run.messages ∙ executed.finished.messages;
        proven = p.proven;
      }

-- ===== src/Prover/Executor/Finished.antt =====
-- What the end of execute in crates/starknet-transaction-prover-wasm/src/running/
-- virtual_block_executor.rs, after the transactions were executed, rests on.
use mathlib.Core.Path.{subst}
use mathlib.Core.List.{append_assoc, map-append}
use snip_36_prover_web.Prelude.{
  ℕ, ◌≤◌, List, [], ◌∷◌, ◌++◌, map, concat, length, Option, none, some, All, ◌≡◌, refl, sym, ap,
  ◌∙◌, inl, inr, arith, Option-cases,
}
use snip_36_prover_web.Prelude.Result.{
  ok, ok_or, collect, ok_injective, ok_or-ok, AllOk, collect-AllOk, AllOk-length, >>=-parts,
}
use snip_36_prover_web.Prover.Errors.{state_unavailable}
use snip_36_prover_web.Prover.Executor.{VirtualBlockExecutionData}
use snip_36_prover_web.Prover.Executor.Run.{
  TransactionExecutionOutput, Execution, BlockState, Blockifier, output_of, reject_reverted,
  messages_of, finish_execution,
}

module _ {T R K X M Call Msg : Type 0} (lib : Blockifier T R K X M Call Msg) where
  AllOk-output_of :
      (results : List (Option (TransactionExecutionOutput Call)))
      (outputs : List (TransactionExecutionOutput Call))
      → AllOk (output_of lib) results outputs
      → results ≡ map some outputs
  unfolding output_of
  AllOk-output_of [] [] h = refl
  AllOk-output_of [] (o ∷ os) h = absurd h
  AllOk-output_of (r ∷ rs) [] h = absurd h
  AllOk-output_of (r ∷ rs) (o ∷ os) h = rw (ok_or-ok r _ o h.0, AllOk-output_of rs os h.1) refl

  -- The messages of all calls, transaction by transaction.
  abbrev pub all_messages : List (TransactionExecutionOutput Call) → List Msg
  all_messages outputs =
      concat (map lib.get_sorted_l2_to_l1_messages (concat (map (λ o. o.call_infos) outputs)))

  concat-append {ℓ} :
      {A : Type ℓ} (xs ys : List (List A)) → concat (xs ++ ys) ≡ concat xs ++ concat ys
  concat-append [] ys = refl
  concat-append (x ∷ xs) ys =
      ap (λ r. x ++ r) (concat-append xs ys) ∙ sym (append_assoc x (concat xs) (concat ys))

  messages_of_lem :
      (outputs : List (TransactionExecutionOutput Call))
      → messages_of lib outputs ≡ all_messages outputs
  unfolding messages_of
  messages_of_lem [] = refl
  messages_of_lem (o ∷ os) =
      ap (λ r. concat (map lib.get_sorted_l2_to_l1_messages o.call_infos) ++ r) (messages_of_lem os)
      ∙ sym (concat-append (map lib.get_sorted_l2_to_l1_messages o.call_infos) _)
      ∙ ap concat (sym (map-append lib.get_sorted_l2_to_l1_messages o.call_infos _))

  abbrev pub NotReverted : TransactionExecutionOutput Call → Type 0
  NotReverted output = output.revert_error ≡ none

  reject_reverted-ok :
      (outputs : List (TransactionExecutionOutput Call)) (tx_hashes : List ℕ)
      → reject_reverted lib outputs tx_hashes ≡ ok tt
      → length outputs ≤ length tx_hashes
      → All NotReverted outputs
  unfolding reject_reverted
  reject_reverted-ok [] hashes h l = tt
  reject_reverted-ok (o ∷ os) [] h l = absurd (omega arith)
  reject_reverted-ok (o ∷ os) (hash ∷ hashes) h l = elim (Option-cases o.revert_error) [
    | inl fine ↦
        (fine, reject_reverted-ok os hashes (rw (fine, reject_reverted) at h) (omega arith))
    | inr (reason, reverted) ↦ absurd (cc (rw (reverted, reject_reverted) at h))
  ]

  -- The data of an execution that no transaction of was reverted.
  pub record IsFinished {B : Type 0} (base_block_info : B) (execution : Execution Call)
      (run_data : VirtualBlockExecutionData (TransactionExecutionOutput Call) Msg B) : Type 0 where
    pub base : run_data.base_block_info ≡ base_block_info
    pub outputs : execution.results ≡ map some run_data.execution_outputs
    pub not_reverted : All NotReverted run_data.execution_outputs
    pub block_state : BlockState
    pub available : execution.block_state ≡ some block_state
    pub initial_reads : block_state.get_initial_reads ≡ some run_data.initial_reads
    pub state_diff : block_state.to_state_diff ≡ some run_data.state_diff
    pub class_hashes : execution.executed_class_hashes ≡ some run_data.executed_class_hashes
    pub messages : run_data.l2_to_l1_messages ≡ all_messages run_data.execution_outputs

  pub finish_execution-IsFinished :
      {B : Type 0} (base_block_info : B) (tx_hashes : List ℕ) (execution : Execution Call)
      (run_data : VirtualBlockExecutionData (TransactionExecutionOutput Call) Msg B)
      → length execution.results ≤ length tx_hashes
      → finish_execution lib base_block_info tx_hashes execution ≡ ok run_data
      → IsFinished base_block_info execution run_data
  unfolding finish_execution
  finish_execution-IsFinished base tx_hashes execution run_data fits h =
      >>=-parts (collect (output_of lib) execution.results) _ h λ outputs e h1.
        let ran = collect-AllOk (output_of lib) execution.results outputs e in
        >>=-parts (reject_reverted lib outputs tx_hashes) _ h1 λ u fine h2.
          >>=-parts (ok_or execution.block_state state_unavailable) _ h2 λ bs s h3.
            >>=-parts (ok_or bs.get_initial_reads _) _ h3 λ reads r h4.
              >>=-parts (ok_or bs.to_state_diff _) _ h4 λ diff d h5.
                >>=-parts (ok_or execution.executed_class_hashes _) _ h5 λ hashes c h6.
                  subst (IsFinished base execution) (ok_injective h6) (record {
                    base = refl;
                    outputs = AllOk-output_of execution.results outputs ran;
                    not_reverted =
                        reject_reverted-ok outputs tx_hashes fine (
                          omega
                            (arith, AllOk-length (output_of lib) execution.results outputs ran));
                    block_state = bs;
                    available = ok_or-ok _ _ _ s;
                    initial_reads = ok_or-ok _ _ _ r;
                    state_diff = ok_or-ok _ _ _ d;
                    class_hashes = ok_or-ok _ _ _ c;
                    messages = messages_of_lem outputs;
                  })

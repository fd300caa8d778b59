-- ===== src/Prover/SnosProver/Validation.antt =====
-- Which requests virtual_snos_prover.rs (crates/starknet-transaction-prover-wasm/src/proving) proves.
use snip_36_prover_web.Prelude.{
  ℕ, ◌+◌, ◌*◌, Bool, true, false, List, [], ◌∷◌, ==_iff, ◌≡◌, ◌≢◌, ◌↔◌, ◌⊎◌, inr, refl, ap, ◌∙◌,
  ◌<◌, arith,
}
use snip_36_prover_web.Prelude.Result.{ok, >>=-parts}
use snip_36_prover_web.Prelude.Words.{u128_mod}
use snip_36_prover_web.Core.Types.{ResourceBounds, zero_fee}
use snip_36_prover_web.Reexecution.{BlockId, number, hash, latest, pending}
use snip_36_prover_web.Prover.SnosProver.{
  RpcInvokeV3, RpcTransaction, invoke, declare, deploy_account, MaxFee, extract_rpc_invoke_tx,
  is_empty, validate_transaction_input, VirtualSnosProver, prove_checked, prove_transaction,
  prove_virtual_snos_run,
}

-- A transaction that may be proven.
pub record IsProvable (max_possible_fee : MaxFee) (check_fee : Bool) (tx : RpcInvokeV3)
    : Type 0 where
  pub no_proof : tx.proof ≡ []
  pub no_proof_facts : tx.proof_facts ≡ []
  pub no_fee : (check_fee ≡ false) ⊎ (max_possible_fee tx.resource_bounds tx.tip ≡ 0)

eq-nil_of_is_empty {ℓ} : {A : Type ℓ} (xs : List A) → is_empty xs ≡ true → xs ≡ []
unfolding is_empty
eq-nil_of_is_empty [] e = refl
eq-nil_of_is_empty (x ∷ xs) e = absurd cc

-- The input is valid exactly if it has no proof, no proof facts, and, where fees are checked, a
-- largest possible fee of zero.
pub validate_transaction_input_iff :
    (max_possible_fee : MaxFee) (tx : RpcInvokeV3) (check_fee : Bool)
    → (validate_transaction_input max_possible_fee tx check_fee ≡ ok tt)
      ↔ IsProvable max_possible_fee check_fee tx
unfolding validate_transaction_input
validate_transaction_input_iff max_possible_fee tx check_fee = (
  λ e. record {
    no_proof = ground (arith, eq-nil_of_is_empty tx.proof);
    no_proof_facts = ground (arith, eq-nil_of_is_empty tx.proof_facts);
    no_fee = ground (arith, ==_iff (max_possible_fee tx.resource_bounds tx.tip) 0);
  },
  λ h.
      rw (h.no_proof, h.no_proof_facts, validate_transaction_input, is_empty)
        (ground (arith, ==_iff (max_possible_fee tx.resource_bounds tx.tip) 0)),
)

-- What `max_possible_fee` is documented to be, where it does not overflow the fee's 128 bits: the
-- amounts at their prices, with the tip on the price of the L2 gas.
unfoldable pub fee_sum : ResourceBounds → ℕ → ℕ
fee_sum b tip =
    b.l1_gas.max_amount * b.l1_gas.max_price_per_unit
    + b.l2_gas.max_amount * (b.l2_gas.max_price_per_unit + tip)
    + b.l1_data_gas.max_amount * b.l1_data_gas.max_price_per_unit

pub record IsMaxFee (max_possible_fee : MaxFee) : Type 0 where
  pub sums :
      (b : ResourceBounds) (tip : ℕ)
      → fee_sum b tip < u128_mod
      → max_possible_fee b tip ≡ fee_sum b tip

-- The bounds `zero_fee`, with no tip, pass the check on the fee: a transaction with them and no
-- proof is valid input, although two of its amounts are not zero.
pub zero_fee-valid :
    (max_possible_fee : MaxFee) (tx : RpcInvokeV3) (check_fee : Bool)
    → IsMaxFee max_possible_fee
    → tx.resource_bounds ≡ zero_fee
    → tx.tip ≡ 0
    → tx.proof ≡ []
    → tx.proof_facts ≡ []
    → validate_transaction_input max_possible_fee tx check_fee ≡ ok tt
unfolding fee_sum zero_fee
zero_fee-valid max_possible_fee tx check_fee M bounds tip proof facts =
    (validate_transaction_input_iff max_possible_fee tx check_fee).1 (record {
      no_proof = proof;
      no_proof_facts = facts;
      no_fee = inr ((λ i. max_possible_fee (bounds i) (tip i)) ∙ M.sums zero_fee 0 (omega arith));
    })

-- What the return of a proof rests on.
pub record IsProven {O P : Type 0} (max_possible_fee : MaxFee) (p : VirtualSnosProver O P)
    (block_id : BlockId) (transaction : RpcTransaction) (result : P) : Type 0 where
  pub tx : RpcInvokeV3
  pub output : O
  pub finalized : block_id ≢ pending
  pub invoked : transaction ≡ invoke tx
  pub provable : IsProvable max_possible_fee p.validate_zero_fee_fields tx
  pub executed : p.run_virtual_os block_id (tx ∷ []) ≡ ok output
  pub proven : prove_virtual_snos_run p output ≡ ok result

extract-invoke :
    (transaction : RpcTransaction) (tx : RpcInvokeV3)
    → extract_rpc_invoke_tx transaction ≡ ok tx
    → transaction ≡ invoke tx
unfolding extract_rpc_invoke_tx
extract-invoke (invoke t) tx e = let same : t ≡ tx = cc in ap invoke same
extract-invoke declare tx e = absurd cc
extract-invoke deploy_account tx e = absurd cc

module _ {O P : Type 0} where
  prove_checked-IsProven :
      (max_possible_fee : MaxFee) (p : VirtualSnosProver O P) (block_id : BlockId)
      (transaction : RpcTransaction) (result : P)
      → block_id ≢ pending
      → prove_checked max_possible_fee p block_id transaction ≡ ok result
      → IsProven max_possible_fee p block_id transaction result
  unfolding prove_checked
  prove_checked-IsProven m p block_id transaction result final e =
      >>=-parts (extract_rpc_invoke_tx transaction) _ e λ tx x e1.
        >>=-parts (validate_transaction_input m tx p.validate_zero_fee_fields) _ e1 λ u v e2.
          >>=-parts (p.run_virtual_os block_id (tx ∷ [])) _ e2 λ output r e3. record {
            tx = tx;
            output = output;
            finalized = final;
            invoked = extract-invoke transaction tx x;
            provable = (validate_transaction_input_iff m tx p.validate_zero_fee_fields).0 v;
            executed = r;
            proven = e3;
          }

  -- A proof is returned only for a block that is not pending and for an invoke transaction that is
  -- provable; the virtual OS ran exactly that transaction at that block, and its output was proven.
  pub prove_transaction-IsProven :
      (max_possible_fee : MaxFee) (p : VirtualSnosProver O P) (block_id : BlockId)
      (transaction : RpcTransaction) (result : P)
      → prove_transaction max_possible_fee p block_id transaction ≡ ok result
      → IsProven max_possible_fee p block_id transaction result
  unfolding prove_transaction
  prove_transaction-IsProven m p (number n) transaction result e =
      prove_checked-IsProven m p (number n) transaction result (λ x. cc) e
  prove_transaction-IsProven m p (hash h) transaction result e =
      prove_checked-IsProven m p (hash h) transaction result (λ x. cc) e
  prove_transaction-IsProven m p latest transaction result e =
      prove_checked-IsProven m p latest transaction result (λ x. cc) e
  prove_transaction-IsProven m p pending transaction result e = absurd cc

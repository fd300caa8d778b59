-- ===== src/Core/Signing/Binding.antt =====
-- What the hash of crates/snip36-core/src/signing.rs commits to. Collision resistance is not a
-- hypothesis: the alternative is a collision between the two transactions.
use native.Mathlib.Decide.{ℕ_discrete}
use snip_36_prover_web.Prelude.{
  ℕ, ◌^◌, ◌<◌, List, [], ◌∷◌, ◌≡◌, ◌≢◌, refl, sym, ◌∙◌, ◌⊎◌, inl, inr, arith,
}
use snip_36_prover_web.Prelude.Words.{u32_mod}
use snip_36_prover_web.Felt.{FeltLib, IsField}
use snip_36_prover_web.Core.Types.{ResourceBounds, FitsBounds}
use snip_36_prover_web.Core.Signing.{
  InvokeV3, resource_name_felt, da_mode, tip_resource_elements, compute_tip_resource_bounds_hash,
  proof_facts_elements, invoke_elements, compute_invoke_v3_tx_hash,
}
use snip_36_prover_web.Core.Signing.Packing.{da_mode_lem, concat_resource_injective}

-- The source's integer widths.
pub record IsTyped (tx : InvokeV3) : Type 0 where
  pub bounds : FitsBounds tx.resource_bounds
  pub nonce_mode : tx.nonce_da_mode < u32_mod
  pub fee_mode : tx.fee_da_mode < u32_mod

-- Two different lists with one hash.
abbrev pub Collides : FeltLib → List ℕ → List ℕ → Type 0
Collides F xs ys = (xs ≢ ys) × (F.poseidon_hash_many xs ≡ F.poseidon_hash_many ys)

-- A collision at a place where the hash of a transaction calls Poseidon.
pub data CollisionBetween (F : FeltLib) (tx ty : InvokeV3) : Type 0 where
  elements : Collides F (invoke_elements F tx) (invoke_elements F ty) → CollisionBetween F tx ty
  tip_and_bounds :
      Collides F
        (tip_resource_elements F tx.tip tx.resource_bounds)
        (tip_resource_elements F ty.tip ty.resource_bounds)
      → CollisionBetween F tx ty
  paymaster : Collides F tx.paymaster_data ty.paymaster_data → CollisionBetween F tx ty
  deployment :
      Collides F tx.account_deployment_data ty.account_deployment_data → CollisionBetween F tx ty
  calldata : Collides F tx.calldata ty.calldata → CollisionBetween F tx ty
  facts : Collides F tx.proof_facts ty.proof_facts → CollisionBetween F tx ty

bind {ℓ κ μ} : {C : Type ℓ} {P : Type κ} {Q : Type μ} → C ⊎ P → (P → C ⊎ Q) → C ⊎ Q
bind (inl c) f = inl c
bind (inr p) f = f p

List-discrete : Discrete (List ℕ)
List-discrete = hlevel ℕ_discrete

names_fit :
    (resource_name_felt "L1_GAS" < 2 ^ 56)
    × (resource_name_felt "L2_GAS" < 2 ^ 56)
    × (resource_name_felt "L1_DATA" < 2 ^ 56)
unfolding resource_name_felt
names_fit = omega arith

module _ (F : FeltLib) (L : IsField F) where
  preimage :
      {C : Type 0} (xs ys : List ℕ)
      → (Collides F xs ys → C)
      → F.poseidon_hash_many xs ≡ F.poseidon_hash_many ys
      → C ⊎ (xs ≡ ys)
  preimage xs ys wrap e = elim (List-discrete xs ys) [ yes p ↦ inr p | no n ↦ inl (wrap (n, e)) ]

  bounds_bound :
      (tip tip' : ℕ) (b c : ResourceBounds)
      → FitsBounds b
      → FitsBounds c
      → tip_resource_elements F tip b ≡ tip_resource_elements F tip' c
      → (tip ≡ tip') × (b ≡ c)
  unfolding tip_resource_elements
  bounds_bound tip tip' b c fb fc e =
      let l1 =
        concat_resource_injective F L b.l1_gas c.l1_gas "L1_GAS" fb.l1 fc.l1 names_fit.0 (cc) in
      let l2 =
        concat_resource_injective F L b.l2_gas c.l2_gas "L2_GAS" fb.l2 fc.l2 names_fit.1 (cc) in
      let l1_data =
        concat_resource_injective F L b.l1_data_gas c.l1_data_gas "L1_DATA" fb.l1_data fc.l1_data
          names_fit.2 (cc) in
      (cc, λ i. record { l1_gas = l1 i; l2_gas = l2 i; l1_data_gas = l1_data i })

  facts_bound :
      {C : Type 0} (fs gs : List ℕ)
      → (Collides F fs gs → C)
      → proof_facts_elements F fs ≡ proof_facts_elements F gs
      → C ⊎ (fs ≡ gs)
  unfolding proof_facts_elements
  facts_bound [] [] wrap e = inr refl
  facts_bound [] (g ∷ gs) wrap e = absurd (cc)
  facts_bound (f ∷ fs) [] wrap e = absurd (cc)
  facts_bound (f ∷ fs) (g ∷ gs) wrap e = preimage (f ∷ fs) (g ∷ gs) wrap (cc)

  modes_bound :
      (tx ty : InvokeV3)
      → IsTyped tx
      → IsTyped ty
      → F.from_uint (da_mode tx.nonce_da_mode tx.fee_da_mode)
        ≡ F.from_uint (da_mode ty.nonce_da_mode ty.fee_da_mode)
      → (tx.nonce_da_mode ≡ ty.nonce_da_mode) × (tx.fee_da_mode ≡ ty.fee_da_mode)
  modes_bound tx ty h k e =
      let left = da_mode_lem tx.nonce_da_mode tx.fee_da_mode h.nonce_mode h.fee_mode in
      let right = da_mode_lem ty.nonce_da_mode ty.fee_da_mode k.nonce_mode k.fee_mode in
      let same : da_mode tx.nonce_da_mode tx.fee_da_mode ≡ da_mode ty.nonce_da_mode ty.fee_da_mode =
        sym (L.uint _ (rw left (omega arith))) ∙ e ∙ L.uint _ (rw right (omega arith)) in
      omega arith

  -- Two transactions with one hash are equal in every field, the proof facts among them, or else
  -- Poseidon collides on two of the lists that their hashes are computed from.
  pub tx_hash_binds :
      (tx ty : InvokeV3)
      → IsTyped tx
      → IsTyped ty
      → compute_invoke_v3_tx_hash F tx ≡ compute_invoke_v3_tx_hash F ty
      → CollisionBetween F tx ty ⊎ (tx ≡ ty)
  unfolding compute_invoke_v3_tx_hash invoke_elements compute_tip_resource_bounds_hash
  tx_hash_binds tx ty h k e =
      bind (preimage (invoke_elements F tx) (invoke_elements F ty) elements e) λ same.
        bind (preimage _ _ tip_and_bounds (cc)) λ tip.
          bind (preimage tx.paymaster_data ty.paymaster_data paymaster (cc)) λ payer.
            bind (preimage tx.account_deployment_data ty.account_deployment_data deployment (cc))
              λ deployed. bind (preimage tx.calldata ty.calldata calldata (cc)) λ called.
                bind (facts_bound tx.proof_facts ty.proof_facts facts (cc)) λ proved.
                  let bounds =
                    bounds_bound tx.tip ty.tip tx.resource_bounds ty.resource_bounds h.bounds
                      k.bounds tip in
                  let modes = modes_bound tx ty h k (cc) in
                  let sender : tx.sender_address ≡ ty.sender_address = cc in
                  let chain : tx.chain_id ≡ ty.chain_id = cc in
                  let nonce : tx.nonce ≡ ty.nonce = cc in
                  inr λ i. record {
                    sender_address = sender i;
                    calldata = called i;
                    chain_id = chain i;
                    nonce = nonce i;
                    tip = bounds.0 i;
                    resource_bounds = bounds.1 i;
                    paymaster_data = payer i;
                    account_deployment_data = deployed i;
                    nonce_da_mode = modes.0 i;
                    fee_da_mode = modes.1 i;
                    proof_facts = proved i;
                  }

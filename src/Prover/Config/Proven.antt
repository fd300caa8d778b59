-- ===== src/Prover/Config/Proven.antt =====
-- A proof of the prover that VirtualSnosProver::new of crates/starknet-transaction-prover-wasm makes of
-- a configuration.
use mathlib.Core.Path.{subst}
use snip_36_prover_web.Prelude.{ℕ, true, false, Option, some, ◌≡◌, ◌⊎◌, inl, inr, refl, sym}
use snip_36_prover_web.Prelude.Result.{ok, ok_or, ok_or-ok, unwrap_or, >>=-parts, ok_injective}
use snip_36_prover_web.Prelude.Maps.{Eq}
use snip_36_prover_web.Reexecution.{number}
use snip_36_prover_web.Prover.SnosProver.{RpcTransaction, MaxFee, from_runner, prove_transaction}
use snip_36_prover_web.Prover.Executor.Executed.{IsBlockifier}
use snip_36_prover_web.Prover.Runner.Factory.{RpcRunnerFactory, run_at}
use snip_36_prover_web.Prover.Runner.{ChainInfo}
use snip_36_prover_web.Prover.Runner.Composed.{IsProvenRun, prove_transaction-IsProvenRun}
use snip_36_prover_web.Prover.Config.{
  ChainId, mainnet, sepolia, integration_sepolia, other, ProverConfig, Network, known_chain,
  chain_name, get_chain_info, ProverLib, new_factory, new_prover, prove_at,
}

-- The chain is one of the three that are known, under its name, with the fee tokens of Starknet or the
-- STRK token that is configured.
pub record IsChain (chain_id : ChainId) (strk_override : Option ℕ) (info : ChainInfo) : Type 0 where
  pub name :
      ((chain_id ≡ mainnet) × (info.chain_id ≡ "SN_MAIN"))
      ⊎ ((chain_id ≡ sepolia) × (info.chain_id ≡ "SN_SEPOLIA"))
      ⊎ ((chain_id ≡ integration_sepolia) × (info.chain_id ≡ "SN_INTEGRATION_SEPOLIA"))
  pub strk :
      info.fee_token_addresses.strk_fee_token_address
      ≡ unwrap_or strk_override 0x04718f5a0fc34cc1af16a1cdee98ffb20c31f5cd61d6ab07201858f4287c938d
  pub eth :
      info.fee_token_addresses.eth_fee_token_address
      ≡ 0x49d36570d4e46f48e99674bd3fcc84644ddd6b96f7c741b1562b82f9e004dc7
  pub layer : info.is_l3 ≡ false

get_chain_info-IsChain :
    (chain_id : ChainId) (strk_override : Option ℕ) (info : ChainInfo)
    → get_chain_info chain_id strk_override ≡ ok info
    → IsChain chain_id strk_override info
unfolding get_chain_info known_chain chain_name
get_chain_info-IsChain (other n) o info e = absurd cc
get_chain_info-IsChain mainnet o info e =
    subst (IsChain mainnet o) (ok_injective e)
      (record { name = inl (refl, refl); strk = refl; eth = refl; layer = refl })
get_chain_info-IsChain sepolia o info e =
    subst (IsChain sepolia o) (ok_injective e)
      (record { name = inr (inl (refl, refl)); strk = refl; eth = refl; layer = refl })
get_chain_info-IsChain integration_sepolia o info e =
    subst (IsChain integration_sepolia o) (ok_injective e)
      (record { name = inr (inr (refl, refl)); strk = refl; eth = refl; layer = refl })

new_factory-made :
    {Bouncer M : Type 0} (network : Network) (manager : M) (config : ProverConfig Bouncer)
    (factory : RpcRunnerFactory Bouncer M)
    → new_factory network manager config ≡ ok factory
    → (network.node_at config.rpc_node_url ≡ some factory.node)
      × (factory.fetch_proof ≡ network.proofs_at config.rpc_node_url)
      × IsChain config.chain_id config.strk_fee_token_address factory.chain_info
      × (factory.contract_class_manager ≡ manager)
      × (factory.runner_config ≡ config.runner_config)
unfolding new_factory
new_factory-made {Bouncer} {M} network manager config factory e =
    >>=-parts (ok_or (network.node_at config.rpc_node_url) _) _ e λ node n e1.
      >>=-parts (get_chain_info config.chain_id config.strk_fee_token_address) _ e1 λ info c e2.
        subst
          (λ (f : RpcRunnerFactory Bouncer M).
            (network.node_at config.rpc_node_url ≡ some f.node)
            × (f.fetch_proof ≡ network.proofs_at config.rpc_node_url)
            × IsChain config.chain_id config.strk_fee_token_address f.chain_info
            × (f.contract_class_manager ≡ manager)
            × (f.runner_config ≡ config.runner_config))
          (ok_injective e2)
          (ok_or-ok _ _ node n, refl, get_chain_info-IsChain _ _ info c, refl, refl)

module _
    {G W C Bouncer S A P V0 V1 T M Call Msg K V F Preimage Facts Seg Hints Points E Pie R : Type 0}
    ⦃eq_key : Eq K⦄
    (lib : ProverLib G W C Bouncer S A P V0 V1 T M Call Msg K V F Preimage Facts Seg Hints Points E
      Pie R)
    (max_possible_fee : MaxFee) where
  -- What a proof at a block of a configuration rests on.
  pub record IsProvenAt (config : ProverConfig Bouncer) (block_number : ℕ)
      (transaction : RpcTransaction) (result : R) : Type 0 where
    pub factory : RpcRunnerFactory Bouncer M
    pub node_found : lib.network.node_at config.rpc_node_url ≡ some factory.node
    pub proofs_from : factory.fetch_proof ≡ lib.network.proofs_at config.rpc_node_url
    pub chain : IsChain config.chain_id config.strk_fee_token_address factory.chain_info
    pub manager : factory.contract_class_manager ≡ lib.manager
    pub runner_config : factory.runner_config ≡ config.runner_config
    pub proven :
        IsProvenRun lib.exec_lib lib.proofs_lib lib.casm_lib lib.os_lib factory lib.stwo_prove
          max_possible_fee
          (number block_number)
          transaction
          result

  pub prove_at-IsProvenAt :
      (laws : IsBlockifier lib.exec_lib.blockifier) (config : ProverConfig Bouncer)
      (block_number : ℕ) (transaction : RpcTransaction) (result : R)
      → config.validate_zero_fee_fields ≡ true
      → prove_at lib max_possible_fee config block_number transaction ≡ ok result
      → IsProvenAt config block_number transaction result
  unfolding prove_at new_prover from_runner
  prove_at-IsProvenAt laws config block_number transaction result checks e =
      >>=-parts (new_prover lib config) _ e λ prover made proves.
        >>=-parts (new_factory lib.network lib.manager config) _ made λ factory started same.
          let runner =
            from_runner (run_at lib.exec_lib lib.proofs_lib lib.casm_lib lib.os_lib factory)
              lib.stwo_prove in
          let made_of = new_factory-made lib.network lib.manager config factory started in
          let checked =
            subst
              (λ q.
                prove_transaction max_possible_fee q (number block_number) transaction ≡ ok result)
              (sym (ok_injective same)) proves in
          record {
            factory = factory;
            node_found = made_of.0;
            proofs_from = made_of.1;
            chain = made_of.2;
            manager = made_of.3;
            runner_config = made_of.4;
            proven =
                prove_transaction-IsProvenRun lib.exec_lib lib.proofs_lib lib.casm_lib lib.os_lib
                  factory lib.stwo_prove max_possible_fee laws (number block_number) transaction
                  result
                  (subst
                    (λ v.
                      prove_transaction max_possible_fee
                        (record runner { validate_zero_fee_fields = v }) (number block_number)
                        transaction
                      ≡ ok result)
                    checks checked);
          }

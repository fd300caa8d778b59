-- ===== src/Prover/Executor/SimulatedReads.antt =====
-- Reads from the state that a simulation reported: serde_utils.rs and SimulatedStateReader of crates/
-- starknet-transaction-prover-wasm/src/running/virtual_block_executor.rs together.
use snip_36_prover_web.Prelude.{
  ℕ, List, [], ◌∷◌, Option, none, some, ◌≡◌, if◌then◌else◌, refl, ap, ◌∙◌,
}
use snip_36_prover_web.Prelude.Maps.{Map, Eq, get, insert, get-insert, nat_key, pair_key}
use snip_36_prover_web.Prover.Executor.{StateReader, or_else, simulated_state_reader}
use snip_36_prover_web.Prover.Executor.InitialReads.{
  StorageEntry, NonceEntry, ClassHashEntry, DeclaredEntry, RpcInitialReads, extend_entries,
  to_state_maps,
}

-- The value of the last entry of the key.
unfoldable pub last_of {ℓ κ μ} :
    {A : Type ℓ} {K : Type κ} {V : Type μ} ⦃e : Eq K⦄
    → (A → K × V)
    → Option V
    → K
    → List A
    → Option V
last_of ⦃e⦄ entry before k [] = before
last_of ⦃e⦄ entry before k (a ∷ as_read) =
    last_of entry (if e.beq (entry a).0 k then some (entry a).1 else before) k as_read

pub get-extend_entries {ℓ κ μ} :
    {A : Type ℓ} {K : Type κ} {V : Type μ} ⦃e : Eq K⦄ (entry : A → K × V) (k : K) (m : Map K V)
    (entries : List A)
    → get k (extend_entries entry m entries) ≡ last_of entry (get k m) k entries
unfolding extend_entries last_of
get-extend_entries entry k m [] = refl
get-extend_entries entry k m (a ∷ entries) =
    get-extend_entries entry k (insert (entry a).0 (entry a).1 m) entries
    ∙ ap (λ before. last_of entry before k entries) (get-insert (entry a).0 k (entry a).1 m)

module _ {R K : Type 0} (reads : RpcInitialReads) (rpc_state_reader : StateReader R K) where
  abbrev simulated : StateReader R K
  simulated = simulated_state_reader (to_state_maps reads) rpc_state_reader

  -- Each read is that of the last entry of its key, or else the RPC reader's.
  pub record ReadsLast (address key : ℕ) : Type 0 where
    pub storage :
        simulated.get_storage_at address key
        ≡ or_else
            (last_of {K = ℕ × ℕ}
              (λ (e : StorageEntry). ((e.contract_address, e.key), e.value))
              none
              (address, key)
              reads.storage)
            (rpc_state_reader.get_storage_at address key)
    pub nonce :
        simulated.get_nonce_at address
        ≡ or_else
            (last_of {K = ℕ}
              (λ (e : NonceEntry). (e.contract_address, e.nonce))
              none
              address
              reads.nonces)
            (rpc_state_reader.get_nonce_at address)
    pub class_hash :
        simulated.get_class_hash_at address
        ≡ or_else
            (last_of {K = ℕ}
              (λ (e : ClassHashEntry). (e.contract_address, e.class_hash))
              none
              address
              reads.class_hashes)
            (rpc_state_reader.get_class_hash_at address)
    pub declared :
        simulated.is_declared address
        ≡ or_else
            (last_of {K = ℕ}
              (λ (e : DeclaredEntry). (e.class_hash, e.is_declared))
              none
              address
              reads.declared_contracts)
            (rpc_state_reader.is_declared address)

  -- A read of a simulated state returns the value of the last entry that the simulation reported for
  -- its key, and what the RPC reader returns if there is none; so for storage, nonces, class hashes
  -- and declared classes, each by the entries of its own list.
  pub simulated_state_reader-last : (address key : ℕ) → ReadsLast address key
  unfolding simulated_state_reader to_state_maps get
  simulated_state_reader-last address key = record {
    storage =
        ap (λ o. or_else o (rpc_state_reader.get_storage_at address key))
          (get-extend_entries _ (address, key) [] reads.storage);
    nonce =
        ap (λ o. or_else o (rpc_state_reader.get_nonce_at address))
          (get-extend_entries _ address [] reads.nonces);
    class_hash =
        ap (λ o. or_else o (rpc_state_reader.get_class_hash_at address))
          (get-extend_entries _ address [] reads.class_hashes);
    declared =
        ap (λ o. or_else o (rpc_state_reader.is_declared address))
          (get-extend_entries _ address [] reads.declared_contracts);
  }

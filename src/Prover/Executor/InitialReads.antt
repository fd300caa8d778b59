-- ===== src/Prover/Executor/InitialReads.antt =====
-- crates/starknet-transaction-prover-wasm/src/running/serde_utils.rs: the initial reads of a simulation
-- as state maps. serde's reading of the entries is outside.
use snip_36_prover_web.Prelude.{ℕ, Bool, List, [], ◌∷◌}
use snip_36_prover_web.Prelude.Maps.{Map, Eq, insert, nat_key, pair_key}
use snip_36_prover_web.Prover.Committer.{StateMaps}

pub record StorageEntry : Type 0 where
  pub contract_address : ℕ
  pub key : ℕ
  pub value : ℕ

pub record NonceEntry : Type 0 where
  pub contract_address : ℕ
  pub nonce : ℕ

pub record ClassHashEntry : Type 0 where
  pub contract_address : ℕ
  pub class_hash : ℕ

pub record DeclaredEntry : Type 0 where
  pub class_hash : ℕ
  pub is_declared : Bool

-- A list that is missing is read as the empty one.
pub record RpcInitialReads : Type 0 where
  pub storage : List StorageEntry
  pub nonces : List NonceEntry
  pub class_hashes : List ClassHashEntry
  pub declared_contracts : List DeclaredEntry

unfoldable pub extend_entries {ℓ κ μ} :
    {A : Type ℓ} {K : Type κ} {V : Type μ} ⦃e : Eq K⦄ → (A → K × V) → Map K V → List A → Map K V
extend_entries entry m [] = m
extend_entries entry m (a ∷ as_read) =
    let (k, v) = entry a in extend_entries entry (insert k v m) as_read

-- `From<RpcInitialReads> for StateMaps`
unfoldable pub to_state_maps : RpcInitialReads → StateMaps
to_state_maps reads = record {
  nonces = extend_entries (λ e. (e.contract_address, e.nonce)) [] reads.nonces;
  class_hashes = extend_entries (λ e. (e.contract_address, e.class_hash)) [] reads.class_hashes;
  storage = extend_entries (λ e. ((e.contract_address, e.key), e.value)) [] reads.storage;
  compiled_class_hashes = [];
  declared_contracts =
      extend_entries (λ e. (e.class_hash, e.is_declared)) [] reads.declared_contracts;
}

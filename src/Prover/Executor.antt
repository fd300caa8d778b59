-- ===== src/Prover/Executor.antt =====
-- crates/starknet-transaction-prover-wasm/src/running/virtual_block_executor.rs: a block of
-- transactions executed on the state that the node reports. The blockifier is outside: its executor
-- is a function of the state reader, the classes and the transactions that it is given.
pub mod InitialReads
pub mod BaseBlock
pub mod Prefetch
pub mod Run
pub mod Cached
pub mod Finished
pub mod Executed
pub mod SimulatedReads
use snip_36_prover_web.Prelude.{ℕ, String, Bool, true, List, Option, none, some}
use snip_36_prover_web.Prelude.Result.{Result, ok, err}
use snip_36_prover_web.Prelude.Maps.{Map, Eq, get, nat_key, pair_key}
use snip_36_prover_web.Prover.Committer.{StateMaps}
use snip_36_prover_web.Prover.SnosProver.{RpcInvokeV3}

-- `InvokeTransaction`; the transactions of the versions 0 and 1 are kept opaque.
pub data InvokeTransaction : Type 0 where
  v3_tx : RpcInvokeV3 → InvokeTransaction
  older_tx : ℕ → InvokeTransaction

-- A hash set is the list of its elements in the order in which they are iterated. `O` is what the
-- execution of a transaction yields, `M` a message to L1, `B` the base block's information.
pub record VirtualBlockExecutionData (O M B : Type 0) : Type 0 where
  pub execution_outputs : List O
  pub initial_reads : StateMaps
  pub state_diff : StateMaps
  pub executed_class_hashes : List ℕ
  pub l2_to_l1_messages : List M
  pub base_block_info : B

-- The blockifier's `StateReader` with `FetchCompiledClasses`; its one error is `StateReadError`.
-- `R` is a class that runs, `K` a class to be cached.
pub record StateReader (R K : Type 0) : Type 0 where
  pub get_storage_at : ℕ → ℕ → Result String ℕ
  pub get_nonce_at : ℕ → Result String ℕ
  pub get_class_hash_at : ℕ → Result String ℕ
  pub get_compiled_class : ℕ → Result String R
  pub get_compiled_class_hash : ℕ → Result String ℕ
  pub get_compiled_classes : ℕ → Result String K
  pub is_declared : ℕ → Result String Bool

unfoldable pub or_else {ℓ} : {A : Type ℓ} → Option A → Result String A → Result String A
or_else (some value) fallback = ok value
or_else none fallback = fallback

module _ {R K : Type 0} where
  -- The blocking reads of the RPC reader, which refuse.
  unfoldable pub rpc_blocking_reader : StateReader R K
  rpc_blocking_reader = record {
    get_storage_at = λ address key. err "no blocking storage access";
    get_nonce_at = λ address. err "no blocking nonce access";
    get_class_hash_at = λ address. err "no blocking class hash access";
    get_compiled_class = λ class_hash. err "no blocking compiled class access";
    get_compiled_class_hash = λ class_hash. err "no get_compiled_class_hash";
    get_compiled_classes = λ class_hash. err "no blocking compiled classes access";
    is_declared = λ class_hash. ok true;
  }

  -- `SimulatedStateReader`: the prefetched values, and the RPC reader for what is not there.
  unfoldable pub simulated_state_reader : StateMaps → StateReader R K → StateReader R K
  unfolding or_else
  simulated_state_reader state_maps rpc_state_reader = record {
    get_storage_at = λ address key.
        or_else (get (address, key) state_maps.storage)
          (rpc_state_reader.get_storage_at address key);
    get_nonce_at =
        λ address. or_else (get address state_maps.nonces) (rpc_state_reader.get_nonce_at address);
    get_class_hash_at = λ address.
        or_else (get address state_maps.class_hashes) (rpc_state_reader.get_class_hash_at address);
    get_compiled_class = rpc_state_reader.get_compiled_class;
    get_compiled_class_hash = rpc_state_reader.get_compiled_class_hash;
    get_compiled_classes = rpc_state_reader.get_compiled_classes;
    is_declared = λ class_hash.
        or_else (get class_hash state_maps.declared_contracts)
          (rpc_state_reader.is_declared class_hash);
  }

pub record RpcVirtualBlockExecutorConfig (Bouncer : Type 0) : Type 0 where
  pub prefetch_state : Bool
  pub bouncer_config : Bouncer
  pub use_latest_versioned_constants : Bool

-- `RpcVirtualBlockExecutorConfig::default`, of the default bouncer configuration.
unfoldable pub default_executor_config :
    {Bouncer : Type 0} → Bouncer → RpcVirtualBlockExecutorConfig Bouncer
default_executor_config bouncer = record {
  prefetch_state = true;
  bouncer_config = bouncer;
  use_latest_versioned_constants = true;
}

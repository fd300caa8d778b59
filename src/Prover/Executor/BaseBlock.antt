-- ===== src/Prover/Executor/BaseBlock.antt =====
-- BaseBlockInfo of crates/starknet-transaction-prover-wasm/src/running/virtual_block_executor.rs. The
-- tables of versioned constants and the packing of the block's counts are other crates'.
use snip_36_prover_web.Prelude.{ℕ, Bool, false, Option, if◌then◌else◌}
use snip_36_prover_web.Prelude.Result.{Result, ok, ◌>>=◌, ok_or, map_err}
use snip_36_prover_web.Reexecution.{Serde, RpcStateReader, get_block_header_async}
use snip_36_prover_web.Reexecution.Headers.{
  BlockHeader, BlockInfo, HeaderLib, L1DataAvailabilityMode, try_into_block_info,
}
use snip_36_prover_web.Prover.Errors.{ProverError, reexecution_error, transaction_execution_error}
use snip_36_prover_web.Prover.Executor.{RpcVirtualBlockExecutorConfig}

-- `C` are the constants that are left as they are.
pub record VersionedConstants (C : Type 0) : Type 0 where
  pub enable_casm_hash_migration : Bool
  pub min_sierra_version_for_sierra_gas : ℕ × ℕ × ℕ
  pub others : C

pub record BlockContext (G W I C Bouncer : Type 0) : Type 0 where
  pub block_info : BlockInfo G W
  pub chain_info : I
  pub versioned_constants : VersionedConstants C
  pub bouncer_config : Bouncer

pub record BlockHeaderCommitments : Type 0 where
  pub transaction_commitment : ℕ
  pub event_commitment : ℕ
  pub receipt_commitment : ℕ
  pub state_diff_commitment : ℕ
  pub concatenated_counts : ℕ

pub record BaseBlockInfo (G W I C Bouncer : Type 0) : Type 0 where
  pub block_context : BlockContext G W I C Bouncer
  pub base_block_hash : ℕ
  pub base_block_header_commitments : BlockHeaderCommitments
  pub prev_base_block_hash : ℕ

pub record BlockLib (G W C Bouncer : Type 0) : Type 0 where
  pub header_lib : HeaderLib G W
  pub concat_counts : ℕ → ℕ → ℕ → L1DataAvailabilityMode → ℕ
  pub latest_constants : VersionedConstants C
  pub constants_of : W → Option (VersionedConstants C)
  pub default_bouncer : Bouncer

with_bouncer :
    {G W I C Bouncer : Type 0}
    → Bouncer
    → BaseBlockInfo G W I C Bouncer
    → BaseBlockInfo G W I C Bouncer
with_bouncer bouncer base = record base {
  block_context = record base.block_context { bouncer_config = bouncer };
}

module _ {G W C Bouncer : Type 0} (lib : BlockLib G W C Bouncer) where
  unfoldable pub versioned_constants_for :
      Bool → BlockInfo G W → Result ProverError (VersionedConstants C)
  versioned_constants_for use_latest block_info =
      if use_latest
      then ok lib.latest_constants
      else ok_or (lib.constants_of block_info.starknet_version)
          (transaction_execution_error "Failed to get versioned constants")

  unfoldable pub commitments_of : BlockHeader → BlockHeaderCommitments
  commitments_of header = record {
    transaction_commitment = header.transaction_commitment;
    event_commitment = header.event_commitment;
    receipt_commitment = header.receipt_commitment;
    state_diff_commitment = header.state_diff_commitment;
    concatenated_counts =
        lib.concat_counts header.transaction_count header.event_count header.state_diff_length
          header.l1_da_mode;
  }

module _ {G W I C Bouncer : Type 0} (lib : BlockLib G W C Bouncer) where
  -- `BaseBlockInfo::new`
  unfoldable pub new_base_block_info :
      BlockHeader → I → Bool → Result ProverError (BaseBlockInfo G W I C Bouncer)
  unfolding commitments_of
  new_base_block_info header chain_info use_latest = do
    block_info ←
        map_err (λ e. transaction_execution_error "Failed to convert block header to block info")
          (try_into_block_info lib.header_lib header)
    constants ← versioned_constants_for lib use_latest block_info
    ok (record {
      block_context = record {
        block_info = block_info;
        chain_info = chain_info;
        versioned_constants = record {
          enable_casm_hash_migration = false;
          min_sierra_version_for_sierra_gas = (0, 0, 1);
          others = constants.others;
        };
        bouncer_config = lib.default_bouncer;
      };
      base_block_hash = header.block_hash;
      base_block_header_commitments = commitments_of lib header;
      prev_base_block_hash = header.parent_hash;
    })

  unfoldable pub base_block_info_async :
      Serde BlockHeader
      → RpcStateReader
      → I
      → RpcVirtualBlockExecutorConfig Bouncer
      → Result ProverError (BaseBlockInfo G W I C Bouncer)
  unfolding with_bouncer
  base_block_info_async serde_lib reader chain_info config = do
    block_header ← map_err reexecution_error (get_block_header_async serde_lib reader)
    base ← new_base_block_info block_header chain_info config.use_latest_versioned_constants
    ok (with_bouncer config.bouncer_config base)

-- ===== src/Lib.antt =====
-- Verification of the SNIP-36 prover: the crates that sign, prove and submit Starknet transactions
-- with proof facts, and the coin flip and counter applications on top of them.
--
-- The parts and how they interact. crates/snip36-core hashes and signs a transaction with its
-- proof facts, encodes proofs, reads the configuration and talks JSON-RPC to a node.
-- crates/starknet-transaction-prover-wasm runs one transaction in the virtual OS at a past block:
-- it checks the request, executes the transaction on the state that a node reports (read through
-- crates/blockifier-reexecution-wasm), fetches the executed classes, fetches storage proofs in
-- requests of bounded size and merges them, prepares the facts for the committer, and runs the
-- virtual OS on all of it. crates/snip36-web-prover signs a call and has it proven so, through
-- crates/snip36-virtual-os. apps/coinflip is a server: a player commits to a bet, the bank matches
-- the deposit, the reveal opens a game, and the game's task constructs a transaction, has it
-- proven, signs it again with the proof facts, submits it and settles. apps/counter is such a
-- server too, without bets: its cycles are calls of a counter contract.
--
-- Which file models which part:
--   Prelude: shared names, tests, lists, results, UTF-8, machine words, hexadecimal, maps, loops of
--     attempts, HTTP errors.
--   Felt: the interface to the field and the cryptography (starknet_types_core, starknet_crypto);
--     Felt/Sample.antt is a concrete instance.
--   Core/Json: serde_json's values.
--   Core/Sncast: the runs of sncast that deploy.
--   Core/Types, Core/Signing, Core/Proof, Core/Config, Core/Rpc: the files of the same names in
--     crates/snip36-core/src. Signing/Packing is about concat_resource, Signing/Binding about the
--     hash, Signing/Payload about sign_and_build_payload, Signing/Reading and Signing/Written about
--     how the JSON of transactions is read; Rpc/Polling is the loop of wait_for_tx and
--     wait_for_block_after, Rpc/Waiting what they return; Proof/Packed is about
--     cairo_serde_to_base64, Config/Laws about the chain id.
--   Reexecution: errors.rs and state_reader/ of crates/blockifier-reexecution-wasm/src: the requests
--     to the node; Classes: the classes; Headers: block headers; Reads and Agreement: what the
--     requests return.
--   Prover/StorageProofs: count_total_keys to split_query of running/storage_proofs.rs in
--     crates/starknet-transaction-prover-wasm/src; Merge: merge_storage_proofs and fetch_proofs;
--     Queries and Prepared: prepare_query; Commitments and Unchanged: the commitment infos of a
--     state without changes; Provider: get_storage_proofs and the commitment infos of a state with
--     changes; Provided: what get_storage_proofs returns;
--     Items, Splitting and Addresses: what the splitting keeps; Coverage,
--     Indices, Merging and Fetching: what the merged proof has of the answers.
--   Prover/Committer: running/committer_utils.rs; Changes: which state diffs pass; Facts, Inner,
--     Stored and Closed: the database of facts.
--   Prover/Executor: running/virtual_block_executor.rs; InitialReads: running/serde_utils.rs;
--     BaseBlock: BaseBlockInfo; Prefetch: the simulation and the classes; Run: execute; Cached,
--     Finished, Executed and SimulatedReads: what they leave. Nothing is assumed of what the class
--     manager keeps.
--   Prover/ClassesProvider: running/classes_provider.rs. Prover/Runner: running/runner.rs; Factory:
--     its RpcRunnerFactory; Input: what the virtual OS runs on; Composed: the prover over that
--     factory's runners, down to the node.
--   Prover/SnosProver: proving/virtual_snos_prover.rs. Prover/Errors: errors.rs.
--   CoinFlip/State: apps/coinflip/src/state.rs. The rest of CoinFlip is apps/coinflip/src/routes.rs:
--     Deploy with its Laws and Balances (deploy_coinflip, deploy_bank, the status and the
--     balances), Deposit (commit_bet, deposit_info, confirm_deposit, sncast_invoke), Reveal (the checks of
--     play_coinflip), Play (its task), Submission (the loop over the gateway's replies), Settlement
--     (the prover's messages), Lifecycle (all requests interleaved).
--   Counter: the calldata and transactions of apps/counter/src/routes.rs; Sessions: the store of
--     sessions; Invoke: its handlers but prove_block; Cycle: prove_block with its task; Multicall,
--     Attempts, Completed, Submitted and Opening: what they make and leave. Counter/Health is
--     apps/counter/src/health.rs: Flow: its full flow; Rounding: its doubles; Judged: its
--     checks; Laws: when it ends well.
--   Prover/Config: config.rs, get_chain_info of crates/blockifier-reexecution-wasm/src/utils.rs and
--     VirtualSnosProver::new; Proven: a proof of such a prover.
--   WebProver: crates/snip36-web-prover/src/lib.rs; VirtualOs: crates/snip36-virtual-os/src/lib.rs;
--     ProvenBlock: what prove_block returns. Core/Transactions: the transactions that the
--     applications make for the prover.
--   Tests: the theorems at concrete inputs.
--
-- State and operations. The server's state is the record State, which the handlers take and return;
-- a handler that awaits between two looks at it takes the state of each look, and Lifecycle lets any
-- events happen in between. Errors are values, and a panic is one of them. Hash maps are association
-- lists. Felts are their canonical values, and machine integers are natural numbers whose wrap-around
-- is written out.
--
-- Bounds and fuel. A polling loop has fuel for one round a second and one more, which is enough as
-- it sleeps a second or more; the theorems on it say so and that it returns. The submission has 20
-- attempts, as the source. Chunks have the list's length as fuel, and a chunk takes an element or
-- more. Printing a number in hexadecimal has the number as fuel.
-- The distance of the doubles around a u128 has 76 doublings, of which 75 are needed at most.
--
-- Outside the model: the field's and the curve's implementation, the base64 and JSON parsers, the
-- HTTP client, processes and their output, files, the clock, the node, the gateway, the blockifier
-- with its class manager, the compilation of classes, the virtual OS, the STARK prover, the
-- committer's tree and the serialization of its nodes; each is a parameter, with what a theorem
-- needs of it as a named record. Log lines, progress events and the interpolated parts of error
-- texts are left out. Not modelled: the message application, and the command line helpers, which
-- are regular expressions over the output of tools. The Cairo contracts, the web pages and the
-- end-to-end drivers are not part of the development.
pub mod Prelude
pub mod Felt
pub mod Core
pub mod Reexecution
pub mod Prover
pub mod CoinFlip
pub mod Counter
pub mod WebProver
pub mod Tests

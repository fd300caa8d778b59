-- ===== src/Prover/StorageProofs/Provided.antt =====
-- get_storage_proofs of crates/starknet-transaction-prover-wasm/src/running/storage_proofs.rs for a
-- state without changes: from the reads of an execution to the commitment infos.
use mathlib.Core.Path.{subst}
use snip_36_prover_web.Prelude.{
  ℕ, ◌≤◌, true, false, List, [], ◌∷◌, map, none, some, All, length, length-map, ◌==◌, ◌≡◌, ◌≢◌,
  refl, sym, ap, ◌∙◌, arith,
}
use snip_36_prover_web.Prelude.Result.{Result, ok}
use snip_36_prover_web.Prelude.Maps.{
  Map, Eq, get, insert, get-insert, get-insert_self, nat_key, pair_key,
}
use snip_36_prover_web.Prover.Executor.SimulatedReads.{last_of, get-extend_entries}
use snip_36_prover_web.Prover.Errors.{ProverError}
use snip_36_prover_web.Prover.Committer.{StateMaps, MerkleNode, LeafData, FactsLib}
use snip_36_prover_web.Prover.Executor.{VirtualBlockExecutionData}
use snip_36_prover_web.Prover.StorageProofs.{
  RpcStorageProofsQuery, ContractStorageKeys, max_keys_per_request, count_total_keys,
}
use snip_36_prover_web.Prover.StorageProofs.Merge.{StorageProof, fetch_proofs}
use snip_36_prover_web.Prover.StorageProofs.Merging.{Answers}
use snip_36_prover_web.Prover.StorageProofs.Coverage.{Covers}
use snip_36_prover_web.Prover.StorageProofs.Fetching.{IsAnswered, fetch_proofs-Answers}
use snip_36_prover_web.Prover.StorageProofs.Queries.{prepare_query}
use snip_36_prover_web.Prover.StorageProofs.Prepared.{
  IsDistinct, IsPrepared, prepare_query-IsPrepared, All-sort,
}
use snip_36_prover_web.Prover.StorageProofs.Commitments.{CommitmentLib}
use snip_36_prover_web.Prover.StorageProofs.Unchanged.{
  IsUnchanged, create_commitment_infos_without_state_changes-IsUnchanged,
}
use snip_36_prover_web.Prover.StorageProofs.Provider.{
  ChangesLib, ProvidedProofs, class_hashes_of_leaves, nonces_of_leaves, extend_initial_reads,
  check_leaves, create_commitment_infos, get_storage_proofs,
}

module _ (leaf : ℕ → LeafData) where
  -- Both maps have for each address what its leaf has.
  abbrev pub HasLeaves : Map ℕ ℕ → Map ℕ ℕ → List ℕ → Type 0
  HasLeaves class_hashes nonces =
      All (λ a.
        (get a class_hashes ≡ some (leaf a).class_hash) × (get a nonces ≡ some (leaf a).nonce))

  -- The maps that the leaves are put into, and what they keep.
  leaves-HasLeaves :
      (addrs : List ℕ) (hashes nonces : Map ℕ ℕ)
      → IsDistinct addrs
      → HasLeaves
          (class_hashes_of_leaves hashes (map leaf addrs) addrs)
          (nonces_of_leaves nonces (map leaf addrs) addrs)
          addrs
        × ((a : ℕ)
            → All (λ b. a ≢ b) addrs
            → (get a (class_hashes_of_leaves hashes (map leaf addrs) addrs) ≡ get a hashes)
              × (get a (nonces_of_leaves nonces (map leaf addrs) addrs) ≡ get a nonces))
  unfolding class_hashes_of_leaves nonces_of_leaves
  leaves-HasLeaves [] hashes nonces d = (tt, (λ a g. (refl, refl)))
  leaves-HasLeaves (b ∷ bs) hashes nonces d =
      let (there, keep) =
        leaves-HasLeaves bs (insert b (leaf b).class_hash hashes) (insert b (leaf b).nonce nonces)
          d.1 in
      let (kept_hash, kept_nonce) = keep b d.0 in
      (
        (
          (
            kept_hash ∙ get-insert_self b (leaf b).class_hash hashes,
            kept_nonce ∙ get-insert_self b (leaf b).nonce nonces,
          ),
          there,
        ),
        (λ a g.
            let (hash_rest, nonce_rest) = keep a g.1 in
            (
              hash_rest ∙ ground (arith, get-insert b a (leaf b).class_hash hashes, g.0),
              nonce_rest ∙ ground (arith, get-insert b a (leaf b).nonce nonces, g.0),
            )),
      )

map-map {ℓ κ μ} :
    {A : Type ℓ} {B : Type κ} {C : Type μ} (g : B → C) (f : A → B) (xs : List A)
    → map g (map f xs) ≡ map (λ x. g (f x)) xs
map-map g f [] = refl
map-map g f (x ∷ xs) = ap (λ r. g (f x) ∷ r) (map-map g f xs)

All-into {ℓ κ μ} :
    {A : Type ℓ} {B : Type κ} (P : B → Type μ) (f : A → B) (xs : List A)
    → All (λ x. P (f x)) xs
    → All P (map f xs)
All-into P f [] h = tt
All-into P f (x ∷ xs) h = (h.0, All-into P f xs h.1)

map_id {ℓ} : {A : Type ℓ} (xs : List A) → map (λ x. x) xs ≡ xs
map_id [] = refl
map_id (x ∷ xs) = ap (λ r. x ∷ r) (map_id xs)

Covers-length :
    {N : Type 0} (path : ℕ → ℕ → List ℕ) (cs : List ContractStorageKeys) (ms : List (Map ℕ N))
    → Covers path cs ms
    → length ms ≡ length cs
Covers-length path [] [] h = refl
Covers-length path [] (m ∷ ms) h = absurd h
Covers-length path (c ∷ cs) [] h = absurd h
Covers-length path (c ∷ cs) (m ∷ ms) h = omega (arith, Covers-length path cs ms h.1)

module _ {K V F Preimage Facts : Type 0} ⦃eq_key : Eq K⦄ (facts_lib : FactsLib K V)
    (lib : CommitmentLib MerkleNode Preimage Facts) (changes : ChangesLib K V F Facts)
    (path : ℕ → ℕ → List ℕ) (contract_path class_path : ℕ → List ℕ) (leaf : ℕ → LeafData) where
  -- The proofs for a query: a storage proof that answers it, the class hashes and nonces of its
  -- leaves, the storage that was read (the last value of each key), and the infos of tries that do
  -- not change.
  pub record IsProvided (query : RpcStorageProofsQuery) (storage_read : Map (ℕ × ℕ) ℕ)
      (out : ProvidedProofs Facts) : Type 0 where
    pub rpc_proof : StorageProof MerkleNode LeafData
    pub answers : Answers path contract_path class_path leaf query rpc_proof
    pub leaves :
        HasLeaves leaf out.extended_initial_reads.class_hashes out.extended_initial_reads.nonces
          query.contract_addresses
    pub storage :
        (k : ℕ × ℕ)
        → get k out.extended_initial_reads.storage ≡ last_of (λ e. e) none k storage_read
    pub infos : IsUnchanged lib rpc_proof query out.commitment_infos

  provide :
      {O M B : Type 0} (get_contract_addresses : StateMaps → List ℕ)
      (fetch_single : RpcStorageProofsQuery → Result ProverError (StorageProof MerkleNode LeafData))
      (execution_data : VirtualBlockExecutionData O M B) (proof : StorageProof MerkleNode LeafData)
      (query : RpcStorageProofsQuery)
      → prepare_query get_contract_addresses execution_data ≡ query
      → IsPrepared (get_contract_addresses execution_data.initial_reads) execution_data query
      → All (λ a. lib.is_contract_address a ≡ true) query.contract_addresses
      → fetch_proofs fetch_single query ≡ ok proof
      → Answers path contract_path class_path leaf query proof
      → (out : ProvidedProofs Facts) × (get_storage_proofs facts_lib lib changes
            get_contract_addresses fetch_single execution_data false
          ≡ ok out)
        × IsProvided query execution_data.initial_reads.storage out
  unfolding get_storage_proofs create_commitment_infos check_leaves extend_initial_reads get
  provide get_contract_addresses fetch_single execution_data proof query e p valid fetched answers =
      let addresses = query.contract_addresses in
      let entries =
        ap (map (λ (c : ContractStorageKeys). c.contract_address)) p.storage_keys
        ∙ map-map _ _ addresses
        ∙ map_id addresses in
      let same_length : length addresses ≡ length query.contract_storage_keys = omega (
        arith,
        ap length entries,
        length-map {B = ℕ} (λ (c : ContractStorageKeys). c.contract_address)
            query.contract_storage_keys,
      ) in
      let counted : length proof.contract_leaves_data ≡ length addresses =
        ap length answers.0 ∙ length-map leaf addresses in
      let (infos, run, good) =
        create_commitment_infos_without_state_changes-IsUnchanged lib proof query (sym entries)
          p.different
          (subst (All (λ c. lib.is_contract_address c.contract_address ≡ true)) (sym p.storage_keys)
            (All-into _ _ addresses valid))
          (counted ∙ same_length) (Covers-length path _ _ answers.1) in
      let test : (length proof.contract_leaves_data == length addresses) ≡ true =
        ground (arith, counted) in
      (
        record {
          extended_initial_reads =
              extend_initial_reads proof.contract_leaves_data addresses
                execution_data.initial_reads.storage;
          commitment_infos = infos;
        },
        rw (e, fetched, test, run) refl,
        record {
          rpc_proof = proof;
          answers = answers;
          leaves =
              subst
                (λ ls.
                  HasLeaves leaf (class_hashes_of_leaves [] ls addresses)
                    (nonces_of_leaves [] ls addresses) addresses)
                (sym answers.0) (leaves-HasLeaves leaf addresses [] [] p.distinct).0;
          storage = λ k.
              get-extend_entries (λ (e : (ℕ × ℕ) × ℕ). e) k [] execution_data.initial_reads.storage;
          infos = good;
        },
      )

  -- If the addresses of the reads are distinct and valid, and the RPC client answers every request
  -- of at most `max_keys_per_request` keys, then `get_storage_proofs` returns for a state without
  -- changes, which is not the default: from a storage proof that answers the prepared query, the
  -- class hash and nonce of each contract, the storage that was read, and commitment infos whose
  -- roots do not change.
  pub get_storage_proofs-IsProvided :
      {O M B : Type 0} (get_contract_addresses : StateMaps → List ℕ)
      (fetch_single : RpcStorageProofsQuery → Result ProverError (StorageProof MerkleNode LeafData))
      (answer : RpcStorageProofsQuery → StorageProof MerkleNode LeafData)
      (execution_data : VirtualBlockExecutionData O M B)
      → IsDistinct (get_contract_addresses execution_data.initial_reads)
      → All
          (λ a. lib.is_contract_address a ≡ true)
          (get_contract_addresses execution_data.initial_reads)
      → ((q : RpcStorageProofsQuery)
          → count_total_keys q ≤ max_keys_per_request
          → IsAnswered path contract_path class_path leaf answer fetch_single q)
      → (out : ProvidedProofs Facts) × (get_storage_proofs facts_lib lib changes
            get_contract_addresses fetch_single execution_data false
          ≡ ok out)
        × IsProvided
            (prepare_query get_contract_addresses execution_data)
            execution_data.initial_reads.storage
            out
  unfolding prepare_query
  get_storage_proofs-IsProvided get_contract_addresses fetch_single answer execution_data d valid
        client =
      let p = prepare_query-IsPrepared get_contract_addresses execution_data d in
      let (proof, fetched, answers) =
        fetch_proofs-Answers path contract_path class_path leaf answer fetch_single
          (prepare_query get_contract_addresses execution_data) p.different client in
      provide get_contract_addresses fetch_single execution_data proof _ refl p
        (All-sort _ (get_contract_addresses execution_data.initial_reads) valid) fetched answers

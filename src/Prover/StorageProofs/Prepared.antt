-- ===== src/Prover/StorageProofs/Prepared.antt =====
-- What prepare_query (crates/starknet-transaction-prover-wasm/src/running/storage_proofs.rs) asks for.
use mathlib.Core.List.{Perm, append_assoc, append-nil}
use mathlib.Core.List.Perm
use snip_36_prover_web.Prelude.{
  ℕ, ◌≤◌, List, [], ◌∷◌, ◌++◌, map, leb, ◌==◌, ==_iff, if◌then◌else◌, All, All-weaken, ◌≡◌, ◌≢◌,
  refl, sym, ap, ◌∙◌, arith, inl, inr, Bool-cases,
}
use snip_36_prover_web.Prelude.Result.{unwrap_or}
use snip_36_prover_web.Prelude.Maps.{Map, get, insert, get-insert, nat_key}
use snip_36_prover_web.Prover.StorageProofs.{RpcStorageProofsQuery, ContractStorageKeys}
use snip_36_prover_web.Prover.StorageProofs.Indices.{AllDifferent}
use snip_36_prover_web.Prover.StorageProofs.Queries.{
  insert_in_order, sort, storage_by_address, prepare_query,
}
use snip_36_prover_web.Prover.Committer.{StateMaps}
use snip_36_prover_web.Prover.Executor.{VirtualBlockExecutionData}

abbrev pub IsSorted : List ℕ → Type 0
IsSorted [] = Unit
IsSorted (a ∷ bs) = All (λ b. a ≤ b) bs × IsSorted bs

abbrev pub IsDistinct : List ℕ → Type 0
IsDistinct [] = Unit
IsDistinct (a ∷ bs) = All (λ b. a ≢ b) bs × IsDistinct bs

All-insert_in_order {ℓ} :
    (P : ℕ → Type ℓ) (a : ℕ) (bs : List ℕ) → P a → All P bs → All P (insert_in_order a bs)
unfolding insert_in_order
All-insert_in_order P a [] p h = (p, tt)
All-insert_in_order P a (b ∷ bs) p h = elim (Bool-cases (leb a b)) [
  | inl below ↦ rw below (p, h)
  | inr above ↦ rw above (h.0, All-insert_in_order P a bs p h.1)
]

IsSorted-insert_in_order : (a : ℕ) (bs : List ℕ) → IsSorted bs → IsSorted (insert_in_order a bs)
unfolding insert_in_order
IsSorted-insert_in_order a [] h = (tt, tt)
IsSorted-insert_in_order a (b ∷ bs) h = elim (Bool-cases (leb a b)) [
  | inl below ↦
      let le : a ≤ b = ground (arith, below) in
      rw below ((le, All-weaken _ _ (λ c k. omega (arith, le, k)) bs h.0), h)
  | inr above ↦
      let le : b ≤ a = ground (arith, above) in
      rw above (All-insert_in_order (λ c. b ≤ c) a bs le h.0, IsSorted-insert_in_order a bs h.1)
]

IsDistinct-insert_in_order :
    (a : ℕ) (bs : List ℕ) → All (λ b. a ≢ b) bs → IsDistinct bs → IsDistinct (insert_in_order a bs)
unfolding insert_in_order
IsDistinct-insert_in_order a [] g h = (tt, tt)
IsDistinct-insert_in_order a (b ∷ bs) g h = elim (Bool-cases (leb a b)) [
  | inl below ↦ rw below (g, h)
  | inr above ↦ rw above (
    All-insert_in_order (λ c. b ≢ c) a bs (λ e. g.0 (sym e)) h.0,
    IsDistinct-insert_in_order a bs g.1 h.1,
  )
]

insert_in_order-perm : (a : ℕ) (bs : List ℕ) → Perm (insert_in_order a bs) (a ∷ bs)
unfolding insert_in_order
insert_in_order-perm a [] = Perm.refl (a ∷ [])
insert_in_order-perm a (b ∷ bs) = elim (Bool-cases (leb a b)) [
  | inl below ↦ rw below (Perm.refl (a ∷ b ∷ bs))
  | inr above ↦ rw above (Perm.trans (Perm.cons b (insert_in_order-perm a bs)) (Perm.swap a b bs))
]

pub All-sort {ℓ} : (P : ℕ → Type ℓ) (bs : List ℕ) → All P bs → All P (sort bs)
unfolding sort
All-sort P [] h = tt
All-sort P (b ∷ bs) h = All-insert_in_order P b (sort bs) h.0 (All-sort P bs h.1)

sort-IsSorted : (bs : List ℕ) → IsSorted (sort bs)
unfolding sort
sort-IsSorted [] = tt
sort-IsSorted (b ∷ bs) = IsSorted-insert_in_order b (sort bs) (sort-IsSorted bs)

pub sort-IsDistinct : (bs : List ℕ) → IsDistinct bs → IsDistinct (sort bs)
unfolding sort
sort-IsDistinct [] h = tt
sort-IsDistinct (b ∷ bs) h =
    IsDistinct-insert_in_order b (sort bs) (All-sort (λ c. b ≢ c) bs h.0) (sort-IsDistinct bs h.1)

sort-perm : (bs : List ℕ) → Perm (sort bs) bs
unfolding sort
sort-perm [] = Perm.refl []
sort-perm (b ∷ bs) = Perm.trans (insert_in_order-perm b (sort bs)) (Perm.cons b (sort-perm bs))

-- The keys read at one address, in the order of the reads.
abbrev pub keys_read : ℕ → Map (ℕ × ℕ) ℕ → List ℕ
keys_read a [] = []
keys_read a (((b, k), v) ∷ reads) =
    let rest = keys_read a reads in if b == a then k ∷ rest else rest

storage_by_address_lem :
    (a : ℕ) (reads : Map (ℕ × ℕ) ℕ) (m : Map ℕ (List ℕ))
    → unwrap_or (get a (storage_by_address m reads)) []
      ≡ unwrap_or (get a m) [] ++ keys_read a reads
unfolding storage_by_address
storage_by_address_lem a [] m = sym (append-nil (unwrap_or (get a m) []))
storage_by_address_lem a (((b, k), v) ∷ reads) m =
    let pushed = insert b (unwrap_or (get b m) [] ++ (k ∷ [])) m in
    storage_by_address_lem a reads pushed ∙ elim (Bool-cases (b == a)) [
      | inl same ↦
          let e : b ≡ a = (==_iff b a).0 same in
          rw (get-insert b a (unwrap_or (get b m) [] ++ (k ∷ [])) m, same, e)
            (append_assoc (unwrap_or (get a m) []) (k ∷ []) (keys_read a reads))
      | inr other ↦ rw (get-insert b a (unwrap_or (get b m) [] ++ (k ∷ [])) m, other) refl
    ]

AllDifferent-entries :
    (keys : ℕ → List ℕ) (addresses : List ℕ)
    → IsDistinct addresses
    → AllDifferent (map (λ a. record { contract_address = a; storage_keys = keys a }) addresses)
AllDifferent-entries keys [] h = tt
AllDifferent-entries keys (a ∷ bs) h = (others bs h.0, AllDifferent-entries keys bs h.1)
  where
    others :
        (cs : List ℕ)
        → All (λ b. a ≢ b) cs
        → All
            (λ d. a ≢ d.contract_address)
            (map {B = ContractStorageKeys}
              (λ b. record { contract_address = b; storage_keys = keys b })
              cs)
    others [] g = tt
    others (c ∷ cs) g = (g.0, others cs g.1)

pub record IsPrepared {O M B : Type 0} (addresses : List ℕ)
    (execution_data : VirtualBlockExecutionData O M B) (query : RpcStorageProofsQuery)
    : Type 0 where
  pub class_hashes : query.class_hashes ≡ execution_data.executed_class_hashes
  pub sorted : IsSorted query.contract_addresses
  pub distinct : IsDistinct query.contract_addresses
  pub same_addresses : Perm query.contract_addresses addresses
  pub storage_keys :
      query.contract_storage_keys
      ≡ map
          (λ a. record {
            contract_address = a;
            storage_keys = keys_read a execution_data.initial_reads.storage;
          })
          query.contract_addresses
  pub different : AllDifferent query.contract_storage_keys

map-ext {ℓ κ} :
    {A : Type ℓ} {B : Type κ} (f g : A → B)
    → ((a : A) → f a ≡ g a)
    → (xs : List A) → map f xs ≡ map g xs
map-ext f g e [] = refl
map-ext f g e (x ∷ xs) = rw (e x, map-ext f g e xs) refl

-- If `get_contract_addresses` lists no address twice, the query that `prepare_query` makes asks for
-- the executed class hashes and for exactly the addresses listed, sorted; it has one entry for each
-- address, in that order, no two with one address, and the entry's keys are exactly those read at
-- the address, in the order of the reads.
pub prepare_query-IsPrepared :
    {O M B : Type 0} (get_contract_addresses : StateMaps → List ℕ)
    (execution_data : VirtualBlockExecutionData O M B)
    → IsDistinct (get_contract_addresses execution_data.initial_reads)
    → IsPrepared
        (get_contract_addresses execution_data.initial_reads)
        execution_data
        (prepare_query get_contract_addresses execution_data)
unfolding prepare_query get
prepare_query-IsPrepared get_contract_addresses execution_data d =
    let addresses = get_contract_addresses execution_data.initial_reads in
    let reads = execution_data.initial_reads.storage in
    record {
      class_hashes = refl;
      sorted = sort-IsSorted addresses;
      distinct = sort-IsDistinct addresses d;
      same_addresses = sort-perm addresses;
      storage_keys =
          map-ext _ _
            (λ a.
              ap {A = List ℕ} {B = ContractStorageKeys}
                (λ ks. record { contract_address = a; storage_keys = ks })
                (storage_by_address_lem a reads []))
            (sort addresses);
      different =
          AllDifferent-entries (λ a. unwrap_or (get a (storage_by_address [] reads)) [])
            (sort addresses) (sort-IsDistinct addresses d);
    }

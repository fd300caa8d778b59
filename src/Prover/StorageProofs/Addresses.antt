-- ===== src/Prover/StorageProofs/Addresses.antt =====
-- What holds of every contract of a query holds of the contracts of its parts (split_query of crates/
-- starknet-transaction-prover-wasm/src/running/storage_proofs.rs).
use snip_36_prover_web.Prelude.{
  All-take, All-drop, ℕ, zero, suc, List, [], ◌∷◌, ◌++◌, map, All, All-append, drop, length, ◌==◌,
  ◌≡◌, inl, inr, Bool-cases, ltb,
}
use snip_36_prover_web.Prover.StorageProofs.{
  RpcStorageProofsQuery, ContractStorageKeys, QueryItem, class_hash, contract, storage_key,
  no_query, flatten_query, flatten_storage_keys, push_storage_key, collect_item, collect_items,
  collect_query, chunks, split_query,
}
use snip_36_prover_web.Prelude.Result.{ok, ok_injective}
use mathlib.Core.Path.{subst}

All-chunks {ℓ κ} :
    {A : Type ℓ} (P : A → Type κ) (fuel n : ℕ) (xs : List A)
    → All P xs
    → All (All P) (chunks fuel n xs)
unfolding chunks
All-chunks P zero n xs h = tt
All-chunks P (suc fuel) n [] h = tt
All-chunks P (suc fuel) n (x ∷ xs) h =
    (All-take P n (x ∷ xs) h, All-chunks P fuel n (drop n (x ∷ xs)) (All-drop P n (x ∷ xs) h))

module _ {κ} (P : ℕ → Type κ) where
  abbrev pub AllContracts : List ContractStorageKeys → Type κ
  AllContracts = All λ c. P c.contract_address

  IsOk : QueryItem → Type κ
  IsOk (class_hash h) = Unit
  IsOk (contract a) = Unit
  IsOk (storage_key a k) = P a

  IsOk-hashes : (hs : List ℕ) → All IsOk (map class_hash hs)
  unfolding IsOk
  IsOk-hashes [] = tt
  IsOk-hashes (h ∷ hs) = (tt, IsOk-hashes hs)

  IsOk-contracts : (addrs : List ℕ) → All IsOk (map contract addrs)
  unfolding IsOk
  IsOk-contracts [] = tt
  IsOk-contracts (a ∷ addrs) = (tt, IsOk-contracts addrs)

  IsOk-keys : (a : ℕ) (ks : List ℕ) → P a → All IsOk (map (storage_key a) ks)
  unfolding IsOk
  IsOk-keys a [] p = tt
  IsOk-keys a (k ∷ ks) p = (p, IsOk-keys a ks p)

  IsOk-storage_keys :
      (csks : List ContractStorageKeys) → AllContracts csks → All IsOk (flatten_storage_keys csks)
  unfolding flatten_storage_keys
  IsOk-storage_keys [] h = tt
  IsOk-storage_keys (csk ∷ rest) h =
      All-append IsOk (map (storage_key csk.contract_address) csk.storage_keys)
        (flatten_storage_keys rest) (IsOk-keys csk.contract_address csk.storage_keys h.0)
        (IsOk-storage_keys rest h.1)

  IsOk-query :
      (q : RpcStorageProofsQuery)
      → AllContracts q.contract_storage_keys
      → All IsOk (flatten_query q)
  unfolding flatten_query
  IsOk-query q h =
      All-append IsOk (map class_hash q.class_hashes ++ map contract q.contract_addresses) _
        (All-append IsOk (map class_hash q.class_hashes) _ (IsOk-hashes q.class_hashes)
          (IsOk-contracts q.contract_addresses))
        (IsOk-storage_keys q.contract_storage_keys h)

  AllContracts-push :
      (a k : ℕ) (csks : List ContractStorageKeys)
      → P a
      → AllContracts csks
      → AllContracts (push_storage_key a k csks)
  unfolding push_storage_key
  AllContracts-push a k [] p h = (p, tt)
  AllContracts-push a k (last ∷ []) p h = elim (Bool-cases (last.contract_address == a)) [
    | inl same ↦ rw same h
    | inr other ↦ rw other (h.0, (p, tt))
  ]
  AllContracts-push a k (csk ∷ next ∷ rest) p h = (h.0, AllContracts-push a k (next ∷ rest) p h.1)

  AllContracts-collect :
      (q : RpcStorageProofsQuery) (items : List QueryItem)
      → AllContracts q.contract_storage_keys
      → All IsOk items
      → AllContracts (collect_items q items).contract_storage_keys
  unfolding collect_items collect_item IsOk
  AllContracts-collect q [] h g = h
  AllContracts-collect q (class_hash x ∷ items) h g =
      AllContracts-collect (collect_item q (class_hash x)) items h g.1
  AllContracts-collect q (contract a ∷ items) h g =
      AllContracts-collect (collect_item q (contract a)) items h g.1
  AllContracts-collect q (storage_key a k ∷ items) h g =
      AllContracts-collect (collect_item q (storage_key a k)) items
        (AllContracts-push a k q.contract_storage_keys g.0 h) g.1

  AllContracts-collected :
      (cs : List (List QueryItem))
      → All (All IsOk) cs
      → All (λ q. AllContracts q.contract_storage_keys) (map collect_query cs)
  unfolding collect_query
  AllContracts-collected [] h = tt
  AllContracts-collected (c ∷ cs) h =
      (AllContracts-collect no_query c tt h.0, AllContracts-collected cs h.1)

  -- The requests that a query is split into ask for none but its contracts.
  pub AllContracts-parts :
      (q : RpcStorageProofsQuery) (max_keys : ℕ) (qs : List RpcStorageProofsQuery)
      → split_query q max_keys ≡ ok qs
      → AllContracts q.contract_storage_keys
      → All (λ r. AllContracts r.contract_storage_keys) qs
  unfolding split_query
  AllContracts-parts q max_keys qs e h = elim (Bool-cases (ltb 0 max_keys)) [
    | inl positive ↦
        subst (All (λ r. AllContracts r.contract_storage_keys)) (ok_injective (rw positive at e)) (
          AllContracts-collected _ (
            All-chunks IsOk (length (flatten_query q)) max_keys (flatten_query q) (IsOk-query q h)))
    | inr none_fit ↦ absurd (cc (rw none_fit at e))
  ]

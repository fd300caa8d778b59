-- ===== src/Prover/StorageProofs/Items.antt =====
-- The three kinds of items in a query (flatten_query of crates/starknet-transaction-prover-wasm/src/
-- running/storage_proofs.rs).
use mathlib.Core.List.{append_assoc, append-nil}
use snip_36_prover_web.Prelude.{ℕ, List, [], ◌∷◌, ◌++◌, map, ◌≡◌, refl, ap, ◌∙◌}
use snip_36_prover_web.Prover.StorageProofs.{
  RpcStorageProofsQuery, ContractStorageKeys, QueryItem, class_hash, contract, storage_key,
  flatten_query, flatten_storage_keys,
}

-- The storage keys of a query, each with its contract, in order.
unfoldable pub keys_of : List ContractStorageKeys → List (ℕ × ℕ)
keys_of [] = []
keys_of (csk ∷ rest) = map (λ k. (csk.contract_address, k)) csk.storage_keys ++ keys_of rest

unfoldable pub hash_items : List QueryItem → List ℕ
hash_items [] = []
hash_items (class_hash h ∷ items) = h ∷ hash_items items
hash_items (contract a ∷ items) = hash_items items
hash_items (storage_key a k ∷ items) = hash_items items

unfoldable pub address_items : List QueryItem → List ℕ
address_items [] = []
address_items (class_hash h ∷ items) = address_items items
address_items (contract a ∷ items) = a ∷ address_items items
address_items (storage_key a k ∷ items) = address_items items

unfoldable pub key_items : List QueryItem → List (ℕ × ℕ)
key_items [] = []
key_items (class_hash h ∷ items) = key_items items
key_items (contract a ∷ items) = key_items items
key_items (storage_key a k ∷ items) = (a, k) ∷ key_items items

-- Each of the three reads a list in parts.
pub hash_items-append :
    (xs ys : List QueryItem) → hash_items (xs ++ ys) ≡ hash_items xs ++ hash_items ys
unfolding hash_items
hash_items-append [] ys = refl
hash_items-append (class_hash h ∷ xs) ys = ap (λ r. h ∷ r) (hash_items-append xs ys)
hash_items-append (contract a ∷ xs) ys = hash_items-append xs ys
hash_items-append (storage_key a k ∷ xs) ys = hash_items-append xs ys

pub address_items-append :
    (xs ys : List QueryItem) → address_items (xs ++ ys) ≡ address_items xs ++ address_items ys
unfolding address_items
address_items-append [] ys = refl
address_items-append (class_hash h ∷ xs) ys = address_items-append xs ys
address_items-append (contract a ∷ xs) ys = ap (λ r. a ∷ r) (address_items-append xs ys)
address_items-append (storage_key a k ∷ xs) ys = address_items-append xs ys

pub key_items-append :
    (xs ys : List QueryItem) → key_items (xs ++ ys) ≡ key_items xs ++ key_items ys
unfolding key_items
key_items-append [] ys = refl
key_items-append (class_hash h ∷ xs) ys = key_items-append xs ys
key_items-append (contract a ∷ xs) ys = key_items-append xs ys
key_items-append (storage_key a k ∷ xs) ys = ap (λ r. (a, k) ∷ r) (key_items-append xs ys)

kinds_of_addresses :
    (addrs : List ℕ) (items : List QueryItem)
    → (hash_items (map contract addrs ++ items) ≡ hash_items items)
      × (address_items (map contract addrs ++ items) ≡ addrs ++ address_items items)
      × (key_items (map contract addrs ++ items) ≡ key_items items)
unfolding hash_items address_items key_items
kinds_of_addresses [] items = (refl, refl, refl)
kinds_of_addresses (a ∷ addrs) items =
    let (h, s, k) = kinds_of_addresses addrs items in (h, ap (λ r. a ∷ r) s, k)

kinds_of_hashes :
    (hs : List ℕ) (items : List QueryItem)
    → (hash_items (map class_hash hs ++ items) ≡ hs ++ hash_items items)
      × (address_items (map class_hash hs ++ items) ≡ address_items items)
      × (key_items (map class_hash hs ++ items) ≡ key_items items)
unfolding hash_items address_items key_items
kinds_of_hashes [] items = (refl, refl, refl)
kinds_of_hashes (h ∷ hs) items =
    let (s, a, k) = kinds_of_hashes hs items in (ap (λ r. h ∷ r) s, a, k)

kinds_of_contract :
    (a : ℕ) (ks : List ℕ) (items : List QueryItem)
    → (hash_items (map (storage_key a) ks ++ items) ≡ hash_items items)
      × (address_items (map (storage_key a) ks ++ items) ≡ address_items items)
      × (key_items (map (storage_key a) ks ++ items) ≡ map (λ k. (a, k)) ks ++ key_items items)
unfolding hash_items address_items key_items
kinds_of_contract a [] items = (refl, refl, refl)
kinds_of_contract a (k ∷ ks) items =
    let (h, s, r) = kinds_of_contract a ks items in (h, s, ap (λ rest. (a, k) ∷ rest) r)

kinds_of_keys :
    (csks : List ContractStorageKeys)
    → (hash_items (flatten_storage_keys csks) ≡ [])
      × (address_items (flatten_storage_keys csks) ≡ [])
      × (key_items (flatten_storage_keys csks) ≡ keys_of csks)
unfolding flatten_storage_keys hash_items address_items key_items keys_of
kinds_of_keys [] = (refl, refl, refl)
kinds_of_keys (csk ∷ rest) =
    let (h, s, k) =
      kinds_of_contract csk.contract_address csk.storage_keys (flatten_storage_keys rest) in
    let (rh, rs, rk) = kinds_of_keys rest in
    (h ∙ rh, s ∙ rs, k ∙ ap (λ r. map (λ j. (csk.contract_address, j)) csk.storage_keys ++ r) rk)

-- Flattening keeps every part of the query.
pub kinds_of_query :
    (q : RpcStorageProofsQuery)
    → (hash_items (flatten_query q) ≡ q.class_hashes)
      × (address_items (flatten_query q) ≡ q.contract_addresses)
      × (key_items (flatten_query q) ≡ keys_of q.contract_storage_keys)
unfolding flatten_query
kinds_of_query q =
    let hs = q.class_hashes in
    let addrs = q.contract_addresses in
    let ks = flatten_storage_keys q.contract_storage_keys in
    let (h1, s1, k1) = kinds_of_hashes hs (map contract addrs ++ ks) in
    let (h2, s2, k2) = kinds_of_addresses addrs ks in
    let (h3, s3, k3) = kinds_of_keys q.contract_storage_keys in
    let assoc = append_assoc (map class_hash hs) (map contract addrs) ks in
    (
      ap hash_items assoc ∙ h1 ∙ ap (λ r. hs ++ r) (h2 ∙ h3) ∙ append-nil hs,
      ap address_items assoc ∙ s1 ∙ s2 ∙ ap (λ r. addrs ++ r) s3 ∙ append-nil addrs,
      ap key_items assoc ∙ k1 ∙ k2 ∙ k3,
    )

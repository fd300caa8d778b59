-- ===== src/Prover/StorageProofs/Splitting.antt =====
-- What `split_query` of crates/starknet-transaction-prover-wasm/src/running/storage_proofs.rs keeps.
use mathlib.Core.List.{append_assoc, append-nil, map-append}
use snip_36_prover_web.Prelude.{
  ℕ, zero, suc, ◌+◌, ◌≤◌, List, [], ◌∷◌, ◌++◌, map, length, take, drop, concat, All, arith,
  length-append, length-take, length-drop, take-append-drop, lt→ltb, ◌==◌, Bool-cases, inl, inr,
  ◌≡◌, refl, sym, ap, ◌∙◌,
}
use snip_36_prover_web.Prelude.Result.{ok}
use snip_36_prover_web.Prover.StorageProofs.{
  RpcStorageProofsQuery, ContractStorageKeys, QueryItem, class_hash, contract, storage_key,
  no_query, count_total_keys, count_storage_keys, flatten_query, push_storage_key, collect_item,
  collect_items, collect_query, chunks, split_query,
}
use snip_36_prover_web.Prover.StorageProofs.Items.{
  keys_of, hash_items, address_items, key_items, hash_items-append, address_items-append,
  key_items-append, kinds_of_query,
}

-- A function that reads in parts reads a list chunk by chunk.
concat-chunks {ℓ κ} :
    {A : Type ℓ} {B : Type κ} (f : List A → List B)
    → f [] ≡ []
    → ((xs ys : List A) → f (xs ++ ys) ≡ f xs ++ f ys)
    → (fuel n : ℕ) (xs : List A) → 1 ≤ n
    → length xs ≤ fuel
    → concat (map f (chunks fuel n xs)) ≡ f xs
unfolding chunks
concat-chunks f e h zero n [] p l = sym e
concat-chunks f e h zero n (x ∷ xs) p l = absurd (omega arith)
concat-chunks f e h (suc fuel) n [] p l = sym e
concat-chunks f e h (suc fuel) n (x ∷ xs) p l =
    ap (λ r. f (take n (x ∷ xs)) ++ r)
      (concat-chunks f e h fuel n (drop n (x ∷ xs)) p (omega (arith, length-drop n (x ∷ xs))))
    ∙ sym (h (take n (x ∷ xs)) (drop n (x ∷ xs)))
    ∙ ap f (take-append-drop n (x ∷ xs))

-- No chunk is empty or longer than it may be.
chunks-sizes {ℓ} :
    {A : Type ℓ} (fuel n : ℕ) (xs : List A)
    → 1 ≤ n
    → All (λ chunk. (1 ≤ length chunk) × (length chunk ≤ n)) (chunks fuel n xs)
unfolding chunks
chunks-sizes zero n xs p = tt
chunks-sizes (suc fuel) n [] p = tt
chunks-sizes (suc fuel) n (x ∷ xs) p = (
  (omega (arith, length-take n (x ∷ xs)), omega (arith, length-take n (x ∷ xs))),
  chunks-sizes fuel n (drop n (x ∷ xs)) p,
)

keys_of-push :
    (a k : ℕ) (csks : List ContractStorageKeys)
    → keys_of (push_storage_key a k csks) ≡ keys_of csks ++ ((a, k) ∷ [])
unfolding keys_of push_storage_key
keys_of-push a k [] = refl
keys_of-push a k (last ∷ []) = elim (Bool-cases (last.contract_address == a)) [
  | inl same ↦
      let tag : ℕ → ℕ × ℕ = λ j. (last.contract_address, j) in
      let here : last.contract_address ≡ a = ground arith in
      rw same (
        append-nil (map tag (last.storage_keys ++ (k ∷ [])))
        ∙ map-append tag last.storage_keys (k ∷ [])
        ∙ ap (λ r. r ++ (tag k ∷ [])) (sym (append-nil (map tag last.storage_keys)))
        ∙ ap (λ b. map tag last.storage_keys ++ [] ++ ((b, k) ∷ [])) here)
  | inr other ↦ rw other (
      sym (append_assoc (map (λ j. (last.contract_address, j)) last.storage_keys) [] ((a, k) ∷ [])))
]
keys_of-push a k (csk ∷ next ∷ rest) =
    ap (λ r. map (λ j. (csk.contract_address, j)) csk.storage_keys ++ r)
      (keys_of-push a k (next ∷ rest))
    ∙ sym (
        append_assoc (map (λ j. (csk.contract_address, j)) csk.storage_keys) (keys_of (next ∷ rest))
          ((a, k) ∷ []))

count-push :
    (a k : ℕ) (csks : List ContractStorageKeys)
    → count_storage_keys (push_storage_key a k csks) ≡ count_storage_keys csks + 1
unfolding count_storage_keys push_storage_key
count-push a k [] = refl
count-push a k (last ∷ []) = ground (arith, length-append last.storage_keys (k ∷ []))
count-push a k (csk ∷ next ∷ rest) = omega (arith, count-push a k (next ∷ rest))

count-collect_item :
    (q : RpcStorageProofsQuery) (item : QueryItem)
    → count_total_keys (collect_item q item) ≡ count_total_keys q + 1
unfolding count_total_keys collect_item
count-collect_item q (class_hash h) = omega (arith, length-append q.class_hashes (h ∷ []))
count-collect_item q (contract a) = omega (arith, length-append q.contract_addresses (a ∷ []))
count-collect_item q (storage_key a k) = omega (arith, count-push a k q.contract_storage_keys)

count-collect_items :
    (q : RpcStorageProofsQuery) (items : List QueryItem)
    → count_total_keys (collect_items q items) ≡ count_total_keys q + length items
unfolding collect_items
count-collect_items q [] = omega arith
count-collect_items q (item ∷ items) =
    omega (arith, count-collect_items (collect_item q item) items, count-collect_item q item)

-- What a collected query holds of each kind.
class_hashes-collect_items :
    (q : RpcStorageProofsQuery) (items : List QueryItem)
    → (collect_items q items).class_hashes ≡ q.class_hashes ++ hash_items items
unfolding collect_items collect_item hash_items
class_hashes-collect_items q [] = sym (append-nil q.class_hashes)
class_hashes-collect_items q (class_hash h ∷ items) =
    class_hashes-collect_items (collect_item q (class_hash h)) items
    ∙ append_assoc q.class_hashes (h ∷ []) (hash_items items)
class_hashes-collect_items q (contract a ∷ items) =
    class_hashes-collect_items (collect_item q (contract a)) items
class_hashes-collect_items q (storage_key a k ∷ items) =
    class_hashes-collect_items (collect_item q (storage_key a k)) items

contract_addresses-collect_items :
    (q : RpcStorageProofsQuery) (items : List QueryItem)
    → (collect_items q items).contract_addresses ≡ q.contract_addresses ++ address_items items
unfolding collect_items collect_item address_items
contract_addresses-collect_items q [] = sym (append-nil q.contract_addresses)
contract_addresses-collect_items q (class_hash h ∷ items) =
    contract_addresses-collect_items (collect_item q (class_hash h)) items
contract_addresses-collect_items q (contract a ∷ items) =
    contract_addresses-collect_items (collect_item q (contract a)) items
    ∙ append_assoc q.contract_addresses (a ∷ []) (address_items items)
contract_addresses-collect_items q (storage_key a k ∷ items) =
    contract_addresses-collect_items (collect_item q (storage_key a k)) items

keys-collect_items :
    (q : RpcStorageProofsQuery) (items : List QueryItem)
    → keys_of (collect_items q items).contract_storage_keys
      ≡ keys_of q.contract_storage_keys ++ key_items items
unfolding collect_items collect_item key_items
keys-collect_items q [] = sym (append-nil (keys_of q.contract_storage_keys))
keys-collect_items q (class_hash h ∷ items) =
    keys-collect_items (collect_item q (class_hash h)) items
keys-collect_items q (contract a ∷ items) = keys-collect_items (collect_item q (contract a)) items
keys-collect_items q (storage_key a k ∷ items) =
    keys-collect_items (collect_item q (storage_key a k)) items
    ∙ ap (λ r. r ++ key_items items) (keys_of-push a k q.contract_storage_keys)
    ∙ append_assoc (keys_of q.contract_storage_keys) ((a, k) ∷ []) (key_items items)

concat-collected {κ} :
    {B : Type κ} (f : RpcStorageProofsQuery → List B) (g : List QueryItem → List B)
    → ((items : List QueryItem) → f (collect_query items) ≡ g items)
    → (cs : List (List QueryItem)) → concat (map f (map collect_query cs)) ≡ concat (map g cs)
concat-collected f g h [] = refl
concat-collected f g h (c ∷ cs) = rw (h c, concat-collected f g h cs) refl

-- A request that asks for one key or more, and for no more than the limit.
abbrev pub IsRequest : ℕ → RpcStorageProofsQuery → Type 0
IsRequest max_keys q = (1 ≤ count_total_keys q) × (count_total_keys q ≤ max_keys)

none_counted : count_total_keys no_query ≡ 0
unfolding count_total_keys count_storage_keys
none_counted = refl

IsRequest-collected :
    (max_keys : ℕ) (cs : List (List QueryItem))
    → All (λ chunk. (1 ≤ length chunk) × (length chunk ≤ max_keys)) cs
    → All (IsRequest max_keys) (map collect_query cs)
unfolding collect_query
IsRequest-collected max_keys [] h = tt
IsRequest-collected max_keys (c ∷ cs) h =
    let same : count_total_keys (collect_items no_query c) ≡ length c =
      omega (arith, count-collect_items no_query c, none_counted) in
    ((omega arith, omega arith), IsRequest-collected max_keys cs h.1)

-- With a positive limit, `split_query` yields requests that each ask for one key or more and for
-- no more than the limit, and that together ask, in order, for the query's class hashes, for its
-- contract addresses, and for its storage keys, each of its contract.
pub split_query-covers :
    (query : RpcStorageProofsQuery) (max_keys : ℕ)
    → 1 ≤ max_keys
    → (qs : List RpcStorageProofsQuery) × (split_query query max_keys ≡ ok qs)
      × All (IsRequest max_keys) qs
      × (concat (map (λ q. q.class_hashes) qs) ≡ query.class_hashes)
      × (concat (map (λ q. q.contract_addresses) qs) ≡ query.contract_addresses)
      × (concat (map (λ q. keys_of q.contract_storage_keys) qs)
          ≡ keys_of query.contract_storage_keys)
unfolding split_query collect_query hash_items address_items key_items keys_of
split_query-covers query max_keys p =
    let items = flatten_query query in
    let cs = chunks (length items) max_keys items in
    let (h, a, k) = kinds_of_query query in
    (
      map collect_query cs,
      ground (arith, lt→ltb 0 max_keys),
      IsRequest-collected max_keys cs (chunks-sizes (length items) max_keys items p),
      concat-collected (λ q. q.class_hashes) hash_items (class_hashes-collect_items no_query) cs
          ∙ concat-chunks hash_items refl hash_items-append (length items) max_keys items p
              (omega arith)
          ∙ h,
      concat-collected (λ q. q.contract_addresses) address_items
            (contract_addresses-collect_items no_query) cs
          ∙ concat-chunks address_items refl address_items-append (length items) max_keys items p
              (omega arith)
          ∙ a,
      concat-collected (λ q. keys_of q.contract_storage_keys) key_items
            (keys-collect_items no_query) cs
          ∙ concat-chunks key_items refl key_items-append (length items) max_keys items p
              (omega arith)
          ∙ k,
    )

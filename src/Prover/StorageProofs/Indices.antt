-- ===== src/Prover/StorageProofs/Indices.antt =====
-- The indices that merge_storage_proofs (crates/starknet-transaction-prover-wasm/src/running/
-- storage_proofs.rs) looks up: a key's path, found at its contract's index, is found at its entry.
use mathlib.Core.Path.{subst}
use snip_36_prover_web.Prelude.{
  ℕ, zero, suc, ◌+◌, ◌<◌, true, List, [], ◌∷◌, map, none, some, All, All-start, All-map, All-weaken,
  length, get_elem?, length-append, length-map, ◌==◌, ◌≡◌, ◌≢◌, refl, ap, ◌∙◌, arith,
}
use snip_36_prover_web.Prelude.Maps.{Map, get, insert, get-insert, get-insert_self, nat_key}
use snip_36_prover_web.Prover.StorageProofs.{ContractStorageKeys, count_storage_keys}
use snip_36_prover_web.Prover.StorageProofs.Items.{keys_of}
use snip_36_prover_web.Prover.StorageProofs.Addresses.{AllContracts}
use snip_36_prover_web.Prover.StorageProofs.Coverage.{IsKnown, Holds, Covers, IsFound}
use snip_36_prover_web.Prover.StorageProofs.Merge.{addr_to_idx}

-- No two of the entries have one contract address.
abbrev pub AllDifferent : List ContractStorageKeys → Type 0
AllDifferent [] = Unit
AllDifferent (c ∷ cs) = All (λ d. c.contract_address ≢ d.contract_address) cs × AllDifferent cs

addr_to_idx-other :
    (a i : ℕ) (m : Map ℕ ℕ) (cs : List ContractStorageKeys)
    → All (λ d. a ≢ d.contract_address) cs
    → get a (addr_to_idx i m cs) ≡ get a m
unfolding addr_to_idx
addr_to_idx-other a i m [] h = refl
addr_to_idx-other a i m (c ∷ cs) h =
    addr_to_idx-other a (suc i) (insert c.contract_address i m) cs h.1
    ∙ ground (arith, get-insert c.contract_address a i m, h.0)

addr_to_idx-at :
    (i j : ℕ) (m : Map ℕ ℕ) (c : ContractStorageKeys) (cs : List ContractStorageKeys)
    → AllDifferent cs
    → get_elem? cs j ≡ some c
    → get c.contract_address (addr_to_idx i m cs) ≡ some (j + i)
unfolding addr_to_idx
addr_to_idx-at i j m c [] d e = cc
addr_to_idx-at i zero m c (x ∷ cs) d e =
    let same : x ≡ c = cc in
    subst
      (λ y.
        get y.contract_address (addr_to_idx (suc i) (insert x.contract_address i m) cs) ≡ some i)
      same
      (addr_to_idx-other x.contract_address (suc i) (insert x.contract_address i m) cs d.0
        ∙ get-insert_self x.contract_address i m)
    ∙ ap some (omega arith)
addr_to_idx-at i (suc j) m c (x ∷ cs) d e =
    addr_to_idx-at (suc i) j (insert x.contract_address i m) c cs d.1 e ∙ ap some (omega arith)

All-places {ℓ κ} :
    {A : Type ℓ} (P : A → Type κ) (xs : List A)
    → ((j : ℕ) (x : A) → get_elem? xs j ≡ some x → j < length xs → P x)
    → All P xs
All-places P [] f = tt
All-places P (x ∷ xs) f =
    (f 0 x refl (omega arith), All-places P xs (λ j y e l. f (suc j) y e (omega arith)))

pub addr_to_idx-IsKnown :
    (cs : List ContractStorageKeys)
    → AllDifferent cs
    → AllContracts (IsKnown (addr_to_idx 0 [] cs) (length cs)) cs
addr_to_idx-IsKnown cs d =
    All-places _ cs (λ j c e l. (j, addr_to_idx-at 0 j [] c cs d e ∙ ap some (omega arith), l))

All-keys_of :
    (P : ℕ × ℕ → Type 0) (cs : List ContractStorageKeys) (j : ℕ) (c : ContractStorageKeys)
    → All P (keys_of cs)
    → get_elem? cs j ≡ some c
    → All (λ k. P (c.contract_address, k)) c.storage_keys
unfolding keys_of
All-keys_of P [] j c h e = cc
All-keys_of P (x ∷ cs) zero c h e =
    let same : x ≡ c = cc in
    let (a, b) = All-start P (map (λ k. (x.contract_address, k)) x.storage_keys) (keys_of cs) h in
    subst (λ y. All (λ k. P (y.contract_address, k)) y.storage_keys) same
      (All-map P (λ k. (x.contract_address, k)) x.storage_keys a)
All-keys_of P (x ∷ cs) (suc j) c h e =
    let (a, b) = All-start P (map (λ k. (x.contract_address, k)) x.storage_keys) (keys_of cs) h in
    All-keys_of P cs j c b e

module _ {N : Type 0} (path : ℕ → ℕ → List ℕ) where
  Covers-at :
      (cs : List ContractStorageKeys) (ms : List (Map ℕ N))
      → length ms ≡ length cs
      → ((j : ℕ) (c : ContractStorageKeys) (m : Map ℕ N)
          → get_elem? cs j ≡ some c
          → get_elem? ms j ≡ some m
          → Holds path m c.contract_address c.storage_keys)
      → Covers path cs ms
  Covers-at [] [] l f = tt
  Covers-at [] (m ∷ ms) l f = absurd (omega arith)
  Covers-at (c ∷ cs) [] l f = absurd (omega arith)
  Covers-at (c ∷ cs) (m ∷ ms) l f =
      (f 0 c m refl refl, Covers-at cs ms (omega arith) (λ j x y. f (suc j) x y))

  IsFound-holds :
      (index : Map ℕ ℕ) (ms : List (Map ℕ N)) (a j k : ℕ) (m : Map ℕ N)
      → get a index ≡ some j
      → get_elem? ms j ≡ some m
      → IsFound path index ms (a, k)
      → All (λ h. get h m ≢ none) (path a k)
  IsFound-holds index ms a j k m e p f =
      let i = f.i in
      let same : i ≡ j = cc (f.indexed) in
      let placed : get_elem? ms j ≡ some f.entry =
        subst (λ n. get_elem? ms n ≡ some f.entry) same f.placed in
      let entries : f.entry ≡ m = cc in
      subst (λ y. All (λ h. get h y ≢ none) (path a k)) entries f.holds

  pub IsFound-Covers :
      (cs : List ContractStorageKeys) (ms : List (Map ℕ N))
      → AllDifferent cs
      → length ms ≡ length cs
      → All (IsFound path (addr_to_idx 0 [] cs) ms) (keys_of cs)
      → Covers path cs ms
  IsFound-Covers cs ms d l h = Covers-at cs ms l (λ j c m e p.
      All-weaken _ _
        (λ k f.
          IsFound-holds (addr_to_idx 0 [] cs) ms c.contract_address j k m
            (addr_to_idx-at 0 j [] c cs d e ∙ ap some (omega arith)) p f)
        c.storage_keys (All-keys_of _ cs j c h e))

pub same_count {ℓ κ} :
    {A : Type ℓ} {B : Type κ} (f : A → B) (xs : List A) → (length (map f xs) == length xs) ≡ true
same_count f [] = refl
same_count f (x ∷ xs) = ground (arith, same_count f xs)

pub count_storage_keys_lem :
    (cs : List ContractStorageKeys) → count_storage_keys cs ≡ length (keys_of cs)
unfolding count_storage_keys keys_of
count_storage_keys_lem [] = refl
count_storage_keys_lem (c ∷ cs) = omega (
  arith,
  count_storage_keys_lem cs,
  length-append (map (λ k. (c.contract_address, k)) c.storage_keys) (keys_of cs),
  length-map {B = ℕ × ℕ} (λ k. (c.contract_address, k)) c.storage_keys,
)

-- ===== src/Prover/StorageProofs/Coverage.antt =====
-- The proof that fetch_proofs (crates/starknet-transaction-prover-wasm/src/running/storage_proofs.rs)
-- merges covers the query, if the answers to its parts do.
use mathlib.Core.Path.{subst}
use snip_36_prover_web.Prelude.{
  All-weaken, ℕ, zero, suc, ◌<◌, List, [], ◌∷◌, map, none, some, All, All-append, length, get_elem?,
  ◌==◌, ◌≡◌, ◌≢◌, refl, sym, ap, ◌∙◌, arith, inl, inr, Bool-cases,
}
use snip_36_prover_web.Prelude.Result.{ok}
use snip_36_prover_web.Prelude.Maps.{Map, get, insert, get-insert, nat_key}
use snip_36_prover_web.Prover.StorageProofs.{ContractStorageKeys}
use snip_36_prover_web.Prover.StorageProofs.Items.{keys_of}
use snip_36_prover_web.Prover.StorageProofs.Merge.{extend, extend_at, merge_contracts}

module _ {N : Type 0} where
  abbrev pub HasHash : Map ℕ N → ℕ → Type 0
  HasHash m h = get h m ≢ none

  HasHash-insert : (h k : ℕ) (v : N) (m : Map ℕ N) → HasHash m h → HasHash (insert k v m) h
  HasHash-insert h k v m g e = ground (arith, get-insert k h v m, g)

  pub HasHash-extend : (h : ℕ) (m more : Map ℕ N) → HasHash m h → HasHash (extend m more) h
  unfolding extend
  HasHash-extend h m [] g = g
  HasHash-extend h m ((k, v) ∷ more) g =
      HasHash-extend h (insert k v m) more (HasHash-insert h k v m g)

  pub HasHash-extended : (h : ℕ) (m more : Map ℕ N) → HasHash more h → HasHash (extend m more) h
  unfolding extend get
  HasHash-extended h m [] g = absurd (g refl)
  HasHash-extended h m ((k, v) ∷ more) g = elim (Bool-cases (k == h)) [
    | inl same ↦ HasHash-extend h (insert k v m) more (λ n. ground (arith, get-insert k h v m))
    | inr other ↦ HasHash-extended h (insert k v m) more (rw other at g)
  ]

  -- Every entry has what the entry at its place had.
  abbrev pub GrowsAt : List (Map ℕ N) → List (Map ℕ N) → ℕ → Type 0
  GrowsAt ms out j =
      (m : Map ℕ N)
      → get_elem? ms j ≡ some m
      → (m' : Map ℕ N) × (get_elem? out j ≡ some m') × ((h : ℕ) → HasHash m h → HasHash m' h)

  pub GrowsAt-refl : (ms : List (Map ℕ N)) (j : ℕ) → GrowsAt ms ms j
  GrowsAt-refl ms j m e = (m, e, λ h g. g)

  pub GrowsAt-trans :
      (a b c : List (Map ℕ N)) (j : ℕ) → GrowsAt a b j → GrowsAt b c j → GrowsAt a c j
  GrowsAt-trans a b c j f g m e =
      let (m1, e1, k1) = f m e in let (m2, e2, k2) = g m1 e1 in (m2, e2, λ h x. k2 h (k1 h x))

  GrowsAt-head :
      (m more : Map ℕ N) (ms : List (Map ℕ N)) (j : ℕ) → GrowsAt (m ∷ ms) (extend m more ∷ ms) j
  GrowsAt-head m more ms zero x e =
      let same : m ≡ x = cc in
      (extend m more, refl, λ h g. HasHash-extend h m more (subst (λ y. HasHash y h) (sym same) g))
  GrowsAt-head m more ms (suc j) x e = (x, e, λ h g. g)

  GrowsAt-tail :
      (m : Map ℕ N) (ms out : List (Map ℕ N))
      → ((j : ℕ) → GrowsAt ms out j)
      → (j : ℕ) → GrowsAt (m ∷ ms) (m ∷ out) j
  GrowsAt-tail m ms out f zero x e = (x, e, λ h g. g)
  GrowsAt-tail m ms out f (suc j) x e = f j x e

  pub record IsExtended (i : ℕ) (more : Map ℕ N) (ms out : List (Map ℕ N)) : Type 0 where
    pub same_length : length out ≡ length ms
    pub grows : (j : ℕ) → GrowsAt ms out j
    pub entry : Map ℕ N
    pub placed : get_elem? out i ≡ some entry
    pub holds : (h : ℕ) → HasHash more h → HasHash entry h

  extend_at-IsExtended :
      (i : ℕ) (more : Map ℕ N) (ms : List (Map ℕ N))
      → i < length ms
      → (out : List (Map ℕ N)) × (extend_at i more ms ≡ ok out) × IsExtended i more ms out
  unfolding extend_at
  extend_at-IsExtended i more [] l = absurd (omega arith)
  extend_at-IsExtended zero more (m ∷ ms) l = (
    extend m more ∷ ms,
    refl,
    record {
      same_length = refl;
      grows = GrowsAt-head m more ms;
      entry = extend m more;
      placed = refl;
      holds = λ h. HasHash-extended h m more;
    },
  )
  extend_at-IsExtended (suc i) more (m ∷ ms) l =
      let (out, run, good) = extend_at-IsExtended i more ms (omega arith) in
      (
        m ∷ out,
        rw (run, extend_at) refl,
        record {
          same_length = ap suc good.same_length;
          grows = GrowsAt-tail m ms out good.grows;
          entry = good.entry;
          placed = good.placed;
          holds = good.holds;
        },
      )

abbrev pub IsKnown : Map ℕ ℕ → ℕ → ℕ → Type 0
IsKnown index n a = (i : ℕ) × (get a index ≡ some i) × (i < n)

module _ {N : Type 0} (path : ℕ → ℕ → List ℕ) where
  -- The nodes on the path of each of the keys.
  abbrev pub Holds : Map ℕ N → ℕ → List ℕ → Type 0
  Holds m a ks = All (λ k. All (HasHash m) (path a k)) ks

  -- A proof for each of the contracts and no other, in their order, that holds the paths of its keys.
  abbrev pub Covers : List ContractStorageKeys → List (Map ℕ N) → Type 0
  Covers [] [] = Unit
  Covers [] (m ∷ ms) = ⊥
  Covers (csk ∷ csks) [] = ⊥
  Covers (csk ∷ csks) (m ∷ ms) = Holds m csk.contract_address csk.storage_keys × Covers csks ms

  -- The path of one key is held by the entry at the contract's index.
  pub record IsFound (index : Map ℕ ℕ) (ms : List (Map ℕ N)) (e : ℕ × ℕ) : Type 0 where
    pub i : ℕ
    pub entry : Map ℕ N
    pub indexed : get e.0 index ≡ some i
    pub placed : get_elem? ms i ≡ some entry
    pub holds : All (HasHash entry) (path e.0 e.1)

  pub IsFound-grows :
      (index : Map ℕ ℕ) (ms out : List (Map ℕ N))
      → ((j : ℕ) → GrowsAt ms out j)
      → (e : ℕ × ℕ) → IsFound index ms e
      → IsFound index out e
  IsFound-grows index ms out g e f =
      let (entry, placed, more) = g f.i f.entry f.placed in
      record {
        i = f.i;
        entry = entry;
        indexed = f.indexed;
        placed = placed;
        holds = All-weaken (HasHash f.entry) (HasHash entry) more (path e.0 e.1) f.holds;
      }

  IsFound-keys :
      (index : Map ℕ ℕ) (ms : List (Map ℕ N)) (a i : ℕ) (entry : Map ℕ N)
      → get a index ≡ some i
      → get_elem? ms i ≡ some entry
      → (ks : List ℕ) → Holds entry a ks
      → All (IsFound index ms) (map (λ k. (a, k)) ks)
  IsFound-keys index ms a i entry e p [] h = tt
  IsFound-keys index ms a i entry e p (k ∷ ks) h = (
    record { i = i; entry = entry; indexed = e; placed = p; holds = h.0 },
    IsFound-keys index ms a i entry e p ks h.1,
  )

  -- One answer merged: no panic, and the paths of all its keys are found.
  pub merge_contracts-finds :
      (index : Map ℕ ℕ) (csks : List ContractStorageKeys) (ps ms : List (Map ℕ N))
      → All (λ c. IsKnown index (length ms) c.contract_address) csks
      → Covers csks ps
      → (out : List (Map ℕ N)) × (merge_contracts index csks ps ms ≡ ok out)
        × (length out ≡ length ms)
        × ((j : ℕ) → GrowsAt ms out j)
        × All (IsFound index out) (keys_of csks)
  unfolding merge_contracts keys_of
  merge_contracts-finds index [] ps ms known covers = (ms, refl, refl, GrowsAt-refl ms, tt)
  merge_contracts-finds index (csk ∷ csks) [] ms known covers = absurd covers
  merge_contracts-finds index (csk ∷ csks) (p ∷ ps) ms known covers =
      let (i, indexed, inside) = known.0 in
      let (ms1, run1, good) = extend_at-IsExtended i p ms inside in
      let (out, run, same, grows, found) =
        merge_contracts-finds index csks ps ms1
          (subst (λ n. All (λ c. IsKnown index n c.contract_address) csks) (sym good.same_length)
            known.1)
          covers.1 in
      let (entry, placed, more) = grows i good.entry good.placed in
      (
        out,
        rw (indexed, run1) run,
        same ∙ good.same_length,
        λ j. GrowsAt-trans ms ms1 out j (good.grows j) (grows j),
        All-append (IsFound index out) (map (λ k. (csk.contract_address, k)) csk.storage_keys)
            (keys_of csks)
            (IsFound-keys index out csk.contract_address i entry indexed placed csk.storage_keys (
              All-weaken _ _
                (λ k.
                  All-weaken (HasHash p) (HasHash entry) (λ h x. more h (good.holds h x))
                    (path csk.contract_address k))
                csk.storage_keys covers.0))
            found,
      )

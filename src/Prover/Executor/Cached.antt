-- ===== src/Prover/Executor/Cached.antt =====
-- prefetch_classes_into_cache of crates/starknet-transaction-prover-wasm/src/running/
-- virtual_block_executor.rs: the classes that the execution may need are in the class manager.
use mathlib.Core.Path.{subst}
use snip_36_prover_web.Prelude.{
  ℕ, Bool, true, List, [], ◌∷◌, ◌++◌, map, All, All-weaken, All-start, All-map, ◌==◌, ==_iff, ◌≡◌,
  ◌⊎◌, refl, sym, ap, ◌∙◌, inl, inr, Bool-cases,
}
use snip_36_prover_web.Prelude.Result.{Result, ok, err, Result-cases}
use snip_36_prover_web.Reexecution.{ReexecutionError}
use snip_36_prover_web.Prover.Errors.{ProverError}
use snip_36_prover_web.Prover.Committer.{StateMaps}
use snip_36_prover_web.Prover.Executor.Prefetch.{
  contains, extend_set, class_hashes_to_fetch, prefetch_class, prefetch_classes,
  prefetch_classes_into_cache,
}

contains-All {ℓ} : (P : ℕ → Type ℓ) (a : ℕ) (set : List ℕ) → contains a set ≡ true → All P set → P a
unfolding contains
contains-All P a [] c h = absurd cc
contains-All P a (b ∷ bs) c h = elim (Bool-cases (b == a)) [
  | inl same ↦ subst P ((==_iff b a).0 same) h.0
  | inr other ↦ contains-All P a bs (rw other at c) h.1
]

extend_set-All {ℓ} :
    (P : ℕ → Type ℓ) (set more : List ℕ) → All P (extend_set set more) → All P set × All P more
unfolding extend_set
extend_set-All P set [] h = (h, tt)
extend_set-All P set (a ∷ more) h = elim (Bool-cases (contains a set)) [
  | inl there ↦
      let (old, rest) = extend_set-All P set more (rw there at h) in
      (old, (contains-All P a set there old, rest))
  | inr new ↦
      let (grown, rest) = extend_set-All P (set ++ (a ∷ [])) more (rw new at h) in
      let (old, added) = All-start P set (a ∷ []) grown in (old, (added.0, rest))
]

class_hashes_to_fetch-All {ℓ} :
    (P : ℕ → Type ℓ) (state_maps : StateMaps)
    → All P (class_hashes_to_fetch state_maps)
    → All (λ e. P e.1) state_maps.class_hashes × All (λ e. P e.0) state_maps.declared_contracts
unfolding class_hashes_to_fetch
class_hashes_to_fetch-All P state_maps h =
    let (values, keys) =
      extend_set-All P (extend_set [] (map (λ e. e.1) state_maps.class_hashes))
        (map (λ e. e.0) state_maps.declared_contracts) h in
    let (none_before, hashes) =
      extend_set-All P [] (map (λ e. e.1) state_maps.class_hashes) values in
    (
      All-map P (λ (e : ℕ × ℕ). e.1) state_maps.class_hashes hashes,
      All-map P (λ (e : ℕ × Bool). e.0) state_maps.declared_contracts keys,
    )

-- The element is in the list.
abbrev pub IsIn : ℕ → List ℕ → Type 0
IsIn h [] = ⊥
IsIn h (j ∷ js) = (j ≡ h) ⊎ IsIn h js

All-IsIn : (hs : List ℕ) → All (λ h. IsIn h hs) hs
All-IsIn [] = tt
All-IsIn (h ∷ hs) =
    (inl refl, All-weaken (λ j. IsIn j hs) (λ j. IsIn j (h ∷ hs)) (λ j p. inr p) hs (All-IsIn hs))

module _ {K M : Type 0} (get_compiled_classes : ℕ → Result ReexecutionError K)
    (set_and_compile : ℕ → K → M → M) where
  -- For each of the hashes but zero, in order, the manager was given the class that the node reports.
  abbrev pub IsFilled : List ℕ → M → M → Type 0
  IsFilled [] m after = m ≡ after
  IsFilled (h ∷ hs) m after =
      ((h ≡ 0) × IsFilled hs m after)
      ⊎ ((k : K) × (get_compiled_classes h ≡ ok k) × IsFilled hs (set_and_compile h k m) after)

  -- A round that succeeds is followed by the others; one that fails is the last.
  prefetch_classes-ok :
      (h : ℕ) (hs : List ℕ) (m : M) (u : Unit {0})
      → (prefetch_class get_compiled_classes set_and_compile h m).1 ≡ ok u
      → prefetch_classes get_compiled_classes set_and_compile (h ∷ hs) m
        ≡ prefetch_classes get_compiled_classes set_and_compile hs
            (prefetch_class get_compiled_classes set_and_compile h m).0
  unfolding prefetch_classes
  prefetch_classes-ok h hs m u done = rw (done, prefetch_classes) refl

  prefetch_classes-err :
      (h : ℕ) (hs : List ℕ) (m : M) (e : ProverError)
      → (prefetch_class get_compiled_classes set_and_compile h m).1 ≡ err e
      → prefetch_classes get_compiled_classes set_and_compile (h ∷ hs) m
        ≡ ((prefetch_class get_compiled_classes set_and_compile h m).0, err e)
  unfolding prefetch_classes
  prefetch_classes-err h hs m e failure = rw (failure, prefetch_classes) refl

  IsFilled-prefetch_class :
      (h : ℕ) (hs : List ℕ) (m after : M) (u : Unit {0})
      → (prefetch_class get_compiled_classes set_and_compile h m).1 ≡ ok u
      → IsFilled hs (prefetch_class get_compiled_classes set_and_compile h m).0 after
      → IsFilled (h ∷ hs) m after
  unfolding prefetch_class
  IsFilled-prefetch_class h hs m after u done rest = elim (Bool-cases (h == 0)) [
    | inl zero_hash ↦ inl ((==_iff h 0).0 zero_hash, rw (zero_hash, prefetch_class) at rest)
    | inr proper ↦ elim (Result-cases (get_compiled_classes h)) [
      | inr (x, failure) ↦ absurd (cc (rw (proper, failure, prefetch_class) at done))
      | inl (k, e) ↦ inr (k, e, rw (proper, e, prefetch_class) at rest)
    ]
  ]

  prefetch_classes-IsFilled :
      (hs : List ℕ) (m : M)
      → (prefetch_classes get_compiled_classes set_and_compile hs m).1 ≡ ok tt
      → IsFilled hs m (prefetch_classes get_compiled_classes set_and_compile hs m).0
  unfolding prefetch_classes
  prefetch_classes-IsFilled [] m e = refl
  prefetch_classes-IsFilled (h ∷ hs) m e =
      let step = prefetch_class get_compiled_classes set_and_compile h m in
      elim (Result-cases step.1) [
        | inr (x, failure) ↦ absurd (
            cc (
              sym (
                ap (λ (r : M × Result ProverError (Unit {0})). r.1)
                  (prefetch_classes-err h hs m x failure))
              ∙ e))
        | inl (u, done) ↦
            let next = prefetch_classes-ok h hs m u done in
            let rest =
              prefetch_classes-IsFilled hs step.0
                (sym (ap (λ (r : M × Result ProverError (Unit {0})). r.1) next) ∙ e) in
            subst (λ (r : M × Result ProverError (Unit {0})). IsFilled (h ∷ hs) m r.0) (sym next)
              (IsFilled-prefetch_class h hs m _ u done rest)
      ]

  -- If the prefetching succeeds, the class manager was given, in some order, the compiled class
  -- that the node reports for each of a list of class hashes but zero, in which are all that the
  -- state maps have as the class of a contract or as a declared class. What the manager does with
  -- it is not said.
  pub prefetch_classes_into_cache-IsFilled :
      (state_maps : StateMaps) (m : M)
      → (prefetch_classes_into_cache get_compiled_classes set_and_compile state_maps m).1 ≡ ok tt
      → (hs : List ℕ) × IsFilled hs m
          (prefetch_classes_into_cache get_compiled_classes set_and_compile state_maps m).0
        × All (λ e. IsIn e.1 hs) state_maps.class_hashes
        × All (λ e. IsIn e.0 hs) state_maps.declared_contracts
  unfolding prefetch_classes_into_cache
  prefetch_classes_into_cache-IsFilled state_maps m e =
      let hs = class_hashes_to_fetch state_maps in
      let (hashes, declared) =
        class_hashes_to_fetch-All (λ h. IsIn h hs) state_maps (All-IsIn hs) in
      (hs, prefetch_classes-IsFilled hs m e, hashes, declared)

-- ===== src/Prover/ClassesProvider/Complete.antt =====
-- What get_classes of crates/starknet-transaction-prover-wasm/src/running/classes_provider.rs returns.
use mathlib.Core.Path.{subst}
use snip_36_prover_web.Prelude.{
  ℕ, ◌%◌, ◌^◌, ◌-◌, ◌≤◌, ◌<◌, List, [], ◌∷◌, some, none, map, All, All-weaken, length, drop, ◌==◌,
  ==_iff, if◌then◌else◌, ◌≡◌, inl, inr, refl, sym, ap, ◌∙◌, arith, Bool-cases,
}
use snip_36_prover_web.Prelude.Result.{
  Result, ok, ok_injective, >>=-parts, collect, AllOk, collect-AllOk, ok_or, ok_or-ok, map_err,
  map_err-ok,
}
use snip_36_prover_web.Prelude.Maps.{get, insert, get-insert, get-insert_self, nat_key}
use snip_36_prover_web.Prelude.Words.{be_value, be_value-zeros}
use snip_36_prover_web.Reexecution.{ReexecutionError}
use snip_36_prover_web.Reexecution.Classes.{RunnableCompiledClass, v0, v1}
use snip_36_prover_web.Prover.Errors.{get_classes_error, hints_conversion_error}
use snip_36_prover_web.Prover.ClassesProvider.{
  MaybeRelocatable, int, relocatable_value, bytecode_element, compiled_class_v1_to_casm, casm_of,
  CasmContractClass, CasmLib, ClassesInput, felt_from_bytes_be, pad_32, casm_compiled_class_hash,
  fetch_casm, put_class, get_classes_loop, get_classes,
}

-- The big-endian bytes of a number, none in front that is zero.
pub record IsBytes (to_bytes_be : ℕ → List ℕ) : Type 0 where
  pub value : (n : ℕ) → be_value (to_bytes_be n) ≡ n
  pub short : (n : ℕ) → n < 256 ^ 32 → length (to_bytes_be n) ≤ 32

pad_32-value : (bytes : List ℕ) → length bytes ≤ 32 → be_value (pad_32 bytes) ≡ be_value bytes
unfolding pad_32
pad_32-value bytes l =
    let whole : length bytes - 32 ≡ 0 = omega arith in
    be_value-zeros (32 - length bytes) (drop (length bytes - 32) bytes)
    ∙ ap (λ n. be_value (drop n bytes)) whole

module _ {V1 Seg Hints Points : Type 0} (lib : CasmLib V1 Seg Hints Points) where
  -- The hash of a CASM class, if it fits 32 bytes, is taken modulo the field's prime.
  casm_compiled_class_hash_lem :
      IsBytes lib.to_bytes_be
      → (casm : CasmContractClass Seg Hints Points) → lib.compiled_class_hash casm < 256 ^ 32
      → casm_compiled_class_hash lib casm ≡ lib.compiled_class_hash casm % lib.prime
  unfolding casm_compiled_class_hash felt_from_bytes_be
  casm_compiled_class_hash_lem laws casm l =
      ap (λ n. n % lib.prime)
        (pad_32-value (lib.to_bytes_be (lib.compiled_class_hash casm))
            (laws.short (lib.compiled_class_hash casm) l)
          ∙ laws.value (lib.compiled_class_hash casm))

module _ {V0 V1 Seg Hints Points : Type 0} (lib : CasmLib V1 Seg Hints Points)
    (get_runnable_compiled_class : ℕ → Result ReexecutionError (RunnableCompiledClass V0 V1)) where
  -- The class is there under the hash of its CASM form, and so is a class with that hash.
  record IsThere (classes : ClassesInput Seg Hints Points) (class_hash : ℕ) : Type 0 where
    pub casm : CasmContractClass Seg Hints Points
    pub fetched : fetch_casm lib get_runnable_compiled_class class_hash ≡ ok casm
    pub named :
        get class_hash classes.class_hash_to_compiled_class_hash
        ≡ some (casm_compiled_class_hash lib casm)
    pub stored : CasmContractClass Seg Hints Points
    pub found : get (casm_compiled_class_hash lib casm) classes.compiled_classes ≡ some stored
    pub same_hash : casm_compiled_class_hash lib stored ≡ casm_compiled_class_hash lib casm

  IsThere-put_self :
      (classes : ClassesInput Seg Hints Points) (h : ℕ) (casm : CasmContractClass Seg Hints Points)
      → fetch_casm lib get_runnable_compiled_class h ≡ ok casm
      → IsThere (put_class lib get_runnable_compiled_class h casm classes) h
  unfolding put_class
  IsThere-put_self classes h casm e = record {
    casm = casm;
    fetched = e;
    named = get-insert_self h _ classes.class_hash_to_compiled_class_hash;
    stored = casm;
    found = get-insert_self (casm_compiled_class_hash lib casm) casm classes.compiled_classes;
    same_hash = refl;
  }

  IsThere-put :
      (classes : ClassesInput Seg Hints Points) (h j : ℕ)
      (casm : CasmContractClass Seg Hints Points)
      → fetch_casm lib get_runnable_compiled_class h ≡ ok casm
      → IsThere classes j
      → IsThere (put_class lib get_runnable_compiled_class h casm classes) j
  unfolding put_class
  IsThere-put classes h j casm e c =
      let (stored, found, same) = still c.stored c.found c.same_hash in
      record {
        casm = c.casm;
        fetched = c.fetched;
        named =
            get-insert h j (casm_compiled_class_hash lib casm)
              classes.class_hash_to_compiled_class_hash
            ∙ names;
        stored = stored;
        found = found;
        same_hash = same;
      }
    where
      names :
          (if h == j
            then some (casm_compiled_class_hash lib casm)
            else get j classes.class_hash_to_compiled_class_hash)
          ≡ some (casm_compiled_class_hash lib c.casm)
      names = elim (Bool-cases (h == j)) [
        | inl same ↦
            let twice : fetch_casm lib get_runnable_compiled_class j ≡ ok casm =
              rw (← (==_iff h j).0 same) e in
            rw same (
              ap (λ x. some (casm_compiled_class_hash lib x))
                (ok_injective (sym twice ∙ c.fetched)))
        | inr other ↦ rw other c.named
      ]

      still :
          (stored : CasmContractClass Seg Hints Points)
          → get (casm_compiled_class_hash lib c.casm) classes.compiled_classes ≡ some stored
          → casm_compiled_class_hash lib stored ≡ casm_compiled_class_hash lib c.casm
          → (s : CasmContractClass Seg Hints Points) × (get
                (casm_compiled_class_hash lib c.casm)
                (insert (casm_compiled_class_hash lib casm) casm classes.compiled_classes)
              ≡ some s)
            × (casm_compiled_class_hash lib s ≡ casm_compiled_class_hash lib c.casm)
      still stored found same =
          let at =
            get-insert (casm_compiled_class_hash lib casm) (casm_compiled_class_hash lib c.casm)
              casm classes.compiled_classes in
          elim (Bool-cases
            (casm_compiled_class_hash lib casm == casm_compiled_class_hash lib c.casm)) [
              | inl equal ↦ (casm, at ∙ rw equal refl, (==_iff _ _).0 equal)
              | inr other ↦ (stored, at ∙ rw other found, same)
            ]

  IsThere-later :
      (hs : List ℕ) (classes out : ClassesInput Seg Hints Points) (j : ℕ)
      → get_classes_loop lib get_runnable_compiled_class classes hs ≡ ok out
      → IsThere classes j
      → IsThere out j
  unfolding get_classes_loop
  IsThere-later [] classes out j e c = subst (λ x. IsThere x j) (ok_injective e) c
  IsThere-later (h ∷ hs) classes out j e c =
      >>=-parts (fetch_casm lib get_runnable_compiled_class h) _ e
        λ casm f e1. IsThere-later hs _ out j e1 (IsThere-put classes h j casm f c)

  get_classes_loop-IsThere :
      (hs : List ℕ) (classes out : ClassesInput Seg Hints Points)
      → get_classes_loop lib get_runnable_compiled_class classes hs ≡ ok out
      → All (IsThere out) hs
  unfolding get_classes_loop
  get_classes_loop-IsThere [] classes out e = tt
  get_classes_loop-IsThere (h ∷ hs) classes out e =
      >>=-parts (fetch_casm lib get_runnable_compiled_class h) _ e λ casm f e1. (
        IsThere-later hs _ out h e1 (IsThere-put_self classes h casm f),
        get_classes_loop-IsThere hs _ out e1,
      )

  -- The class is in Cairo 1 form where it is run, and this is it in CASM form.
  pub record IsCasmOf (class : V1) (casm : CasmContractClass Seg Hints Points) : Type 0 where
    pub field_prime : casm.prime ≡ lib.prime
    pub version : casm.compiler_version ≡ ""
    pub bytecode : lib.iter_data class ≡ map int casm.bytecode
    pub segments : casm.bytecode_segment_lengths ≡ some (lib.segment_felt_sizes class)
    pub hints : lib.casm_hints class ≡ some casm.hints
    pub no_pythonic : casm.pythonic_hints ≡ none
    pub entry_points : casm.entry_points_by_type ≡ lib.entry_points class

  -- The class that is reported for the hash is there, in CASM form, under the hash of that form, or
  -- another with the same hash is.
  pub record HasClass (classes : ClassesInput Seg Hints Points) (class_hash : ℕ) : Type 0 where
    pub class : V1
    pub reported : get_runnable_compiled_class class_hash ≡ ok (v1 class)
    pub casm : CasmContractClass Seg Hints Points
    pub converted : IsCasmOf class casm
    pub named :
        get class_hash classes.class_hash_to_compiled_class_hash
        ≡ some (casm_compiled_class_hash lib casm)
    pub stored : CasmContractClass Seg Hints Points
    pub found : get (casm_compiled_class_hash lib casm) classes.compiled_classes ≡ some stored
    pub same_hash : casm_compiled_class_hash lib stored ≡ casm_compiled_class_hash lib casm

  elements-map :
      (elements : List MaybeRelocatable) (bytecode : List ℕ)
      → AllOk bytecode_element elements bytecode
      → elements ≡ map int bytecode
  unfolding bytecode_element
  elements-map [] [] h = refl
  elements-map [] (b ∷ bs) h = absurd h
  elements-map (d ∷ ds) [] h = absurd h
  elements-map (int d ∷ ds) (b ∷ bs) h =
      ap (λ x. int x ∷ ds) (ok_injective h.0) ∙ ap (λ xs. int b ∷ xs) (elements-map ds bs h.1)
  elements-map (relocatable_value s o ∷ ds) (b ∷ bs) h = absurd (cc h.0)

  compiled_class_v1_to_casm-IsCasmOf :
      (class : V1) (casm : CasmContractClass Seg Hints Points)
      → compiled_class_v1_to_casm lib class ≡ ok casm
      → IsCasmOf class casm
  unfolding compiled_class_v1_to_casm
  compiled_class_v1_to_casm-IsCasmOf class casm e =
      >>=-parts (collect bytecode_element (lib.iter_data class)) _ e λ bytecode b e1.
        >>=-parts (ok_or (lib.casm_hints class) hints_conversion_error) _ e1 λ hints h e2.
          subst (IsCasmOf class) (ok_injective e2) (record {
            field_prime = refl;
            version = refl;
            bytecode = elements-map _ bytecode (collect-AllOk _ _ bytecode b);
            segments = refl;
            hints = ok_or-ok _ _ hints h;
            no_pythonic = refl;
            entry_points = refl;
          })

  casm_of-v1 :
      (h : ℕ) (runnable : RunnableCompiledClass V0 V1) (casm : CasmContractClass Seg Hints Points)
      → casm_of lib get_runnable_compiled_class h runnable ≡ ok casm
      → (class : V1) × (runnable ≡ v1 class) × IsCasmOf class casm
  unfolding casm_of
  casm_of-v1 h (v0 c) casm e = absurd cc
  casm_of-v1 h (v1 c) casm e = (c, refl, compiled_class_v1_to_casm-IsCasmOf c casm e)

  HasClass-of_IsThere :
      (classes : ClassesInput Seg Hints Points) (h : ℕ) → IsThere classes h → HasClass classes h
  unfolding fetch_casm
  HasClass-of_IsThere classes h c =
      >>=-parts (map_err get_classes_error (get_runnable_compiled_class h)) _ c.fetched
        λ runnable r e.
          let (class, form, converted) = casm_of-v1 h runnable c.casm e in
          record {
            class = class;
            reported = map_err-ok _ _ runnable r ∙ ap ok form;
            casm = c.casm;
            converted = converted;
            named = c.named;
            stored = c.stored;
            found = c.found;
            same_hash = c.same_hash;
          }

  -- If `get_classes` returns, then every executed class hash is that of a class that the node
  -- reports, not deprecated and turned into CASM; it is mapped to the hash of that CASM class, and
  -- under that hash a class with the hash is there.
  pub get_classes-HasClass :
      (executed_class_hashes : List ℕ) (classes : ClassesInput Seg Hints Points)
      → get_classes lib get_runnable_compiled_class executed_class_hashes ≡ ok classes
      → All (HasClass classes) executed_class_hashes
  unfolding get_classes
  get_classes-HasClass hs classes e =
      All-weaken _ _ (HasClass-of_IsThere classes) hs (get_classes_loop-IsThere hs _ classes e)

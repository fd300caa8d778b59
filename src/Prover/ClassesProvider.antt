-- ===== src/Prover/ClassesProvider.antt =====
-- crates/starknet-transaction-prover-wasm/src/running/classes_provider.rs: the classes that were
-- executed, in the form that the virtual OS takes. The parts of a compiled class and the hash of a CASM
-- class are other crates'.
pub mod Complete
use snip_36_prover_web.Prelude.{
  ℕ, ◌-◌, ◌%◌, String, List, [], ◌∷◌, ◌++◌, Option, none, some, length, drop, replicate,
}
use snip_36_prover_web.Prelude.Result.{Result, ok, err, ◌>>=◌, ok_or, map_err, collect}
use snip_36_prover_web.Prelude.Maps.{Map, Eq, insert, nat_key}
use snip_36_prover_web.Prelude.Words.{be_value}
use snip_36_prover_web.Reexecution.{ReexecutionError}
use snip_36_prover_web.Reexecution.Classes.{RunnableCompiledClass, v0, v1}
use snip_36_prover_web.Prover.Errors.{
  ProverError, get_classes_error, deprecated_contract_error, invalid_bytecode_element,
  hints_conversion_error,
}

pub data MaybeRelocatable : Type 0 where
  int : ℕ → MaybeRelocatable
  relocatable_value : ℕ → ℕ → MaybeRelocatable

-- `Seg`, `Hints` and `Points` are the lengths of segments, the hints and the entry points.
pub record CasmContractClass (Seg Hints Points : Type 0) : Type 0 where
  pub prime : ℕ
  pub compiler_version : String
  pub bytecode : List ℕ
  pub bytecode_segment_lengths : Option Seg
  pub hints : Hints
  pub pythonic_hints : Option Hints
  pub entry_points_by_type : Points

-- The parts of a compiled class (`V1`), the field's prime and the hash of a CASM class, of which
-- the big-endian bytes.
pub record CasmLib (V1 Seg Hints Points : Type 0) : Type 0 where
  pub prime : ℕ
  pub iter_data : V1 → List MaybeRelocatable
  pub segment_felt_sizes : V1 → Seg
  pub casm_hints : V1 → Option Hints
  pub entry_points : V1 → Points
  pub compiled_class_hash : CasmContractClass Seg Hints Points → ℕ
  pub to_bytes_be : ℕ → List ℕ

pub record ClassesInput (Seg Hints Points : Type 0) : Type 0 where
  pub compiled_classes : Map ℕ (CasmContractClass Seg Hints Points)
  pub class_hash_to_compiled_class_hash : Map ℕ ℕ

-- `Felt::from_bytes_be` of 32 bytes.
unfoldable pub felt_from_bytes_be : ℕ → List ℕ → ℕ
felt_from_bytes_be prime bytes = be_value bytes % prime

-- The last 32 of the bytes, after as many zeros as they are short of 32.
unfoldable pub pad_32 : List ℕ → List ℕ
pad_32 bytes = replicate (32 - length bytes) 0 ++ drop (length bytes - 32) bytes

unfoldable pub bytecode_element : MaybeRelocatable → Result ProverError ℕ
bytecode_element (int felt) = ok felt
bytecode_element (relocatable_value segment offset) = err invalid_bytecode_element

module _ {V1 Seg Hints Points : Type 0} (lib : CasmLib V1 Seg Hints Points) where
  unfoldable pub compiled_class_v1_to_casm :
      V1 → Result ProverError (CasmContractClass Seg Hints Points)
  compiled_class_v1_to_casm class = do
    bytecode ← collect bytecode_element (lib.iter_data class)
    hints ← ok_or (lib.casm_hints class) hints_conversion_error
    ok (record {
      prime = lib.prime;
      compiler_version = "";
      bytecode = bytecode;
      bytecode_segment_lengths = some (lib.segment_felt_sizes class);
      hints = hints;
      pythonic_hints = none;
      entry_points_by_type = lib.entry_points class;
    })

  unfoldable pub casm_compiled_class_hash : CasmContractClass Seg Hints Points → ℕ
  casm_compiled_class_hash casm =
      felt_from_bytes_be lib.prime (pad_32 (lib.to_bytes_be (lib.compiled_class_hash casm)))

module _ {V0 V1 Seg Hints Points : Type 0} (lib : CasmLib V1 Seg Hints Points)
    (get_runnable_compiled_class : ℕ → Result ReexecutionError (RunnableCompiledClass V0 V1)) where
  casm_of :
      ℕ → RunnableCompiledClass V0 V1 → Result ProverError (CasmContractClass Seg Hints Points)
  casm_of class_hash (v0 c) = err (deprecated_contract_error class_hash)
  casm_of class_hash (v1 c) = compiled_class_v1_to_casm lib c

  unfoldable pub fetch_casm : ℕ → Result ProverError (CasmContractClass Seg Hints Points)
  unfolding casm_of
  fetch_casm class_hash = do
    runnable ← map_err get_classes_error (get_runnable_compiled_class class_hash)
    casm_of class_hash runnable

  put_class :
      ℕ
      → CasmContractClass Seg Hints Points
      → ClassesInput Seg Hints Points
      → ClassesInput Seg Hints Points
  put_class class_hash casm classes =
      let compiled_class_hash = casm_compiled_class_hash lib casm in
      record {
        compiled_classes = insert compiled_class_hash casm classes.compiled_classes;
        class_hash_to_compiled_class_hash =
            insert class_hash compiled_class_hash classes.class_hash_to_compiled_class_hash;
      }

  unfoldable pub get_classes_loop :
      ClassesInput Seg Hints Points → List ℕ → Result ProverError (ClassesInput Seg Hints Points)
  unfolding put_class
  get_classes_loop classes [] = ok classes
  get_classes_loop classes (class_hash ∷ more) = do
    casm ← fetch_casm class_hash
    get_classes_loop (put_class class_hash casm classes) more

  unfoldable pub get_classes : List ℕ → Result ProverError (ClassesInput Seg Hints Points)
  get_classes executed_class_hashes =
      get_classes_loop (record { compiled_classes = []; class_hash_to_compiled_class_hash = [] })
        executed_class_hashes

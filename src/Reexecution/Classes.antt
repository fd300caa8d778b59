-- ===== src/Reexecution/Classes.antt =====
-- The classes that crates/blockifier-reexecution-wasm/src/state_reader/rpc_state_reader.rs fetches.
-- The representations of classes, their compilation, gzip and JSON parsing are other crates'.
use snip_36_prover_web.Prelude.{
  ℕ, ◌^◌, String, Bool, true, false, List, [], ◌∷◌, Option, ltb, if◌then◌else◌,
}
use snip_36_prover_web.Prelude.Result.{Result, ok, err, ◌>>=◌, ok_or, collect}
use snip_36_prover_web.Core.Json.{Json, str, obj, end, field}
use snip_36_prover_web.Reexecution.{
  ReexecutionError, panic, rpc_parse, class_hash_not_found, compiled_class, Serde, RpcStateReader,
  class_params, send_rpc_request,
}

pub record LegacyEntryPoint : Type 0 where
  pub offset : ℕ
  pub selector : ℕ

pub record LegacyEntryPointsByType : Type 0 where
  pub constructor_points : List LegacyEntryPoint
  pub external_points : List LegacyEntryPoint
  pub l1_handler_points : List LegacyEntryPoint

pub data EntryPointType : Type 0 where
  constructor_type : EntryPointType
  external_type : EntryPointType
  l1_handler_type : EntryPointType

pub record CompressedLegacyContractClass : Type 0 where
  pub program : List ℕ
  pub entry_points_by_type : LegacyEntryPointsByType

pub data ContractClass (S : Type 0) : Type 0 where
  sierra : S → ContractClass S
  legacy : CompressedLegacyContractClass → ContractClass S

pub data RunnableCompiledClass (V0 V1 : Type 0) : Type 0 where
  v0 : V0 → RunnableCompiledClass V0 V1
  v1 : V1 → RunnableCompiledClass V0 V1

-- `CompiledClasses`; a Cairo 1 class has its Sierra class (`A`) beside it.
pub data CompiledClasses (A V0 V1 : Type 0) : Type 0 where
  both_v0 : V0 → CompiledClasses A V0 V1
  both_v1 : V1 → A → CompiledClasses A V0 V1

-- The other crates' part. `S` is a Sierra class as the node sends it and `A` as starknet_api has it,
-- `P` a legacy program.
pub record ClassLib (S A P V0 V1 : Type 0) : Type 0 where
  pub parse_class : Json → Option (ContractClass S)
  pub sierra_of : S → A
  pub extract_version : A → Option ℕ
  pub to_string : Json → String
  pub compile_v1 : String → ℕ → Option V1
  pub gunzip : List ℕ → Option String
  pub parse_program : String → Option P
  pub compile_v0 : P → List (EntryPointType × List LegacyEntryPoint) → Option V0

-- `usize` of the 32-bit target of WebAssembly.
abbrev pub usize_mod : ℕ
usize_mod = 2 ^ 32

unfoldable pub to_v0 : LegacyEntryPoint → Result ReexecutionError LegacyEntryPoint
to_v0 ep = if ltb ep.offset usize_mod then ok ep else err panic

unfoldable pub map_legacy_entry_points :
    LegacyEntryPointsByType
    → Result ReexecutionError (List (EntryPointType × List LegacyEntryPoint))
map_legacy_entry_points entry_points = do
  constructors ← collect to_v0 entry_points.constructor_points
  externals ← collect to_v0 entry_points.external_points
  handlers ← collect to_v0 entry_points.l1_handler_points
  ok (
      (constructor_type, constructors)
      ∷ (external_type, externals)
      ∷ (l1_handler_type, handlers)
      ∷ [])

module _ {H S A P V0 V1 : Type 0} (serde_lib : Serde H) (lib : ClassLib S A P V0 V1) where
  unfoldable pub legacy_to_compiled_class_v0 :
      CompressedLegacyContractClass → Result ReexecutionError V0
  legacy_to_compiled_class_v0 class = do
    program_json ← ok_or (lib.gunzip class.program) (compiled_class "decompress legacy program")
    program ← ok_or (lib.parse_program program_json) (compiled_class "parse legacy program")
    entry_points ← map_legacy_entry_points class.entry_points_by_type
    ok_or (lib.compile_v0 program entry_points) (compiled_class "legacy class")

  unfoldable pub get_contract_class_async :
      RpcStateReader → ℕ → Result ReexecutionError (ContractClass S)
  get_contract_class_async reader class_hash = do
    raw ←
        send_rpc_request reader.node "starknet_getClass"
          (class_params serde_lib reader.block_id class_hash)
    ok_or (lib.parse_class raw) rpc_parse

  -- The compiled form that the node has for a Sierra class.
  unfoldable pub compile_sierra : RpcStateReader → ℕ → A → Result ReexecutionError V1
  compile_sierra reader class_hash sierra_api = do
    sierra_version ←
        ok_or (lib.extract_version sierra_api) (compiled_class "extract sierra version")
    casm_json ←
        send_rpc_request reader.node "starknet_getCompiledCasm"
          (obj (field "class_hash" (str (serde_lib.felt_hex_string class_hash)) end))
    ok_or (lib.compile_v1 (lib.to_string casm_json) sierra_version) (compiled_class "casm")

  unfoldable pub runnable_of_class :
      RpcStateReader → ℕ → ContractClass S → Result ReexecutionError (RunnableCompiledClass V0 V1)
  runnable_of_class reader class_hash (sierra s) = do
    compiled ← compile_sierra reader class_hash (lib.sierra_of s)
    ok (v1 compiled)
  runnable_of_class reader class_hash (legacy l) = do
    compiled ← legacy_to_compiled_class_v0 l
    ok (v0 compiled)

  unfoldable pub get_runnable_compiled_class_async :
      RpcStateReader → ℕ → Result ReexecutionError (RunnableCompiledClass V0 V1)
  unfolding runnable_of_class
  get_runnable_compiled_class_async reader class_hash = do
    contract_class ← get_contract_class_async reader class_hash
    runnable_of_class reader class_hash contract_class

  unfoldable pub classes_of_class :
      RpcStateReader → ℕ → ContractClass S → Result ReexecutionError (CompiledClasses A V0 V1)
  classes_of_class reader class_hash (sierra s) = do
    compiled ← compile_sierra reader class_hash (lib.sierra_of s)
    ok (both_v1 compiled (lib.sierra_of s))
  classes_of_class reader class_hash (legacy l) = do
    compiled ← legacy_to_compiled_class_v0 l
    ok (both_v0 compiled)

  unfoldable pub get_compiled_classes_async :
      RpcStateReader → ℕ → Result ReexecutionError (CompiledClasses A V0 V1)
  unfolding classes_of_class
  get_compiled_classes_async reader class_hash = do
    contract_class ← get_contract_class_async reader class_hash
    classes_of_class reader class_hash contract_class

  unfoldable pub declared_of :
      Result ReexecutionError (ContractClass S) → Result ReexecutionError Bool
  declared_of (ok class) = ok true
  declared_of (err class_hash_not_found) = ok false
  declared_of (err e) = err e

  unfoldable pub is_declared_async : RpcStateReader → ℕ → Result ReexecutionError Bool
  unfolding declared_of
  is_declared_async reader class_hash = declared_of (get_contract_class_async reader class_hash)

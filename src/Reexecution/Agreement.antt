-- ===== src/Reexecution/Agreement.antt =====
-- The class requests of crates/blockifier-reexecution-wasm/src/state_reader/rpc_state_reader.rs:
-- when a class counts as declared, and that the two ways to fetch a class agree.
use snip_36_prover_web.Prelude.{
  ℕ, String, true, false, Option, some, ◌≡◌, ◌↔◌, inl, inr, refl, ap, ◌∙◌, Option-cases,
}
use snip_36_prover_web.Prelude.Result.{Result, ok, err, ◌>>=◌, ok_or, ok_injective, Result-cases}
use snip_36_prover_web.Core.Json.{Json}
use snip_36_prover_web.Reexecution.{
  pos, ReexecutionError, rpc_parse, class_hash_not_found, success, error, Reply, failed, bad_status,
  unreadable, response, request_body, error_of_code, read_reply, send_rpc_request, Serde,
  RpcStateReader, class_params,
}
use snip_36_prover_web.Reexecution.Classes.{
  ClassLib, ContractClass, sierra, legacy, RunnableCompiledClass, v0, v1, CompiledClasses, both_v0,
  both_v1, get_contract_class_async, declared_of, is_declared_async, compile_sierra,
  legacy_to_compiled_class_v0, runnable_of_class, classes_of_class,
  get_runnable_compiled_class_async, get_compiled_classes_async,
}
use snip_36_prover_web.Reexecution.Reads.{code_of, code_of-error_of_code}

-- The half of the compiled classes that runs.
unfoldable pub runnable_of :
    {A V0 V1 : Type 0} → CompiledClasses A V0 V1 → RunnableCompiledClass V0 V1
runnable_of (both_v0 c) = v0 c
runnable_of (both_v1 c a) = v1 c

module _ {H S A P V0 V1 : Type 0} (serde_lib : Serde H) (lib : ClassLib S A P V0 V1) where
  abbrev pub HasClass : Reply → ContractClass S → Type 0
  HasClass reply class =
      (value : Json) × (reply ≡ response (success value)) × (lib.parse_class value ≡ some class)

  abbrev pub IsMissing : Reply → Type 0
  IsMissing reply =
      (message : String) × (info : Option Json) × (reply ≡ response (error (pos 28) message info))

  read_class : String → Json → Reply → Result ReexecutionError (ContractClass S)
  read_class method params reply =
      read_reply method params reply >>= λ raw. ok_or (lib.parse_class raw) rpc_parse

  read_class-HasClass :
      (method : String) (params : Json) (reply : Reply) (class : ContractClass S)
      → read_class method params reply ≡ ok class
      → HasClass reply class
  unfolding read_class read_reply
  read_class-HasClass method params failed class h = absurd cc
  read_class-HasClass method params (bad_status s) class h = absurd cc
  read_class-HasClass method params unreadable class h = absurd cc
  read_class-HasClass method params (response (error code message info)) class h = absurd cc
  read_class-HasClass method params (response (success v)) class h =
      elim (Option-cases (lib.parse_class v)) [
        | inl unread ↦ absurd (cc (rw unread at h))
        | inr (c, read) ↦ (v, refl, read ∙ ap some (ok_injective (rw read at h)))
      ]

  read_class-IsMissing :
      (method : String) (params : Json) (reply : Reply)
      → read_class method params reply ≡ err class_hash_not_found
      → IsMissing reply
  unfolding read_class read_reply code_of
  read_class-IsMissing method params failed h = absurd cc
  read_class-IsMissing method params (bad_status s) h = absurd cc
  read_class-IsMissing method params unreadable h = absurd cc
  read_class-IsMissing method params (response (success v)) h =
      elim (Option-cases (lib.parse_class v)) [
        | inl unread ↦ absurd (cc (rw unread at h))
        | inr (c, read) ↦ absurd (cc (rw read at h))
      ]
  read_class-IsMissing method params (response (error code message info)) h =
      let same : error_of_code method params code message info ≡ class_hash_not_found = cc in
      let found : code ≡ pos 28 =
        cc (code_of-error_of_code method message params info code, ap code_of same) in
      (message, info, ap (λ c. response (error c message info)) found)

  declared_of-true :
      (r : Result ReexecutionError (ContractClass S))
      → declared_of serde_lib lib r ≡ ok true
      → (class : ContractClass S) × (r ≡ ok class)
  unfolding declared_of
  declared_of-true (ok class) h = (class, refl)
  declared_of-true (err class_hash_not_found) h = absurd cc
  declared_of-true (err e) h = absurd cc

  declared_of-false :
      (r : Result ReexecutionError (ContractClass S))
      → declared_of serde_lib lib r ≡ ok false
      → r ≡ err class_hash_not_found
  unfolding declared_of
  declared_of-false (ok class) h = absurd cc
  declared_of-false (err class_hash_not_found) h = refl
  declared_of-false (err e) h = absurd cc

  -- The reply to the request for the class.
  abbrev pub class_reply : RpcStateReader → ℕ → Reply
  class_reply reader class_hash =
      reader.node
        (request_body "starknet_getClass" (class_params serde_lib reader.block_id class_hash))

  -- A class is reported as declared exactly when the reply to the request for it is a value that
  -- reads as a class, and as not declared exactly when the reply is the error 28; every other reply
  -- is an error.
  pub is_declared_iff :
      (reader : RpcStateReader) (class_hash : ℕ)
      → ((is_declared_async serde_lib lib reader class_hash ≡ ok true)
          ↔ ((class : ContractClass S) × HasClass (class_reply reader class_hash) class))
        × ((is_declared_async serde_lib lib reader class_hash ≡ ok false)
            ↔ IsMissing (class_reply reader class_hash))
  unfolding is_declared_async get_contract_class_async send_rpc_request read_class read_reply
      error_of_code declared_of
  is_declared_iff reader class_hash =
      let params = class_params serde_lib reader.block_id class_hash in
      (
        (
          (λ h.
              let (class, found) = declared_of-true _ h in
              (class, read_class-HasClass "starknet_getClass" params _ class found)),
          (λ (class, (v, e, read)). rw (e, read) refl),
        ),
        (
          (λ h. read_class-IsMissing "starknet_getClass" params _ (declared_of-false _ h)),
          (λ (message, info, e). rw e refl),
        ),
      )

  -- For every node, `get_runnable_compiled_class_async` returns the runnable half of what
  -- `get_compiled_classes_async` returns, and the same error if that fails.
  pub get_runnable_compiled_class-agrees :
      (reader : RpcStateReader) (class_hash : ℕ)
      → get_runnable_compiled_class_async serde_lib lib reader class_hash
        ≡ (get_compiled_classes_async serde_lib lib reader class_hash >>= λ c. ok (runnable_of c))
  unfolding get_runnable_compiled_class_async get_compiled_classes_async runnable_of
  get_runnable_compiled_class-agrees reader class_hash =
      elim (Result-cases (get_contract_class_async serde_lib lib reader class_hash)) [
        | inl (class, fetched) ↦ rw fetched (of_class reader class_hash class)
        | inr (e, failure) ↦ rw failure refl
      ]
    where
      of_class :
          (reader : RpcStateReader) (class_hash : ℕ) (class : ContractClass S)
          → runnable_of_class serde_lib lib reader class_hash class
            ≡ (classes_of_class serde_lib lib reader class_hash class >>= λ c. ok (runnable_of c))
      of_class reader class_hash (sierra s) =
          elim (Result-cases (compile_sierra serde_lib lib reader class_hash (lib.sierra_of s))) [
            | inl (c, done) ↦ rw done refl
            | inr (e, failure) ↦ rw failure refl
          ]
      of_class reader class_hash (legacy l) =
          elim (Result-cases (legacy_to_compiled_class_v0 serde_lib lib l)) [
            | inl (c, done) ↦ rw done refl
            | inr (e, failure) ↦ rw failure refl
          ]

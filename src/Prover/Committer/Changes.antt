-- ===== src/Prover/Committer/Changes.antt =====
-- What validate_virtual_os_state_diff (crates/starknet-transaction-prover-wasm/src/running/
-- committer_utils.rs) lets through.
use snip_36_prover_web.Prelude.{ℕ, [], ◌∷◌, All, ==_iff, ◌≡◌, ◌≢◌, ◌↔◌, refl, arith}
use snip_36_prover_web.Prelude.Result.{ok, >>=-parts}
use snip_36_prover_web.Prelude.Maps.{Map}
use snip_36_prover_web.Prover.Errors.{ProverError}
use snip_36_prover_web.Prover.Committer.{
  StateDiff, validate_updates, validate_storage, validate_empty, validate_virtual_os_state_diff,
}

abbrev pub AllWritten : Map ℕ ℕ → Type 0
AllWritten = All (λ e. e.1 ≢ 0)

-- A change that the virtual OS may make: no slot is set to zero, no contract is deployed or
-- replaced, and no class is declared.
pub record IsAllowed (d : StateDiff) : Type 0 where
  pub written : All (λ e. AllWritten e.1) d.storage_updates
  pub no_deployment : d.address_to_class_hash ≡ []
  pub no_declaration : d.class_hash_to_compiled_class_hash ≡ []

validate_updates_iff : (m : Map ℕ ℕ) → (validate_updates m ≡ ok tt) ↔ AllWritten m
unfolding validate_updates
validate_updates_iff [] = (λ e. tt, λ h. refl)
validate_updates_iff ((key, value) ∷ rest) =
    let (there, back) = validate_updates_iff rest in
    (
      λ e. (λ z. ground (arith, ==_iff value 0), there (ground arith)),
      λ h. ground (arith, ==_iff value 0, h.0, back h.1),
    )

validate_storage_iff :
    (m : Map ℕ (Map ℕ ℕ)) → (validate_storage m ≡ ok tt) ↔ All (λ e. AllWritten e.1) m
unfolding validate_storage
validate_storage_iff [] = (λ e. tt, λ h. refl)
validate_storage_iff ((address, diffs) ∷ rest) =
    let (there, back) = validate_updates_iff diffs in
    let (there_rest, back_rest) = validate_storage_iff rest in
    (
      λ e. >>=-parts (validate_updates diffs) _ e λ u p q. (there p, there_rest q),
      λ h. rw (back h.0) (back_rest h.1),
    )

validate_empty-nil : (m : Map ℕ ℕ) (e : ProverError) → validate_empty m e ≡ ok tt → m ≡ []
unfolding validate_empty
validate_empty-nil [] e h = refl
validate_empty-nil (x ∷ m) e h = absurd cc

-- The state diff is accepted exactly if it writes no zero, deploys no contract and declares no
-- class.
pub validate_virtual_os_state_diff_iff :
    (d : StateDiff) → (validate_virtual_os_state_diff d ≡ ok tt) ↔ IsAllowed d
unfolding validate_virtual_os_state_diff
validate_virtual_os_state_diff_iff d = (
  λ e. >>=-parts (validate_storage d.storage_updates) _ e λ u p e1.
      >>=-parts (validate_empty d.address_to_class_hash _) _ e1 λ u' q r. record {
        written = (validate_storage_iff d.storage_updates).0 p;
        no_deployment = validate_empty-nil d.address_to_class_hash _ q;
        no_declaration = validate_empty-nil d.class_hash_to_compiled_class_hash _ r;
      },
  λ h.
      rw ((validate_storage_iff d.storage_updates).1 h.written, h.no_deployment, h.no_declaration)
        refl,
)

-- ===== src/Prelude/Retry.antt =====
-- A loop over numbered attempts that ends at the first attempt that decides.
use native.Mathlib.Decide.{ℕ_discrete}
use snip_36_prover_web.Prelude.{
  ℕ, zero, suc, ◌+◌, ◌≤◌, ◌<◌, Option, none, some, ◌≡◌, ◌≢◌, refl, sym, ap, ◌∙◌, arith, inl, inr,
  Option-cases,
}

-- `left` attempts from `attempt` on, and `exhausted` after them.
unfoldable pub retry {ℓ} : {A : Type ℓ} → (ℕ → Option A) → A → ℕ → ℕ → A
retry judge exhausted zero attempt = exhausted
retry judge exhausted (suc left) attempt =
    let rest = retry judge exhausted left (suc attempt) in
    elim (judge attempt) [ some outcome ↦ outcome | none ↦ rest ]

module _ {ℓ} {A : Type ℓ} (judge : ℕ → Option A) where
  -- Attempt `i` decides, and no attempt before it, from `first` on.
  pub record IsDecided (first last i : ℕ) (o : A) : Type ℓ where
    pub from_first : first ≤ i
    pub in_time : i ≤ last
    pub decides : judge i ≡ some o
    pub waits : (j : ℕ) → first ≤ j → j < i → judge j ≡ none

  retry-some :
      (exhausted : A) (left attempt : ℕ) (o : A)
      → judge attempt ≡ some o
      → retry judge exhausted (suc left) attempt ≡ o
  unfolding retry
  retry-some exhausted left attempt o e = rw (e, retry) refl

  retry-none :
      (exhausted : A) (left attempt : ℕ)
      → judge attempt ≡ none
      → retry judge exhausted (suc left) attempt ≡ retry judge exhausted left (suc attempt)
  unfolding retry
  retry-none exhausted left attempt e = rw (e, retry) refl

  -- A loop whose last attempt decides ends at an attempt that decides.
  pub retry-IsDecided :
      (exhausted : A) (last : ℕ)
      → judge last ≢ none
      → (left attempt : ℕ) → attempt + left ≡ suc last
      → 1 ≤ left
      → (i : ℕ) × IsDecided attempt last i (retry judge exhausted left attempt)
  retry-IsDecided exhausted last d zero attempt s l = absurd (omega arith)
  retry-IsDecided exhausted last d (suc zero) attempt s l = elim (Option-cases (judge attempt)) [
    | inl e ↦ absurd (d (ap judge (omega arith) ∙ e))
    | inr (o, e) ↦ (
      attempt,
      record {
        from_first = omega arith;
        in_time = omega arith;
        decides = e ∙ ap some (sym (retry-some exhausted zero attempt o e));
        waits = λ j p q. absurd (omega arith);
      },
    )
  ]
  retry-IsDecided exhausted last d (suc (suc left)) attempt s l =
      elim (Option-cases (judge attempt)) [
        | inr (o, e) ↦ (
          attempt,
          record {
            from_first = omega arith;
            in_time = omega arith;
            decides = e ∙ ap some (sym (retry-some exhausted (suc left) attempt o e));
            waits = λ j p q. absurd (omega arith);
          },
        )
        | inl e ↦
            let (i, later) =
              retry-IsDecided exhausted last d (suc left) (suc attempt) (omega arith)
                (omega arith) in
            (
              i,
              record {
                from_first = omega (arith, later.from_first);
                in_time = later.in_time;
                decides = later.decides ∙ ap some (sym (retry-none exhausted (suc left) attempt e));
                waits = λ j p q. elim (ℕ_discrete j attempt) [
                  | yes same ↦ ap judge same ∙ e
                  | no other ↦ later.waits j (omega arith) q
                ];
              },
            )
      ]

-- ===== src/Core/Rpc/Polling.antt =====
-- The loop that `wait_for_tx` and `wait_for_block_after` of crates/snip36-core/src/rpc.rs share:
-- give up at the deadline, else make an attempt, else sleep. Time is counted in nanoseconds.
use native.Mathlib.Decide.{ℕ_discrete}
use snip_36_prover_web.Prelude.{
  ℕ, zero, suc, ◌+◌, ◌*◌, ◌≤◌, ◌<◌, Option, none, some, leb, ◌≡◌, inl, inr, refl, arith, Bool-cases,
  Option-cases, true, false, leb→le,
}

-- When the loop starts, and how long each round takes besides its sleep: the request, and what the
-- timer oversleeps.
pub record Timing : Type 0 where
  pub start : ℕ
  pub elapsed : ℕ → ℕ

abbrev pub nanos : ℕ
nanos = 1_000_000_000

module _ {ℓ} {R : Type ℓ} where
  -- `none` is fuel that ran out. What the `elim`s hold back is the rest of the loop.
  pub poll_from : ℕ → Timing → ℕ → ℕ → (ℕ → Option R) → R → ℕ → ℕ → Option R
  poll_from zero t deadline pause attempt late round now = none
  poll_from (suc fuel) t deadline pause attempt late round now = elim (leb deadline now) [
    | true ↦ some late
    | false ↦ elim (attempt round) [
      | some r ↦ some r
      | none ↦
          poll_from fuel t deadline pause attempt late (suc round) (now + t.elapsed round + pause)
    ]
  ]

  -- A sleep of a second or more needs one round for each second, and one to see the deadline.
  unfoldable pub poll_until : Timing → ℕ → ℕ → (ℕ → Option R) → R → Option R
  unfolding poll_from
  poll_until t timeout_secs poll_interval_secs attempt late =
      poll_from (suc timeout_secs) t (t.start + timeout_secs * nanos) (poll_interval_secs * nanos)
        attempt late 0 t.start

-- The time at which a round begins.
abbrev pub begins : Timing → ℕ → ℕ → ℕ
begins t poll_interval_secs zero = t.start
begins t poll_interval_secs (suc i) =
    begins t poll_interval_secs i + t.elapsed i + poll_interval_secs * nanos

-- How a polling loop ends: by the first attempt that decides, made before the deadline, or by the
-- deadline, when no attempt before it decided.
pub data Ends {ℓ} {R : Type ℓ} (t : Timing) (timeout_secs poll_interval_secs : ℕ)
    (attempt : ℕ → Option R) (late r : R) : Type ℓ where
  decided :
      (i : ℕ)
      → begins t poll_interval_secs i < t.start + timeout_secs * nanos
      → ((j : ℕ) → j < i → attempt j ≡ none)
      → attempt i ≡ some r
      → Ends t timeout_secs poll_interval_secs attempt late r
  expired :
      (i : ℕ)
      → t.start + timeout_secs * nanos ≤ begins t poll_interval_secs i
      → ((j : ℕ) → j < i → attempt j ≡ none)
      → r ≡ late
      → Ends t timeout_secs poll_interval_secs attempt late r

module _ {ℓ} {R : Type ℓ} (t : Timing) (timeout poll : ℕ) (attempt : ℕ → Option R) (late : R) where
  none_below_suc :
      (i : ℕ)
      → ((j : ℕ) → j < i → attempt j ≡ none)
      → attempt i ≡ none
      → (j : ℕ) → j < suc i
      → attempt j ≡ none
  none_below_suc i h e j l = elim (ℕ_discrete j i) [
    | yes same ↦ rw same e
    | no other ↦ h j (omega arith)
  ]

  poll_from-Ends :
      (fuel i : ℕ)
      → 1 ≤ poll
      → 0 < fuel
      → t.start + timeout * nanos + nanos ≤ begins t poll i + fuel * nanos
      → ((j : ℕ) → j < i → attempt j ≡ none)
      → (r : R) × (poll_from fuel t
            (t.start + timeout * nanos)
            (poll * nanos)
            attempt
            late
            i
            (begins t poll i)
          ≡ some r)
        × Ends t timeout poll attempt late r
  unfolding poll_from
  poll_from-Ends zero i p z m h = absurd (omega arith)
  poll_from-Ends (suc fuel) i p z m h =
      elim (Bool-cases (leb (t.start + timeout * nanos) (begins t poll i))) [
        | inl over ↦ (late, ground arith, expired i (leb→le _ _ over) h refl)
        | inr before ↦ elim (Option-cases (attempt i)) [
          | inr (r, e) ↦ (r, ground arith, decided i (ground arith) h e)
          | inl e ↦
              let (r, run, ends) =
                poll_from-Ends fuel (suc i) p (ground arith) (ground arith)
                  (none_below_suc i h e) in
              (r, ground arith, ends)
        ]
      ]

  -- A loop that sleeps a second or more between attempts ends, with the fuel that it is given, by
  -- the first attempt that decides or by the deadline.
  pub poll_until-Ends :
      1 ≤ poll
      → (r : R) × (poll_until t timeout poll attempt late ≡ some r)
        × Ends t timeout poll attempt late r
  unfolding poll_until
  poll_until-Ends p =
      poll_from-Ends (suc timeout) 0 p (omega arith) (omega arith) (λ j l. elim l [ ])

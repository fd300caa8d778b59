-- ===== src/Counter/Health/Rounding.antt =====
-- Which balances check_balance of apps/counter/src/health.rs takes, in spite of the doubles.
use snip_36_prover_web.Prelude.{
  ℕ, zero, suc, ◌+◌, ◌*◌, ◌/◌, ◌%◌, ◌^◌, ◌≤◌, ◌<◌, true, ◌&&◌, ◌||◌, ◌≡◌, ◌↔◌, arith, inl, inr,
  Bool-cases, ltb, ◌==◌, ◌∙◌,
}
use native.Mathlib.Nat.{div-mul-le_self, lt-div-mul-add}
use snip_36_prover_web.Counter.Health.{ulp_from, round_to, to_f64, is_enough}

ulp_from-bound :
    (fuel n u : ℕ)
    → 1 ≤ u
    → 2 ^ 52 * u ≤ n + 2 ^ 52
    → let w = ulp_from fuel n u in (1 ≤ w) × (2 ^ 52 * w ≤ n + 2 ^ 52)
unfolding ulp_from
ulp_from-bound zero n u h l = (h, l)
ulp_from-bound (suc fuel) n u h l = elim (Bool-cases (ltb n (2 ^ 53 * u))) [
  | inl t ↦ rw (t, ulp_from) (h, l)
  | inr f ↦ rw (f, ulp_from) (ulp_from-bound fuel n (2 * u) (omega arith) (ground arith))
]

ulp_from-stops : (fuel n u : ℕ) → n < 2 ^ 53 * u → ulp_from (suc fuel) n u ≡ u
unfolding ulp_from
ulp_from-stops fuel n u l = ground arith

ulp_from-doubles :
    (fuel n u : ℕ) → 2 ^ 53 * u ≤ n → ulp_from (suc fuel) n u ≡ ulp_from fuel n (2 * u)
unfolding ulp_from
ulp_from-doubles fuel n u l = ground arith

-- Between 2^59 and 2^60 the doubles are 128 apart.
ulp_near : (n : ℕ) → 2 ^ 59 ≤ n → n < 2 ^ 60 → ulp_from 76 n 1 ≡ 128
ulp_near n low high =
    ulp_from-doubles 75 n 1 (omega arith)
    ∙ ulp_from-doubles 74 n 2 (omega arith)
    ∙ ulp_from-doubles 73 n 4 (omega arith)
    ∙ ulp_from-doubles 72 n 8 (omega arith)
    ∙ ulp_from-doubles 71 n 16 (omega arith)
    ∙ ulp_from-doubles 70 n 32 (omega arith)
    ∙ ulp_from-doubles 69 n 64 (omega arith)
    ∙ ulp_from-stops 68 n 128 (omega arith)

round_to-near : (u n : ℕ) → 1 ≤ u → (n < round_to u n + u) × (round_to u n ≤ n + u)
unfolding round_to
round_to-near u n h =
    let below : n / u * u ≤ n = div-mul-le_self n u in
    let above : n < n / u * u + u = lt-div-mul-add h in
    elim (Bool-cases (ltb (2 * (n % u)) u || (2 * (n % u) == u && n / u % 2 == 0))) [
      | inl t ↦ rw (t, round_to) (omega (arith, above), omega (arith, below))
      | inr f ↦ rw (f, round_to) (omega (arith, above), omega (arith, below))
    ]

is_enough-le : (n : ℕ) → (is_enough n ≡ true) ↔ (10 ^ 18 ≤ to_f64 n + 55)
unfolding is_enough
is_enough-le n = (λ e. ground arith, λ l. ground arith)

round_to-128 : (n : ℕ) → (10 ^ 18 ≤ round_to 128 n + 55) ↔ (10 ^ 18 ≤ n + 64)
unfolding round_to
round_to-128 n = (λ l. ground arith, λ l. ground arith)

-- In spite of the rounding, a balance passes exactly from 64 wei below one STRK on.
pub is_enough_iff : (n : ℕ) → (is_enough n ≡ true) ↔ (10 ^ 18 ≤ n + 64)
unfolding to_f64
is_enough_iff n =
    let u = ulp_from 76 n 1 in
    let (positive, fine) = ulp_from-bound 76 n 1 (omega arith) (omega arith) in
    let (above, below) = round_to-near u n positive in
    let (from, to) = is_enough-le n in
    elim (Bool-cases (ltb n (2 ^ 59))) [
      | inl t ↦
          let small : n < 2 ^ 59 = ground arith in
          (
            λ e. absurd (omega (arith, small, fine, below, from e)),
            λ l. absurd (omega (arith, small, l)),
          )
      | inr f ↦ elim (Bool-cases (ltb n (2 ^ 60))) [
        | inl t ↦
            let (near, back) = round_to-128 n in
            let same : ulp_from 76 n 1 ≡ 128 = ulp_near n (ground arith) (ground arith) in
            (λ e. near (rw (same, to_f64) at (from e)), λ l. to (rw (same, to_f64) (back l)))
        | inr g ↦
            let large : 2 ^ 60 ≤ n = ground arith in
            (λ e. omega (arith, large), λ l. to (omega (arith, large, fine, above)))
      ]
    ]

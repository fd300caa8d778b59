-- ===== src/Prelude/Words.antt =====
-- Machine words: bytes in big-endian order, and disjoint fields joined by `|`.
use Prim.Native.Nat.{
  ℕ, zero, suc, ◌+◌, ◌*◌, ◌/◌, ◌%◌, ◌^◌, ◌≤◌, ◌<◌, max, bit_or, digits, bit_or-bitwise,
}
use mathlib.Core.Path.{◌≡◌, refl, ap, ◌∙◌}
use mathlib.Core.List.{List, [], ◌∷◌, ◌++◌}
use native.Mathlib.Nat.{mod-eq_of_lt, pow-suc}
use native.Mathlib.Omega.{arith}
use snip_36_prover_web.Prelude.Lists.{length, replicate, All}

abbrev pub u32_mod : ℕ
u32_mod = 0x1_0000_0000

abbrev pub u64_mod : ℕ
u64_mod = 0x1_0000_0000_0000_0000

abbrev pub u128_mod : ℕ
u128_mod = u64_mod * u64_mod

-- The number that bytes spell, most significant first, after the digits read so far.
unfoldable pub be_from : ℕ → List ℕ → ℕ
be_from acc [] = acc
be_from acc (b ∷ bs) = be_from (acc * 256 + b) bs

abbrev pub be_value : List ℕ → ℕ
be_value = be_from 0

abbrev pub IsByte : ℕ → Type 0
IsByte b = b < 256

-- `(q << k) | r` is a sum where `r` fits the `k` low bits. `n` is the fuel of `digits`.
or_digits : (n k a q r : ℕ) → a ≤ n → a ≡ q * 2 ^ k → r < 2 ^ k → digits (λ b. b) max n a r ≡ a + r
or_digits zero k zero q r h e l = omega arith
or_digits zero k (suc a) q r h e l = absurd (omega arith)
or_digits (suc n) k zero q r h e l = omega arith
or_digits (suc n) zero (suc a) q r h e l =
    omega (
      arith,
      or_digits n 0 (suc a / 2) (suc a / 2) (r / 2) (omega arith) (omega arith) (omega arith),
    )
or_digits (suc n) (suc k) (suc a) q r h e l =
    let twice : q * 2 ^ suc k ≡ 2 * (q * 2 ^ k) =
      omega (arith, ap (λ (t : ℕ). q * t) (pow-suc 2 k)) in
    let below : r < 2 * 2 ^ k = omega (arith, pow-suc 2 k) in
    omega (arith, or_digits n k (suc a / 2) q (r / 2) (omega arith) (omega arith) (omega arith))

pub bit_or_fields : (k q r : ℕ) → r < 2 ^ k → bit_or (q * 2 ^ k) r ≡ q * 2 ^ k + r
bit_or_fields k q r l =
    bit_or-bitwise (q * 2 ^ k) r ∙ or_digits (q * 2 ^ k) k (q * 2 ^ k) q r (omega arith) refl l

pub be_from-append :
    (acc : ℕ) (xs ys : List ℕ) → be_from acc (xs ++ ys) ≡ be_from (be_from acc xs) ys
unfolding be_from
be_from-append acc [] ys = refl
be_from-append acc (x ∷ xs) ys = be_from-append (acc * 256 + x) xs ys

-- What was read before stands above the digits that follow.
pub be_from_shift : (acc : ℕ) (bs : List ℕ) → be_from acc bs ≡ acc * 256 ^ length bs + be_value bs
unfolding be_from
be_from_shift acc [] = omega arith
be_from_shift acc (b ∷ bs) = omega (
  arith,
  be_from_shift (acc * 256 + b) bs,
  be_from_shift (0 + b) bs,
  ap (λ (t : ℕ). acc * t) (pow-suc 256 (length bs)),
)

pub be_value-lt : (bs : List ℕ) → All IsByte bs → be_value bs < 256 ^ length bs
unfolding be_from
be_value-lt [] h = omega arith
be_value-lt (b ∷ bs) h =
    let rest : be_value bs < 256 ^ length bs = be_value-lt bs h.1 in
    let top : b * 256 ^ length bs ≤ 255 * 256 ^ length bs = grind arith in
    omega (arith, be_from_shift (0 + b) bs, pow-suc 256 (length bs))

-- Zeros in front do not change the number.
pub be_value-zeros : (n : ℕ) (bs : List ℕ) → be_value (replicate n 0 ++ bs) ≡ be_value bs
unfolding be_from
be_value-zeros zero bs = refl
be_value-zeros (suc n) bs = be_value-zeros n bs

pub mod_small : (m n : ℕ) → m < n → m % n ≡ m
mod_small m n h = mod-eq_of_lt h

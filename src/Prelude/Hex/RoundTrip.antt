-- ===== src/Prelude/Hex/RoundTrip.antt =====
-- What `{:#x}` prints, `from_str_radix` after `trim_start_matches("0x")` reads back.
use Prim.Native.Nat.{ℕ, zero, suc, ◌+◌, ◌*◌, ◌/◌, ◌%◌, ◌<◌}
use Prim.Native.Char.{Char, code}
use Prim.Native.String.{String}
use mathlib.Core.Path.{◌≡◌, refl, ap, ◌∙◌}
use mathlib.Core.Logic.{◌≢◌, inl, inr}
use mathlib.Core.Option.{some}
use native.Mathlib.Omega.{arith}
use snip_36_prover_web.Prelude.Tests.{◌==◌, Bool-cases}
use snip_36_prover_web.Prelude.Hex.{
  hex_digit, digit_val, hex_from, hex_digits, hex, digits_from, trim_0x, radix_digits,
  from_str_radix, parse_hex,
}

pub digit_val-hex_digit : (d : ℕ) → d < 16 → digit_val (hex_digit d) ≡ some d
unfolding digit_val hex_digit
digit_val-hex_digit zero h = refl
digit_val-hex_digit (suc zero) h = refl
digit_val-hex_digit (suc (suc zero)) h = refl
digit_val-hex_digit (suc (suc (suc zero))) h = refl
digit_val-hex_digit (suc (suc (suc (suc zero)))) h = refl
digit_val-hex_digit (suc (suc (suc (suc (suc zero))))) h = refl
digit_val-hex_digit (suc (suc (suc (suc (suc (suc zero)))))) h = refl
digit_val-hex_digit (suc (suc (suc (suc (suc (suc (suc zero))))))) h = refl
digit_val-hex_digit (suc (suc (suc (suc (suc (suc (suc (suc d)))))))) h = high d (omega arith)
  where
    high :
        (d : ℕ)
        → d < 8
        → digit_val (hex_digit (suc (suc (suc (suc (suc (suc (suc (suc d)))))))))
          ≡ some (suc (suc (suc (suc (suc (suc (suc (suc d))))))))
    high zero l = refl
    high (suc zero) l = refl
    high (suc (suc zero)) l = refl
    high (suc (suc (suc zero))) l = refl
    high (suc (suc (suc (suc zero)))) l = refl
    high (suc (suc (suc (suc (suc zero))))) l = refl
    high (suc (suc (suc (suc (suc (suc zero)))))) l = refl
    high (suc (suc (suc (suc (suc (suc (suc zero))))))) l = refl
    high (suc (suc (suc (suc (suc (suc (suc (suc d)))))))) l = absurd (omega arith)

-- A hexadecimal digit is neither the `x` of a prefix nor a sign.
abbrev IsPlain : Char → Type 0
IsPlain c = (code c ≢ 120) × (code c ≢ 43)

abbrev AllPlain : String → Type 0
AllPlain String.[] = Unit
AllPlain (String.◌∷◌ c s) = IsPlain c × AllPlain s

IsPlain-of_digit : (c : Char) (d : ℕ) → digit_val c ≡ some d → IsPlain c
unfolding digit_val
IsPlain-of_digit c d h = ground arith

hex_from-AllPlain : (f n : ℕ) (s : String) → AllPlain s → AllPlain (hex_from f n s)
unfolding hex_from
hex_from-AllPlain zero n s h = h
hex_from-AllPlain (suc f) n s h =
    let c = hex_digit (n % 16) in
    let here : AllPlain (String.◌∷◌ c s) =
      (IsPlain-of_digit c (n % 16) (digit_val-hex_digit (n % 16) (omega arith)), h) in
    elim (Bool-cases (n / 16 == 0)) [
      | inl e ↦ rw e here
      | inr e ↦ rw e (hex_from-AllPlain f (n / 16) _ here)
    ]

digits_from-cons :
    (a n : ℕ) (s : String)
    → digits_from a (String.◌∷◌ (hex_digit (n % 16)) s) ≡ digits_from (a * 16 + n % 16) s
unfolding digits_from
digits_from-cons a n s = rw (digit_val-hex_digit (n % 16) (omega arith), digits_from)

digits_from-nil : (n : ℕ) → digits_from n String.[] ≡ some n
unfolding digits_from
digits_from-nil n = refl

digits_from-hex_from :
    (f n : ℕ) (s : String) → n < f → digits_from 0 (hex_from f n s) ≡ digits_from n s
unfolding hex_from
digits_from-hex_from zero n s h = absurd (omega arith)
digits_from-hex_from (suc f) n s h = elim (Bool-cases (n / 16 == 0)) [
  | inl e ↦ rw e (digits_from-cons 0 n s ∙ ap (λ (a : ℕ). digits_from a s) (ground arith))
  | inr e ↦ rw e (
      digits_from-hex_from f (n / 16) _ (ground arith)
      ∙ digits_from-cons (n / 16) n s
      ∙ ap (λ (a : ℕ). digits_from a s) (omega arith))
]

trim_0x-plain : (s : String) → AllPlain s → trim_0x s ≡ s
unfolding trim_0x
trim_0x-plain String.[] h = refl
trim_0x-plain (String.◌∷◌ a String.[]) h = refl
trim_0x-plain (String.◌∷◌ a (String.◌∷◌ b s)) h = ground arith

from_str_radix-plain :
    (bound n : ℕ) (s : String)
    → AllPlain s
    → s ≢ String.[]
    → digits_from 0 s ≡ some n
    → n < bound
    → from_str_radix bound s ≡ some n
unfolding from_str_radix radix_digits
from_str_radix-plain bound n String.[] h ne e l = absurd (ne refl)
from_str_radix-plain bound n (String.◌∷◌ c s) h ne e l = ground (arith, h)

hex_from-ne-nil : (f n : ℕ) (c : Char) (s : String) → hex_from f n (String.◌∷◌ c s) ≢ String.[]
unfolding hex_from
hex_from-ne-nil zero n c s = λ e. cc
hex_from-ne-nil (suc f) n c s = elim (Bool-cases (n / 16 == 0)) [
  | inl e ↦ rw e (λ eq. cc)
  | inr e ↦ rw e (hex_from-ne-nil f (n / 16) _ _)
]

hex_digits-ne-nil : (n : ℕ) → hex_digits n ≢ String.[]
unfolding hex_digits hex_from
hex_digits-ne-nil n = elim (Bool-cases (n / 16 == 0)) [
  | inl e ↦ rw e (λ eq. cc)
  | inr e ↦ rw e (hex_from-ne-nil n (n / 16) _ _)
]

hex_digits-AllPlain : (n : ℕ) → AllPlain (hex_digits n)
unfolding hex_digits
hex_digits-AllPlain n = hex_from-AllPlain (suc n) n String.[] tt

digits_from-hex_digits : (n : ℕ) → digits_from 0 (hex_digits n) ≡ some n
unfolding hex_digits
digits_from-hex_digits n =
    digits_from-hex_from (suc n) n String.[] (omega arith) ∙ digits_from-nil n

trim_0x-hex : (n : ℕ) → trim_0x (hex n) ≡ hex_digits n
unfolding hex trim_0x
trim_0x-hex n = trim_0x-plain (hex_digits n) (hex_digits-AllPlain n)

-- A number that fits the width is read back from its own print.
pub parse_hex-hex : (bound n : ℕ) → n < bound → parse_hex bound (hex n) ≡ some n
unfolding parse_hex
parse_hex-hex bound n l = rw trim_0x-hex (
    from_str_radix-plain bound n (hex_digits n) (hex_digits-AllPlain n) (hex_digits-ne-nil n)
      (digits_from-hex_digits n) l)

radix_digits-lt : (bound n : ℕ) (s : String) → radix_digits bound s ≡ some n → n < bound
unfolding radix_digits
radix_digits-lt bound n String.[] e = cc
radix_digits-lt bound n (String.◌∷◌ c s) e = ground arith

from_str_radix-lt : (bound n : ℕ) (s : String) → from_str_radix bound s ≡ some n → n < bound
unfolding from_str_radix
from_str_radix-lt bound n String.[] e = cc
from_str_radix-lt bound n (String.◌∷◌ c s) e =
    ground (arith, radix_digits-lt bound n s, radix_digits-lt bound n (String.◌∷◌ c s))

-- What is read fits the width.
pub parse_hex-lt : (bound n : ℕ) (s : String) → parse_hex bound s ≡ some n → n < bound
unfolding parse_hex
parse_hex-lt bound n s e = from_str_radix-lt bound n (trim_0x s) e

pub hex-one : hex 1 ≡ "0x1"
unfolding hex hex_digits hex_from hex_digit
hex-one = refl

pub hex-zero : hex 0 ≡ "0x0"
unfolding hex hex_digits hex_from hex_digit
hex-zero = refl

pub hex-three : hex 3 ≡ "0x3"
unfolding hex hex_digits hex_from hex_digit
hex-three = refl

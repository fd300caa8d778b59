-- ===== src/Prelude/Hex.antt =====
-- `format!("{:#x}", n)` and `u64::from_str_radix(s.trim_start_matches("0x"), 16)`.
pub mod RoundTrip
use Prim.Native.Nat.{ℕ, zero, suc, ◌+◌, ◌-◌, ◌*◌, ◌/◌, ◌%◌, ◌<◌}
use Prim.Native.Char.{Char, code}
use Prim.Native.String.{String}
use mathlib.Core.Path.{◌≡◌, refl, ◌∙◌}
use mathlib.Core.Logic.{inl, inr}
use mathlib.Core.Bool.{Bool, true, false, ◌&&◌}
use mathlib.Core.Option.{Option, none, some}
use native.Mathlib.Omega.{arith}
use snip_36_prover_web.Prelude.Tests.{ltb, leb, ◌==◌, ==_iff, Bool-cases, if◌then◌else◌}

unfoldable pub hex_digit : ℕ → Char
hex_digit zero = "0"
hex_digit (suc zero) = "1"
hex_digit (suc (suc zero)) = "2"
hex_digit (suc (suc (suc zero))) = "3"
hex_digit (suc (suc (suc (suc zero)))) = "4"
hex_digit (suc (suc (suc (suc (suc zero))))) = "5"
hex_digit (suc (suc (suc (suc (suc (suc zero)))))) = "6"
hex_digit (suc (suc (suc (suc (suc (suc (suc zero))))))) = "7"
hex_digit (suc (suc (suc (suc (suc (suc (suc (suc d)))))))) =
    if d == 0
    then "8"
    else if d == 1
    then "9"
    else if d == 2
    then "a"
    else if d == 3
    then "b"
    else if d == 4
    then "c"
    else if d == 5
    then "d"
    else if d == 6
    then "e"
    else "f"

-- `char::to_digit(16)`
unfoldable pub digit_val : Char → Option ℕ
digit_val ch =
    let c = code ch in
    if leb 48 c && leb c 57
    then some (c - 48)
    else if leb 97 c && leb c 102
    then some (c - 87)
    else if leb 65 c && leb c 70
    then some (c - 55)
    else none

-- The digits of `n` in front of `s`; `n < fuel` is enough fuel.
hex_from : ℕ → ℕ → String → String
hex_from zero n s = s
hex_from (suc fuel) n s =
    let here = String.◌∷◌ (hex_digit (n % 16)) s in
    let more = hex_from fuel (n / 16) here in if n / 16 == 0 then here else more

hex_digits : ℕ → String
hex_digits n = hex_from (suc n) n String.[]

pub hex : ℕ → String
hex n = String.◌∷◌ "0" (String.◌∷◌ "x" (hex_digits n))

digits_from : ℕ → String → Option ℕ
digits_from acc String.[] = some acc
digits_from acc (String.◌∷◌ c s) = elim (digit_val c) [
  | none ↦ none
  | some d ↦ digits_from (acc * 16 + d) s
]

-- `trim_start_matches("0x")` takes the prefix off as often as it is there.
trim_0x : String → String
trim_0x (String.◌∷◌ a (String.◌∷◌ b s)) =
    let rest = trim_0x s in
    if code a == 48 && code b == 120 then rest else String.◌∷◌ a (String.◌∷◌ b s)
trim_0x s = s

-- `from_str_radix` refuses an empty text, takes one leading `+`, and refuses what overflows.
radix_digits : ℕ → String → Option ℕ
radix_digits bound String.[] = none
radix_digits bound (String.◌∷◌ c s) = elim (digits_from 0 (String.◌∷◌ c s)) [
  | none ↦ none
  | some n ↦ if ltb n bound then some n else none
]

from_str_radix : ℕ → String → Option ℕ
from_str_radix bound String.[] = none
from_str_radix bound (String.◌∷◌ c s) =
    if code c == 43 then radix_digits bound s else radix_digits bound (String.◌∷◌ c s)

-- `uN::from_str_radix(s.trim_start_matches("0x"), 16)`, where `bound` is 2^N.
pub parse_hex : ℕ → String → Option ℕ
parse_hex bound s = from_str_radix bound (trim_0x s)

-- What a test of either unfolds.
unfoldable pub hex_code : Unit {0}
unfolding hex hex_digits hex_from hex_digit parse_hex trim_0x from_str_radix radix_digits
    digits_from digit_val
hex_code = tt

hex_test : hex 0x1f4ac0 ≡ "0x1f4ac0"
unfolding hex_code
hex_test = refl

parse_hex_test : parse_hex 0x1_0000_0000_0000_0000 "0x1f4Ac0" ≡ some 0x1f4ac0
unfolding hex_code
parse_hex_test = refl

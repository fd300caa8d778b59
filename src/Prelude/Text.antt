-- ===== src/Prelude/Text.antt =====
-- Texts as the bytes that `str::as_bytes` gives (UTF-8).
use native.Mathlib.Omega.{arith}
use snip_36_prover_web.Prelude.Words.{IsByte}
use snip_36_prover_web.Prelude.Lists.{All-append, All}
use Prim.Native.Nat.{◌<◌, ℕ, ◌+◌, ◌/◌, ◌%◌}
use Prim.Native.Char.{Char, code}
use Prim.Native.String.{String}
use mathlib.Core.List.{List, [], ◌∷◌, ◌++◌}
use mathlib.Core.Path.{◌≡◌, refl}
use snip_36_prover_web.Prelude.Tests.{ltb, if◌then◌else◌}

utf8 : ℕ → List ℕ
utf8 c =
    if ltb c 0x80
    then c ∷ []
    else if ltb c 0x800
    then (0xc0 + c / 64) ∷ (0x80 + c % 64) ∷ []
    else if ltb c 0x1_0000
    then (0xe0 + c / 4096) ∷ (0x80 + c / 64 % 64) ∷ (0x80 + c % 64) ∷ []
    else (0xf0 + c / 0x4_0000)
      ∷ (0x80 + c / 4096 % 64)
      ∷ (0x80 + c / 64 % 64)
      ∷ (0x80 + c % 64)
      ∷ []

unfoldable pub as_bytes : String → List ℕ
unfolding utf8
as_bytes String.[] = []
as_bytes (String.◌∷◌ c s) = utf8 (code c) ++ as_bytes s

as_bytes_test : as_bytes "L2é" ≡ 76 ∷ 50 ∷ 195 ∷ 169 ∷ []
unfolding as_bytes
as_bytes_test = refl

code_lt : (c : Char) → code c < 0x11_0000
code_lt (Char.char n p) = ground arith

utf8-bytes : (c : ℕ) → c < 0x11_0000 → All IsByte (utf8 c)
unfolding utf8
utf8-bytes c h = ground arith

-- UTF-8 yields bytes.
pub as_bytes-bytes : (s : String) → All IsByte (as_bytes s)
unfolding as_bytes
as_bytes-bytes String.[] = tt
as_bytes-bytes (String.◌∷◌ c s) =
    All-append IsByte (utf8 (code c)) (as_bytes s) (utf8-bytes (code c) (code_lt c))
      (as_bytes-bytes s)

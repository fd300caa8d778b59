-- ===== src/Tests/Encoding.antt =====
-- The packing of crates/snip36-core/src/proof.rs at concrete felts. In the place of base64 stands an
-- encoding of each byte by two hexadecimal digits.
use Prim.Native.Char.{code}
use snip_36_prover_web.Prelude.{
  ℕ, zero, suc, ◌+◌, ◌*◌, ◌/◌, ◌%◌, ◌<◌, String, false, List, [], ◌∷◌, Option, none, some, ◌≡◌, ◌⊎◌,
  refl, ap, arith, All,
}
use snip_36_prover_web.Prelude.Result.{ok, err}
use snip_36_prover_web.Prelude.Words.{IsByte}
use snip_36_prover_web.Prelude.Hex.{hex_digit, digit_val}
use snip_36_prover_web.Prelude.Hex.RoundTrip.{digit_val-hex_digit}
use snip_36_prover_web.Felt.Sample.{sample, sample-IsField}
use snip_36_prover_web.Core.Proof.{
  Base64, ProofError, is_white, cairo_serde_to_base64, decode_proof_base64,
}
use snip_36_prover_web.Core.Proof.Packed.{
  IsBase64, NoWhite, read_felts, low_words, unpack_words, cairo_serde_to_base64-decodes,
}

encode : List ℕ → String
encode [] = String.[]
encode (b ∷ bs) = String.◌∷◌ (hex_digit (b / 16)) (String.◌∷◌ (hex_digit (b % 16)) (encode bs))

join_byte : Option ℕ → Option ℕ → Option (List ℕ) → Option (List ℕ)
join_byte (some h) (some l) (some bs) = some ((h * 16 + l) ∷ bs)
join_byte _ _ _ = none

decode : String → Option (List ℕ)
decode String.[] = some []
decode (String.◌∷◌ h String.[]) = none
decode (String.◌∷◌ h (String.◌∷◌ l s)) = join_byte (digit_val h) (digit_val l) (decode s)

abbrev hex64 : Base64
hex64 = record { encode = encode; decode = decode }

decode-encode : (bs : List ℕ) → All IsByte bs → decode (encode bs) ≡ some bs
unfolding encode decode join_byte
decode-encode [] h = refl
decode-encode (b ∷ bs) h =
    rw
      (
        digit_val-hex_digit (b / 16) (omega arith),
        digit_val-hex_digit (b % 16) (omega arith),
        decode-encode bs h.1,
      )
      (ap (λ (v : ℕ). some (v ∷ bs)) (omega arith))

digit_plain : (d : ℕ) → d < 16 → is_white (code (hex_digit d)) ≡ false
unfolding is_white hex_digit
digit_plain zero h = refl
digit_plain (suc zero) h = refl
digit_plain (suc (suc zero)) h = refl
digit_plain (suc (suc (suc zero))) h = refl
digit_plain (suc (suc (suc (suc zero)))) h = refl
digit_plain (suc (suc (suc (suc (suc zero))))) h = refl
digit_plain (suc (suc (suc (suc (suc (suc zero)))))) h = refl
digit_plain (suc (suc (suc (suc (suc (suc (suc zero))))))) h = refl
digit_plain (suc (suc (suc (suc (suc (suc (suc (suc d)))))))) h = high d (omega arith)
  where
    high :
        (d : ℕ)
        → d < 8
        → is_white (code (hex_digit (suc (suc (suc (suc (suc (suc (suc (suc d)))))))))) ≡ false
    high zero l = refl
    high (suc zero) l = refl
    high (suc (suc zero)) l = refl
    high (suc (suc (suc zero))) l = refl
    high (suc (suc (suc (suc zero)))) l = refl
    high (suc (suc (suc (suc (suc zero))))) l = refl
    high (suc (suc (suc (suc (suc (suc zero)))))) l = refl
    high (suc (suc (suc (suc (suc (suc (suc zero))))))) l = refl
    high (suc (suc (suc (suc (suc (suc (suc (suc d)))))))) l = absurd (omega arith)

encode-plain : (bs : List ℕ) → All IsByte bs → NoWhite (encode bs)
unfolding encode
encode-plain [] h = tt
encode-plain (b ∷ bs) h =
    (digit_plain (b / 16) (omega arith), (digit_plain (b % 16) (omega arith), encode-plain bs h.1))

hex64-IsBase64 : IsBase64 hex64
hex64-IsBase64 = record { round = decode-encode; plain = encode-plain }

abbrev felts : List String
felts = "0x1" ∷ "0xff" ∷ "0x100000000" ∷ []

cairo_serde_to_base64-decodes_example :
    ((e : ProofError) × (read_felts sample felts ≡ err e)
      × (cairo_serde_to_base64 sample hex64 felts ≡ err e))
    ⊎ ((ns : List ℕ) × (b64 : String) × (bytes : List ℕ) × (read_felts sample felts ≡ ok ns)
        × (cairo_serde_to_base64 sample hex64 felts ≡ ok b64)
        × (decode_proof_base64 hex64 b64 ≡ ok bytes)
        × (unpack_words bytes ≡ low_words ns))
cairo_serde_to_base64-decodes_example =
    cairo_serde_to_base64-decodes sample hex64 sample-IsField hex64-IsBase64 felts

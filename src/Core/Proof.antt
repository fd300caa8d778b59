-- ===== src/Core/Proof.antt =====
-- crates/snip36-core/src/proof.rs: the proof as base64 text, and the packing of the legacy format.
-- The base64 crate and serde_json's reading of a text are outside.
pub mod Packed
use Prim.Native.Char.{code}
use snip_36_prover_web.Prelude.{
  ℕ, ◌/◌, ◌%◌, ◌^◌, String, Bool, true, false, ◌&&◌, ◌||◌, List, [], ◌∷◌, ◌++◌, Option, none, some,
  drop, leb, ◌==◌, str_eq, if◌then◌else◌, ◌≡◌, refl,
}
use snip_36_prover_web.Prelude.Result.{Result, ok, err, ◌>>=◌, ok_or}
use snip_36_prover_web.Prelude.Words.{be_value, be_from}
use snip_36_prover_web.Felt.{FeltLib}

-- base64::encode and base64::decode.
pub record Base64 : Type 0 where
  pub encode : List ℕ → String
  pub decode : String → Option (List ℕ)

pub data ProofError : Type 0 where
  base64_decode : ProofError
  invalid_felt : String → ProofError
  invalid_json : ProofError

-- `char::is_whitespace`: Unicode's White_Space.
unfoldable pub is_white : ℕ → Bool
is_white c =
    (leb 9 c && leb c 13)
    || (c == 0x20
        || (c == 0x85
            || (c == 0xa0
                || (c == 0x1680
                    || ((leb 0x2000 c && leb c 0x200a)
                        || (c == 0x2028
                            || (c == 0x2029 || (c == 0x202f || (c == 0x205f || c == 0x3000)))))))))

trim_start : String → String
trim_start String.[] = String.[]
trim_start (String.◌∷◌ c s) =
    let rest = trim_start s in if is_white (code c) then rest else String.◌∷◌ c s

trim_end : String → String
trim_end String.[] = String.[]
trim_end (String.◌∷◌ c s) =
    let rest = trim_end s in
    if is_white (code c) && str_eq rest "" then String.[] else String.◌∷◌ c rest

-- `str::trim`
unfoldable pub trim : String → String
unfolding trim_start trim_end is_white
trim s = trim_start (trim_end s)

-- `u32::to_be_bytes`
unfoldable pub to_be_bytes : ℕ → List ℕ
to_be_bytes v = v / 2 ^ 24 % 256 ∷ v / 2 ^ 16 % 256 ∷ v / 2 ^ 8 % 256 ∷ v % 256 ∷ []

module _ (B : Base64) where
  unfoldable pub decode_proof_base64 : String → Result ProofError (List ℕ)
  decode_proof_base64 b64 = ok_or (B.decode (trim b64)) base64_decode

  unfoldable pub encode_proof_base64 : List ℕ → String
  encode_proof_base64 bytes = B.encode bytes

module _ (F : FeltLib) where
  -- The last four of a felt's 32 bytes, as a u32.
  unfoldable pub low_word : ℕ → ℕ
  unfolding be_from
  low_word felt = be_value (drop 28 (F.to_bytes_be felt))

  -- The loop over the felts: `packed` is what has been written.
  unfoldable pub pack_felts : List ℕ → List String → Result ProofError (List ℕ)
  pack_felts packed [] = ok packed
  pack_felts packed (felt_hex ∷ rest) = do
    felt ← ok_or (F.from_hex felt_hex) (invalid_felt felt_hex)
    pack_felts (packed ++ to_be_bytes (low_word felt)) rest

  unfoldable pub cairo_serde_to_base64 : Base64 → List String → Result ProofError String
  unfolding pack_felts
  cairo_serde_to_base64 B felts = do packed ← pack_felts [] felts; ok (encode_proof_base64 B packed)

-- `serde_json::from_str::<Vec<String>>` is the argument.
unfoldable pub parse_proof_facts_json :
    (String → Option (List String)) → String → Result ProofError (List String)
parse_proof_facts_json from_str json_str = ok_or (from_str json_str) invalid_json

trim_test : trim " AAE= \n" ≡ "AAE="
unfolding trim
trim_test = refl

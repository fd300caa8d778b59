-- ===== src/Core/Proof/Packed.antt =====
-- `cairo_serde_to_base64` of crates/snip36-core/src/proof.rs, read back as big-endian u32 words.
use Prim.Native.Char.{code}
use mathlib.Core.List.{append_assoc, append-nil}
use snip_36_prover_web.Prelude.{
  All-drop, ℕ, ◌*◌, ◌%◌, ◌^◌, ◌<◌, String, false, List, [], ◌∷◌, ◌++◌, map, some, drop, take,
  length, length-drop, take-append-drop, ◌≡◌, ◌⊎◌, refl, sym, ap, ◌∙◌, All, All-append, arith, inl,
  inr, Option-cases,
}
use snip_36_prover_web.Prelude.Result.{Result, ok, err, ◌>>=◌, ok_or, collect, Result-cases}
use snip_36_prover_web.Prelude.Words.{
  IsByte, be_value, be_from, be_from-append, be_from_shift, be_value-lt,
}
use snip_36_prover_web.Felt.{FeltLib, IsField, prime}
use snip_36_prover_web.Core.Proof.{
  Base64, ProofError, invalid_felt, is_white, trim, trim_start, trim_end, to_be_bytes, low_word,
  pack_felts, decode_proof_base64, encode_proof_base64, cairo_serde_to_base64,
}

abbrev pub NoWhite : String → Type 0
NoWhite String.[] = Unit
NoWhite (String.◌∷◌ c s) = (is_white (code c) ≡ false) × NoWhite s

-- What the base64 crate promises: bytes come back, and the alphabet has no white space.
pub record IsBase64 (B : Base64) : Type 0 where
  pub round : (bs : List ℕ) → All IsByte bs → B.decode (B.encode bs) ≡ some bs
  pub plain : (bs : List ℕ) → All IsByte bs → NoWhite (B.encode bs)

trim_end-plain : (s : String) → NoWhite s → trim_end s ≡ s
unfolding trim_end
trim_end-plain String.[] h = refl
trim_end-plain (String.◌∷◌ c s) h = ground (arith, trim_end-plain s h.1)

trim_start-plain : (s : String) → NoWhite s → trim_start s ≡ s
unfolding trim_start
trim_start-plain String.[] h = refl
trim_start-plain (String.◌∷◌ c s) h = ground arith

trim-plain : (s : String) → NoWhite s → trim s ≡ s
unfolding trim
trim-plain s h = ap trim_start (trim_end-plain s h) ∙ trim_start-plain s h

-- A reader of the packed bytes.
pub unpack_words : List ℕ → List ℕ
unpack_words (a ∷ b ∷ c ∷ d ∷ rest) = be_value (a ∷ b ∷ c ∷ d ∷ []) ∷ unpack_words rest
unpack_words _ = []

unpack_words-to_be_bytes :
    (v : ℕ) (rest : List ℕ)
    → v < 2 ^ 32
    → unpack_words (to_be_bytes v ++ rest) ≡ v ∷ unpack_words rest
unfolding unpack_words to_be_bytes be_from
unpack_words-to_be_bytes v rest h = ap (λ w. w ∷ unpack_words rest) (omega arith)

to_be_bytes-bytes : (v : ℕ) → All IsByte (to_be_bytes v)
unfolding to_be_bytes
to_be_bytes-bytes v = omega arith

-- The number that all the digits spell, from its last four.
tail_value :
    (n : ℕ) (front back : List ℕ)
    → be_value (front ++ back) ≡ n
    → length back ≡ 4
    → All IsByte back
    → be_value back ≡ n % 2 ^ 32
tail_value n front back e four bytes =
    let split : be_from (be_value front) back ≡ n = sym (be_from-append 0 front back) ∙ e in
    let power : 256 ^ length back ≡ 2 ^ 32 = ap (λ (k : ℕ). 256 ^ k) four in
    let top : be_value front * 256 ^ length back ≡ be_value front * 2 ^ 32 =
      ap (λ (k : ℕ). be_value front * k) power in
    omega (arith, be_from_shift (be_value front) back, be_value-lt back bytes)

module _ (F : FeltLib) (L : IsField F) where
  low_word_lem : (n : ℕ) → n < prime → low_word F n ≡ n % 2 ^ 32
  unfolding low_word
  low_word_lem n h =
      let bs = F.to_bytes_be n in
      tail_value n (take 28 bs) (drop 28 bs)
        (ap be_value (take-append-drop 28 bs) ∙ L.to_bytes_value n h)
        (omega (arith, length-drop 28 bs, L.to_bytes_length n))
        (All-drop IsByte 28 bs (L.to_bytes_bytes n))

-- What the source's loop reads: the felts of all the texts, or the first text that is none.
pub read_felts : FeltLib → List String → Result ProofError (List ℕ)
read_felts F = collect λ felt_hex. ok_or (F.from_hex felt_hex) (invalid_felt felt_hex)

pub low_words : List ℕ → List ℕ
low_words = map λ n. n % 2 ^ 32

words_bytes : List ℕ → List ℕ
words_bytes [] = []
words_bytes (v ∷ vs) = to_be_bytes v ++ words_bytes vs

unpack_words-words_bytes : (ns : List ℕ) → unpack_words (words_bytes (low_words ns)) ≡ low_words ns
unfolding words_bytes low_words unpack_words
unpack_words-words_bytes [] = refl
unpack_words-words_bytes (n ∷ ns) =
    unpack_words-to_be_bytes (n % 2 ^ 32) (words_bytes (low_words ns)) (omega arith)
    ∙ ap (λ ws. n % 2 ^ 32 ∷ ws) (unpack_words-words_bytes ns)

words_bytes-bytes : (vs : List ℕ) → All IsByte (words_bytes vs)
unfolding words_bytes
words_bytes-bytes [] = tt
words_bytes-bytes (v ∷ vs) =
    All-append IsByte (to_be_bytes v) (words_bytes vs) (to_be_bytes-bytes v) (words_bytes-bytes vs)

module _ (F : FeltLib) (L : IsField F) where
  pack_felts_lem :
      (felts : List String) (packed : List ℕ)
      → pack_felts F packed felts
        ≡ (read_felts F felts >>= λ ns. ok (packed ++ words_bytes (low_words ns)))
  unfolding pack_felts read_felts collect low_words words_bytes
  pack_felts_lem [] packed = ap ok (sym (append-nil packed))
  pack_felts_lem (felt_hex ∷ rest) packed = elim (Option-cases (F.from_hex felt_hex)) [
    | inl none_read ↦ rw (none_read, pack_felts, collect) refl
    | inr (n, read) ↦
        let rest_lem = pack_felts_lem rest (packed ++ to_be_bytes (n % 2 ^ 32)) in
        let low = low_word_lem F L n (L.read_lt felt_hex n read) in
        elim (Result-cases (read_felts F rest)) [
          | inl (ns, all) ↦
              rw
                (
                  read,
                  low,
                  rest_lem,
                  all,
                  append_assoc packed (to_be_bytes (n % 2 ^ 32)) (words_bytes (low_words ns)),
                )
                refl
          | inr (e, bad) ↦ rw (read, low, rest_lem, bad) refl
        ]
  ]

-- `cairo_serde_to_base64` fails exactly where `Felt::from_hex` refuses one of the texts, with the
-- first such text; else what it returns decodes to four bytes for
-- each felt in order, which spell the felt modulo 2^32.
pub cairo_serde_to_base64-decodes :
    (F : FeltLib) (B : Base64)
    → IsField F
    → IsBase64 B
    → (felts : List String)
    → ((e : ProofError) × (read_felts F felts ≡ err e) × (cairo_serde_to_base64 F B felts ≡ err e))
      ⊎ ((ns : List ℕ) × (b64 : String) × (bytes : List ℕ) × (read_felts F felts ≡ ok ns)
          × (cairo_serde_to_base64 F B felts ≡ ok b64)
          × (decode_proof_base64 B b64 ≡ ok bytes)
          × (unpack_words bytes ≡ low_words ns))
unfolding cairo_serde_to_base64 encode_proof_base64 decode_proof_base64
cairo_serde_to_base64-decodes F B L E felts =
    let packed = pack_felts_lem F L felts [] in
    elim (Result-cases (read_felts F felts)) [
      | inl (ns, all) ↦
          let bytes = words_bytes (low_words ns) in
          inr (
            ns,
            B.encode bytes,
            bytes,
            all,
            rw (packed, all) refl,
            rw
                (
                  trim-plain (B.encode bytes) (E.plain bytes (words_bytes-bytes (low_words ns))),
                  E.round bytes (words_bytes-bytes (low_words ns)),
                )
                refl,
            unpack_words-words_bytes ns,
          )
      | inr (e, bad) ↦ inl (e, bad, rw (packed, bad) refl)
    ]

-- ===== src/Felt/Sample.antt =====
-- A concrete instance of the interface: the field's real arithmetic and its hexadecimal, with toy
-- hashes and signatures.
use snip_36_prover_web.Prelude.{
  ℕ, zero, suc, ◌+◌, ◌*◌, ◌/◌, ◌++◌, ◌∙◌, All, All-append, length, length-append, ◌%◌, ◌^◌, ◌<◌,
  ◌≡◌, refl, ap, List, [], ◌∷◌, none, some, arith, ◌==◌, if◌then◌else◌,
}
use snip_36_prover_web.Prelude.Words.{be_value, be_from, be_from-append, IsByte}
use snip_36_prover_web.Prelude.Hex.{hex, parse_hex}
use snip_36_prover_web.Prelude.Hex.RoundTrip.{parse_hex-hex, parse_hex-lt}
use native.Mathlib.Nat.{mod-eq_of_lt, pow-suc, pow-zero}
use snip_36_prover_web.Felt.{FeltLib, IsField, prime}

unfoldable pub toy_hash : ℕ → List ℕ → ℕ
toy_hash acc [] = acc
toy_hash acc (x ∷ xs) = toy_hash ((acc * 31 + x + 1) % prime) xs

pow_two : (a : ℕ) → a ^ 2 ≡ a * a
pow_two a = rw (pow-suc a 1) (rw (pow-suc a 0) (rw (pow-zero a) (omega arith)))

-- `k` big-endian bytes of `n`.
pub be_bytes : ℕ → ℕ → List ℕ
be_bytes zero n = []
be_bytes (suc k) n = be_bytes k (n / 256) ++ n % 256 ∷ []

length-be_bytes : (k n : ℕ) → length (be_bytes k n) ≡ k
unfolding be_bytes
length-be_bytes zero n = refl
length-be_bytes (suc k) n =
    omega (arith, length-append (be_bytes k (n / 256)) (n % 256 ∷ []), length-be_bytes k (n / 256))

be_bytes-bytes : (k n : ℕ) → All IsByte (be_bytes k n)
unfolding be_bytes
be_bytes-bytes zero n = tt
be_bytes-bytes (suc k) n =
    All-append IsByte (be_bytes k (n / 256)) _ (be_bytes-bytes k (n / 256)) (omega arith)

be_value-be_bytes : (k n : ℕ) → n < 256 ^ k → be_value (be_bytes k n) ≡ n
unfolding be_bytes be_from
be_value-be_bytes zero n h = omega arith
be_value-be_bytes (suc k) n h =
    be_from-append 0 (be_bytes k (n / 256)) (n % 256 ∷ [])
    ∙ omega (arith, be_value-be_bytes k (n / 256) (omega (arith, pow-suc 256 k)))

abbrev pub sample : FeltLib
sample = record {
  from_bytes_be_slice = λ bs. be_value bs % prime;
  from_uint = λ n. n % prime;
  to_bytes_be = be_bytes 32;
  mul = λ a b. a * b % prime;
  add = λ a b. (a + b) % prime;
  pow_felt = λ a e. a ^ e % prime;
  from_hex = parse_hex prime;
  to_hex = hex;
  poseidon_hash_many = toy_hash 7;
  pedersen_hash = λ a b. (a * 3 + b * 5 + 11) % prime;
  rfc6979_generate_k = λ m k. m + k;
  ecdsa_sign =
      λ k m nonce. if k == 0 then none else some ((m + nonce) % prime, (k + nonce) % prime);
}

pub sample-IsField : IsField sample
sample-IsField = record {
  bytes = λ bs h. refl;
  to_bytes_length = length-be_bytes 32;
  to_bytes_bytes = be_bytes-bytes 32;
  to_bytes_value = λ n h. be_value-be_bytes 32 n (omega arith);
  uint = λ n h. mod-eq_of_lt h;
  mul_mod = λ a b. refl;
  add_mod = λ a b. refl;
  square = λ a. omega (arith, ap (λ (t : ℕ). t % prime) (pow_two a));
  read_back = λ n h. parse_hex-hex prime n h;
  read_lt = λ s n e. parse_hex-lt prime n s e;
  signed = λ k m nonce r s e. ground arith;
}

-- ===== src/Felt.antt =====
-- The interface to the crates that hold field elements and their cryptography:
-- starknet_types_core (`Felt`) and starknet_crypto. A felt is its canonical value below `prime`.
pub mod Sample
use snip_36_prover_web.Prelude.{
  ℕ, ◌+◌, ◌*◌, ◌%◌, ◌^◌, ◌<◌, ◌≡◌, List, Option, some, String, All, length,
}
use snip_36_prover_web.Prelude.Words.{be_value, IsByte}

-- The Stark field's modulus.
abbrev pub prime : ℕ
prime = 2 ^ 251 + 17 * 2 ^ 192 + 1

pub record FeltLib : Type 0 where
  pub from_bytes_be_slice : List ℕ → ℕ  -- Felt::from_bytes_be_slice, Felt::from_bytes_be
  pub from_uint : ℕ → ℕ  -- Felt::from of a u8, u32, u64 or u128
  pub to_bytes_be : ℕ → List ℕ  -- Felt::to_bytes_be, 32 bytes
  pub mul : ℕ → ℕ → ℕ
  pub add : ℕ → ℕ → ℕ
  pub pow_felt : ℕ → ℕ → ℕ
  pub from_hex : String → Option ℕ  -- Felt::from_hex, the error's text dropped
  pub to_hex : ℕ → String  -- format!("{:#x}", felt)
  pub poseidon_hash_many : List ℕ → ℕ
  pub pedersen_hash : ℕ → ℕ → ℕ
  pub rfc6979_generate_k : ℕ → ℕ → ℕ
  pub ecdsa_sign : ℕ → ℕ → ℕ → Option (ℕ × ℕ)  -- starknet_crypto::sign

-- What the theorems use of it: the arithmetic of the field, and that a print is read back.
pub record IsField (F : FeltLib) : Type 0 where
  pub bytes : (bs : List ℕ) → All IsByte bs → F.from_bytes_be_slice bs ≡ be_value bs % prime
  pub to_bytes_length : (n : ℕ) → length (F.to_bytes_be n) ≡ 32
  pub to_bytes_bytes : (n : ℕ) → All IsByte (F.to_bytes_be n)
  pub to_bytes_value : (n : ℕ) → n < prime → be_value (F.to_bytes_be n) ≡ n
  pub uint : (n : ℕ) → n < prime → F.from_uint n ≡ n
  pub mul_mod : (a b : ℕ) → F.mul a b ≡ a * b % prime
  pub add_mod : (a b : ℕ) → F.add a b ≡ (a + b) % prime
  pub square : (a : ℕ) → F.pow_felt a 2 ≡ a * a % prime
  pub read_back : (n : ℕ) → n < prime → F.from_hex (F.to_hex n) ≡ some n
  pub read_lt : (s : String) (n : ℕ) → F.from_hex s ≡ some n → n < prime
  pub signed :
      (key message k r s : ℕ) → F.ecdsa_sign key message k ≡ some (r, s) → (r < prime) × (s < prime)

-- ===== src/Core/Config/Laws.antt =====
-- The checked chain id of crates/snip36-core/src/config.rs against the unchecked one of signing.rs,
-- and which variables `from_env` needs.
use native.Mathlib.Nat.{pow-le-pow_right}
use snip_36_prover_web.Prelude.{
  ℕ, zero, suc, ◌+◌, ◌-◌, ◌%◌, ◌^◌, ◌≤◌, ◌<◌, List, ◌++◌, length, replicate, ltb, if◌then◌else◌,
  ◌≡◌, inl, inr, sym, ap, ◌∙◌, All, arith, Bool-cases, length-append, length-replicate,
}
use snip_36_prover_web.Prelude.Result.{ok, err}
use snip_36_prover_web.Prelude.Text.{as_bytes, as_bytes-bytes}
use snip_36_prover_web.Prelude.Words.{IsByte, be_value, be_value-lt, be_value-zeros, mod_small}
use snip_36_prover_web.Felt.{FeltLib, IsField, prime}
use snip_36_prover_web.Core.Signing
use snip_36_prover_web.Core.Config.{Config, invalid_chain_id, chain_id_felt}

zeros_bytes : (n : ℕ) (bs : List ℕ) → All IsByte bs → All IsByte (replicate n 0 ++ bs)
zeros_bytes zero bs h = h
zeros_bytes (suc n) bs h = (omega arith, zeros_bytes n bs h)

-- 31 bytes stay below the modulus.
short_lt_prime : (bs : List ℕ) → All IsByte bs → length bs ≤ 31 → be_value bs < prime
short_lt_prime bs h l =
    let below = be_value-lt bs h in
    let grows : 256 ^ length bs ≤ 256 ^ 31 = pow-le-pow_right (omega arith) l in omega arith

length_padded : (n : ℕ) (bs : List ℕ) → length (replicate n 0 ++ bs) ≡ n + length bs
length_padded n bs = omega (arith, length-append (replicate n 0) bs, length-replicate {A = ℕ} n 0)

-- The checked encoding refuses more than 31 bytes; on the rest it is the unchecked one, and no
-- reduction by the modulus takes place.
pub chain_id_felt_agrees :
    (F : FeltLib)
    → IsField F
    → (c : Config)
    → (chain_id_felt F c ≡ (
        if ltb 31 (length (as_bytes c.chain_id))
        then err (invalid_chain_id c.chain_id (length (as_bytes c.chain_id)))
        else ok (Signing.chain_id_felt F c.chain_id)))
      × (chain_id_felt F c ≡ (
          if ltb 31 (length (as_bytes c.chain_id))
          then err (invalid_chain_id c.chain_id (length (as_bytes c.chain_id)))
          else ok (be_value (as_bytes c.chain_id))))
unfolding chain_id_felt Signing.chain_id_felt
chain_id_felt_agrees F L c =
    let bs = as_bytes c.chain_id in
    let bytes = as_bytes-bytes c.chain_id in
    elim (Bool-cases (ltb 31 (length bs))) [
      | inl long ↦ (rw long, rw long)
      | inr short ↦
          let padded = replicate (32 - length bs) 0 ++ bs in
          let unchecked : F.from_bytes_be_slice bs ≡ be_value bs =
            L.bytes bs bytes ∙ mod_small _ prime (short_lt_prime bs bytes (ground arith)) in
          let checked : F.from_bytes_be_slice padded ≡ be_value bs =
            L.bytes padded (zeros_bytes (32 - length bs) bs bytes)
            ∙ ap (λ (v : ℕ). v % prime) (be_value-zeros (32 - length bs) bs)
            ∙ mod_small _ prime (short_lt_prime bs bytes (ground arith)) in
          (rw short (ap ok (checked ∙ sym unchecked)), rw short (ap ok checked))
    ]

-- ===== src/Core/Signing/Packing.antt =====
-- Bit fields in one felt: `concat_resource` and the data availability modes of
-- crates/snip36-core/src/signing.rs keep their parts apart, and no arithmetic wraps on the way.
use snip_36_prover_web.Prelude.{ℕ, ◌+◌, ◌*◌, ◌^◌, ◌<◌, String, ◌≡◌, sym, ◌∙◌, arith}
use snip_36_prover_web.Prelude.Words.{u32_mod, u64_mod, u128_mod, mod_small, bit_or_fields}
use snip_36_prover_web.Felt.{FeltLib, IsField, prime}
use snip_36_prover_web.Core.Types.{ResourceBound, FitsBound}
use snip_36_prover_web.Core.Signing.{resource_name_felt, resource_high, da_mode, concat_resource}

pub resource_high_lem :
    (name amount : ℕ)
    → name < 2 ^ 56
    → amount < u64_mod
    → resource_high name amount ≡ name * 2 ^ 64 + amount
unfolding resource_high
resource_high_lem name amount n a =
    rw (mod_small (name * 2 ^ 64) u128_mod (omega arith)) (bit_or_fields 64 name amount a)

pub da_mode_lem :
    (nonce_mode fee_mode : ℕ)
    → nonce_mode < u32_mod
    → fee_mode < u32_mod
    → da_mode nonce_mode fee_mode ≡ nonce_mode * 2 ^ 32 + fee_mode
unfolding da_mode
da_mode_lem nonce_mode fee_mode n f =
    rw (mod_small (nonce_mode * 2 ^ 32) u64_mod (omega arith))
      (bit_or_fields 32 nonce_mode fee_mode f)

ResourceBound_path :
    (b c : ResourceBound)
    → b.max_amount ≡ c.max_amount
    → b.max_price_per_unit ≡ c.max_price_per_unit
    → b ≡ c
ResourceBound_path b c p q = λ i. record { max_amount = p i; max_price_per_unit = q i }

module _ (F : FeltLib) (L : IsField F) where
  shift_lem : F.pow_felt (F.from_uint (2 ^ 64)) 2 ≡ 2 ^ 128
  shift_lem = rw (L.uint (2 ^ 64) (omega arith)) (L.square (2 ^ 64))

  -- The felt is the name above bit 192, the amount above bit 128, and the price below.
  pub concat_resource_lem :
      (b : ResourceBound) (resource_name : String)
      → FitsBound b
      → resource_name_felt resource_name < 2 ^ 56
      → concat_resource F b resource_name
        ≡ resource_name_felt resource_name * 2 ^ 192 + b.max_amount * 2 ^ 128 + b.max_price_per_unit
  unfolding concat_resource
  concat_resource_lem b resource_name fits n =
      let name = resource_name_felt resource_name in
      rw
        (
          resource_high_lem name b.max_amount n fits.amount,
          L.uint (name * 2 ^ 64 + b.max_amount) (omega arith),
          shift_lem,
          L.mul_mod (name * 2 ^ 64 + b.max_amount) (2 ^ 128),
          mod_small ((name * 2 ^ 64 + b.max_amount) * 2 ^ 128) prime (omega arith),
          L.uint b.max_price_per_unit (omega arith),
          L.add_mod ((name * 2 ^ 64 + b.max_amount) * 2 ^ 128) b.max_price_per_unit,
          concat_resource,
        )
        (omega arith)

  -- Two packed bounds of one resource are equal only if the bounds are.
  pub concat_resource_injective :
      (b c : ResourceBound) (resource_name : String)
      → FitsBound b
      → FitsBound c
      → resource_name_felt resource_name < 2 ^ 56
      → concat_resource F b resource_name ≡ concat_resource F c resource_name
      → b ≡ c
  concat_resource_injective b c resource_name fits_b fits_c n e =
      let same =
        sym (concat_resource_lem b resource_name fits_b n)
        ∙ e
        ∙ concat_resource_lem c resource_name fits_c n in
      ResourceBound_path b c (omega arith) (omega arith)

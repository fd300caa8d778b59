-- ===== src/Core/Signing.antt =====
-- crates/snip36-core/src/signing.rs: the hash of an invoke v3 transaction with its SNIP-36
-- extension, the signature, and the payload that is submitted.
pub mod Packing
pub mod Binding
pub mod Reading
pub mod Payload
pub mod Written
use Prim.Native.Nat.{bit_or}
use snip_36_prover_web.Prelude.{
  ℕ, ◌-◌, ◌*◌, ◌+◌, ◌%◌, ◌^◌, min, String, List, [], ◌∷◌, ◌++◌, map, Option, none, some, length,
  take, replicate, ◌≡◌, refl,
}
use snip_36_prover_web.Prelude.Result.{Result, ok, err, ◌>>=◌, ok_or}
use snip_36_prover_web.Prelude.Text.{as_bytes}
use snip_36_prover_web.Prelude.Words.{be_value, be_from, u64_mod, u128_mod}
use snip_36_prover_web.Felt.{FeltLib}
use snip_36_prover_web.Core.Json.{Json, str, arr, obj, end, field, nil, cons, strings}
use snip_36_prover_web.Core.Types.{ResourceBound, ResourceBounds, SubmitParams, to_gateway_json}

-- The name right-aligned in an 8-byte buffer, cut at 7 bytes; a u64.
unfoldable pub resource_name_felt : String → ℕ
unfolding as_bytes be_from
resource_name_felt name =
    let bytes = as_bytes name in
    let len = min (length bytes) 7 in be_value (replicate (8 - len) 0 ++ take len bytes)

-- `high` is a u128, so the shift drops what leaves it.
unfoldable pub resource_high : ℕ → ℕ → ℕ
resource_high name max_amount = bit_or (name * 2 ^ 64 % u128_mod) max_amount

pub data SignError : Type 0 where
  ecdsa : SignError

pub record Signature : Type 0 where
  pub r : ℕ
  pub s : ℕ

-- ((nonce_da_mode as u64) << 32) | fee_da_mode as u64
unfoldable pub da_mode : ℕ → ℕ → ℕ
da_mode nonce_da_mode fee_da_mode = bit_or (nonce_da_mode * 2 ^ 32 % u64_mod) fee_da_mode

module _ (F : FeltLib) where
  unfoldable pub invoke_prefix : ℕ
  invoke_prefix = F.from_bytes_be_slice (as_bytes "invoke")

  unfoldable pub chain_id_felt : String → ℕ
  chain_id_felt chain_id = F.from_bytes_be_slice (as_bytes chain_id)

  unfoldable pub concat_resource : ResourceBound → String → ℕ
  concat_resource b resource_name =
      let high = resource_high (resource_name_felt resource_name) b.max_amount in
      let high_felt = F.from_uint high in
      let shift = F.pow_felt (F.from_uint (2 ^ 64)) 2 in
      F.add (F.mul high_felt shift) (F.from_uint b.max_price_per_unit)

  -- The source passes the amount and the price of the bound, not the bound.
  unfoldable pub tip_resource_elements : ℕ → ResourceBounds → List ℕ
  tip_resource_elements tip bounds =
      tip
      ∷ concat_resource bounds.l1_gas "L1_GAS"
      ∷ concat_resource bounds.l2_gas "L2_GAS"
      ∷ concat_resource bounds.l1_data_gas "L1_DATA"
      ∷ []

  unfoldable pub compute_tip_resource_bounds_hash : ℕ → ResourceBounds → ℕ
  unfolding tip_resource_elements
  compute_tip_resource_bounds_hash tip bounds =
      F.poseidon_hash_many (tip_resource_elements tip bounds)

-- The arguments of `compute_invoke_v3_tx_hash`.
pub record InvokeV3 : Type 0 where
  pub sender_address : ℕ
  pub calldata : List ℕ
  pub chain_id : ℕ
  pub nonce : ℕ
  pub tip : ℕ
  pub resource_bounds : ResourceBounds
  pub paymaster_data : List ℕ
  pub account_deployment_data : List ℕ
  pub nonce_da_mode : ℕ  -- u32
  pub fee_da_mode : ℕ  -- u32
  pub proof_facts : List ℕ

module _ (F : FeltLib) where
  -- The SNIP-36 extension: one more element, and only if there are proof facts.
  unfoldable pub proof_facts_elements : List ℕ → List ℕ
  proof_facts_elements [] = []
  proof_facts_elements (f ∷ fs) = F.poseidon_hash_many (f ∷ fs) ∷ []

  unfoldable pub invoke_elements : InvokeV3 → List ℕ
  unfolding proof_facts_elements
  invoke_elements tx =
      (invoke_prefix F
        ∷ 3
        ∷ tx.sender_address
        ∷ compute_tip_resource_bounds_hash F tx.tip tx.resource_bounds
        ∷ F.poseidon_hash_many tx.paymaster_data
        ∷ tx.chain_id
        ∷ tx.nonce
        ∷ F.from_uint (da_mode tx.nonce_da_mode tx.fee_da_mode)
        ∷ F.poseidon_hash_many tx.account_deployment_data
        ∷ F.poseidon_hash_many tx.calldata
        ∷ [])
      ++ proof_facts_elements tx.proof_facts

  unfoldable pub compute_invoke_v3_tx_hash : InvokeV3 → ℕ
  compute_invoke_v3_tx_hash tx = F.poseidon_hash_many (invoke_elements tx)

  -- The nonce of the signature is derived from the message and the key (RFC 6979).
  unfoldable pub sign : ℕ → ℕ → Result SignError Signature
  sign private_key message_hash = do
    let k = F.rfc6979_generate_k message_hash private_key
    sig ← ok_or (F.ecdsa_sign private_key message_hash k) ecdsa
    ok (record { r = sig.0; s = sig.1 })

  -- What `sign_and_build_payload` hashes: no tip, no paymaster, the L1 data availability modes.
  unfoldable pub submitted_tx : SubmitParams → InvokeV3
  submitted_tx p = record {
    sender_address = p.sender_address;
    calldata = p.calldata;
    chain_id = p.chain_id;
    nonce = p.nonce;
    tip = 0;
    resource_bounds = p.resource_bounds;
    paymaster_data = [];
    account_deployment_data = [];
    nonce_da_mode = 0;
    fee_da_mode = 0;
    proof_facts = p.proof_facts;
  }

  unfoldable pub payload : SubmitParams → Signature → Json
  payload p sig = obj (
      field "type" (str "INVOKE_FUNCTION") (
        field "version" (str "0x3") (
          field "sender_address" (str (F.to_hex p.sender_address)) (
            field "calldata" (arr (strings (map F.to_hex p.calldata))) (
              field "nonce" (str (F.to_hex p.nonce)) (
                field "resource_bounds" (to_gateway_json p.resource_bounds) (
                  field "tip" (str "0x0") (
                    field "paymaster_data" (arr nil) (
                      field "account_deployment_data" (arr nil) (
                        field "nonce_data_availability_mode" (str "L1") (
                          field "fee_data_availability_mode" (str "L1") (
                            field "signature" (arr (strings (F.to_hex sig.r ∷ F.to_hex sig.s ∷ [])))
                              (field "proof" (str p.proof_base64) (
                                field "proof_facts" (arr (strings (map F.to_hex p.proof_facts)))
                                  end))))))))))))))

  unfoldable pub sign_and_build_payload : SubmitParams → Result SignError (ℕ × Json)
  unfolding payload submitted_tx
  sign_and_build_payload p = do
    let tx_hash = compute_invoke_v3_tx_hash (submitted_tx p)
    sig ← sign p.private_key tx_hash
    ok (tx_hash, payload p sig)

  unfoldable pub felt_from_hex : String → Result String ℕ
  felt_from_hex hex_str = ok_or (F.from_hex hex_str) hex_str

resource_name_tests :
    (resource_name_felt "L1_GAS" ≡ 0x004c315f474153)
    × (resource_name_felt "L2_GAS" ≡ 0x004c325f474153)
    × (resource_name_felt "L1_DATA" ≡ 0x4c315f44415441)
unfolding resource_name_felt
resource_name_tests = (refl, refl, refl)

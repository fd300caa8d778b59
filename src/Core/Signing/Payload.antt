-- ===== src/Core/Signing/Payload.antt =====
-- The payload of `sign_and_build_payload` (crates/snip36-core/src/signing.rs), read as its receiver
-- reads it.
use mathlib.Core.Path.{subst}
use snip_36_prover_web.Prelude.{
  ℕ, String, ◌<◌, List, [], ◌∷◌, some, ◌≡◌, refl, ap, ◌∙◌, All, inl, inr, Option-cases,
}
use snip_36_prover_web.Prelude.Result.{Result, ok, ok_or, >>=-eq-ok, ok_or-ok, AllOk}
use snip_36_prover_web.Felt.{FeltLib, IsField, prime}
use snip_36_prover_web.Core.Json.{Json, get, as_str, as_array}
use snip_36_prover_web.Core.Types.{FitsBounds, SubmitParams}
use snip_36_prover_web.Core.Signing.Reading.{
  ◌>>?◌, Received, gateway_keys, read_invoke, read_felt, read_felts, read_array, read_mode,
  received_tx, read_bounds-gateway, read_felts-strings, zero_tip-read, version_three-read,
}
use snip_36_prover_web.Core.Signing.{
  Signature, SignError, compute_invoke_v3_tx_hash, sign, submitted_tx, payload,
  sign_and_build_payload, felt_from_hex,
}

-- Felts are canonical, words fit their widths.
pub record IsCanonical (p : SubmitParams) : Type 0 where
  pub sender : p.sender_address < prime
  pub calldata : All (λ x. x < prime) p.calldata
  pub nonce : p.nonce < prime
  pub facts : All (λ x. x < prime) p.proof_facts
  pub bounds : FitsBounds p.resource_bounds

module _ (F : FeltLib) where
  -- What the receiver reads of a payload: the transaction, its proof facts and its proof.
  pub record IsReceived (j : Json) (seen : Received) (facts : List ℕ) (proof : String)
      : Type 0 where
    pub transaction : read_invoke F gateway_keys j ≡ some seen
    pub proof_facts : (get "proof_facts" j >>? read_array F) ≡ some facts
    pub proof_text : (get "proof" j >>? as_str) ≡ some proof

module _ (F : FeltLib) (L : IsField F) where
  abbrev received : SubmitParams → Signature → Received
  received p sig = record {
    kind = "INVOKE_FUNCTION";
    version = 3;
    sender_address = p.sender_address;
    calldata = p.calldata;
    nonce = p.nonce;
    resource_bounds = p.resource_bounds;
    tip = 0;
    paymaster_data = [];
    account_deployment_data = [];
    nonce_da_mode = 0;
    fee_da_mode = 0;
    signature = sig.r ∷ sig.s ∷ [];
  }

  payload-IsReceived :
      (p : SubmitParams) (sig : Signature)
      → IsCanonical p
      → sig.r < prime
      → sig.s < prime
      → IsReceived F (payload F p sig) (received p sig) p.proof_facts p.proof_base64
  unfolding read_invoke payload get read_felt read_array read_felts read_mode as_str as_array
  payload-IsReceived p sig h r s = record {
    transaction = rw (
      version_three-read,
      L.read_back p.sender_address h.sender,
      read_felts-strings F L p.calldata h.calldata,
      L.read_back p.nonce h.nonce,
      read_bounds-gateway p.resource_bounds h.bounds,
      zero_tip-read,
      L.read_back sig.r r,
      L.read_back sig.s s,
    );
    proof_facts = rw (read_felts-strings F L p.proof_facts h.facts);
    proof_text = refl;
  }

  -- The receiver's reading of the payload `j` has the sender, the calldata, the nonce, the bounds, the
  -- proof and its facts of the parameters; it is an invoke transaction of version 3 whose hash, with
  -- every field as it was read, is the one returned; and the signature it reads is over that hash.
  pub record IsVerifiable (p : SubmitParams) (tx_hash : ℕ) (j : Json) : Type 0 where
    pub seen : Received
    pub signature : Signature
    pub reads : IsReceived F j seen p.proof_facts p.proof_base64
    pub invoke : (seen.kind ≡ "INVOKE_FUNCTION") × (seen.version ≡ 3)
    pub sender : seen.sender_address ≡ p.sender_address
    pub calldata : seen.calldata ≡ p.calldata
    pub nonce : seen.nonce ≡ p.nonce
    pub bounds : seen.resource_bounds ≡ p.resource_bounds
    pub hash : compute_invoke_v3_tx_hash F (received_tx p.chain_id p.proof_facts seen) ≡ tx_hash
    pub signs : sign F p.private_key tx_hash ≡ ok signature
    pub carried : seen.signature ≡ signature.r ∷ signature.s ∷ []

  pub felt_from_hex-lt : (s : String) (n : ℕ) → felt_from_hex F s ≡ ok n → n < prime
  unfolding felt_from_hex
  felt_from_hex-lt s n e = L.read_lt s n (ok_or-ok (F.from_hex s) s n e)

  pub felts-lt :
      (ss : List String) (ns : List ℕ) → AllOk (felt_from_hex F) ss ns → All (λ n. n < prime) ns
  felts-lt [] [] h = tt
  felts-lt [] (n ∷ ns) h = absurd h
  felts-lt (s ∷ ss) [] h = absurd h
  felts-lt (s ∷ ss) (n ∷ ns) h = (felt_from_hex-lt s n h.0, felts-lt ss ns h.1)

  pub sign-canonical :
      (key message : ℕ) (sig : Signature)
      → sign F key message ≡ ok sig
      → (sig.r < prime) × (sig.s < prime)
  unfolding sign
  sign-canonical key message sig e =
      let k = F.rfc6979_generate_k message key in
      elim (Option-cases (F.ecdsa_sign key message k)) [
        | inl failed ↦ absurd (cc (rw (failed, ok_or) at e))
        | inr (rs, signed) ↦
            let read : ◌≡◌ {A = Result SignError Signature} (ok (record { r = rs.0; s = rs.1 }))
                (ok sig) =
              rw (signed, ok_or) at e in
            let same : ◌≡◌ {A = Signature} (record { r = rs.0; s = rs.1 }) sig = cc in
            L.signed key message k sig.r sig.s
              (signed ∙ ap (λ (g : Signature). some (g.r, g.s)) same)
      ]

  -- Where signing succeeds, the receiver of the payload reads back an invoke transaction of version
  -- 3 with the sender, the calldata, the nonce, the bounds, the proof and the proof facts of the
  -- parameters; the hash of what it reads (its tip, paymaster and deployment data and data
  -- availability modes included), on the chain of the parameters, is the hash returned, and the
  -- signature it reads is over it.
  pub sign_and_build_payload-IsVerifiable :
      (p : SubmitParams) (tx_hash : ℕ) (j : Json)
      → IsCanonical p
      → sign_and_build_payload F p ≡ ok (tx_hash, j)
      → IsVerifiable p tx_hash j
  unfolding sign_and_build_payload
  sign_and_build_payload-IsVerifiable p tx_hash j h e =
      let (sig, signed, same) =
        >>=-eq-ok (sign F p.private_key (compute_invoke_v3_tx_hash F (submitted_tx F p))) _ e in
      let good = sign-canonical p.private_key _ sig signed in
      let hashed : compute_invoke_v3_tx_hash F (submitted_tx F p) ≡ tx_hash = cc in
      let sent : payload F p sig ≡ j = cc in
      record {
        seen = received p sig;
        signature = sig;
        reads =
            subst (λ k. IsReceived F k (received p sig) p.proof_facts p.proof_base64) sent
              (payload-IsReceived p sig h good.0 good.1);
        invoke = (refl, refl);
        sender = refl;
        calldata = refl;
        nonce = refl;
        bounds = refl;
        hash = hashed;
        signs = subst (λ m. sign F p.private_key m ≡ ok sig) hashed signed;
        carried = refl;
      }

-- ===== src/Counter/Submitted.antt =====
-- What submit_proof of apps/counter/src/routes.rs submits.
use mathlib.Core.Path.{subst}
use snip_36_prover_web.Prelude.{ℕ, ◌<◌, String, List, [], ◌∷◌, some, All, ◌≡◌, refl, arith}
use snip_36_prover_web.Prelude.Result.{
  ok, >>=-parts, ok_injective, map_err, map_err-ok, ok_or, ok_or-ok, collect, collect-AllOk,
}
use snip_36_prover_web.Prelude.Http.{internal_error}
use snip_36_prover_web.Felt.{FeltLib, IsField, prime}
use snip_36_prover_web.Core.Json.{Json}
use snip_36_prover_web.Core.Types.{Session, SubmitParams, FitsBounds}
use snip_36_prover_web.Core.Config.{Config, chain_id_felt}
use snip_36_prover_web.Core.Rpc.{Node, get_nonce, add_invoke_transaction}
use snip_36_prover_web.Core.Rpc.Nonces.{get_nonce-lt}
use snip_36_prover_web.Core.Signing.{felt_from_hex, sign_and_build_payload}
use snip_36_prover_web.Core.Signing.Payload.{
  IsCanonical, IsVerifiable, felt_from_hex-lt, felts-lt, sign_and_build_payload-IsVerifiable,
}
use snip_36_prover_web.Counter.{increment_selector, playground_bounds}
use snip_36_prover_web.Counter.Multicall.{decode_multicall, decode_multicall-one, increment_call}
use snip_36_prover_web.Counter.Invoke.{
  ProofFiles, existing, SubmitProofResponse, proof_params, submit_proof,
}

playground_bounds-FitsBounds : FitsBounds playground_bounds
unfolding playground_bounds
playground_bounds-FitsBounds = record {
  l1 = record { amount = omega arith; price = omega arith };
  l2 = record { amount = omega arith; price = omega arith };
  l1_data = record { amount = omega arith; price = omega arith };
}

module _ (F : FeltLib) (L : IsField F) where
  -- The parameters are one call of `increment(1)` on the session's contract, in canonical felts.
  pub record IsOneIncrement (session : Session) (params : SubmitParams) : Type 0 where
    pub contract_address : String
    pub contract : ℕ
    pub selector : ℕ
    pub deployed : session.contract_address ≡ some contract_address
    pub contract_read : felt_from_hex F contract_address ≡ ok contract
    pub selector_read : felt_from_hex F increment_selector ≡ ok selector
    pub one_call : decode_multicall params.calldata ≡ some (increment_call contract selector 1 ∷ [])
    pub canonical : IsCanonical params

  -- What `proof_params` makes of the parts that it read.
  IsOneIncrement-of_parts :
      (session : Session) {address proof : String} {facts : List ℕ}
      {sender key contract selector chain nonce : ℕ}
      → session.contract_address ≡ some address
      → felt_from_hex F address ≡ ok contract
      → felt_from_hex F increment_selector ≡ ok selector
      → sender < prime
      → All (λ n. n < prime) facts
      → nonce < prime
      → IsOneIncrement session (record {
        sender_address = sender;
        private_key = key;
        calldata = 1 ∷ contract ∷ selector ∷ 1 ∷ 1 ∷ [];
        proof_base64 = proof;
        proof_facts = facts;
        nonce = F.from_uint nonce;
        chain_id = chain;
        resource_bounds = playground_bounds;
      })
  IsOneIncrement-of_parts session {address} {contract} {selector} {nonce} a c l d s n =
      let contract_lt = felt_from_hex-lt F L address contract c in
      let selector_lt = felt_from_hex-lt F L increment_selector selector l in
      record {
        contract_address = address;
        contract = contract;
        selector = selector;
        deployed = a;
        contract_read = c;
        selector_read = l;
        one_call = decode_multicall-one contract selector 1;
        canonical = record {
          sender = d;
          calldata = (omega arith, (contract_lt, (selector_lt, (omega arith, (omega arith, tt)))));
          nonce = rw (L.uint nonce n) n;
          facts = s;
          bounds = playground_bounds-FitsBounds;
        };
      }

  proof_params-IsOneIncrement :
      (config : Config) (node : Node) (files : ProofFiles) (session : Session)
      (params : SubmitParams)
      → proof_params F config node files session ≡ ok params
      → IsOneIncrement session params
  unfolding proof_params
  proof_params-IsOneIncrement config node files session params e =
      >>=-parts (ok_or session.proof_file _) _ e λ proof_file f e1.
        >>=-parts (existing files proof_file) _ e1 λ u x e2.
          >>=-parts (ok_or session.contract_address _) _ e2 λ address a e3.
            >>=-parts (ok_or (files.read_proof proof_file) _) _ e3 λ proof p e4.
              >>=-parts (ok_or (files.read_proof_facts proof_file) _) _ e4 λ json j e5.
                >>=-parts (ok_or (files.from_str json) _) _ e5 λ hexes h e6.
                  >>=-parts (map_err internal_error (collect (felt_from_hex F) hexes)) _ e6
                    λ facts s e7.
                      >>=-parts (map_err internal_error (felt_from_hex F address)) _ e7
                        λ contract c e8.
                          >>=-parts (map_err internal_error (felt_from_hex F increment_selector)) _
                            e8
                            λ selector l e9.
                              >>=-parts
                                (map_err internal_error (felt_from_hex F config.account_address)) _
                                e9
                                λ sender d e10.
                                  >>=-parts
                                    (map_err internal_error (felt_from_hex F config.private_key)) _
                                    e10
                                    λ key k e11.
                                      >>=-parts (map_err _ (chain_id_felt F config)) _ e11
                                        λ chain i e12.
                                          >>=-parts
                                            (map_err _ (get_nonce node config.account_address)) _
                                            e12
                                            λ nonce n e13.
                                              let nonce_lt =
                                                get_nonce-lt node config.account_address nonce
                                                  (map_err-ok _ _ nonce n) in
                                              subst (IsOneIncrement session) (ok_injective e13) (
                                                IsOneIncrement-of_parts session (ok_or-ok _ _ _ a)
                                                  (map_err-ok internal_error _ contract c)
                                                  (map_err-ok internal_error _ selector l)
                                                  (felt_from_hex-lt F L _ sender
                                                    (map_err-ok internal_error _ sender d))
                                                  (felts-lt F L hexes facts (
                                                    collect-AllOk _ hexes facts
                                                      (map_err-ok internal_error _ facts s)))
                                                  (omega (arith, nonce_lt)))

  pub record IsSubmitted (config : Config) (node : Node) (files : ProofFiles) (session : Session)
      (response : SubmitProofResponse) : Type 0 where
    pub params : SubmitParams
    pub hash : ℕ
    pub payload : Json
    pub tx_hash : String
    pub read : proof_params F config node files session ≡ ok params
    pub increments : IsOneIncrement session params
    pub verifiable : IsVerifiable F L params hash payload
    pub accepted : add_invoke_transaction node payload ≡ ok tx_hash
    pub reported :
        (response.tx_hash ≡ some tx_hash) × (response.local_tx_hash ≡ some (F.to_hex hash))

  -- If `submit_proof` returns hashes, then the parameters that it signed call `increment(1)` once,
  -- on the session's contract; the receiver of the payload reads those parameters' transaction, of
  -- version 3, from it, with their proof and proof facts, recomputes the local hash from all that
  -- it reads, and reads the signature over that hash; and the node accepted that payload under the
  -- other hash.
  pub submit_proof-IsSubmitted :
      (config : Config) (node : Node) (files : ProofFiles) (session : Session)
      (response : SubmitProofResponse)
      → submit_proof F config node files session ≡ ok response
      → IsSubmitted config node files session response
  unfolding submit_proof
  submit_proof-IsSubmitted config node files session response e =
      >>=-parts (proof_params F config node files session) _ e λ params p e1.
        >>=-parts (map_err _ (sign_and_build_payload F params)) _ e1 λ (hash, payload) s e2.
          >>=-parts (map_err _ (add_invoke_transaction node payload)) _ e2 λ tx_hash a e3.
            let increments = proof_params-IsOneIncrement config node files session params p in
            subst (IsSubmitted config node files session) (ok_injective e3) (record {
              params = params;
              hash = hash;
              payload = payload;
              tx_hash = tx_hash;
              read = p;
              increments = increments;
              verifiable =
                  sign_and_build_payload-IsVerifiable F L params hash payload increments.canonical
                    (map_err-ok _ _ (hash, payload) s);
              accepted = map_err-ok _ _ tx_hash a;
              reported = (refl, refl);
            })

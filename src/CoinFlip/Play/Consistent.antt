-- ===== src/CoinFlip/Play/Consistent.antt =====
-- A game that play_coinflip (apps/coinflip/src/routes.rs) reports was proven, submitted and
-- confirmed, and the transaction submitted is the one proven.
use mathlib.Core.Path.{subst}
use snip_36_prover_web.Prelude.{All, ℕ, ◌<◌, String, true, List, ◌≡◌, refl, sym, arith}
use snip_36_prover_web.Prelude.Result.{
  ok, >>=-parts, ok_injective, map_err, map_err-ok, ok_or, collect, collect-AllOk,
}
use snip_36_prover_web.Prelude.Hex.{hex}
use snip_36_prover_web.Felt.{FeltLib, IsField, prime}
use snip_36_prover_web.Core.Json.{Json}
use snip_36_prover_web.Core.Types.{SubmitParams, default, zero_fee}
use snip_36_prover_web.Core.Config.{Config, chain_id_felt}
use snip_36_prover_web.Core.Rpc.Nonces.{get_nonce_at_block-lt}
use snip_36_prover_web.Core.Signing.Reading.{ReadsHex, zero_fee-FitsBounds, default-FitsBounds}
use snip_36_prover_web.Core.Signing.Payload.{
  IsCanonical, IsVerifiable, felt_from_hex-lt, felts-lt, sign_and_build_payload-IsVerifiable,
}
use snip_36_prover_web.Core.Signing.Written.{IsWritten, invoke_json-IsWritten}
use snip_36_prover_web.Prelude.Words.{u64_mod}
use snip_36_prover_web.Core.Proof.{parse_proof_facts_json}
use snip_36_prover_web.Core.Rpc.{Node, get_nonce_at_block}
use snip_36_prover_web.Core.Signing.{
  InvokeV3, compute_invoke_v3_tx_hash, sign, submitted_tx, sign_and_build_payload, felt_from_hex,
}
use snip_36_prover_web.CoinFlip.Reveal.{OpenPlay}
use snip_36_prover_web.CoinFlip.Submission.{Outcome, accepted, submit_payload}
use snip_36_prover_web.CoinFlip.Play.{
  bad_calldata, bad_sender, bad_private_key, bad_chain_id, no_nonce, signing_failed, no_proof,
  no_proof_facts, invalid_proof_facts, bad_proof_facts, not_confirmed, Constructed, World,
  PlayResult, exited, construct, play_calldata, block_id, run_prover, submit_params,
  accepted_by_gateway, play_task, standard_tx, proven_json,
}

-- The transaction that Phase 1 signs: its parts are read from the configuration, and its nonce is
-- the account's at the seed block, of a transaction with no fee and no proof.
pub record IsConstructed (F : FeltLib) (config : Config) (node : Node) (play : OpenPlay)
    (made : Constructed) : Type 0 where
  pub sender : ℕ
  pub calldata : List ℕ
  pub chain_id : ℕ
  pub nonce : ℕ
  pub calldata_read : collect (felt_from_hex F) (play_calldata play) ≡ ok calldata
  pub sender_read : felt_from_hex F config.account_address ≡ ok sender
  pub key_read : felt_from_hex F config.private_key ≡ ok made.private_key
  pub chain_read : chain_id_felt F config ≡ ok chain_id
  pub nonce_read :
      get_nonce_at_block node config.account_address (block_id play.seed_block) ≡ ok nonce
  pub built : made.tx ≡ standard_tx sender calldata chain_id (F.from_uint nonce)
  pub signed : sign F made.private_key (compute_invoke_v3_tx_hash F made.tx) ≡ ok made.signature
  pub written : IsWritten F chain_id made.tx_json made.tx made.signature

module _ (F : FeltLib) (L : IsField F) (H : ReadsHex F) where
  construct-IsConstructed :
      (config : Config) (node : Node) (play : OpenPlay) (made : Constructed)
      → construct F config node play ≡ ok made
      → IsConstructed F config node play made
  unfolding construct proven_json standard_tx
  construct-IsConstructed config node play made e =
      >>=-parts (map_err bad_calldata (collect (felt_from_hex F) (play_calldata play))) _ e
        λ calldata c e1.
          >>=-parts (map_err bad_sender (felt_from_hex F config.account_address)) _ e1
            λ sender s e2.
              >>=-parts (map_err bad_private_key (felt_from_hex F config.private_key)) _ e2
                λ key k e3.
                  >>=-parts (map_err bad_chain_id (chain_id_felt F config)) _ e3 λ chain h e4.
                    >>=-parts
                      (map_err no_nonce
                        (get_nonce_at_block node config.account_address (block_id play.seed_block)))
                      _ e4
                      λ nonce n e5.
                        let tx = standard_tx sender calldata chain (F.from_uint nonce) in
                        >>=-parts
                          (map_err signing_failed (sign F key (compute_invoke_v3_tx_hash F tx))) _
                          e5
                          λ sig g e6.
                            subst (IsConstructed F config node play) (ok_injective e6) (record {
                              sender = sender;
                              calldata = calldata;
                              chain_id = chain;
                              nonce = nonce;
                              calldata_read = map_err-ok bad_calldata _ calldata c;
                              sender_read = map_err-ok bad_sender _ sender s;
                              key_read = map_err-ok bad_private_key _ key k;
                              chain_read = map_err-ok bad_chain_id _ chain h;
                              nonce_read = map_err-ok no_nonce _ nonce n;
                              built = refl;
                              signed = map_err-ok signing_failed _ sig g;
                              written =
                                  invoke_json-IsWritten F L H config.account_address _ nonce sender
                                    key _ chain calldata zero_fee sig
                                    (collect-AllOk _ _ calldata
                                      (map_err-ok bad_calldata _ calldata c))
                                    (map_err-ok bad_sender _ sender s)
                                    (get_nonce_at_block-lt node config.account_address
                                      (block_id play.seed_block) nonce
                                      (map_err-ok no_nonce _ nonce n))
                                    zero_fee-FitsBounds (map_err-ok signing_failed _ sig g);
                            })

-- What a reported game rests on.
pub record IsPlayed (F : FeltLib) (L : IsField F) (config : Config) (node : Node) (w : World)
    (session_id : String) (play : OpenPlay) (result : PlayResult) : Type 0 where
  pub made : Constructed
  pub params : SubmitParams
  pub hash : ℕ
  pub payload : Json
  pub receipt : Json
  pub constructed : IsConstructed F config node play made
  pub proven : w.prover made.tx_json play.seed_block ≡ exited true
  pub signed : sign_and_build_payload F params ≡ ok (hash, payload)
  pub verifiable : IsVerifiable F L params hash payload
  pub same :
      submitted_tx F params
      ≡ record made.tx { resource_bounds = default; proof_facts = params.proof_facts }
  pub received : submit_payload (w.replies payload) ≡ accepted
  pub confirmed : w.wait_for_tx (F.to_hex hash) ≡ ok receipt
  pub reported :
      (result.tx_hash ≡ F.to_hex hash)
      × (result.seed ≡ hex play.seed_block)
      × (result.player ≡ play.player)

run_prover-ok :
    (w : World) (tx_json : Json) (block : ℕ) {u : Unit {0}}
    → run_prover w tx_json block ≡ ok u
    → w.prover tx_json block ≡ exited true
unfolding run_prover
run_prover-ok w tx_json block e = ground arith

accepted_by_gateway-ok : (o : Outcome) {u : Unit {0}} → accepted_by_gateway o ≡ ok u → o ≡ accepted
unfolding accepted_by_gateway
accepted_by_gateway-ok o e = ground arith

module _ (F : FeltLib) where
  submit_params-same :
      (w : World) (made : Constructed) (params : SubmitParams)
      → (sender chain nonce : ℕ) (calldata : List ℕ)
      → made.tx ≡ standard_tx sender calldata chain nonce
      → submit_params F w made ≡ ok params
      → submitted_tx F params
        ≡ record made.tx { resource_bounds = default; proof_facts = params.proof_facts }
  unfolding submit_params submitted_tx standard_tx
  submit_params-same w made params sender chain nonce calldata b e =
      >>=-parts (ok_or w.proof_file no_proof) _ e λ proof p e1.
        >>=-parts (ok_or w.proof_facts_file no_proof_facts) _ e1 λ facts_str s e2.
          >>=-parts (map_err invalid_proof_facts (parse_proof_facts_json w.from_str facts_str)) _ e2
            λ facts_hex h e3.
              >>=-parts (map_err bad_proof_facts (collect (felt_from_hex F) facts_hex)) _ e3
                λ facts f e4.
                  subst
                    (λ q.
                      submitted_tx F q
                      ≡ record made.tx { resource_bounds = default; proof_facts = q.proof_facts })
                    (ok_injective e4)
                    (λ i. record made.tx {
                      tip = (sym b i).tip;
                      resource_bounds = default;
                      paymaster_data = (sym b i).paymaster_data;
                      account_deployment_data = (sym b i).account_deployment_data;
                      nonce_da_mode = (sym b i).nonce_da_mode;
                      fee_da_mode = (sym b i).fee_da_mode;
                      proof_facts = facts;
                    })

module _ (F : FeltLib) (L : IsField F) (H : ReadsHex F) where
  nonce_felt-lt : (n : ℕ) → n < u64_mod → F.from_uint n < prime
  nonce_felt-lt n h = rw (L.uint n (omega (arith, h))) (omega (arith, h))

  submit_params-IsCanonical :
      (w : World) (made : Constructed) (params : SubmitParams) (sender chain nonce : ℕ)
      (calldata : List ℕ)
      → made.tx ≡ standard_tx sender calldata chain nonce
      → sender < prime
      → All (λ x. x < prime) calldata
      → nonce < prime
      → submit_params F w made ≡ ok params
      → IsCanonical params
  unfolding submit_params standard_tx
  submit_params-IsCanonical w made params sender chain nonce calldata b s c n e =
      >>=-parts (ok_or w.proof_file no_proof) _ e λ proof p e1.
        >>=-parts (ok_or w.proof_facts_file no_proof_facts) _ e1 λ facts_str t e2.
          >>=-parts (map_err invalid_proof_facts (parse_proof_facts_json w.from_str facts_str)) _ e2
            λ facts_hex h e3.
              >>=-parts (map_err bad_proof_facts (collect (felt_from_hex F) facts_hex)) _ e3
                λ facts f e4. subst IsCanonical (ok_injective e4) (record {
                  sender = subst (λ (x : InvokeV3). x.sender_address < prime) (sym b) s;
                  calldata = subst (λ (x : InvokeV3). All (λ y. y < prime) x.calldata) (sym b) c;
                  nonce = subst (λ (x : InvokeV3). x.nonce < prime) (sym b) n;
                  facts =
                      felts-lt F L facts_hex facts
                        (collect-AllOk _ _ facts (map_err-ok bad_proof_facts _ facts f));
                  bounds = default-FitsBounds;
                })

  -- A game that the task of `play_coinflip` reports was proven at its seed block, accepted by the
  -- gateway and confirmed by the node. The transaction whose JSON is given to the prover reads as
  -- an invoke transaction of version 3 with the account's nonce at the seed block, signed by the
  -- account; the transaction that was submitted, which its receiver can read back and whose hash is
  -- reported, is the same but for its fee bounds and its proof facts. This is for a field whose
  -- texts are read back.
  pub play_task-IsPlayed :
      (config : Config) (node : Node) (w : World) (session_id : String) (play : OpenPlay)
      (result : PlayResult)
      → play_task F config node w session_id play ≡ ok result
      → IsPlayed F L config node w session_id play result
  unfolding play_task
  play_task-IsPlayed config node w session_id play result e =
      >>=-parts (construct F config node play) _ e λ made m e1.
        >>=-parts (run_prover w made.tx_json play.seed_block) _ e1 λ u p e2.
          >>=-parts (submit_params F w made) _ e2 λ params q e3.
            >>=-parts (map_err signing_failed (sign_and_build_payload F params)) _ e3
              λ (hash, payload) s e4.
                >>=-parts (accepted_by_gateway (submit_payload (w.replies payload))) _ e4 λ u' a e5.
                  >>=-parts (map_err not_confirmed (w.wait_for_tx (F.to_hex hash))) _ e5
                    λ receipt r e6.
                      let constructed = construct-IsConstructed F L H config node play made m in
                      subst (IsPlayed F L config node w session_id play) (ok_injective e6) (record {
                        made = made;
                        params = params;
                        hash = hash;
                        payload = payload;
                        receipt = receipt;
                        constructed = constructed;
                        proven = run_prover-ok w made.tx_json play.seed_block p;
                        signed = map_err-ok signing_failed _ (hash, payload) s;
                        verifiable =
                            sign_and_build_payload-IsVerifiable F L params hash payload
                              (submit_params-IsCanonical w made params constructed.sender
                                constructed.chain_id _ constructed.calldata constructed.built
                                (felt_from_hex-lt F L _ constructed.sender constructed.sender_read)
                                (felts-lt F L _ constructed.calldata (
                                  collect-AllOk _ _ constructed.calldata constructed.calldata_read))
                                (nonce_felt-lt constructed.nonce (
                                  get_nonce_at_block-lt node config.account_address
                                    (block_id play.seed_block) constructed.nonce
                                    constructed.nonce_read))
                                q)
                              (map_err-ok signing_failed _ (hash, payload) s);
                        same = submit_params-same F w made params _ _ _ _ constructed.built q;
                        received = accepted_by_gateway-ok (submit_payload (w.replies payload)) a;
                        confirmed = map_err-ok not_confirmed _ receipt r;
                        reported = (refl, refl, refl);
                      })

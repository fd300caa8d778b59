-- ===== src/Core/Signing/Written.antt =====
-- The JSON of the transactions that crates/snip36-web-prover/src/lib.rs, apps/counter/src/routes.rs and
-- apps/coinflip/src/routes.rs give to the prover, read as their signed transaction.
use snip_36_prover_web.Prelude.{ℕ, ◌<◌, String, List, [], ◌∷◌, some, ◌≡◌, refl, sym, ap, arith}
use snip_36_prover_web.Prelude.Result.{ok, AllOk}
use snip_36_prover_web.Prelude.Words.{u64_mod}
use snip_36_prover_web.Felt.{FeltLib, IsField}
use snip_36_prover_web.Core.Json.{Json}
use snip_36_prover_web.Core.Types.{ResourceBounds, FitsBounds}
use snip_36_prover_web.Core.Signing.{InvokeV3, Signature, sign, felt_from_hex}
use snip_36_prover_web.Core.Signing.Reading.{
  Received, ReadsHex, rpc_keys, read_invoke, received_tx, read_invoke-invoke_json,
}
use snip_36_prover_web.Core.Signing.Payload.{sign-canonical}
use snip_36_prover_web.Core.Transactions.{unproven_tx, invoke_json}

-- The JSON reads as an invoke transaction of version 3, which on the chain is this transaction, with no
-- proof facts, and which carries this signature.
pub record IsWritten (F : FeltLib) (chain_id : ℕ) (j : Json) (tx : InvokeV3) (sig : Signature)
    : Type 0 where
  pub seen : Received
  pub reads : read_invoke F rpc_keys j ≡ some seen
  pub invoke : (seen.kind ≡ "INVOKE") × (seen.version ≡ 3)
  pub same : received_tx chain_id [] seen ≡ tx
  pub carried : seen.signature ≡ sig.r ∷ sig.s ∷ []

unproven : ResourceBounds → ℕ → List ℕ → Signature → ℕ → Received
unproven bounds sender calldata sig nonce = record {
  kind = "INVOKE";
  version = 3;
  sender_address = sender;
  calldata = calldata;
  nonce = nonce;
  resource_bounds = bounds;
  tip = 0;
  paymaster_data = [];
  account_deployment_data = [];
  nonce_da_mode = 0;
  fee_da_mode = 0;
  signature = sig.r ∷ sig.s ∷ [];
}

module _ (F : FeltLib) (L : IsField F) (H : ReadsHex F) where
  pub invoke_json-IsWritten :
      (account : String) (strs : List String) (nonce sender key message chain_id : ℕ)
      (calldata : List ℕ) (bounds : ResourceBounds) (sig : Signature)
      → AllOk (felt_from_hex F) strs calldata
      → felt_from_hex F account ≡ ok sender
      → nonce < u64_mod
      → FitsBounds bounds
      → sign F key message ≡ ok sig
      → IsWritten F chain_id
          (invoke_json account strs nonce bounds (F.to_hex sig.r ∷ F.to_hex sig.s ∷ []))
          (unproven_tx bounds sender calldata chain_id (F.from_uint nonce))
          sig
  unfolding unproven
  invoke_json-IsWritten account strs nonce sender key message chain_id calldata bounds sig c a n b
        g =
      let good = sign-canonical F L key message sig g in
      record {
        seen = unproven bounds sender calldata sig nonce;
        reads =
            read_invoke-invoke_json F L H account strs nonce sender sig.r sig.s calldata bounds c a
              n b good.0 good.1;
        invoke = (refl, refl);
        same =
            ap (λ m. received_tx chain_id [] (unproven bounds sender calldata sig m))
              (sym (L.uint nonce (omega (arith, n))));
        carried = refl;
      }

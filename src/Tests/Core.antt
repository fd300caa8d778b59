-- ===== src/Tests/Core.antt =====
-- The theorems on crates/snip36-core at concrete inputs.
use snip_36_prover_web.Prelude.{
  ℕ, zero, suc, ◌+◌, ◌*◌, ◌^◌, ◌<◌, List, [], ◌∷◌, none, some, ◌≡◌, ◌⊎◌, refl, arith, if◌then◌else◌,
  ltb, length,
}
use snip_36_prover_web.Prelude.Result.{Result, ok, err}
use snip_36_prover_web.Prelude.Words.{be_value}
use snip_36_prover_web.Prelude.Text.{as_bytes}
use snip_36_prover_web.Felt.Sample.{toy_hash, sample, sample-IsField}
use snip_36_prover_web.Core.Json.{Json, num, str, obj, end, field, get, as_str}
use snip_36_prover_web.Core.Types.{ResourceBound, FitsBound, FitsBounds, SubmitParams, zero_fee}
use snip_36_prover_web.Core.Config
use snip_36_prover_web.Core.Config.{Config, invalid_chain_id}
use snip_36_prover_web.Core.Config.Laws.{chain_id_felt_agrees}
use snip_36_prover_web.Core.Rpc.{
  Node, RpcError, tx_timeout, block_timeout, wait_for_tx, attempt_receipt, get_receipt,
  judge_receipt, block_number, call, text_field, is_text, has_field, is_missing,
  wait_for_block_after,
}
use snip_36_prover_web.Core.Rpc.Polling.{Timing, nanos, begins, Ends, poll_until}
use snip_36_prover_web.Core.Rpc.Waiting.{
  IsConfirmed, wait_for_tx-Ends, wait_for_tx-IsConfirmed, wait_for_block_after-gt,
}
use snip_36_prover_web.Core.Signing
use snip_36_prover_web.Core.Signing.{
  InvokeV3, Signature, compute_invoke_v3_tx_hash, compute_tip_resource_bounds_hash, invoke_elements,
  resource_high, submitted_tx, sign, payload, sign_and_build_payload, concat_resource,
  resource_name_felt,
}
use snip_36_prover_web.Core.Signing.Binding.{IsTyped, CollisionBetween, tx_hash_binds}
use snip_36_prover_web.Core.Signing.Packing.{concat_resource_lem}
use snip_36_prover_web.Core.Signing.Payload.{
  IsCanonical, IsVerifiable, sign_and_build_payload-IsVerifiable,
}

zero_fee-FitsBounds : FitsBounds zero_fee
unfolding zero_fee
zero_fee-FitsBounds = record {
  l1 = record { amount = omega arith; price = omega arith };
  l2 = record { amount = omega arith; price = omega arith };
  l1_data = record { amount = omega arith; price = omega arith };
}

-- Two transactions whose calldata the toy hash does not tell apart.
abbrev with_calldata : List ℕ → InvokeV3
with_calldata calldata = record {
  sender_address = 77;
  calldata = calldata;
  chain_id = 5;
  nonce = 3;
  tip = 0;
  resource_bounds = zero_fee;
  paymaster_data = [];
  account_deployment_data = [];
  nonce_da_mode = 0;
  fee_da_mode = 0;
  proof_facts = 9 ∷ [];
}

with_calldata-IsTyped : (calldata : List ℕ) → IsTyped (with_calldata calldata)
with_calldata-IsTyped calldata = record {
  bounds = zero_fee-FitsBounds;
  nonce_mode = omega arith;
  fee_mode = omega arith;
}

same_hash :
    compute_invoke_v3_tx_hash sample (with_calldata (0 ∷ 31 ∷ []))
    ≡ compute_invoke_v3_tx_hash sample (with_calldata (1 ∷ 0 ∷ []))
unfolding compute_invoke_v3_tx_hash invoke_elements toy_hash
same_hash = refl

tx_hash_binds_example :
    CollisionBetween sample (with_calldata (0 ∷ 31 ∷ [])) (with_calldata (1 ∷ 0 ∷ []))
    ⊎ (with_calldata (0 ∷ 31 ∷ []) ≡ with_calldata (1 ∷ 0 ∷ []))
tx_hash_binds_example =
    tx_hash_binds sample sample-IsField (with_calldata (0 ∷ 31 ∷ [])) (with_calldata (1 ∷ 0 ∷ []))
      (with_calldata-IsTyped (0 ∷ 31 ∷ [])) (with_calldata-IsTyped (1 ∷ 0 ∷ [])) same_hash

abbrev params : SubmitParams
params = record {
  sender_address = 0x1234;
  private_key = 99;
  calldata = 1 ∷ 2 ∷ 3 ∷ [];
  proof_base64 = "AAAB";
  proof_facts = 4 ∷ [];
  nonce = 2;
  chain_id = 7;
  resource_bounds = zero_fee;
}

params-IsCanonical : IsCanonical params
params-IsCanonical = record {
  sender = omega arith;
  calldata = omega arith;
  nonce = omega arith;
  facts = omega arith;
  bounds = zero_fee-FitsBounds;
}

abbrev params_hash : ℕ
params_hash = compute_invoke_v3_tx_hash sample (submitted_tx sample params)

params_signed :
    (s : Signature) × (sign_and_build_payload sample params
      ≡ ok (params_hash, payload sample params s))
unfolding sign_and_build_payload sign
params_signed = (_, refl)

sign_and_build_payload-IsVerifiable_example :
    IsVerifiable sample sample-IsField params params_hash (payload sample params params_signed.0)
sign_and_build_payload-IsVerifiable_example =
    sign_and_build_payload-IsVerifiable sample sample-IsField params params_hash
      (payload sample params params_signed.0) params-IsCanonical params_signed.1

abbrev some_bound : ResourceBound
some_bound = record { max_amount = 0x1b0; max_price_per_unit = 12 }

some_bound-FitsBound : FitsBound some_bound
some_bound-FitsBound = record { amount = omega arith; price = omega arith }

name_fits : resource_name_felt "L1_DATA" < 2 ^ 56
unfolding resource_name_felt
name_fits = omega arith

concat_resource_lem_example :
    concat_resource sample some_bound "L1_DATA"
    ≡ resource_name_felt "L1_DATA" * 2 ^ 192 + 0x1b0 * 2 ^ 128 + 12
concat_resource_lem_example =
    concat_resource_lem sample sample-IsField some_bound "L1_DATA" some_bound-FitsBound name_fits

abbrev sepolia : Config
sepolia = record {
  rpc_url = "http://localhost";
  account_address = "0x1234";
  private_key = "0x63";
  chain_id = "SN_SEPOLIA";
  gateway_url = none;
  project_dir = "";
  output_dir = "output";
  deps_dir = "deps";
}

chain_id_felt_agrees_example :
    (Config.chain_id_felt sample sepolia ≡ (
      if ltb 31 (length (as_bytes "SN_SEPOLIA"))
      then err (invalid_chain_id "SN_SEPOLIA" (length (as_bytes "SN_SEPOLIA")))
      else ok (Signing.chain_id_felt sample "SN_SEPOLIA")))
    × (Config.chain_id_felt sample sepolia ≡ (
        if ltb 31 (length (as_bytes "SN_SEPOLIA"))
        then err (invalid_chain_id "SN_SEPOLIA" (length (as_bytes "SN_SEPOLIA")))
        else ok (be_value (as_bytes "SN_SEPOLIA"))))
chain_id_felt_agrees_example = chain_id_felt_agrees sample sample-IsField sepolia

-- A node whose receipt is pending in the first round and confirmed from the second on.
abbrev final_receipt : Json
final_receipt = obj (
    field "finality_status" (str "ACCEPTED_ON_L2")
      (field "execution_status" (str "SUCCEEDED") (field "block_number" (num 12) end)))

abbrev answer_with : Json → Node
answer_with result request = ok (obj (field "result" result end))

abbrev receipts : ℕ → Node
receipts zero = answer_with (obj end)
receipts (suc round) = answer_with final_receipt

abbrev steady : Timing
steady = record { start = 5; elapsed = λ round. 1_000 }

wait_for_tx-Ends_example :
    (r : Result RpcError Json) × (wait_for_tx receipts steady "0xabc" 60 3 ≡ some r)
    × Ends steady 60 3
        (λ round. attempt_receipt "0xabc" (receipts round))
        (err (tx_timeout "0xabc" 60))
        r
wait_for_tx-Ends_example = wait_for_tx-Ends receipts steady "0xabc" 60 3 (omega arith)

tx_confirmed : wait_for_tx receipts steady "0xabc" 60 3 ≡ some (ok final_receipt)
unfolding wait_for_tx poll_until attempt_receipt get_receipt judge_receipt call get text_field
    is_text as_str has_field is_missing
tx_confirmed = refl

wait_for_tx-IsConfirmed_example :
    (i : ℕ) × (begins steady 3 i < 5 + 60 * nanos)
    × (get_receipt (receipts i) "0xabc" ≡ ok final_receipt)
    × IsConfirmed final_receipt
wait_for_tx-IsConfirmed_example =
    wait_for_tx-IsConfirmed receipts steady "0xabc" 60 3 final_receipt (omega arith) tx_confirmed

abbrev growing : ℕ → Node
growing round = answer_with (num (10 + round))

wait_for_block_after-gt_example :
    (r : Result RpcError ℕ) × (wait_for_block_after growing steady 11 60 3 ≡ some r)
    × ((r ≡ err (block_timeout 11 60))
        ⊎ ((i : ℕ) × (n : ℕ) × (block_number (growing i) ≡ ok n) × (r ≡ ok n) × (11 < n)))
wait_for_block_after-gt_example = wait_for_block_after-gt growing steady 11 60 3 (omega arith)

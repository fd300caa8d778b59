-- ===== src/Core/Signing/Reading.antt =====
-- How a receiver reads the JSON of an invoke transaction, as crates/snip36-core/src/signing.rs and the
-- applications write it: its fields, and the transaction of version 3 that they make up.
use snip_36_prover_web.Prelude.{
  ℕ, ◌<◌, String, List, [], ◌∷◌, map, Option, none, some, ◌≡◌, refl, ap, sym, ◌∙◌, All, str_eq,
  if◌then◌else◌, arith,
}
use snip_36_prover_web.Prelude.Result.{ok, ok_or-ok, AllOk}
use snip_36_prover_web.Prelude.Words.{u64_mod, u128_mod}
use snip_36_prover_web.Prelude.Hex.{hex, parse_hex}
use snip_36_prover_web.Prelude.Hex.RoundTrip.{parse_hex-hex, hex-zero, hex-three}
use snip_36_prover_web.Felt.{FeltLib, IsField, prime}
use snip_36_prover_web.Core.Json.{Json, str, strings, get, as_str, as_array, to_list}
use snip_36_prover_web.Core.Types.{
  ResourceBound, ResourceBounds, FitsBound, FitsBounds, bound_json, to_gateway_json, to_rpc_json,
  zero_fee, default,
}
use snip_36_prover_web.Core.Signing.{InvokeV3, felt_from_hex}
use snip_36_prover_web.Core.Transactions.{invoke_json}

infixl 5 ◌>>?◌
abbrev pub ◌>>?◌ : {A B : Type 0} → Option A → (A → Option B) → Option B
none >>? f = none
some a >>? f = f a

unfoldable pub read_word : ℕ → Json → Option ℕ
read_word bound j = as_str j >>? parse_hex bound

read_bound : Json → Option ResourceBound
read_bound j = get "max_amount" j >>? read_word u64_mod >>? λ amount.
    get "max_price_per_unit" j >>? read_word u128_mod >>? λ price.
    some (record { max_amount = amount; max_price_per_unit = price })

-- The bounds, under the keys that the gateway or the RPC has for them.
pub record BoundKeys : Type 0 where
  pub l1 : String
  pub l2 : String
  pub l1_data : String

abbrev pub gateway_keys : BoundKeys
gateway_keys = record { l1 = "L1_GAS"; l2 = "L2_GAS"; l1_data = "L1_DATA_GAS" }

abbrev pub rpc_keys : BoundKeys
rpc_keys = record { l1 = "l1_gas"; l2 = "l2_gas"; l1_data = "l1_data_gas" }

unfoldable pub read_bounds : BoundKeys → Json → Option ResourceBounds
unfolding read_bound
read_bounds keys j = get keys.l1 j >>? read_bound >>? λ l1. get keys.l2 j >>? read_bound >>? λ l2.
    get keys.l1_data j >>? read_bound >>? λ l1_data.
    some (record { l1_gas = l1; l2_gas = l2; l1_data_gas = l1_data })

-- A data availability mode: that of L1 is 0, that of L2 is 1.
mode_of : String → Option ℕ
mode_of s = if str_eq s "L1" then some 0 else if str_eq s "L2" then some 1 else none

unfoldable pub read_mode : Json → Option ℕ
unfolding mode_of
read_mode j = as_str j >>? mode_of

module _ (F : FeltLib) where
  unfoldable pub read_felt : Json → Option ℕ
  read_felt j = as_str j >>? F.from_hex

  unfoldable pub read_felts : List Json → Option (List ℕ)
  read_felts [] = some []
  read_felts (j ∷ js) = read_felt j >>? λ x. read_felts js >>? λ xs. some (x ∷ xs)

  unfoldable pub read_array : Json → Option (List ℕ)
  read_array j = as_array j >>? read_felts

-- The fields of an invoke transaction.
pub record Received : Type 0 where
  pub kind : String
  pub version : ℕ
  pub sender_address : ℕ
  pub calldata : List ℕ
  pub nonce : ℕ
  pub resource_bounds : ResourceBounds
  pub tip : ℕ
  pub paymaster_data : List ℕ
  pub account_deployment_data : List ℕ
  pub nonce_da_mode : ℕ
  pub fee_da_mode : ℕ
  pub signature : List ℕ

module _ (F : FeltLib) where
  unfoldable pub read_invoke : BoundKeys → Json → Option Received
  read_invoke keys j = get "type" j >>? as_str >>? λ kind.
      get "version" j >>? read_word u64_mod >>? λ version.
      get "sender_address" j >>? read_felt F >>? λ sender.
      get "calldata" j >>? read_array F >>? λ calldata. get "nonce" j >>? read_felt F >>? λ nonce.
      get "resource_bounds" j >>? read_bounds keys >>? λ bounds.
      get "tip" j >>? read_word u64_mod >>? λ tip.
      get "paymaster_data" j >>? read_array F >>? λ paymaster.
      get "account_deployment_data" j >>? read_array F >>? λ deployment.
      get "nonce_data_availability_mode" j >>? read_mode >>? λ nonce_mode.
      get "fee_data_availability_mode" j >>? read_mode >>? λ fee_mode.
      get "signature" j >>? read_array F >>? λ signature. some (record {
        kind = kind;
        version = version;
        sender_address = sender;
        calldata = calldata;
        nonce = nonce;
        resource_bounds = bounds;
        tip = tip;
        paymaster_data = paymaster;
        account_deployment_data = deployment;
        nonce_da_mode = nonce_mode;
        fee_da_mode = fee_mode;
        signature = signature;
      })

-- The transaction that a receiver hashes, on the chain that it runs, with the proof facts it reads.
abbrev pub received_tx : ℕ → List ℕ → Received → InvokeV3
received_tx chain_id facts r = record {
  sender_address = r.sender_address;
  calldata = r.calldata;
  chain_id = chain_id;
  nonce = r.nonce;
  tip = r.tip;
  resource_bounds = r.resource_bounds;
  paymaster_data = r.paymaster_data;
  account_deployment_data = r.account_deployment_data;
  nonce_da_mode = r.nonce_da_mode;
  fee_da_mode = r.fee_da_mode;
  proof_facts = facts;
}

read_bound-bound_json : (b : ResourceBound) → FitsBound b → read_bound (bound_json b) ≡ some b
unfolding read_bound read_word bound_json get as_str
read_bound-bound_json b h = rw (
  parse_hex-hex u64_mod b.max_amount h.amount,
  parse_hex-hex u128_mod b.max_price_per_unit h.price,
)

pub read_bounds-gateway :
    (b : ResourceBounds) → FitsBounds b → read_bounds gateway_keys (to_gateway_json b) ≡ some b
unfolding read_bounds to_gateway_json get
read_bounds-gateway b h = rw (
  read_bound-bound_json b.l1_gas h.l1,
  read_bound-bound_json b.l2_gas h.l2,
  read_bound-bound_json b.l1_data_gas h.l1_data,
)

read_bounds-rpc :
    (b : ResourceBounds) → FitsBounds b → read_bounds rpc_keys (to_rpc_json b) ≡ some b
unfolding read_bounds to_rpc_json get
read_bounds-rpc b h = rw (
  read_bound-bound_json b.l1_gas h.l1,
  read_bound-bound_json b.l2_gas h.l2,
  read_bound-bound_json b.l1_data_gas h.l1_data,
)

pub zero_tip-read : read_word u64_mod (str "0x0") ≡ some 0
unfolding read_word as_str
zero_tip-read = ap (parse_hex u64_mod) (sym hex-zero) ∙ parse_hex-hex u64_mod 0 (omega arith)

pub version_three-read : read_word u64_mod (str "0x3") ≡ some 3
unfolding read_word as_str
version_three-read = ap (parse_hex u64_mod) (sym hex-three) ∙ parse_hex-hex u64_mod 3 (omega arith)

pub zero_fee-FitsBounds : FitsBounds zero_fee
unfolding zero_fee
zero_fee-FitsBounds = record {
  l1 = record { amount = omega arith; price = omega arith };
  l2 = record { amount = omega arith; price = omega arith };
  l1_data = record { amount = omega arith; price = omega arith };
}

pub default-FitsBounds : FitsBounds default
unfolding default
default-FitsBounds = record {
  l1 = record { amount = omega arith; price = omega arith };
  l2 = record { amount = omega arith; price = omega arith };
  l1_data = record { amount = omega arith; price = omega arith };
}

-- `Felt::from_hex` reads what `{:#x}` prints of a machine integer.
pub record ReadsHex (F : FeltLib) : Type 0 where
  pub reads : (n : ℕ) → n < u64_mod → F.from_hex (hex n) ≡ some n

module _ (F : FeltLib) (L : IsField F) where
  pub read_felts-strings :
      (xs : List ℕ)
      → All (λ x. x < prime) xs
      → read_felts F (to_list (strings (map F.to_hex xs))) ≡ some xs
  unfolding read_felts read_felt as_str
  read_felts-strings [] h = refl
  read_felts-strings (x ∷ xs) h = rw (L.read_back x h.0, read_felts-strings xs h.1)

module _ (F : FeltLib) where
  read_felts-AllOk :
      (ss : List String) (xs : List ℕ)
      → AllOk (felt_from_hex F) ss xs
      → read_felts F (to_list (strings ss)) ≡ some xs
  unfolding read_felts read_felt felt_from_hex as_str
  read_felts-AllOk [] [] h = refl
  read_felts-AllOk [] (x ∷ xs) h = absurd h
  read_felts-AllOk (s ∷ ss) [] h = absurd h
  read_felts-AllOk (s ∷ ss) (x ∷ xs) h =
      rw (ok_or-ok (F.from_hex s) s x h.0, read_felts-AllOk ss xs h.1)

module _ (F : FeltLib) (L : IsField F) (H : ReadsHex F) where
  -- What the transaction that is given to the prover reads as.
  pub read_invoke-invoke_json :
      (account : String) (strs : List String) (nonce sender r s : ℕ) (calldata : List ℕ)
      (bounds : ResourceBounds)
      → AllOk (felt_from_hex F) strs calldata
      → felt_from_hex F account ≡ ok sender
      → nonce < u64_mod
      → FitsBounds bounds
      → r < prime
      → s < prime
      → read_invoke F rpc_keys
          (invoke_json account strs nonce bounds (F.to_hex r ∷ F.to_hex s ∷ []))
        ≡ some (record {
          kind = "INVOKE";
          version = 3;
          sender_address = sender;
          calldata = calldata;
          nonce = nonce;
          resource_bounds = bounds;
          tip = 0;
          paymaster_data = [];
          account_deployment_data = [];
          nonce_da_mode = 0;
          fee_da_mode = 0;
          signature = r ∷ s ∷ [];
        })
  unfolding read_invoke invoke_json get read_felt read_array read_felts read_mode as_str as_array
      felt_from_hex
  read_invoke-invoke_json account strs nonce sender r s calldata bounds c a n b hr hs = rw (
    version_three-read,
    ok_or-ok (F.from_hex account) account sender a,
    read_felts-AllOk F strs calldata c,
    H.reads nonce n,
    read_bounds-rpc bounds b,
    zero_tip-read,
    L.read_back r hr,
    L.read_back s hs,
  )

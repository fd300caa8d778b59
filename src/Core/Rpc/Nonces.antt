-- ===== src/Core/Rpc/Nonces.antt =====
-- The nonces that crates/snip36-core/src/rpc.rs reads are machine integers.
use snip_36_prover_web.Prelude.{ℕ, ◌<◌, String, ◌≡◌, ◌∙◌, inl, inr}
use snip_36_prover_web.Prelude.Result.{ok, ok_or, ok_or-ok, >>=-parts, Result-cases}
use snip_36_prover_web.Prelude.Words.{u64_mod}
use snip_36_prover_web.Prelude.Hex.{parse_hex}
use snip_36_prover_web.Prelude.Hex.RoundTrip.{parse_hex-lt}
use snip_36_prover_web.Core.Json.{Json, str, as_str}
use snip_36_prover_web.Core.Rpc.{Node, call, unexpected, get_nonce_at_block, get_nonce}

pub get_nonce_at_block-lt :
    (node : Node) (address : String) (block : Json) (n : ℕ)
    → get_nonce_at_block node address block ≡ ok n
    → n < u64_mod
unfolding get_nonce_at_block
get_nonce_at_block-lt node address block n e =
    >>=-parts (call node "starknet_getNonce" _) _ e λ result c e1.
      >>=-parts (ok_or (as_str result) (unexpected result)) _ e1
        λ hex_str s e2. parse_hex-lt u64_mod n hex_str (ok_or-ok (parse_hex u64_mod hex_str) _ n e2)

pub get_nonce-lt :
    (node : Node) (address : String) (n : ℕ) → get_nonce node address ≡ ok n → n < u64_mod
unfolding get_nonce
get_nonce-lt node address n e =
    elim (Result-cases (get_nonce_at_block node address (str "pre_confirmed"))) [
      | inl (k, found) ↦
          get_nonce_at_block-lt node address (str "pre_confirmed") n
            (found ∙ rw (found, get_nonce) at e)
      | inr (f, failed) ↦
          get_nonce_at_block-lt node address (str "latest") n (rw (failed, get_nonce) at e)
    ]

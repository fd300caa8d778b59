-- ===== src/Core/Rpc/Waiting.antt =====
-- What `wait_for_tx` and `wait_for_block_after` of crates/snip36-core/src/rpc.rs return, and when.
use mathlib.Core.Path.{subst}
use snip_36_prover_web.Prelude.{
  ℕ, ◌+◌, ◌*◌, ◌≤◌, ◌<◌, String, true, Option, none, some, ◌≡◌, ◌≢◌, ◌⊎◌, inl, inr, refl, sym, ap,
  ◌∙◌, arith, eq_iff, str_eq,
}
use snip_36_prover_web.Prelude.Result.{Result, ok, err, unwrap_or, Result-cases}
use snip_36_prover_web.Core.Json.{Json, get}
use snip_36_prover_web.Core.Rpc.{
  Node, RpcError, tx_timeout, block_timeout, text_field, is_text, is_missing, has_field,
  judge_receipt, get_receipt, attempt_receipt, wait_for_tx, block_number, attempt_block,
  wait_for_block_after,
}
use snip_36_prover_web.Core.Rpc.Polling.{
  Timing, nanos, begins, Ends, decided, expired, poll_until-Ends,
}

-- A receipt that counts: final on L2 or L1, in a closed block, and not reverted.
pub record IsConfirmed (receipt : Json) : Type 0 where
  pub final :
      (text_field "finality_status" receipt ≡ some "ACCEPTED_ON_L2")
      ⊎ (text_field "finality_status" receipt ≡ some "ACCEPTED_ON_L1")
  pub closed : get "block_number" receipt ≢ none
  pub executed :
      (text_field "execution_status" receipt ≡ none)
      ⊎ (text_field "execution_status" receipt ≡ some "SUCCEEDED")

eq-some_of_is_text : (o : Option String) (s : String) → is_text o s ≡ true → o ≡ some s
unfolding is_text
eq-some_of_is_text none s e = cc
eq-some_of_is_text (some a) s e = ap some ((eq_iff a s).0 e)

eq-some_of_unwrap :
    (o : Option String) (s : String) → s ≢ "" → str_eq (unwrap_or o "") s ≡ true → o ≡ some s
eq-some_of_unwrap none s ne e = absurd (ne (sym ((eq_iff "" s).0 e)))
eq-some_of_unwrap (some a) s ne e = ap some ((eq_iff a s).0 e)

eq-none_of_is_missing : (o : Option String) → is_missing o ≡ true → o ≡ none
unfolding is_missing
eq-none_of_is_missing none e = refl
eq-none_of_is_missing (some a) e = cc

ne-none_of_has_field : (k : String) (j : Json) → has_field k j ≡ true → get k j ≢ none
unfolding has_field
ne-none_of_has_field k j e = ground arith

judge_receipt-IsConfirmed :
    (receipt seen : Json)
    → judge_receipt receipt ≡ some (ok seen)
    → (seen ≡ receipt) × IsConfirmed receipt
unfolding judge_receipt
judge_receipt-IsConfirmed receipt seen e =
    let status = text_field "finality_status" receipt in
    let execution = text_field "execution_status" receipt in
    (
      ground arith,
      record {
        final = ground (
          arith,
          eq-some_of_unwrap status "ACCEPTED_ON_L2" (λ d. cc),
          eq-some_of_unwrap status "ACCEPTED_ON_L1" (λ d. cc),
        );
        closed = ne-none_of_has_field "block_number" receipt (ground arith);
        executed =
            ground
              (arith, eq-none_of_is_missing execution, eq-some_of_is_text execution "SUCCEEDED");
      },
    )

-- Where the sleep is a second or more, `wait_for_tx` returns: by its first round that decides,
-- begun before the deadline, or by the timeout after no round before the deadline decided.
pub wait_for_tx-Ends :
    (nodes : ℕ → Node) (timing : Timing) (tx_hash : String) (timeout poll : ℕ)
    → 1 ≤ poll
    → (r : Result RpcError Json) × (wait_for_tx nodes timing tx_hash timeout poll ≡ some r)
      × Ends timing timeout poll
          (λ round. attempt_receipt tx_hash (nodes round))
          (err (tx_timeout tx_hash timeout))
          r
unfolding wait_for_tx
wait_for_tx-Ends nodes timing tx_hash timeout poll p =
    poll_until-Ends timing timeout poll (λ round. attempt_receipt tx_hash (nodes round))
      (err (tx_timeout tx_hash timeout)) p

attempt_receipt-ok :
    (tx_hash : String) (node : Node) (seen : Json)
    → attempt_receipt tx_hash node ≡ some (ok seen)
    → (get_receipt node tx_hash ≡ ok seen) × IsConfirmed seen
unfolding attempt_receipt
attempt_receipt-ok tx_hash node seen e = elim (Result-cases (get_receipt node tx_hash)) [
  | inl (receipt, got) ↦
      let (same, good) = judge_receipt-IsConfirmed receipt seen (rw (got, attempt_receipt) at e) in
      (rw same got, subst IsConfirmed (sym same) good)
  | inr (x, failed) ↦ absurd (cc (rw (failed, attempt_receipt) at e))
]

-- A receipt that `wait_for_tx` returns is one that the node gave in a round begun before the
-- deadline, and it is confirmed: final, in a closed block, and executed without a revert.
pub wait_for_tx-IsConfirmed :
    (nodes : ℕ → Node) (timing : Timing) (tx_hash : String) (timeout poll : ℕ) (receipt : Json)
    → 1 ≤ poll
    → wait_for_tx nodes timing tx_hash timeout poll ≡ some (ok receipt)
    → (i : ℕ) × (begins timing poll i < timing.start + timeout * nanos)
      × (get_receipt (nodes i) tx_hash ≡ ok receipt)
      × IsConfirmed receipt
wait_for_tx-IsConfirmed nodes timing tx_hash timeout poll receipt p e =
    let (r, run, ends) = wait_for_tx-Ends nodes timing tx_hash timeout poll p in by_end (cc) ends
  where
    by_end :
        {r : Result RpcError Json}
        → r ≡ ok receipt
        → Ends timing timeout poll
            (λ round. attempt_receipt tx_hash (nodes round))
            (err (tx_timeout tx_hash timeout))
            r
        → (i : ℕ) × (begins timing poll i < timing.start + timeout * nanos)
          × (get_receipt (nodes i) tx_hash ≡ ok receipt)
          × IsConfirmed receipt
    by_end same (decided i early before found) =
        let (given, good) = attempt_receipt-ok tx_hash (nodes i) receipt (found ∙ ap some same) in
        (i, early, given, good)
    by_end same (expired i over before late) = absurd (cc)

attempt_block-ok :
    (after : ℕ) (node : Node) {r : Result RpcError ℕ}
    → attempt_block after node ≡ some r
    → (n : ℕ) × (block_number node ≡ ok n) × (r ≡ ok n) × (after < n)
unfolding attempt_block
attempt_block-ok after node {r} e = elim (Result-cases (block_number node)) [
  | inl (n, got) ↦ let found = rw (got, attempt_block) at e in (n, got, ground arith, ground arith)
  | inr (x, failed) ↦ absurd (cc (rw (failed, attempt_block) at e))
]

-- With a sleep of a second or more, `wait_for_block_after` returns, and a block number that it
-- returns is one that the node gave and lies above the block that was passed.
pub wait_for_block_after-gt :
    (nodes : ℕ → Node) (timing : Timing) (after timeout poll : ℕ)
    → 1 ≤ poll
    → (r : Result RpcError ℕ) × (wait_for_block_after nodes timing after timeout poll ≡ some r)
      × ((r ≡ err (block_timeout after timeout))
          ⊎ ((i : ℕ) × (n : ℕ) × (block_number (nodes i) ≡ ok n) × (r ≡ ok n) × (after < n)))
unfolding wait_for_block_after
wait_for_block_after-gt nodes timing after timeout poll p =
    let (r, run, ends) =
      poll_until-Ends timing timeout poll (λ round. attempt_block after (nodes round))
        (err (block_timeout after timeout)) p in
    (r, run, by_end ends)
  where
    by_end :
        {r : Result RpcError ℕ}
        → Ends timing timeout poll
            (λ round. attempt_block after (nodes round))
            (err (block_timeout after timeout))
            r
        → (r ≡ err (block_timeout after timeout))
          ⊎ ((i : ℕ) × (n : ℕ) × (block_number (nodes i) ≡ ok n) × (r ≡ ok n) × (after < n))
    by_end (decided i early before found) =
        let (n, got, same, above) = attempt_block-ok after (nodes i) found in
        inr (i, n, got, same, above)
    by_end (expired i over before late) = inl late

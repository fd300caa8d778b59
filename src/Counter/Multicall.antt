-- ===== src/Counter/Multicall.antt =====
-- The calldata that prove_block of apps/counter/src/routes.rs makes, as the account's multicall reads
-- it: the number of calls, and for each its contract, its selector, and its calldata with the length
-- in front.
use snip_36_prover_web.Prelude.{
  ℕ, zero, suc, ◌+◌, ◌*◌, ◌%◌, ◌<◌, String, List, [], ◌∷◌, replicate, Option, none, some, ◌≡◌, refl,
  sym, ap, ◌∙◌, arith,
}
use snip_36_prover_web.Prelude.Result.{ok, collect}
use snip_36_prover_web.Prelude.Hex.RoundTrip.{hex-one}
use snip_36_prover_web.Prelude.Words.{u64_mod}
use snip_36_prover_web.Felt.{FeltLib}
use snip_36_prover_web.Core.Signing.{felt_from_hex}
use snip_36_prover_web.Core.Signing.Reading.{ReadsHex}
use snip_36_prover_web.Counter.{increment_selector, push_calls, cycle_calldata, expected_increment}

pub record Call : Type 0 where
  pub to : ℕ
  pub selector : ℕ
  pub calldata : List ℕ

-- The first felts of a list, and those after them.
split_felts : ℕ → List ℕ → Option (List ℕ × List ℕ)
split_felts zero xs = some ([], xs)
split_felts (suc n) [] = none
split_felts (suc n) (x ∷ xs) = elim (split_felts n xs) [
  | none ↦ none
  | some parts ↦ some (x ∷ parts.0, parts.1)
]

and_call : ℕ → ℕ → List ℕ → Option (List Call) → Option (List Call)
and_call to selector calldata none = none
and_call to selector calldata (some calls) =
    some (record { to = to; selector = selector; calldata = calldata } ∷ calls)

-- Exactly `n` calls.
decode_calls : ℕ → List ℕ → Option (List Call)
decode_calls zero [] = some []
decode_calls zero (x ∷ xs) = none
decode_calls (suc n) (to ∷ selector ∷ len ∷ rest) = elim (split_felts len rest) [
  | none ↦ none
  | some parts ↦ and_call to selector parts.0 (decode_calls n parts.1)
]
decode_calls (suc n) _ = none

pub decode_multicall : List ℕ → Option (List Call)
unfolding decode_calls
decode_multicall [] = none
decode_multicall (n ∷ rest) = decode_calls n rest

abbrev pub increment_call : ℕ → ℕ → ℕ → Call
increment_call contract selector amount = record {
  to = contract;
  selector = selector;
  calldata = amount ∷ [];
}

pub decode_multicall-one :
    (contract selector amount : ℕ)
    → decode_multicall (1 ∷ contract ∷ selector ∷ 1 ∷ amount ∷ [])
      ≡ some (increment_call contract selector amount ∷ [])
unfolding decode_multicall decode_calls split_felts and_call
decode_multicall-one contract selector amount = refl

first_or_zero : List ℕ → ℕ
first_or_zero [] = 0
first_or_zero (x ∷ xs) = x

-- What the calls add up to.
pub total_increment : List Call → ℕ
unfolding first_or_zero
total_increment [] = 0
total_increment (c ∷ cs) = first_or_zero c.calldata + total_increment cs

call_felts : ℕ → ℕ → ℕ → ℕ → List ℕ
call_felts contract selector amount zero = []
call_felts contract selector amount (suc n) =
    contract ∷ selector ∷ 1 ∷ amount ∷ call_felts contract selector amount n

module _ (F : FeltLib) (laws : ReadsHex F) (contract_address : String) (contract selector : ℕ)
    (reads_contract : F.from_hex contract_address ≡ some contract)
    (reads_selector : F.from_hex increment_selector ≡ some selector) where
  push_calls-read :
      (amount n : ℕ)
      → amount < u64_mod
      → collect (felt_from_hex F) (push_calls contract_address amount n)
        ≡ ok (call_felts contract selector amount n)
  unfolding collect felt_from_hex push_calls call_felts
  push_calls-read amount zero h = refl
  push_calls-read amount (suc n) h =
      rw
        (
          reads_contract,
          reads_selector,
          ap F.from_hex (sym hex-one) ∙ laws.reads 1 (omega arith),
          laws.reads amount h,
          push_calls-read amount n h,
        )
        refl

decode-call_felts :
    (contract selector amount n : ℕ)
    → decode_calls n (call_felts contract selector amount n)
      ≡ some (replicate n (increment_call contract selector amount))
unfolding decode_calls call_felts split_felts and_call
decode-call_felts contract selector amount zero = refl
decode-call_felts contract selector amount (suc n) =
    ap (and_call contract selector (amount ∷ [])) (decode-call_felts contract selector amount n)

total_increment-replicate :
    (contract selector amount n : ℕ)
    → total_increment (replicate n (increment_call contract selector amount)) ≡ amount * n
unfolding total_increment
total_increment-replicate contract selector amount zero = omega arith
total_increment-replicate contract selector amount (suc n) =
    omega (arith, total_increment-replicate contract selector amount n)

-- The calldata of a cycle reads as felts, which the multicall decodes to as many calls as were asked
-- for, each `increment(amount)` on the contract; and what the calls add up to is, modulo 2^64, the
-- increment that is reported. This is for a contract address and a selector that are felts, for an
-- amount and a number of calls below 2^64, and where printed machine integers are read back.
pub cycle_calldata-decodes :
    (F : FeltLib) (laws : ReadsHex F) (contract_address : String)
    (contract selector amount calls : ℕ)
    → F.from_hex contract_address ≡ some contract
    → F.from_hex increment_selector ≡ some selector
    → amount < u64_mod
    → calls < u64_mod
    → (felts : List ℕ) × (collect (felt_from_hex F) (cycle_calldata contract_address amount calls)
        ≡ ok felts)
      × (decode_multicall felts ≡ some (replicate calls (increment_call contract selector amount)))
      × (total_increment (replicate calls (increment_call contract selector amount)) % u64_mod
          ≡ expected_increment amount calls)
unfolding collect felt_from_hex cycle_calldata decode_multicall expected_increment
cycle_calldata-decodes F laws address contract selector amount calls c s a n = (
  calls ∷ call_felts contract selector amount calls,
  rw (laws.reads calls n, push_calls-read F laws address contract selector c s amount calls a) refl,
  decode-call_felts contract selector amount calls,
  ap (λ t. t % u64_mod) (total_increment-replicate contract selector amount calls),
)

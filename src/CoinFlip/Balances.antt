-- ===== src/CoinFlip/Balances.antt =====
-- The handlers of apps/coinflip/src/routes.rs that only read: coinflip_status, bank_status,
-- player_balance and player_winnings. The node is outside, and so is the printing of an amount in STRK,
-- a floating-point number.
use snip_36_prover_web.Prelude.{ℕ, String, Bool, true, false, List, [], ◌∷◌, Option, none, some}
use snip_36_prover_web.Prelude.Result.{Result, ok, err, ◌>>=◌, map_err, unwrap_or}
use snip_36_prover_web.Prelude.Http.{HttpError, internal_error}
use snip_36_prover_web.Prelude.Hex.{parse_hex}
use snip_36_prover_web.Prelude.Words.{u128_mod}
use snip_36_prover_web.Core.Types.{strk_token}
use snip_36_prover_web.Core.Rpc.{Node, RpcError, starknet_call}
use snip_36_prover_web.CoinFlip.State.{State}
use snip_36_prover_web.CoinFlip.Deposit.{deployed_bank}

pub record CoinFlipStatusResponse : Type 0 where
  pub deployed : Bool
  pub contract_address : Option String

unfoldable pub coinflip_status : State → CoinFlipStatusResponse
coinflip_status st = elim st.coinflip [
  | some d ↦ record { deployed = true; contract_address = some d.contract_address }
  | none ↦ record { deployed = false; contract_address = none }
]

abbrev pub balance_of_selector : String
balance_of_selector = "0x2e4263afad30923c891518314c3c95dbe830a16874e8abc5777a9a20b54c76e"

abbrev pub get_balance_selector : String
get_balance_selector = "0x39e11d48192e4333233c7eb19d10ad67c362bb28580c604d67884c85da39695"

pub record BankStatusResponse : Type 0 where
  pub deployed : Bool
  pub contract_address : Option String
  pub bank_balance : Option String

-- The first of the values, if it is a `u128`.
unfoldable pub low_wei : List String → Option ℕ
low_wei [] = none
low_wei (low ∷ more) = parse_hex u128_mod low

pub record BalanceResponse : Type 0 where
  pub balance : String
  pub balance_wei : String

pub record BankBalanceResponse : Type 0 where
  pub winnings : String
  pub winnings_wei : String
  pub bank_address : String

unfoldable pub first_or_zero : List String → String
first_or_zero [] = "0x0"
first_or_zero (low ∷ more) = low

-- `format_strk` prints an amount of wei in STRK.
module _ (format_strk : ℕ → String) where
  unfoldable pub printed : Result RpcError (List String) → Option String
  printed (err e) = none
  printed (ok result) = elim (low_wei result) [ none ↦ none | some wei ↦ some (format_strk wei) ]

  unfoldable pub bank_status : Node → State → BankStatusResponse
  bank_status node st = elim st.bank [
    | some d ↦ record {
      deployed = true;
      contract_address = some d.contract_address;
      bank_balance =
          printed (starknet_call node strk_token balance_of_selector (d.contract_address ∷ []));
    }
    | none ↦ record { deployed = false; contract_address = none; bank_balance = none }
  ]

  unfoldable pub player_balance : Node → String → Result HttpError BalanceResponse
  player_balance node address = do
    result ←
        map_err (λ e. internal_error "balance_of failed")
          (starknet_call node strk_token balance_of_selector (address ∷ []))
    let low = first_or_zero result
    ok (record { balance = format_strk (unwrap_or (parse_hex u128_mod low) 0); balance_wei = low })

  unfoldable pub player_winnings : Node → State → String → Result HttpError BankBalanceResponse
  player_winnings node st address = do
    bank ← deployed_bank st
    result ←
        map_err (λ e. internal_error "get_balance failed")
          (starknet_call node bank.contract_address get_balance_selector (address ∷ []))
    let low = first_or_zero result
    ok (record {
      winnings = format_strk (unwrap_or (parse_hex u128_mod low) 0);
      winnings_wei = low;
      bank_address = bank.contract_address;
    })

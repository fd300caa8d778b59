-- ===== src/Tests/Deploy.antt =====
-- The deployment of the coin flip's bank at a concrete input.
use snip_36_prover_web.Prelude.{String, true, none, some, ◌≡◌, ◌⊎◌, refl}
use snip_36_prover_web.Prelude.Result.{Result, ok, err}
use snip_36_prover_web.Prelude.Hex.{hex_code}
use snip_36_prover_web.Core.Json.{Json, num, obj, end, field, get, as_u64}
use snip_36_prover_web.Core.Rpc.{RpcError, http, receipt_block_number}
use snip_36_prover_web.Core.Sncast.{Deployer}
use snip_36_prover_web.CoinFlip.State.{Deployment, State}
use snip_36_prover_web.CoinFlip.Lifecycle.{new_state}
use snip_36_prover_web.CoinFlip.Deposit.{Sncast, sncast_invoke}
use snip_36_prover_web.CoinFlip.Deploy.{new_bank, fund_bank, deploy_bank}
use snip_36_prover_web.CoinFlip.Deploy.Laws.{IsNew, IsRequested, deploy_bank-IsRequested}

abbrev deployer : Deployer
deployer = record {
  declared = ok (some "0xbb");
  deploy = λ class_hash.
      ok
        (record { success = true; contract_address = some "0xba"; transaction_hash = some "0xd1" });
}

abbrev confirms : String → Result RpcError Json
confirms tx_hash = ok (obj (field "block_number" (num 41) end))

-- It finds a hash for every call, of which none is confirmed in time.
abbrev sncast : Sncast
sncast = record {
  invoke = λ contract_address function calldata. ok (some "0xd2");
  confirm = λ tx_hash. err http;
}

abbrev empty : State
empty = new_state none none

abbrev bank : Deployment
bank = record { contract_address = "0xba"; class_hash = "0xbb"; deploy_block = 41 }

bank_deployed :
    deploy_bank deployer confirms sncast empty empty ≡ ok (bank, new_state none (some bank))
unfolding deploy_bank new_bank fund_bank sncast_invoke receipt_block_number get as_u64 new_state
    hex_code
bank_deployed = refl

deploy_bank-IsRequested_example :
    (((empty.bank ≡ some bank) × (new_state none (some bank) ≡ empty))
      ⊎ ((empty.bank ≡ none)
          × IsNew deployer confirms bank
          × IsRequested sncast bank.contract_address
          × (new_state none (some bank) ≡ record empty { bank = some bank })))
    × ((new_state none (some bank)).bank ≡ some bank)
    × ((others : Deployer) (waits : String → Result RpcError Json) (runs : Sncast) (later : State)
        → deploy_bank others waits runs (new_state none (some bank)) later
          ≡ ok (bank, new_state none (some bank)))
deploy_bank-IsRequested_example =
    deploy_bank-IsRequested deployer confirms sncast empty empty bank (new_state none (some bank))
      bank_deployed

-- ===== src/Core/Sncast.antt =====
-- The runs of sncast with which apps/coinflip/src/routes.rs and apps/counter/src/routes.rs deploy a
-- contract, as the handlers read their output.
use snip_36_prover_web.Prelude.{String, Bool, Option}
use snip_36_prover_web.Prelude.Result.{Result}

-- Whether a run of sncast that deploys succeeded, and what is found in its output.
pub record DeployOutput : Type 0 where
  pub success : Bool
  pub contract_address : Option String
  pub transaction_hash : Option String

-- The two runs of sncast: the class hash found in the output of the first, and the second, of a class
-- hash. A command that does not run is an error's text.
pub record Deployer : Type 0 where
  pub declared : Result String (Option String)
  pub deploy : String → Result String DeployOutput

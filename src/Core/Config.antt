-- ===== src/Core/Config.antt =====
-- crates/snip36-core/src/config.rs: configuration from the environment, and the chain id as a felt.
pub mod Laws
use Prim.Native.String.{◌++◌}
use Prim.Native.Char.{code}
use snip_36_prover_web.Prelude.{
  ℕ, ◌-◌, String, Bool, true, false, List, [], ◌∷◌, Option, none, some, length, replicate, ltb,
  str_eq, ◌==◌, if◌then◌else◌, ◌≡◌, refl,
}
use snip_36_prover_web.Prelude.Result.{Result, ok, err, ◌>>=◌, ok_or, unwrap_or}
use snip_36_prover_web.Prelude.Text.{as_bytes}
use snip_36_prover_web.Felt.{FeltLib}
use mathlib.Core.List

pub record Config : Type 0 where
  pub rpc_url : String
  pub account_address : String
  pub private_key : String
  pub chain_id : String
  pub gateway_url : Option String
  pub project_dir : String
  pub output_dir : String
  pub deps_dir : String

pub data ConfigError : Type 0 where
  missing : String → ConfigError
  invalid_chain_id : String → ℕ → ConfigError

-- The variables of the process; `None` is a missing one, or one that is no text.
abbrev pub Env : Type 0
Env = String → Option String

-- What `from_env` takes from outside: the dotenvy crate, which fills the environment from a file,
-- and the file system. An error of dotenvy is dropped by the caller, so it is part of the result.
pub record Host : Type 0 where
  pub exists : String → Bool
  pub from_path : String → Env → Env
  pub dotenv : Env → Env
  pub current_dir : Option String

-- `Path::join` of a relative path.
ends_with_slash : String → Bool
ends_with_slash String.[] = false
ends_with_slash (String.◌∷◌ c String.[]) = code c == 47
ends_with_slash (String.◌∷◌ c s) = ends_with_slash s

unfoldable pub join : String → String → String
unfolding ends_with_slash
join a b = if str_eq a "" then b else if ends_with_slash a then a ++ b else (a ++ "/") ++ b

or_else : Option String → Option String → Option String
or_else (some a) b = some a
or_else none b = b

non_empty : Option String → Option String
non_empty none = none
non_empty (some s) = if str_eq s "" then none else some s

load_env : Host → Option String → Env → Env
load_env h (some path) env = if h.exists path then h.from_path path env else env
load_env h none env = h.dotenv env

read_config : Host → Env → Result ConfigError Config
unfolding or_else non_empty
read_config h env = do
  rpc_url ← ok_or (env "STARKNET_RPC_URL") (missing "STARKNET_RPC_URL")
  account_address ←
      ok_or (or_else (env "STARKNET_ACCOUNT_ADDRESS") (env "MASTER_ACCOUNT_ADDRESS"))
        (missing "STARKNET_ACCOUNT_ADDRESS")
  private_key ←
      ok_or (or_else (env "STARKNET_PRIVATE_KEY") (env "MASTER_PRIVATE_KEY"))
        (missing "STARKNET_PRIVATE_KEY")
  let project_dir = unwrap_or (env "SNIP36_PROJECT_DIR") (unwrap_or h.current_dir ".")
  ok (record {
    rpc_url = rpc_url;
    account_address = account_address;
    private_key = private_key;
    chain_id = unwrap_or (env "STARKNET_CHAIN_ID") "SN_SEPOLIA";
    gateway_url = non_empty (env "STARKNET_GATEWAY_URL");
    project_dir = project_dir;
    output_dir = join project_dir "output";
    deps_dir = join project_dir "deps";
  })

unfoldable pub from_env : Host → Option String → Env → Result ConfigError Config
unfolding load_env read_config
from_env h env_file env = read_config h (load_env h env_file env)

-- A buffer of 32 bytes with the text at its end; more than 31 bytes are refused.
unfoldable pub chain_id_felt : FeltLib → Config → Result ConfigError ℕ
chain_id_felt F c =
    let bytes = as_bytes c.chain_id in
    if ltb 31 (length bytes)
    then err (invalid_chain_id c.chain_id (length bytes))
    else ok (F.from_bytes_be_slice (List.◌++◌ (replicate (32 - length bytes) 0) bytes))

unfoldable pub prover_bin : Config → String
prover_bin c = join c.deps_dir "bin/stwo-run-and-prove"

unfoldable pub runner_bin : Config → String
runner_bin c = join c.deps_dir "sequencer/target/release/starknet_transaction_prover"

unfoldable pub bootloader_program : Config → String
bootloader_program c = join c.deps_dir "bin/bootloader_program.json"

unfoldable pub prover_params : Config → String
prover_params c = join c.project_dir "sample-input/prover_params.json"

unfoldable pub contracts_dir : Config → String
contracts_dir c = join c.project_dir "tests/contracts"

unfoldable pub sncast_account : Env → String
sncast_account env = unwrap_or (env "SNCAST_ACCOUNT") "playground-master"

join_test : join "/srv/app" "output" ≡ "/srv/app/output"
unfolding join
join_test = refl

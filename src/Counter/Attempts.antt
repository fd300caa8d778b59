-- ===== src/Counter/Attempts.antt =====
-- How the submission loop of prove_block (apps/counter/src/routes.rs) ends.
use snip_36_prover_web.Prelude.{String, ◌≡◌}
use snip_36_prover_web.Prelude.Result.{Result, ok, err}
use snip_36_prover_web.Core.Json.{Json}
use snip_36_prover_web.Core.Rpc.{RpcError}
use snip_36_prover_web.Counter.Cycle.{CycleError, submission_failed}

-- A deciding reply is reported as it is.
IsReported : Result RpcError String → Result CycleError String → Type 0
IsReported (ok h) outcome = outcome ≡ ok h
IsReported (err e) outcome = outcome ≡ err (submission_failed e)

-- ===== src/Execution/Validate.antt =====
-- `_validate_plan_integrity` and `_validate_execution_inputs` of execution.py.
use airgapped_ai_gateway_k8s.Base.{
  String, Bool, true, false, not, ◌||◌, Option, none, some, ◌==◌, contains, ◌&&◌,
}
use airgapped_ai_gateway_k8s.Base.Outcome.{
  Result, ok, err, safety_error, execution_error, ◌>>=◌, ◌>>◌, raise_if,
}
use airgapped_ai_gateway_k8s.Models.{GatewayConfig}
use airgapped_ai_gateway_k8s.Safety.{mutating_actions}
use airgapped_ai_gateway_k8s.Ledger.Snapshot.{PreChangeSnapshot, require_ok}
use airgapped_ai_gateway_k8s.Ledger.State.{StateLedger}
use airgapped_ai_gateway_k8s.Planning.Plan.{ExecutionPlan, Hashing, with_computed_id}

unfoldable pub validate_plan_integrity : Hashing → ExecutionPlan → Result (Unit {0})
unfolding with_computed_id
validate_plan_integrity hashing plan =
    raise_if (not ((with_computed_id hashing plan).plan_id == plan.plan_id))
      (execution_error "plan_id does not match the approved plan contents")

abbrev pub is_none {ℓ} : {A : Type ℓ} → Option A → Bool
is_none none = true
is_none (some a) = false

-- The arguments of `execute_plan` beside the plan and the configuration.
pub record Arguments : Type 0 where
  pub expected_context : String
  pub apply_mode : String
  pub confirmation : String
  pub snapshot : Option PreChangeSnapshot
  pub ledger : Option StateLedger

unfoldable pub require_snapshot : Option PreChangeSnapshot → Result PreChangeSnapshot
require_snapshot none = err (execution_error "requires a saved pre-change snapshot")
require_snapshot (some snapshot) = ok snapshot

unfoldable pub validate_execution_inputs :
    ExecutionPlan → GatewayConfig → Arguments → Result (Unit {0})
unfolding require_snapshot require_ok
validate_execution_inputs plan config args = do
  raise_if (not (contains mutating_actions plan.command))
      (execution_error "executor only accepts state-changing plans")
  raise_if
      (not (args.expected_context == config.platform.cluster.expected_context)
        || not (args.expected_context == plan.expected_context))
      (safety_error "expected context must match the saved plan exactly")
  raise_if (not (args.apply_mode == plan.apply_mode))
      (safety_error "apply mode must match the saved plan exactly")
  raise_if (not (args.confirmation == config.platform.confirmation_token))
      (safety_error "confirmation token does not match configuration")
  snapshot ← require_snapshot args.snapshot
  require_ok snapshot
  raise_if (plan.command == "rollback apply" && is_none args.ledger)
      (execution_error "rollback apply requires the saved state ledger")

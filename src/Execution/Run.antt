-- ===== src/Execution/Run.antt =====
-- `execute_plan` of execution.py.
use airgapped_ai_gateway_k8s.Base.{
  String, Bool, false, not, ◌&&◌, ◌||◌, List, [], ◌∷◌, Option, none, some, ◌==◌, contains,
  if◌then◌else◌,
}
use airgapped_ai_gateway_k8s.Base.Outcome.{Result, ok, err, safety_error}
use airgapped_ai_gateway_k8s.Base.Json.{Fields}
use airgapped_ai_gateway_k8s.Base.Exec.{Exec, pure, raise, lift, ◌>>=◌, ◌>>◌}
use airgapped_ai_gateway_k8s.Base.Runner.{Runner}
use airgapped_ai_gateway_k8s.Models.{GatewayConfig}
use airgapped_ai_gateway_k8s.Ledger.Snapshot.{PreChangeSnapshot}
use airgapped_ai_gateway_k8s.Ledger.State.{StateLedger, ledger_from_resources}
use airgapped_ai_gateway_k8s.Planning.Action.{PlanAction}
use airgapped_ai_gateway_k8s.Planning.Plan.{ExecutionPlan, Hashing}
use airgapped_ai_gateway_k8s.Conditions.Poll.{Loads}
use airgapped_ai_gateway_k8s.Execution.Log.{ExecState}
use airgapped_ai_gateway_k8s.Execution.Step.{ActionResult, execute_action}
use airgapped_ai_gateway_k8s.Execution.Validate.{
  Arguments, require_snapshot, validate_plan_integrity, validate_execution_inputs,
}

pub record ExecutionReport : Type 0 where
  pub status : String
  pub plan_id : String
  pub command : String
  pub apply_mode : String
  pub results : List ActionResult
  pub ledger : Option StateLedger

-- The code outside the repository that an execution calls: the hash and the JSON printer,
-- `json.loads`, `yaml.safe_dump`, and the command runner.
pub record Tools : Type 0 where
  pub hashing : Hashing
  pub loads : Loads
  pub yaml_dump : Fields → String
  pub runner : Runner

abbrev pub ledger_commands : List String
ledger_commands = "deploy apply" ∷ "cutover apply" ∷ "gitops apply" ∷ []

abbrev pub recorded : Result StateLedger → Result (Option StateLedger)
recorded (ok l) = ok (some l)
recorded (err e) = err e

-- The ledger of the report.
unfoldable pub report_ledger :
    ExecutionPlan → PreChangeSnapshot → Option StateLedger → Result (Option StateLedger)
report_ledger plan snapshot ledger =
    if contains ledger_commands plan.command
    then recorded (ledger_from_resources plan.resources snapshot plan.plan_id)
    else if plan.command == "rollback apply"
    then ok ledger
    else ok none

abbrev pub succeeded_report :
    ExecutionPlan → List ActionResult → Option StateLedger → ExecutionReport
succeeded_report plan results ledger = record {
  status = "succeeded";
  plan_id = plan.plan_id;
  command = plan.command;
  apply_mode = plan.apply_mode;
  results = results;
  ledger = ledger;
}

module _ (tools : Tools) where
  -- The loop over the actions, with the flag `context_verified`.
  unfoldable pub run_actions :
      String → Option StateLedger → List PlanAction → Bool → Exec ExecState (List ActionResult)
  run_actions expected_context ledger [] verified = pure []
  run_actions expected_context ledger (a ∷ actions) verified =
      if a.mutating && not verified
      then raise (safety_error "refused before context verification")
      else do
        result ← execute_action tools.loads tools.yaml_dump tools.runner expected_context ledger a
        results ←
            run_actions expected_context ledger actions (verified || a.kind == "verify-context")
        pure (result ∷ results)

  unfoldable pub execute_plan :
      ExecutionPlan → GatewayConfig → Arguments → Exec ExecState ExecutionReport
  unfolding validate_plan_integrity validate_execution_inputs run_actions report_ledger
      require_snapshot ◌>>=◌
  execute_plan plan config args = do
    lift (validate_plan_integrity tools.hashing plan)
    lift (validate_execution_inputs plan config args)
    snapshot ← lift (require_snapshot args.snapshot)
    results ← run_actions args.expected_context args.ledger plan.actions false
    ledger ← lift (report_ledger plan snapshot args.ledger)
    pure (succeeded_report plan results ledger)

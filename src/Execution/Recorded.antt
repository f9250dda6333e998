-- ===== src/Execution/Recorded.antt =====
-- The command log of execution.py and the calls.
use airgapped_ai_gateway_k8s.Base.{
  String, Bool, List, [], ◌∷◌, ◌++◌, map, Option, ◌≡◌, refl, ◌||◌, ◌==◌, map_append, append_nil,
  sym,
}
use airgapped_ai_gateway_k8s.Base.Outcome.{Result, ok, err}
use airgapped_ai_gateway_k8s.Base.Exec.{
  Keeps, Keeps-bind, Keeps-if, Keeps-lift, Keeps-pure, Keeps-raise,
}
use airgapped_ai_gateway_k8s.Base.Runner.{Call, History, Runner}
use airgapped_ai_gateway_k8s.Models.{CommandResult, GatewayConfig}
use airgapped_ai_gateway_k8s.Ledger.State.{StateLedger}
use airgapped_ai_gateway_k8s.Planning.Action.{PlanAction}
use airgapped_ai_gateway_k8s.Planning.Plan.{ExecutionPlan}
use airgapped_ai_gateway_k8s.Execution.Log.{
  CommandLogEntry, ExecState, entry_of, initial, noted, logging_run,
}
use airgapped_ai_gateway_k8s.Execution.Validate.{
  Arguments, require_snapshot, validate_plan_integrity, validate_execution_inputs,
}
use airgapped_ai_gateway_k8s.Execution.Run.{
  Tools, run_actions, report_ledger, execute_plan, succeeded_report,
}
use airgapped_ai_gateway_k8s.Execution.Keeping.{Keeps-execute_action}

abbrev entry_if_answered : Result CommandResult → Call → List CommandLogEntry
entry_if_answered (ok result) call = entry_of "" call result ∷ []
entry_if_answered (err e) call = []

-- The entries of the calls that the runner answered, in the order of the calls.
abbrev pub answered : Runner → History → List CommandLogEntry
answered runner [] = []
answered runner (call ∷ calls) = answered runner calls ++ entry_if_answered (runner calls call) call

abbrev pub without_action : CommandLogEntry → CommandLogEntry
without_action e = record e { action_id = "" }

abbrev Recorded : Runner → ExecState → Type 0
Recorded runner s = map without_action s.log ≡ answered runner s.calls

Recorded-logging_run :
    (runner : Runner) (call : Call) → Keeps (Recorded runner) (logging_run runner call)
unfolding logging_run noted
Recorded-logging_run runner call = record { from = λ s h. go s (runner s.calls call) refl h }
  where
    go :
        (s : ExecState) (r : Result CommandResult)
        → runner s.calls call ≡ r
        → Recorded runner s
        → Recorded runner (noted call r s).1
    go s (ok result) e h = rw (e, map_append without_action s.log, h) refl
    go s (err x) e h = rw (e, h) (sym (append_nil (answered runner s.calls)))

module _ (tools : Tools) (context : String) (ledger : Option StateLedger) where
  Recorded-run_actions :
      (actions : List PlanAction) (verified : Bool)
      → Keeps (Recorded tools.runner) (run_actions tools context ledger actions verified)
  unfolding run_actions
  Recorded-run_actions [] verified = Keeps-pure []
  Recorded-run_actions (a ∷ actions) verified = Keeps-if _ _ _ (Keeps-raise _) (
      Keeps-bind _ _
        (Keeps-execute_action tools.runner tools.loads tools.yaml_dump (Recorded tools.runner)
          (λ argv. Unit) (λ call _. Recorded-logging_run tools.runner call) (λ _ _ _. tt) a tt
          context ledger (λ s id h. h))
        λ result.
          Keeps-bind _ _ (Recorded-run_actions actions (verified || a.kind == "verify-context"))
            λ results. Keeps-pure (result ∷ results))

Recorded-execute_plan :
    (tools : Tools) (plan : ExecutionPlan) (config : GatewayConfig) (args : Arguments)
    → Keeps (Recorded tools.runner) (execute_plan tools plan config args)
unfolding execute_plan
Recorded-execute_plan tools plan config args =
    Keeps-bind _ _ (Keeps-lift (validate_plan_integrity tools.hashing plan)) λ _.
      Keeps-bind _ _ (Keeps-lift (validate_execution_inputs plan config args)) λ _.
        Keeps-bind _ _ (Keeps-lift (require_snapshot args.snapshot)) λ snapshot.
          Keeps-bind _ _
            (Recorded-run_actions tools args.expected_context args.ledger plan.actions _)
            λ results.
              Keeps-bind _ _ (Keeps-lift (report_ledger plan snapshot args.ledger))
                λ ledger. Keeps-pure (succeeded_report plan results ledger)

-- After any execution, whether it succeeded or raised, the command log has one entry for each call
-- that the runner answered, in the order of the calls and no other, with the call's command line
-- and sensitivity and the answer's return code and output.
pub execute_plan-Recorded :
    (tools : Tools) (plan : ExecutionPlan) (config : GatewayConfig) (args : Arguments)
    → map without_action (execute_plan tools plan config args initial).1.log
      ≡ answered tools.runner (execute_plan tools plan config args initial).1.calls
execute_plan-Recorded tools plan config args =
    (Recorded-execute_plan tools plan config args).from initial refl

-- ===== src/Execution/Report.antt =====
-- The report of an execution that succeeded.
use airgapped_ai_gateway_k8s.Base.{
  String, Bool, true, false, ◌||◌, ◌==◌, List, [], ◌∷◌, Option, none, some, ◌≡◌, refl, sym, arith,
  contains,
}
use airgapped_ai_gateway_k8s.Base.Outcome.{Result, ok, err, IfOk-eq, ok-injective}
use airgapped_ai_gateway_k8s.Base.Json.{Fields}
use airgapped_ai_gateway_k8s.Base.Exec.{Exec, lift, pure}
use airgapped_ai_gateway_k8s.Base.Yields.{
  Yields, Yields-pure, Yields-raise, Yields-if, Yields-bind, Yields-lift, Yields-after,
  yields_rules,
}
use airgapped_ai_gateway_k8s.Base.Runner.{Runner}
use airgapped_ai_gateway_k8s.Models.{CommandResult, GatewayConfig}
use airgapped_ai_gateway_k8s.Ledger.Snapshot.{PreChangeSnapshot}
use airgapped_ai_gateway_k8s.Ledger.State.{StateLedger, ledger_from_resources}
use airgapped_ai_gateway_k8s.Conditions.Poll.{Loads}
use airgapped_ai_gateway_k8s.Planning.Action.{PlanAction}
use airgapped_ai_gateway_k8s.Planning.Plan.{ExecutionPlan}
use airgapped_ai_gateway_k8s.Execution.Log.{ExecState}
use airgapped_ai_gateway_k8s.Execution.Step.{
  ActionResult, action_result, ready_result, verify_context, diff, read_ingress, apply_or_delete,
  restore, poll, dispatch, execute_action,
}
use airgapped_ai_gateway_k8s.Execution.Validate.{
  Arguments, require_snapshot, validate_plan_integrity, validate_execution_inputs,
}
use airgapped_ai_gateway_k8s.Execution.Run.{
  Tools, run_actions, report_ledger, ledger_commands, recorded, execute_plan, succeeded_report,
  ExecutionReport,
}

-- The result names its action.
abbrev pub IsOf : PlanAction → ActionResult → Type 0
IsOf a r = (r.action_id ≡ a.id) × (r.kind ≡ a.kind)

made :
    (a : PlanAction) (result : CommandResult) (status : String)
    → Yields {S = ExecState} (IsOf a) (pure (action_result a result status))
unfolding action_result
made a result status = Yields-pure _ (refl, refl)

made_ready : (a : PlanAction) → Yields {S = ExecState} (IsOf a) (pure (ready_result a))
unfolding ready_result
made_ready a = Yields-pure _ (refl, refl)

ruleset report_rules = (yields_rules, made, made_ready)

module _ (loads : Loads) (yaml_dump : Fields → String) (runner : Runner) (a : PlanAction) where
  IsOf-verify_context :
      (context : String) → Yields (IsOf a) (verify_context loads yaml_dump runner context a)
  unfolding verify_context
  IsOf-verify_context context = search report_rules

  IsOf-diff : Yields (IsOf a) (diff loads yaml_dump runner a)
  unfolding diff
  IsOf-diff = search report_rules

  IsOf-read_ingress : Yields (IsOf a) (read_ingress loads yaml_dump runner a)
  unfolding read_ingress
  IsOf-read_ingress = search report_rules

  IsOf-apply_or_delete : Yields (IsOf a) (apply_or_delete loads yaml_dump runner a)
  unfolding apply_or_delete
  IsOf-apply_or_delete = search report_rules

  IsOf-restore :
      (ledger : Option StateLedger) → Yields (IsOf a) (restore loads yaml_dump runner ledger a)
  unfolding restore
  IsOf-restore ledger = search report_rules

  IsOf-poll :
      (wait : String → String → Exec ExecState (Unit {0}))
      → Yields (IsOf a) (poll loads yaml_dump runner wait a)
  unfolding poll
  IsOf-poll wait = search report_rules

  ruleset kinds_rules = (
    Yields-if, Yields-raise, IsOf-verify_context, IsOf-diff, IsOf-read_ingress,
    IsOf-apply_or_delete, IsOf-restore, IsOf-poll,
  )

  IsOf-dispatch :
      (context : String) (ledger : Option StateLedger) (kind : String)
      → Yields (IsOf a) (dispatch loads yaml_dump runner context ledger kind a)
  unfolding dispatch
  IsOf-dispatch context ledger kind = search kinds_rules depth 14

  IsOf-execute_action :
      (context : String) (ledger : Option StateLedger)
      → Yields (IsOf a) (execute_action loads yaml_dump runner context ledger a)
  unfolding execute_action
  IsOf-execute_action context ledger = Yields-bind _ _ (λ _. IsOf-dispatch context ledger a.kind)

-- One result for each action, in order.
abbrev pub Answers : List PlanAction → List ActionResult → Type 0
Answers [] [] = Unit
Answers (a ∷ actions) (r ∷ results) = IsOf a r × Answers actions results
Answers _ _ = ⊥

module _ (tools : Tools) (context : String) (ledger : Option StateLedger) where
  Answers-run_actions :
      (actions : List PlanAction) (verified : Bool)
      → Yields (Answers actions) (run_actions tools context ledger actions verified)
  unfolding run_actions
  Answers-run_actions [] verified = Yields-pure [] tt
  Answers-run_actions (a ∷ actions) verified = Yields-if _ _ _ (Yields-raise _) (
      Yields-after _ _
        (IsOf-execute_action tools.loads tools.yaml_dump tools.runner a context ledger)
        λ r hr.
          Yields-after _ _ (Answers-run_actions actions (verified || a.kind == "verify-context"))
            λ results hs. Yields-pure (r ∷ results) (hr, hs))

-- What a report says of the plan and of the arguments.
pub record IsReport (plan : ExecutionPlan) (args : Arguments) (report : ExecutionReport)
    : Type 0 where
  pub status : report.status ≡ "succeeded"
  pub plan_id : report.plan_id ≡ plan.plan_id
  pub command : report.command ≡ plan.command
  pub apply_mode : report.apply_mode ≡ plan.apply_mode
  pub results : Answers plan.actions report.results
  pub new_ledger :
      contains ledger_commands plan.command ≡ true
      → (snapshot : PreChangeSnapshot) × (l : StateLedger) × (args.snapshot ≡ some snapshot)
        × (ledger_from_resources plan.resources snapshot plan.plan_id ≡ ok l)
        × (report.ledger ≡ some l)
  pub same_ledger : plan.command ≡ "rollback apply" → report.ledger ≡ args.ledger
  pub no_ledger : plan.command ≡ "destroy apply" → report.ledger ≡ none

recorded-eq_ok :
    (r : Result StateLedger) (o : Option StateLedger)
    → recorded r ≡ ok o
    → (l : StateLedger) × (r ≡ ok l) × (o ≡ some l)
recorded-eq_ok (ok l) o h = (l, refl, sym (ok-injective h))
recorded-eq_ok (err e) o h = cc

IsReport-succeeded :
    (plan : ExecutionPlan) (args : Arguments) (snapshot : PreChangeSnapshot)
    (results : List ActionResult) (ledger : Option StateLedger)
    → args.snapshot ≡ some snapshot
    → Answers plan.actions results
    → report_ledger plan snapshot args.ledger ≡ ok ledger
    → IsReport plan args (succeeded_report plan results ledger)
unfolding report_ledger
IsReport-succeeded plan args snapshot results ledger given answers e = record {
  status = refl;
  plan_id = refl;
  command = refl;
  apply_mode = refl;
  results = answers;
  new_ledger = λ c.
      let inner = recorded-eq_ok _ ledger (recorded_result c) in
      (snapshot, inner.0, given, inner.1, inner.2);
  same_ledger = λ c. sym (ok-injective (with_command c e));
  no_ledger = λ c. sym (ok-injective (without_ledger c e));
}
  where
    recorded_result :
        contains ledger_commands plan.command ≡ true
        → recorded (ledger_from_resources plan.resources snapshot plan.plan_id) ≡ ok ledger
    recorded_result c = rw c at e

    with_command :
        plan.command ≡ "rollback apply"
        → report_ledger plan snapshot args.ledger ≡ ok ledger
        → ok args.ledger ≡ ok ledger
    with_command c e = rw c at e

    without_ledger :
        plan.command ≡ "destroy apply"
        → report_ledger plan snapshot args.ledger ≡ ok ledger
        → ok none ≡ ok ledger
    without_ledger c e = rw c at e

given_of :
    (o : Option PreChangeSnapshot) {snapshot : PreChangeSnapshot}
    → require_snapshot o ≡ ok snapshot
    → o ≡ some snapshot
unfolding require_snapshot
given_of none h = cc
given_of (some snapshot) h = ground arith

Yields-execute_plan :
    (tools : Tools) (plan : ExecutionPlan) (config : GatewayConfig) (args : Arguments)
    → Yields (IsReport plan args) (execute_plan tools plan config args)
unfolding execute_plan
Yields-execute_plan tools plan config args =
    Yields-bind (lift (validate_plan_integrity tools.hashing plan)) _ λ _.
      Yields-bind (lift (validate_execution_inputs plan config args)) _ λ _.
        Yields-after _ _
          (Yields-lift (require_snapshot args.snapshot) (λ snapshot e. given_of args.snapshot e))
          λ snapshot given.
            Yields-after _ _
              (Answers-run_actions tools args.expected_context args.ledger plan.actions false)
              λ results answers.
                Yields-after _ _
                  (Yields-lift (report_ledger plan snapshot args.ledger) (λ ledger e. e))
                  λ ledger e.
                    Yields-pure _
                      (IsReport-succeeded plan args snapshot results ledger given answers e)

-- If an execution returns a report, the report has the status `succeeded`, the identifier, command
-- and mode of the plan, and one result for each action of the plan, in order, under the action's id
-- and kind. For a deploy, a cutover and a GitOps plan its ledger is the one that
-- `ledger_from_resources` makes of the plan's resources, the given snapshot and the plan's
-- identifier; for a rollback it is the given ledger, and for a destroy there is none.
pub execute_plan-IsReport :
    (tools : Tools) (plan : ExecutionPlan) (config : GatewayConfig) (args : Arguments)
    (s : ExecState) (report : ExecutionReport)
    → (execute_plan tools plan config args s).0 ≡ ok report
    → IsReport plan args report
execute_plan-IsReport tools plan config args s report e =
    IfOk-eq (IsReport plan args) _ ((Yields-execute_plan tools plan config args).from s) e

-- ===== src/Execution/Context/Plan.antt =====
-- `execute_plan` of execution.py against the context check: the whole loop over the actions.
use airgapped_ai_gateway_k8s.Base.{
  String, Bool, true, false, not, ◌&&◌, ◌||◌, List, [], ◌∷◌, Option, ◌==◌, ◌≡◌, inl, inr, arith,
  All, Bool-cases,
}
use airgapped_ai_gateway_k8s.Base.Outcome.{ok}
use airgapped_ai_gateway_k8s.Base.Exec.{
  Exec, ◌>>=◌, Keeps, Keeps-bind, Keeps-lift, Keeps-pure, after_bind, pure, raise, modify,
}
use airgapped_ai_gateway_k8s.Models.{GatewayConfig}
use airgapped_ai_gateway_k8s.Conditions.Poll.{}
use airgapped_ai_gateway_k8s.Conditions.Checks.{}
use airgapped_ai_gateway_k8s.Ledger.State.{StateLedger}
use airgapped_ai_gateway_k8s.Planning.Action.{PlanAction}
use airgapped_ai_gateway_k8s.Execution.Step.{dispatch, execute_action, ActionResult}
use airgapped_ai_gateway_k8s.Execution.Run.{
  Tools, run_actions, report_ledger, execute_plan, succeeded_report,
}
use airgapped_ai_gateway_k8s.Planning.Plan.{ExecutionPlan}
use airgapped_ai_gateway_k8s.Execution.Validate.{
  Arguments, require_snapshot, validate_plan_integrity, validate_execution_inputs,
}
use airgapped_ai_gateway_k8s.Execution.Log.{initial, ExecState}
use airgapped_ai_gateway_k8s.Execution.Context.Steps.{Inv-execute_action, verify_context-Checked}
use airgapped_ai_gateway_k8s.Execution.Context.{
  context_command, changes_cluster, Checked, Guarded, Inv,
}

-- What the plans of the program say of their actions: a command line that changes the cluster is
-- marked as mutating, and a context check asks for the current context.
pub record IsMarked (a : PlanAction) : Type 0 where
  pub marks : changes_cluster a.command ≡ true → a.mutating ≡ true
  pub asks : (a.kind == "verify-context") ≡ true → a.command ≡ context_command

module _ (tools : Tools) (context : String) (ledger : Option StateLedger) where
  abbrev execute : PlanAction → Exec ExecState ActionResult
  execute = execute_action tools.loads tools.yaml_dump tools.runner context ledger

  execute_action-Checked :
      (a : PlanAction) (s : ExecState) (r : ActionResult)
      → a.command ≡ context_command
      → (a.kind == "verify-context") ≡ true
      → (execute a s).0 ≡ ok r
      → Checked tools.runner context (execute a s).1.calls
  unfolding execute_action dispatch modify ◌>>=◌
  execute_action-Checked a s r asks k = rw k (
      verify_context-Checked tools.runner context tools.loads tools.yaml_dump a asks
        (record s { action_id = a.id }) r)

  marked_verified :
      (a : PlanAction) (verified : Bool)
      → IsMarked a
      → (a.mutating && not verified) ≡ false
      → changes_cluster a.command ≡ true
      → verified ≡ true
  marked_verified a verified m g c = ground (arith, m.marks c)

  Inv-kept :
      (a : PlanAction) (verified : Bool) (s : ExecState)
      → IsMarked a
      → (a.mutating && not verified) ≡ false
      → Inv tools.runner context verified s
      → Inv tools.runner context verified (execute a s).1
  Inv-kept a verified s m g inv =
      (Inv-execute_action tools.runner context tools.loads tools.yaml_dump verified a ledger
          (marked_verified a verified m g)).from
        s inv

  Inv-execute :
      (a : PlanAction) (verified : Bool) (s : ExecState) (r : ActionResult)
      → IsMarked a
      → (a.mutating && not verified) ≡ false
      → Inv tools.runner context verified s
      → (execute a s).0 ≡ ok r
      → Inv tools.runner context (verified || a.kind == "verify-context") (execute a s).1
  Inv-execute a verified s r m g inv p =
      let kept = Inv-kept a verified s m g inv in
      (
        kept.0,
        λ v. elim (Bool-cases verified) [
          | inl was ↦ kept.1 was
          | inr not_yet ↦ execute_action-Checked a s r (m.asks (now v not_yet)) (now v not_yet) p
        ],
      )
    where
      now :
          (verified || a.kind == "verify-context") ≡ true
          → verified ≡ false
          → (a.kind == "verify-context") ≡ true
      now v n = rw n at v

  -- The state of the rest of the loop is that of its recursive call.
  Guarded-rest :
      (actions : List PlanAction) (r : ActionResult) (verified : Bool) (s : ExecState)
      → Guarded tools.runner context (run_actions tools context ledger actions verified s).1.calls
      → Guarded tools.runner context
          ((run_actions tools context ledger actions verified >>= λ results. pure (r ∷ results))
            s).1.calls
  unfolding pure
  Guarded-rest actions r verified s h =
      after_bind (λ o. Guarded tools.runner context o.1.calls)
        (run_actions tools context ledger actions verified) _ s (λ results q. h) (λ e q. h)

  Guarded-run_actions :
      (actions : List PlanAction) (verified : Bool) (s : ExecState)
      → All IsMarked actions
      → Inv tools.runner context verified s
      → Guarded tools.runner context (run_actions tools context ledger actions verified s).1.calls
  unfolding run_actions pure raise
  Guarded-run_actions [] verified s m inv = inv.0
  Guarded-run_actions (a ∷ actions) verified s m inv =
      elim (Bool-cases (a.mutating && not verified)) [
        | inl refused ↦ rw refused inv.0
        | inr allowed ↦ rw allowed (
            after_bind (λ o. Guarded tools.runner context o.1.calls) (execute a) _ s
              (λ r p.
                Guarded-rest actions r (verified || a.kind == "verify-context") (execute a s).1 (
                  Guarded-run_actions actions (verified || a.kind == "verify-context")
                    (execute a s).1 m.1 (Inv-execute a verified s r m.0 allowed inv p)))
              (λ e p. (Inv-kept a verified s m.0 allowed inv).0))
      ]

  Keeps-run_actions :
      (actions : List PlanAction)
      → All IsMarked actions
      → Keeps
          (λ s. Guarded tools.runner context s.calls)
          (run_actions tools context ledger actions false)
  Keeps-run_actions actions m = record {
    from = λ s g. Guarded-run_actions actions false s m (g, λ f. cc);
  }

Keeps-execute_plan :
    (tools : Tools) (plan : ExecutionPlan) (config : GatewayConfig) (args : Arguments)
    → All IsMarked plan.actions
    → Keeps
        (λ s. Guarded tools.runner args.expected_context s.calls)
        (execute_plan tools plan config args)
unfolding execute_plan
Keeps-execute_plan tools plan config args m =
    Keeps-bind _ _ (Keeps-lift (validate_plan_integrity tools.hashing plan)) λ _.
      Keeps-bind _ _ (Keeps-lift (validate_execution_inputs plan config args)) λ _.
        Keeps-bind _ _ (Keeps-lift (require_snapshot args.snapshot)) λ snapshot.
          Keeps-bind _ _ (Keeps-run_actions tools args.expected_context args.ledger plan.actions m)
            λ results.
              Keeps-bind _ _ (Keeps-lift (report_ledger plan snapshot args.ledger))
                λ ledger. Keeps-pure (succeeded_report plan results ledger)

-- For any runner, plan, configuration and arguments: if the actions of the plan that change the
-- cluster are marked as mutating, and its context checks ask for the current context, then in an
-- execution, whether it succeeds or raises, each call of `kubectl apply` or `kubectl delete` comes
-- after a call of `kubectl config current-context` that succeeded and named the expected context.
pub execute_plan-Guarded :
    (tools : Tools) (plan : ExecutionPlan) (config : GatewayConfig) (args : Arguments)
    → All IsMarked plan.actions
    → Guarded tools.runner args.expected_context
        (execute_plan tools plan config args initial).1.calls
execute_plan-Guarded tools plan config args m =
    (Keeps-execute_plan tools plan config args m).from initial tt

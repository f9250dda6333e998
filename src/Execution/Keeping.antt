-- ===== src/Execution/Keeping.antt =====
-- Rules for a property of the state over one action of execution.py.
use airgapped_ai_gateway_k8s.Base.{ℕ, zero, suc, String, Bool, List, Option}
use airgapped_ai_gateway_k8s.Base.Exec.{
  Exec, Keeps, Keeps-bind, Keeps-if, Keeps-lift, Keeps-pure, Keeps-raise, modify, keeps_rules,
}
use airgapped_ai_gateway_k8s.Base.Runner.{Call, Runner, plain_call}
use airgapped_ai_gateway_k8s.Base.Json.{Fields}
use airgapped_ai_gateway_k8s.Conditions.Poll.{
  Loads, poll_loop, parse_json_object, poll_condition, get_command, attempts_default,
  poll_gateway_programmed, poll_httproute_ready, poll_policy_ready, poll_deployment_ready,
}
use airgapped_ai_gateway_k8s.Conditions.Checks.{
  gateway_ready, httproute_ready, policy_ready, deployment_is_ready,
}
use airgapped_ai_gateway_k8s.Ledger.State.{StateLedger}
use airgapped_ai_gateway_k8s.Planning.Action.{PlanAction}
use airgapped_ai_gateway_k8s.Execution.Step.{
  command_call, restore_call, run_required, verify_context, diff, read_ingress, apply_or_delete,
  restore, poll, dispatch, execute_action, restore_manifest,
}
use airgapped_ai_gateway_k8s.Execution.Log.{ExecState, logging_run}

-- `allowed` says of which calls it is known that they keep the property; the reads of the polls
-- are among them.
module _ (runner : Runner) (loads : Loads) (yaml_dump : Fields → String) (P : ExecState → Type 0)
    (allowed : List String → Type 0)
    (calls_keep : (call : Call) → allowed call.argv → Keeps P (logging_run runner call))
    (reads_allowed : (kind namespace name : String)
      → allowed (get_command kind namespace name)) where
  Keeps-poll_loop :
      (command : List String) (checker : Fields → Bool) (attempts : ℕ)
      → allowed command
      → Keeps P (poll_loop loads (logging_run runner) command checker attempts)
  unfolding poll_loop
  Keeps-poll_loop command checker zero h = search keeps_rules
  Keeps-poll_loop command checker (suc attempts) h =
      let ih = Keeps-poll_loop command checker attempts h in
      Keeps-bind _ _ (calls_keep (plain_call command) h) (λ result. Keeps-if _ _ _ ih (
        Keeps-bind _ _ (Keeps-lift (parse_json_object loads result.stdout))
          (λ payload. Keeps-if _ _ _ (Keeps-pure tt) ih)))

  Keeps-poll :
      (wait : String → String → Exec ExecState (Unit {0})) (a : PlanAction)
      → ((namespace name : String) → Keeps P (wait namespace name))
      → Keeps P (poll loads yaml_dump runner wait a)
  unfolding poll
  Keeps-poll wait a h = search (keeps_rules, h)

  Keeps-get :
      (kind namespace name : String) (checker : Fields → Bool)
      → Keeps P (
          poll_condition loads
            (logging_run runner)
            (get_command kind namespace name)
            checker
            attempts_default)
  unfolding poll_condition
  Keeps-get kind namespace name checker =
      Keeps-poll_loop _ checker 5 (reads_allowed kind namespace name)

  module _ (a : PlanAction) (command_allowed : allowed a.command) where
    Keeps-command : Keeps P (logging_run runner (command_call a))
    Keeps-command = calls_keep (command_call a) command_allowed

    Keeps-run_required : Keeps P (run_required loads yaml_dump runner a)
    unfolding run_required
    Keeps-run_required = Keeps-bind _ _ Keeps-command λ result. search keeps_rules

    ruleset action_rules = (keeps_rules, Keeps-command, Keeps-run_required)

    Keeps-verify_context :
        (context : String) → Keeps P (verify_context loads yaml_dump runner context a)
    unfolding verify_context
    Keeps-verify_context context = search action_rules

    Keeps-diff : Keeps P (diff loads yaml_dump runner a)
    unfolding diff
    Keeps-diff = search action_rules

    Keeps-read_ingress : Keeps P (read_ingress loads yaml_dump runner a)
    unfolding read_ingress
    Keeps-read_ingress = search action_rules

    Keeps-apply_or_delete : Keeps P (apply_or_delete loads yaml_dump runner a)
    unfolding apply_or_delete
    Keeps-apply_or_delete = search action_rules

    Keeps-restore :
        (ledger : Option StateLedger) → Keeps P (restore loads yaml_dump runner ledger a)
    unfolding restore
    Keeps-restore ledger = Keeps-bind _ _ (Keeps-lift (restore_manifest a ledger)) λ manifest.
        Keeps-bind _ _ (calls_keep (restore_call a (yaml_dump manifest)) command_allowed)
          λ result. search keeps_rules

    Keeps-gateway :
        Keeps P (poll loads yaml_dump runner (poll_gateway_programmed loads (logging_run runner)) a)
    unfolding poll_gateway_programmed
    Keeps-gateway =
        Keeps-poll _ a (λ namespace name. Keeps-get "gateway" namespace name gateway_ready)

    Keeps-httproute :
        Keeps P (poll loads yaml_dump runner (poll_httproute_ready loads (logging_run runner)) a)
    unfolding poll_httproute_ready
    Keeps-httproute =
        Keeps-poll _ a (λ namespace name. Keeps-get "httproute" namespace name httproute_ready)

    Keeps-policy :
        Keeps P (poll loads yaml_dump runner (poll_policy_ready loads (logging_run runner)) a)
    unfolding poll_policy_ready
    Keeps-policy =
        Keeps-poll _ a
          (λ namespace name. Keeps-get "agentgatewaypolicy" namespace name policy_ready)

    Keeps-deployment :
        Keeps P (poll loads yaml_dump runner (poll_deployment_ready loads (logging_run runner)) a)
    unfolding poll_deployment_ready
    Keeps-deployment =
        Keeps-poll _ a (λ namespace name. Keeps-get "deployment" namespace name deployment_is_ready)

    ruleset dispatch_rules = (
      Keeps-if, Keeps-raise, Keeps-verify_context, Keeps-diff, Keeps-read_ingress,
      Keeps-apply_or_delete, Keeps-restore, Keeps-gateway, Keeps-httproute, Keeps-policy,
      Keeps-deployment,
    )

    Keeps-dispatch :
        (context : String) (ledger : Option StateLedger) (kind : String)
        → Keeps P (dispatch loads yaml_dump runner context ledger kind a)
    unfolding dispatch
    Keeps-dispatch context ledger kind = search dispatch_rules depth 14

    -- The `action_id` of the log is not part of the property.
    pub Keeps-execute_action :
        (context : String) (ledger : Option StateLedger)
        → ((s : ExecState) (id : String) → P s → P (record s { action_id = id }))
        → Keeps P (execute_action loads yaml_dump runner context ledger a)
    unfolding execute_action modify
    Keeps-execute_action context ledger free =
        Keeps-bind _ _ (record { from = λ s h. free s a.id h })
          (λ _. Keeps-dispatch context ledger a.kind)

-- ===== src/Execution/Marked.antt =====
-- How the plans that planning.py builds mark their actions, and their execution.
use airgapped_ai_gateway_k8s.Base.{
  ℕ, suc, String, Bool, false, none, some, List, [], ◌∷◌, ◌++◌, Option, ◌≡◌, refl, All, All-append,
  All-map, ◌==◌,
}
use airgapped_ai_gateway_k8s.Base.Outcome.{Result, ok, IfOk, IfOk-if, IfOk-bind, IfOk-eq}
use airgapped_ai_gateway_k8s.Base.Json.{Fields}
use airgapped_ai_gateway_k8s.Models.{GatewayConfig}
use airgapped_ai_gateway_k8s.Ledger.Ref.{ResourceRef}
use airgapped_ai_gateway_k8s.Ledger.Entry.{LedgerEntry, LedgerState, created, updated, pre_existing}
use airgapped_ai_gateway_k8s.Ledger.State.{StateLedger, for_run, identity_lt}
use airgapped_ai_gateway_k8s.Planning.Plan.{ExecutionPlan, Hashing, with_computed_id}
use airgapped_ai_gateway_k8s.Planning.Build.{
  of_kind, poll_action, route_poll_action, policy_poll_action, deployment_poll_action, overlay_path,
  apply_command, route_poll_actions, policy_poll_actions, deployment_poll_actions,
  validate_apply_mode, validate_overlay, validate_command, validate_ratelimit, resources_of,
  deploy_actions, cutover_actions, destroy_actions, branch_actions, verify_context_action,
  build_execution_plan, planned,
}
use airgapped_ai_gateway_k8s.Planning.Rollback.{
  restore_action, delete_action, restore_entry, rollback_action, rollback_actions, rollback_planned,
  require_entries, build_rollback_execution_plan,
}
use airgapped_ai_gateway_k8s.Execution.Context.Plan.{IsMarked, execute_plan-Guarded}
use airgapped_ai_gateway_k8s.Base.Order.{sorted}
use airgapped_ai_gateway_k8s.Execution.Validate.{Arguments}
use airgapped_ai_gateway_k8s.Execution.Log.{initial}
use airgapped_ai_gateway_k8s.Execution.Run.{Tools, execute_plan}
use airgapped_ai_gateway_k8s.Execution.Context.{Guarded}

pub verify_context_action-IsMarked : IsMarked verify_context_action
unfolding verify_context_action
verify_context_action-IsMarked = record { marks = λ e. cc; asks = λ e. refl }

-- An action with no command line, of another kind than the context check.
poll-IsMarked :
    (id kind description : String) (r : ResourceRef)
    → (kind == "verify-context") ≡ false
    → IsMarked (poll_action id kind description r)
poll-IsMarked id kind description r h = record { marks = λ e. cc; asks = λ e. cc }

polls-IsMarked :
    (resources : List ResourceRef)
    → All IsMarked (
        route_poll_actions resources
        ++ (policy_poll_actions resources ++ deployment_poll_actions resources))
unfolding route_poll_actions policy_poll_actions deployment_poll_actions
polls-IsMarked resources =
    All-append IsMarked (route_poll_actions resources)
      (policy_poll_actions resources ++ deployment_poll_actions resources)
      (All-map IsMarked route_poll_action (of_kind "HTTPRoute" resources)
        λ r. poll-IsMarked _ _ _ r refl)
      (All-append IsMarked (policy_poll_actions resources) (deployment_poll_actions resources)
        (All-map IsMarked policy_poll_action (of_kind "AgentgatewayPolicy" resources)
          λ r. poll-IsMarked _ _ _ r refl)
        (All-map IsMarked deployment_poll_action (of_kind "Deployment" resources)
          λ r. poll-IsMarked _ _ _ r refl))

deploy_actions-IsMarked :
    (config : GatewayConfig) (overlay apply_mode : String) (resources : List ResourceRef)
    → IfOk (All IsMarked) (deploy_actions config overlay apply_mode resources)
unfolding deploy_actions
deploy_actions-IsMarked config overlay apply_mode resources =
    IfOk-bind _ (overlay_path overlay) _ λ path _.
      IfOk-bind _ (apply_command overlay apply_mode) _ λ command _. (
        record { marks = λ e. cc; asks = λ e. cc },
        (
          record { marks = λ e. refl; asks = λ e. cc },
          (record { marks = λ e. cc; asks = λ e. cc }, polls-IsMarked resources),
        ),
      )

cutover_actions-IsMarked :
    (config : GatewayConfig) (overlay apply_mode : String)
    → IfOk (All IsMarked) (cutover_actions config overlay apply_mode)
unfolding cutover_actions
cutover_actions-IsMarked config overlay apply_mode =
    IfOk-bind _ (apply_command overlay apply_mode) _ λ command _. (
      record { marks = λ e. cc; asks = λ e. cc },
      (record { marks = λ e. refl; asks = λ e. cc }, tt),
    )

destroy_actions-IsMarked :
    (config : GatewayConfig) (overlay : String)
    → IfOk (All IsMarked) (destroy_actions config overlay)
unfolding destroy_actions
destroy_actions-IsMarked config overlay = IfOk-bind _ (overlay_path overlay) _ λ path _.
    (record { marks = λ e. cc; asks = λ e. cc }, (record { marks = λ e. refl; asks = λ e. cc }, tt))

branch_actions-IsMarked :
    (config : GatewayConfig) (command overlay apply_mode : String) (resources : List ResourceRef)
    → IfOk (All IsMarked) (branch_actions config command overlay apply_mode resources)
unfolding branch_actions
branch_actions-IsMarked config command overlay apply_mode resources =
    IfOk-if (All IsMarked) (command == "deploy apply") _ _
      (deploy_actions-IsMarked config overlay apply_mode resources)
      (IfOk-if (All IsMarked) (command == "cutover apply") _ _
        (cutover_actions-IsMarked config overlay apply_mode)
        (destroy_actions-IsMarked config overlay))

abbrev ActionsMarked : ExecutionPlan → Type 0
ActionsMarked p = All IsMarked p.actions

module _ (hashing : Hashing) where
  pub build_execution_plan-IsMarked :
      (build_overlay : String → Result (List Fields)) (config : GatewayConfig)
      (command overlay apply_mode : String) (skip_ratelimit : Bool)
      → IfOk ActionsMarked (
          build_execution_plan hashing build_overlay config command overlay apply_mode
            skip_ratelimit)
  unfolding build_execution_plan with_computed_id
  build_execution_plan-IsMarked build_overlay config command overlay apply_mode skip_ratelimit =
      IfOk-bind ActionsMarked (validate_apply_mode apply_mode) _ λ _ _.
        IfOk-bind ActionsMarked (validate_overlay overlay) _ λ _ _.
          IfOk-bind ActionsMarked (validate_command command) _ λ _ _.
            IfOk-bind ActionsMarked (validate_ratelimit config skip_ratelimit) _ λ _ _.
              IfOk-bind ActionsMarked (build_overlay overlay) _ λ documents _.
                IfOk-bind ActionsMarked (resources_of documents) _ λ resources _.
                  IfOk-bind ActionsMarked
                    (branch_actions config command overlay apply_mode resources)
                    (λ actions. ok (
                      with_computed_id hashing
                        (planned config command overlay apply_mode resources actions)))
                    λ actions e. (
                      verify_context_action-IsMarked,
                      IfOk-eq (All IsMarked) _
                          (branch_actions-IsMarked config command overlay apply_mode resources) e,
                    )

rollback_action-IsMarked :
    (run_id : String) (index : ℕ) (e : LedgerEntry) → IfOk IsMarked (rollback_action run_id index e)
unfolding rollback_action restore_entry restore_action delete_action
rollback_action-IsMarked run_id index e = go e.state e.before
  where
    go :
        (state : LedgerState) (before : Option Fields)
        → IfOk IsMarked (rollback_action run_id index (record e { state = state; before = before }))
    go created before = record { marks = λ h. refl; asks = λ h. cc }
    go updated none = tt
    go updated (some m) = record { marks = λ h. refl; asks = λ h. cc }
    go pre_existing none = tt
    go pre_existing (some m) = record { marks = λ h. refl; asks = λ h. cc }

rollback_actions-IsMarked :
    (run_id : String) (index : ℕ) (es : List LedgerEntry)
    → IfOk (All IsMarked) (rollback_actions run_id index es)
unfolding rollback_actions
rollback_actions-IsMarked run_id index [] = tt
rollback_actions-IsMarked run_id index (e ∷ es) =
    IfOk-bind (All IsMarked) (rollback_action run_id index e) _ λ action p.
      IfOk-bind (All IsMarked) (rollback_actions run_id (suc index) es)
        (λ actions. ok (action ∷ actions))
        λ actions q. (
          IfOk-eq IsMarked _ (rollback_action-IsMarked run_id index e) p,
          IfOk-eq (All IsMarked) _ (rollback_actions-IsMarked run_id (suc index) es) q,
        )

module _ (hashing : Hashing) where
  pub build_rollback_execution_plan-IsMarked :
      (config : GatewayConfig) (ledger : StateLedger) (run_id apply_mode : String)
      → IfOk ActionsMarked (build_rollback_execution_plan hashing config ledger run_id apply_mode)
  unfolding build_rollback_execution_plan with_computed_id
  build_rollback_execution_plan-IsMarked config ledger run_id apply_mode =
      IfOk-bind ActionsMarked (validate_apply_mode apply_mode) _ λ _ _.
        IfOk-bind ActionsMarked (require_entries (for_run ledger run_id).entries) _ λ _ _.
          let entries = sorted identity_lt (for_run ledger run_id).entries in
          IfOk-bind ActionsMarked (rollback_actions run_id 1 entries)
            (λ actions.
              ok (with_computed_id hashing (rollback_planned config entries apply_mode actions)))
            λ actions e. (
              verify_context_action-IsMarked,
              IfOk-eq (All IsMarked) _ (rollback_actions-IsMarked run_id 1 entries) e,
            )

-- Whatever the documents of the overlay are and whatever the runner answers: if
-- `build_execution_plan` returns a plan, then in the execution of that plan, under any
-- configuration and arguments, and whether it succeeds or raises, each call of `kubectl apply` or
-- `kubectl delete` comes after a call of `kubectl config current-context` that succeeded and named
-- the expected context.
pub build_execution_plan-Guarded :
    (tools : Tools) (build_overlay : String → Result (List Fields))
    (planned_for config : GatewayConfig) (command overlay apply_mode : String)
    (skip_ratelimit : Bool) (args : Arguments) (plan : ExecutionPlan)
    → build_execution_plan tools.hashing build_overlay planned_for command overlay apply_mode
        skip_ratelimit
      ≡ ok plan
    → Guarded tools.runner args.expected_context
        (execute_plan tools plan config args initial).1.calls
build_execution_plan-Guarded tools build_overlay planned_for config command overlay apply_mode
      skip_ratelimit args plan e =
    execute_plan-Guarded tools plan config args (
      IfOk-eq ActionsMarked _
        (build_execution_plan-IsMarked tools.hashing build_overlay planned_for command overlay
          apply_mode skip_ratelimit)
        e)

-- Whatever the ledger holds and whatever the runner answers: if `build_rollback_execution_plan`
-- returns a plan, then in the execution of that plan, under any configuration and arguments, and
-- whether it succeeds or raises, each call of `kubectl apply` or `kubectl delete` comes after a
-- call of `kubectl config current-context` that succeeded and named the expected context.
pub build_rollback_execution_plan-Guarded :
    (tools : Tools) (planned_for config : GatewayConfig) (ledger : StateLedger)
    (run_id apply_mode : String) (args : Arguments) (plan : ExecutionPlan)
    → build_rollback_execution_plan tools.hashing planned_for ledger run_id apply_mode ≡ ok plan
    → Guarded tools.runner args.expected_context
        (execute_plan tools plan config args initial).1.calls
build_rollback_execution_plan-Guarded tools planned_for config ledger run_id apply_mode args plan
      e =
    execute_plan-Guarded tools plan config args (
      IfOk-eq ActionsMarked _
        (build_rollback_execution_plan-IsMarked tools.hashing planned_for ledger run_id apply_mode)
        e)

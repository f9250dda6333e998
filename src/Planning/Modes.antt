-- ===== src/Planning/Modes.antt =====
-- The apply modes of planning.py and the commands of a plan.
use airgapped_ai_gateway_k8s.Base.{
  String, Bool, true, ◌≡◌, refl, sym, List, ◌∷◌, ◌++◌, All, All-append, All-map, contains, inl, inr,
  ◌∙◌, ap, ◌⊎◌,
}
use airgapped_ai_gateway_k8s.Base.Order.{sorted}
use airgapped_ai_gateway_k8s.Base.Outcome.{Result, ok, IfOk, IfOk-bind, IfOk-eq, ok-injective}
use airgapped_ai_gateway_k8s.Base.Json.{Fields}
use airgapped_ai_gateway_k8s.Models.{GatewayConfig}
use airgapped_ai_gateway_k8s.Ledger.Ref.{ResourceRef}
use airgapped_ai_gateway_k8s.Ledger.State.{StateLedger, for_run, identity_lt}
use airgapped_ai_gateway_k8s.Planning.Action.{PlanAction}
use airgapped_ai_gateway_k8s.Planning.Plan.{ExecutionPlan, Hashing, with_computed_id}
use airgapped_ai_gateway_k8s.Planning.Build.{
  of_kind, route_poll_action, policy_poll_action, deployment_poll_action, overlay_path,
  apply_command, route_poll_actions, policy_poll_actions, deployment_poll_actions,
  validate_apply_mode, validate_overlay, validate_command, validate_ratelimit, resources_of,
  deploy_actions, cutover_actions, branch_actions, verify_context_action, build_execution_plan,
  planned,
}
use airgapped_ai_gateway_k8s.Planning.Rollback.{
  rollback_actions, rollback_planned, require_entries, build_rollback_execution_plan,
}

-- An action that changes the cluster asks the server for a dry run.
abbrev pub IsDry : PlanAction → Type 0
IsDry a = a.mutating ≡ true → contains a.command "--dry-run=server" ≡ true

polls-IsDry :
    (resources : List ResourceRef)
    → All IsDry (
        route_poll_actions resources
        ++ (policy_poll_actions resources ++ deployment_poll_actions resources))
unfolding route_poll_actions policy_poll_actions deployment_poll_actions
polls-IsDry resources =
    All-append IsDry (route_poll_actions resources)
      (policy_poll_actions resources ++ deployment_poll_actions resources)
      (All-map IsDry route_poll_action (of_kind "HTTPRoute" resources) λ r e. cc)
      (All-append IsDry (policy_poll_actions resources) (deployment_poll_actions resources)
        (All-map IsDry policy_poll_action (of_kind "AgentgatewayPolicy" resources) λ r e. cc)
        (All-map IsDry deployment_poll_action (of_kind "Deployment" resources) λ r e. cc))

apply_command-dry :
    (overlay : String)
    → IfOk
        (λ command. contains command "--dry-run=server" ≡ true)
        (apply_command overlay "server-side-dry-run")
unfolding apply_command
apply_command-dry overlay = IfOk-bind _ (overlay_path overlay) _ λ path _. refl

deploy_actions-IsDry :
    (config : GatewayConfig) (overlay : String) (resources : List ResourceRef)
    → IfOk (All IsDry) (deploy_actions config overlay "server-side-dry-run" resources)
unfolding deploy_actions
deploy_actions-IsDry config overlay resources = IfOk-bind _ (overlay_path overlay) _ λ path _.
    IfOk-bind _ (apply_command overlay "server-side-dry-run") _ λ command e. (
      λ m. cc,
      (
        λ m. IfOk-eq (λ c. contains c "--dry-run=server" ≡ true) _ (apply_command-dry overlay) e,
        (λ m. cc, polls-IsDry resources),
      ),
    )

cutover_actions-IsDry :
    (config : GatewayConfig) (overlay : String)
    → IfOk (All IsDry) (cutover_actions config overlay "server-side-dry-run")
unfolding cutover_actions
cutover_actions-IsDry config overlay =
    IfOk-bind _ (apply_command overlay "server-side-dry-run") _ λ command e. (
      λ m. cc,
      (
        λ m. IfOk-eq (λ c. contains c "--dry-run=server" ≡ true) _ (apply_command-dry overlay) e,
        tt,
      ),
    )

branch_actions-IsDry :
    (config : GatewayConfig) (command overlay : String) (resources : List ResourceRef)
    → (command ≡ "deploy apply") ⊎ (command ≡ "cutover apply")
    → IfOk (All IsDry) (branch_actions config command overlay "server-side-dry-run" resources)
unfolding branch_actions
branch_actions-IsDry config command overlay resources (inl e) =
    rw e (deploy_actions-IsDry config overlay resources)
branch_actions-IsDry config command overlay resources (inr e) =
    rw e (cutover_actions-IsDry config overlay)

abbrev AllDry : ExecutionPlan → Type 0
AllDry p = All IsDry p.actions

verify-IsDry : IsDry verify_context_action
unfolding verify_context_action
verify-IsDry e = cc

-- In the mode `server-side-dry-run`, every mutating action of a deploy or cutover plan has the
-- argument `--dry-run=server`.
pub build_execution_plan-IsDry :
    (hashing : Hashing) (build_overlay : String → Result (List Fields)) (config : GatewayConfig)
    (command overlay : String) (skip_ratelimit : Bool) (plan : ExecutionPlan)
    → (command ≡ "deploy apply") ⊎ (command ≡ "cutover apply")
    → build_execution_plan hashing build_overlay config command overlay "server-side-dry-run"
        skip_ratelimit
      ≡ ok plan
    → All IsDry plan.actions
unfolding build_execution_plan with_computed_id
build_execution_plan-IsDry hashing build_overlay config command overlay skip_ratelimit plan applies
      e =
    IfOk-eq AllDry _ built e
  where
    built : IfOk AllDry (
        build_execution_plan hashing build_overlay config command overlay "server-side-dry-run"
          skip_ratelimit)
    built = IfOk-bind AllDry (validate_apply_mode "server-side-dry-run") _ λ _ _.
        IfOk-bind AllDry (validate_overlay overlay) _ λ _ _.
          IfOk-bind AllDry (validate_command command) _ λ _ _.
            IfOk-bind AllDry (validate_ratelimit config skip_ratelimit) _ λ _ _.
              IfOk-bind AllDry (build_overlay overlay) _ λ documents _.
                IfOk-bind AllDry (resources_of documents) _ λ resources _.
                  IfOk-bind AllDry
                    (branch_actions config command overlay "server-side-dry-run" resources)
                    (λ actions. ok (
                      with_computed_id hashing
                        (planned config command overlay "server-side-dry-run" resources actions)))
                    λ actions p. (
                      verify-IsDry,
                      IfOk-eq (All IsDry) _
                          (branch_actions-IsDry config command overlay resources applies) p,
                    )

-- What a rollback plan runs.
abbrev Runs : StateLedger → String → ExecutionPlan → Type 0
Runs ledger run_id plan =
    (actions : List PlanAction) × (rollback_actions run_id 1
        (sorted identity_lt (for_run ledger run_id).entries)
      ≡ ok actions)
    × (plan.actions ≡ verify_context_action ∷ actions)

build_rollback_execution_plan-Runs :
    (hashing : Hashing) (config : GatewayConfig) (ledger : StateLedger) (run_id apply_mode : String)
    → IfOk
        (Runs ledger run_id)
        (build_rollback_execution_plan hashing config ledger run_id apply_mode)
unfolding build_rollback_execution_plan with_computed_id
build_rollback_execution_plan-Runs hashing config ledger run_id apply_mode =
    IfOk-bind (Runs ledger run_id) (validate_apply_mode apply_mode) _ λ _ _.
      IfOk-bind (Runs ledger run_id) (require_entries (for_run ledger run_id).entries) _ λ _ _.
        let entries = sorted identity_lt (for_run ledger run_id).entries in
        IfOk-bind (Runs ledger run_id) (rollback_actions run_id 1 entries)
          (λ actions.
            ok (with_computed_id hashing (rollback_planned config entries apply_mode actions)))
          λ actions p. (actions, p, refl)

-- The two modes give the same rollback actions: a rollback plan of the mode `server-side-dry-run`
-- has the very commands of the live one.
pub rollback_mode_ignored :
    (hashing : Hashing) (config : GatewayConfig) (ledger : StateLedger) (run_id : String)
    (dry live : ExecutionPlan)
    → build_rollback_execution_plan hashing config ledger run_id "server-side-dry-run" ≡ ok dry
    → build_rollback_execution_plan hashing config ledger run_id "live" ≡ ok live
    → dry.actions ≡ live.actions
rollback_mode_ignored hashing config ledger run_id dry live d l =
    let a =
      IfOk-eq (Runs ledger run_id) _
        (build_rollback_execution_plan-Runs hashing config ledger run_id "server-side-dry-run") d in
    let b =
      IfOk-eq (Runs ledger run_id) _
        (build_rollback_execution_plan-Runs hashing config ledger run_id "live") l in
    a.2 ∙ (ap (λ actions. verify_context_action ∷ actions) (ok-injective (sym a.1 ∙ b.1)) ∙ sym b.2)

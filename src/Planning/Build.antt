-- ===== src/Planning/Build.antt =====
-- `build_execution_plan` of planning.py, and `overlay_path` of manifest.py.
use airgapped_ai_gateway_k8s.Base.{
  String, ◌<>◌, Bool, true, false, not, ◌&&◌, List, [], ◌∷◌, ◌++◌, map, none, some, ◌==◌, contains,
  keep, if◌then◌else◌,
}
use airgapped_ai_gateway_k8s.Base.Order.{sorted}
use airgapped_ai_gateway_k8s.Base.Outcome.{
  Result, ok, err, plan_error, python_error, ◌>>=◌, ◌>>◌, raise_if, traverse,
}
use airgapped_ai_gateway_k8s.Base.Json.{str, Fields, end, field}
use airgapped_ai_gateway_k8s.Models.{GatewayConfig}
use airgapped_ai_gateway_k8s.Ledger.Ref.{ResourceRef, from_manifest, ref_lt}
use airgapped_ai_gateway_k8s.Planning.Action.{PlanAction}
use airgapped_ai_gateway_k8s.Planning.Plan.{ExecutionPlan, Hashing, with_computed_id}

abbrev pub apply_modes : List String
apply_modes = "server-side-dry-run" ∷ "live" ∷ []

abbrev pub plan_schema_version : String
plan_schema_version = "airgap.ai.gateway.plan/v1"

-- OVERLAYS of manifest.py
abbrev pub overlays : List String
overlays = "kind-demo" ∷ "retained-nginx-edge" ∷ "production-reference" ∷ []

unfoldable pub overlay_path : String → Result String
overlay_path name =
    if contains overlays name
    then ok ("manifests/baseline-v1.3.1/overlays/" <> name)
    else err (python_error "unknown overlay")

unfoldable pub validate_apply_mode : String → Result (Unit {0})
validate_apply_mode apply_mode =
    raise_if (not (contains apply_modes apply_mode)) (plan_error "unsupported apply mode")

unfoldable pub validate_overlay : String → Result (Unit {0})
validate_overlay overlay = raise_if (not (contains overlays overlay)) (plan_error "unknown overlay")

abbrev pub plannable : List String
plannable = "deploy apply" ∷ "cutover apply" ∷ "destroy apply" ∷ []

unfoldable pub validate_command : String → Result (Unit {0})
validate_command command =
    raise_if (not (contains plannable command)) (plan_error "execution planning is not supported")

unfoldable pub validate_ratelimit : GatewayConfig → Bool → Result (Unit {0})
validate_ratelimit config skip_ratelimit =
    raise_if (skip_ratelimit && config.platform.rate_limit.enabled)
      (plan_error "skip-ratelimit conflicts with enabled rate-limit policy")

unfoldable pub verify_context_action : PlanAction
verify_context_action = record {
  id = "verify-context";
  kind = "verify-context";
  description = "Verify the exact Kubernetes context before any state change.";
  command = "kubectl" ∷ "config" ∷ "current-context" ∷ [];
  mutating = false;
  resource = none;
  payload = none;
  sensitive_output = false;
}

unfoldable pub apply_command : String → String → Result (List String)
unfolding overlay_path
apply_command overlay apply_mode = do
  path ← overlay_path overlay
  ok (
      "kubectl"
      ∷ "apply"
      ∷ "--server-side"
      ∷ (if apply_mode == "server-side-dry-run"
          then "--dry-run=server" ∷ "-k" ∷ path ∷ []
          else "-k" ∷ path ∷ []))

-- The references of the rendered documents, in order.
unfoldable pub resources_of : List Fields → Result (List ResourceRef)
resources_of documents = do refs ← traverse from_manifest documents; ok (sorted ref_lt refs)

-- The payload of a poll.
abbrev pub named : String → String → Fields
named name namespace = field "name" (str name) (field "namespace" (str namespace) end)

abbrev pub poll_action : String → String → String → ResourceRef → PlanAction
poll_action id kind description r = record {
  id = id <> r.name;
  kind = kind;
  description = description;
  command = [];
  mutating = false;
  resource = some r;
  payload = some (named r.name r.namespace);
  sensitive_output = false;
}

abbrev pub route_poll_action : ResourceRef → PlanAction
route_poll_action r =
    poll_action "poll-route-" "poll-httproute"
      ("Wait for HTTPRoute " <> (r.name <> " to report Accepted=True and ResolvedRefs=True.")) r

abbrev pub policy_poll_action : ResourceRef → PlanAction
policy_poll_action r =
    poll_action "poll-policy-" "poll-policy"
      ("Wait for AgentgatewayPolicy " <> (r.name <> " to report Accepted=True and Attached=True."))
      r

abbrev pub deployment_poll_action : ResourceRef → PlanAction
deployment_poll_action r =
    poll_action "poll-deployment-" "poll-deployment"
      ("Wait for Deployment " <> (r.name <> " rollout readiness.")) r

abbrev pub of_kind : String → List ResourceRef → List ResourceRef
of_kind kind = keep (λ r. r.kind == kind)

unfoldable pub route_poll_actions : List ResourceRef → List PlanAction
route_poll_actions resources = map route_poll_action (of_kind "HTTPRoute" resources)

unfoldable pub policy_poll_actions : List ResourceRef → List PlanAction
policy_poll_actions resources = map policy_poll_action (of_kind "AgentgatewayPolicy" resources)

unfoldable pub deployment_poll_actions : List ResourceRef → List PlanAction
deployment_poll_actions resources = map deployment_poll_action (of_kind "Deployment" resources)

abbrev pub plain_action : String → String → String → List String → Bool → PlanAction
plain_action id kind description command mutating = record {
  id = id;
  kind = kind;
  description = description;
  command = command;
  mutating = mutating;
  resource = none;
  payload = none;
  sensitive_output = false;
}

abbrev pub read_ingress_action : String → String → PlanAction
read_ingress_action namespace description =
    plain_action "read-ingress-state" "read-ingress-state" description
      ("kubectl" ∷ "-n" ∷ namespace ∷ "get" ∷ "ingress" ∷ "-o" ∷ "json" ∷ []) false

-- The branch `command == "deploy apply"`.
unfoldable pub deploy_actions :
    GatewayConfig → String → String → List ResourceRef → Result (List PlanAction)
unfolding overlay_path apply_command route_poll_actions policy_poll_actions deployment_poll_actions
deploy_actions config overlay apply_mode resources = do
  path ← overlay_path overlay
  command ← apply_command overlay apply_mode
  ok (
      plain_action "kubectl-diff" "kubectl-diff"
        ("Compare authored manifests for overlay " <> (overlay <> "."))
        ("kubectl" ∷ "diff" ∷ "-k" ∷ path ∷ []) false
      ∷ plain_action "kubectl-apply" "kubectl-apply"
          ("Apply authored manifests for overlay " <> (overlay <> ".")) command true
      ∷ record (plain_action "poll-gateway" "poll-gateway"
          "Wait for the Gateway to report Programmed=True." [] false) {
            payload = some (named config.platform.gateway.name config.platform.gateway.namespace);
          }
      ∷ (route_poll_actions resources
          ++ (policy_poll_actions resources ++ deployment_poll_actions resources)))

-- The branch `command == "cutover apply"`.
unfoldable pub cutover_actions : GatewayConfig → String → String → Result (List PlanAction)
unfolding apply_command
cutover_actions config overlay apply_mode = do
  command ← apply_command overlay apply_mode
  ok (
      read_ingress_action config.platform.gateway.namespace
        "Read current edge Ingress state before changing traffic."
      ∷ plain_action "kubectl-apply-cutover" "kubectl-apply"
          ("Apply the cutover overlay " <> (overlay <> ".")) command true
      ∷ [])

-- The last branch, `command == "destroy apply"`.
unfoldable pub destroy_actions : GatewayConfig → String → Result (List PlanAction)
unfolding overlay_path
destroy_actions config overlay = do
  path ← overlay_path overlay
  ok (
      read_ingress_action config.platform.gateway.namespace
        "Read current edge Ingress state before cleanup."
      ∷ plain_action "kubectl-delete" "kubectl-delete"
          ("Delete resources rendered by overlay " <> (overlay <> "."))
          ("kubectl" ∷ "delete" ∷ "-k" ∷ path ∷ "--ignore-not-found=false" ∷ []) true
      ∷ [])

unfoldable pub branch_actions :
    GatewayConfig → String → String → String → List ResourceRef → Result (List PlanAction)
unfolding deploy_actions cutover_actions destroy_actions
branch_actions config command overlay apply_mode resources =
    if command == "deploy apply"
    then deploy_actions config overlay apply_mode resources
    else if command == "cutover apply"
    then cutover_actions config overlay apply_mode
    else destroy_actions config overlay

-- The plan that is returned, before its identifier is computed.
abbrev pub planned :
    GatewayConfig → String → String → String → List ResourceRef → List PlanAction → ExecutionPlan
planned config command overlay apply_mode resources actions = record {
  schema_version = plan_schema_version;
  plan_id = "";
  command = command;
  platform = config.platform.name;
  baseline = config.platform.baseline.agentgateway_version;
  overlay = overlay;
  namespace = config.platform.gateway.namespace;
  apply_mode = apply_mode;
  expected_context = config.platform.cluster.expected_context;
  tls_verify = true;
  actions = verify_context_action ∷ actions;
  resources = resources;
  notes =
      "The plan contains no runtime credential material."
      ∷ "Generated data-plane resources are verified after reconciliation." ∷ [];
}

-- `build_overlay` gives the rendered documents of an overlay, from the files of the repository.
module _ (hashing : Hashing) (build_overlay : String → Result (List Fields)) where
  unfoldable pub build_execution_plan :
      GatewayConfig → String → String → String → Bool → Result ExecutionPlan
  unfolding validate_apply_mode validate_overlay validate_command validate_ratelimit resources_of
      branch_actions with_computed_id verify_context_action
  build_execution_plan config command overlay apply_mode skip_ratelimit = do
    validate_apply_mode apply_mode
    validate_overlay overlay
    validate_command command
    validate_ratelimit config skip_ratelimit
    documents ← build_overlay overlay
    resources ← resources_of documents
    actions ← branch_actions config command overlay apply_mode resources
    ok (with_computed_id hashing (planned config command overlay apply_mode resources actions))

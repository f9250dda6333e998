-- ===== src/Manifest/Workloads.antt =====
-- The checks of the workloads of manifest.py: what this repository owns, and what an overlay
-- promises.
use airgapped_ai_gateway_k8s.Base.{
  String, Bool, true, false, not, List, [], ◌∷◌, ◌++◌, Option, none, some, ◌==◌, if◌then◌else◌,
}
use airgapped_ai_gateway_k8s.Base.Int.{pos, int_leb}
use airgapped_ai_gateway_k8s.Base.Outcome.{
  Result, ok, err, python_error, traverse, collect, any_of, first_of, ◌>>=◌, ◌then_extend◌,
}
use airgapped_ai_gateway_k8s.Base.Json.{Value, bool, int, real, str, Fields, get, get_or}
use airgapped_ai_gateway_k8s.Conditions.Checks.{is_text}
use airgapped_ai_gateway_k8s.Manifest.Reads.{
  Python, Message, report, mapping_of, sequence_of, string_of, has_key, metadata_of, name_of,
  spec_of, by_kind, same_value, in_set, hashable_name,
}
use airgapped_ai_gateway_k8s.Manifest.Images.{pod_spec_of}
use airgapped_ai_gateway_k8s.Manifest.Consumers.{has_label, is_named}

-- value is True, and value is False
unfoldable pub is_bool : Bool → Value → Bool
is_bool true (bool b) = b
is_bool false (bool b) = not b
is_bool wanted _ = false

unfoldable pub container_messages : Value → Value → Result (List Message)
unfolding mapping_of string_of has_key is_bool report
container_messages name value = do
  fields ← mapping_of value
  container_name ← string_of (get fields "name")
  security ← mapping_of (get fields "securityContext")
  ok (
      report (not (has_key fields "resources")) "container has no resources"
        (name ∷ str container_name ∷ [])
      ++ report (not (is_bool false (get security "allowPrivilegeEscalation")))
          "container allows privilege escalation" (name ∷ str container_name ∷ []))

unfoldable pub account_messages : Fields → Result (List Message)
unfolding is_bool name_of report
account_messages account =
    if is_bool false (get account "automountServiceAccountToken")
    then ok []
    else (name_of account >>= λ name.
        ok (report true "ServiceAccount automounts tokens" (name ∷ [])))

unfoldable pub default_deny_messages : List Fields → Result (List Message)
unfolding is_named report
default_deny_messages policies = do
  denied ← any_of (is_named "default-deny") policies
  ok (report (not denied) "default-deny NetworkPolicy is missing" [])

unfoldable pub demo_label_messages : Fields → Result (List Message)
unfolding metadata_of has_label report
demo_label_messages document = do
  metadata ← metadata_of document
  ok (
      report (not (has_label metadata "ai.gateway/demo-only" "true")) "is not labeled demo-only"
        (get document "kind" ∷ get metadata "name" ∷ []))

-- _metadata(item)["name"] == "envoy-ratelimit"
unfoldable pub is_ratelimit : Fields → Result Bool
unfolding name_of
is_ratelimit deployment = name_of deployment >>= λ name. ok (is_text name "envoy-ratelimit")

module _ (python : Python) where
  -- `budgets` are the names of the PodDisruptionBudgets.
  unfoldable pub deployment_messages : List Value → Fields → Result (List Message)
  unfolding name_of in_set pod_spec_of mapping_of sequence_of container_messages is_bool report
  deployment_messages budgets deployment = do
    name ← name_of deployment
    budgeted ← in_set python name budgets
    pod_spec ← pod_spec_of deployment
    security ← mapping_of (get pod_spec "securityContext")
    listed ← sequence_of (get pod_spec "containers")
    containers ← collect (container_messages name) listed
    ok (
        report (not budgeted) "Deployment has no PodDisruptionBudget" (name ∷ [])
        ++ report (not (is_bool true (get security "runAsNonRoot")))
            "Deployment does not set runAsNonRoot" (name ∷ [])
        ++ containers)

  unfoldable pub validate_owned_workload_controls : List Fields → Result (List Message)
  unfolding hashable_name deployment_messages account_messages by_kind default_deny_messages
  validate_owned_workload_controls documents = do
    budgets ← traverse hashable_name (by_kind documents "PodDisruptionBudget")
    collect (deployment_messages budgets) (by_kind documents "Deployment")
        then_extend collect account_messages (by_kind documents "ServiceAccount")
        then_extend default_deny_messages (by_kind documents "NetworkPolicy")

  unfoldable pub single_replica_messages : Fields → Result (List Message)
  unfolding spec_of same_value name_of report
  single_replica_messages deployment = spec_of deployment >>= λ spec.
      if same_value python (get spec "replicas") (int (pos 1))
      then ok []
      else (name_of deployment >>= λ name.
          ok (report true "kind-demo Deployment is not single replica" (name ∷ [])))

  -- value < 3
  unfoldable pub below_three : Value → Result Bool
  below_three (int n) = ok (int_leb n (pos 2))
  below_three (bool b) = ok true
  below_three (real x) = ok (python.real_below x (pos 3))
  below_three _ = err (python_error "TypeError")

  unfoldable pub demo_messages : List Fields → Result (List Message)
  unfolding demo_label_messages single_replica_messages by_kind
  demo_messages documents =
      collect demo_label_messages documents
      then_extend collect single_replica_messages (by_kind documents "Deployment")

  unfoldable pub too_few : Option Fields → Result Bool
  unfolding spec_of below_three
  too_few none = ok true
  too_few (some deployment) =
      spec_of deployment >>= λ spec. below_three (get_or spec "replicas" (int (pos 0)))

  unfoldable pub production_messages : List Fields → Result (List Message)
  unfolding is_named is_ratelimit too_few by_kind report
  production_messages documents = do
    redis ← any_of (is_named "redis") (by_kind documents "Deployment")
    declared ← any_of (is_named "external-ha-redis") (by_kind documents "Service")
    ratelimit ← first_of is_ratelimit (by_kind documents "Deployment")
    few ← too_few ratelimit
    ok (
        report redis "production-reference still renders demo Redis Deployment" []
        ++ report (not declared) "production-reference does not declare external HA Redis Service"
            []
        ++ report few "production-reference ratelimit service is not HA" [])

  unfoldable pub validate_overlay_contract : List Fields → String → Result (List Message)
  unfolding demo_messages production_messages
  validate_overlay_contract documents overlay =
      (if overlay == "kind-demo" then demo_messages documents else ok [])
      then_extend (if overlay == "production-reference"
          then production_messages documents
          else ok [])

unfoldable pub data_plane_messages : Fields → Result (List Message)
unfolding metadata_of has_label report
data_plane_messages deployment = do
  metadata ← metadata_of deployment
  ok (
      report (has_label metadata "app.kubernetes.io/component" "agentgateway-data-plane")
        "generated agentgateway data-plane Deployment is authored in manifests" [])

unfoldable pub validate_no_authored_generated_data_plane : List Fields → Result (List Message)
unfolding data_plane_messages by_kind
validate_no_authored_generated_data_plane documents =
    collect data_plane_messages (by_kind documents "Deployment")

-- ===== src/Tests/Manifests.antt =====
-- Rendered documents with a protected route and a hardened deployment, validated.
use airgapped_ai_gateway_k8s.Base.{String, true, false, List, [], ◌∷◌, ◌≡◌, refl, ◌==◌}
use airgapped_ai_gateway_k8s.Base.Outcome.{ok}
use airgapped_ai_gateway_k8s.Base.Json.{Value, bool, str, arr, obj, nil, item, Fields, end, field}
use airgapped_ai_gateway_k8s.Manifest.Reads.{Python}
use airgapped_ai_gateway_k8s.Manifest.Routes.{validate_routes_and_policies}

abbrev pub python : Python
python = record {
  real_same = λ x y. x == y;
  real_equals = λ x n. false;
  real_below = λ x n. false;
  display = λ v. "{...}";
  safe_dump = λ fs. "---";
  safe_dump_all = λ ds. "---";
}

-- {k: v}
abbrev pub one : String → Value → Value
one k v = obj (field k v end)

abbrev pub many : Value → Value
many v = arr (item v nil)

abbrev document : String → String → Fields → Fields
document kind name rest = field "apiVersion" (str "v1") (
    field "kind" (str kind)
      (field "metadata" (obj (field "name" (str name) (field "labels" (obj end) end))) rest))

abbrev metrics_policy : Fields
metrics_policy = document "AgentgatewayPolicy" "gateway-consumer-metrics" (
    field "spec"
      (one "frontend" (
        one "metrics" (
          one "attributes" (
            one "add" (
              many (
                obj (
                  field "name" (str "consumer_id")
                    (field "expression" (str "apiKey.consumer_id") end))))))))
      end)

abbrev route_policy : Fields
route_policy = document "AgentgatewayPolicy" "llama-policy" (
    field "spec"
      (obj (
        field "targetRefs"
          (many (obj (field "kind" (str "HTTPRoute") (field "name" (str "llama-route") end))))
          (field "traffic"
            (obj (
              field "apiKeyAuthentication"
                (obj
                  (field "mode" (str "Strict") (field "secretRef" (one "name" (str "keys")) end)))
                (field "authorization"
                  (obj (
                    field "action" (str "Require")
                      (field "policy" (one "matchExpressions" (many (str "permission"))) end)))
                  end)))
            end)))
      end)

abbrev route : Fields
route = document "HTTPRoute" "llama-route" (
    field "spec"
      (one "rules" (
        many (
          obj (
            field "matches" (many (one "path" (one "value" (str "/v1/chat/completions"))))
              (field "backendRefs" (many (one "name" (str "llama"))) end)))))
      end)

abbrev container : Value
container = obj (
    field "name" (str "app") (
      field "image" (str "registry.example.internal:5000/app@sha256:0") (
        field "resources" (obj end)
          (field "securityContext" (one "allowPrivilegeEscalation" (bool false)) end))))

abbrev deployment : Fields
deployment = document "Deployment" "app" (
    field "spec"
      (one "template" (
        one "spec" (
          obj (
            field "securityContext" (one "runAsNonRoot" (bool true))
              (field "containers" (many container) end)))))
      end)

abbrev ratelimit_config : Fields
ratelimit_config =
    document "ConfigMap" "envoy-ratelimit-config"
      (field "data" (one "config.yaml" (str "key: consumer_id")) end)

abbrev documents : List Fields
documents =
    metrics_policy
    ∷ route_policy
    ∷ route
    ∷ deployment
    ∷ ratelimit_config
    ∷ document "PodDisruptionBudget" "app" end
    ∷ document "NetworkPolicy" "default-deny" end
    ∷ []

abbrev allowed : List String
allowed = "registry.example.internal:5000/app@sha256:0" ∷ []

-- A route without a policy is reported.
reported :
    validate_routes_and_policies (route ∷ [])
    ≡ ok (
        record { text = "HTTPRoute has no AgentgatewayPolicy"; values = str "llama-route" ∷ [] }
        ∷ [])
unfolding validate_routes_and_policies
reported = refl

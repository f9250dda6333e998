-- ===== src/Tests/Data.antt =====
-- A configuration, a runner, a snapshot and plans for the tests.
use airgapped_ai_gateway_k8s.Base.{String, true, List, [], ◌∷◌, none, some}
use airgapped_ai_gateway_k8s.Base.Int.{pos}
use airgapped_ai_gateway_k8s.Base.Outcome.{Result, ok}
use airgapped_ai_gateway_k8s.Base.Json.{str, obj, Fields, end, field}
use airgapped_ai_gateway_k8s.Base.Runner.{Runner}
use airgapped_ai_gateway_k8s.Models.{GatewayConfig, same_namespace_only, retained_nginx}
use airgapped_ai_gateway_k8s.Ledger.Ref.{ResourceRef}
use airgapped_ai_gateway_k8s.Ledger.Snapshot.{PreChangeSnapshot}
use airgapped_ai_gateway_k8s.Planning.Plan.{Hashing}
use airgapped_ai_gateway_k8s.Execution.Validate.{Arguments}
use airgapped_ai_gateway_k8s.Execution.Run.{Tools}

abbrev pub config : GatewayConfig
config = record {
  platform = record {
    name = "platform";
    baseline = record { agentgateway_version = "v1.3.1"; gateway_api_version = "v1.5.0" };
    cluster = record { expected_context = "kind-demo" };
    gateway = record {
      namespace = "gateway";
      name = "edge";
      hostname_wildcard = "*.example.internal";
      reference_grant_mode = same_namespace_only;
      exposure_mode = retained_nginx;
    };
    rate_limit = record {
      enabled = true;
      backend_enabled = true;
      namespace = "gateway";
      service_name = "ratelimit";
    };
    registry = record { private_registry = "registry"; strict_airgap = true; images = [] };
    confirmation_token = "YES";
  };
  models = [];
  consumers = [];
}

abbrev pub hashing : Hashing
hashing = record { dumps = λ v. "plan"; sha256_hex = λ s. "0123456789abcdef0123" }

-- Every command succeeds and prints the context.
abbrev pub runner : Runner
runner calls call = ok (record { returncode = pos 0; stdout = "kind-demo\n"; stderr = "" })

abbrev pub tools : Tools
tools = record {
  hashing = hashing;
  loads = λ s. some (obj end);
  yaml_dump = λ fs. "manifest";
  runner = runner;
}

abbrev pub manifest : Fields
manifest = field "apiVersion" (str "v1") (
    field "kind" (str "ConfigMap") (
      field "metadata" (obj (field "name" (str "settings") (field "namespace" (str "gateway") end)))
        end))

abbrev pub settings : ResourceRef
settings = record {
  api_version = "v1";
  kind = "ConfigMap";
  namespace = "gateway";
  name = "settings";
}

abbrev pub extra : ResourceRef
extra = record { api_version = "v1"; kind = "Secret"; namespace = "gateway"; name = "extra" }

-- `settings` was there before, and `extra` was not.
abbrev pub snapshot : PreChangeSnapshot
snapshot = record {
  status = "ok";
  resources = ("v1/ConfigMap/gateway/settings", manifest) ∷ [];
  error = none;
}

abbrev pub args : Arguments
args = record {
  expected_context = "kind-demo";
  apply_mode = "server-side-dry-run";
  confirmation = "YES";
  snapshot = some snapshot;
  ledger = none;
}

abbrev pub build_overlay : String → Result (List Fields)
build_overlay overlay = ok (manifest ∷ [])

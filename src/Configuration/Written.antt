-- ===== src/Configuration/Written.antt =====
-- The layout of a configuration file, as the configuration that it states.
use airgapped_ai_gateway_k8s.Base.{String, Option, none, some, map}
use airgapped_ai_gateway_k8s.Base.Int.{ℤ}
use airgapped_ai_gateway_k8s.Base.Json.{
  Value, null, bool, int, str, arr, obj, Fields, end, field, of_list, strs,
}
use airgapped_ai_gateway_k8s.Models.{
  ModelKind, chat, embedding, RouteBackend, agentgateway_backend, kubernetes_service,
  ReferenceGrantMode, same_namespace_only, explicit, ExposureMode, retained_nginx,
  greenfield_direct, GatewaySettings, RateLimitSettings, RegistryImage, RegistrySettings,
  PlatformConfig, ServicePort, ServiceRef, ModelConfig, ConsumerRateLimits, ConsumerConfig,
  GatewayConfig,
}

-- The values of the members of models.py's enumerations.
abbrev pub kind_text : ModelKind → String
kind_text chat = "chat"
kind_text embedding = "embedding"

abbrev pub backend_text : RouteBackend → String
backend_text agentgateway_backend = "agentgateway-backend"
backend_text kubernetes_service = "kubernetes-service"

abbrev pub grant_text : ReferenceGrantMode → String
grant_text same_namespace_only = "same-namespace-only"
grant_text explicit = "explicit"

abbrev pub exposure_text : ExposureMode → String
exposure_text retained_nginx = "retained-nginx"
exposure_text greenfield_direct = "greenfield-direct"

abbrev pub optional_text_value : Option String → Value
optional_text_value none = null
optional_text_value (some s) = str s

abbrev pub optional_int_value : Option ℤ → Value
optional_int_value none = null
optional_int_value (some n) = int n

abbrev pub image_entry : RegistryImage → Value
image_entry i =
    obj (
      field "name" (str i.name) (field "source" (str i.source) (field "target" (str i.target) end)))

abbrev pub port_value : ServicePort → Value
port_value p = obj (field "name" (optional_text_value p.name) (field "number" (int p.number) end))

abbrev pub service_fields : ServiceRef → Fields
service_fields r = field "name" (str r.name) (
    field "namespace" (str r.namespace) (
      field "ports" (arr (of_list (map port_value r.ports))) (
        field "target_port_name" (optional_text_value r.target_port_name)
          (field "target_port_number" (optional_int_value r.target_port_number) end))))

abbrev pub model_value : ModelConfig → Value
model_value m = obj (
    field "key" (str m.key) (
      field "display_name" (str m.display_name) (
        field "kind" (str (kind_text m.kind)) (
          field "host" (str m.host) (
            field "route_path" (str m.route_path) (
              field "permission" (str m.permission) (
                field "backend" (str (backend_text m.backend))
                  (field "service" (obj (service_fields m.service)) end))))))))

abbrev pub limits_value : Option ConsumerRateLimits → Value
limits_value none = null
limits_value (some l) = obj (
    field "requests_per_minute" (int l.requests_per_minute)
      (field "tokens_per_minute" (optional_int_value l.tokens_per_minute) end))

abbrev pub consumer_value : ConsumerConfig → Value
consumer_value c = obj (
    field "key" (str c.key) (
      field "display_name" (str c.display_name) (
        field "allowed_models" (strs c.allowed_models) (
          field "credential_placeholder" (str c.credential_placeholder)
            (field "rate_limits" (limits_value c.rate_limits) end)))))

abbrev pub gateway_fields : GatewaySettings → Fields
gateway_fields g = field "namespace" (str g.namespace) (
    field "name" (str g.name) (
      field "hostname_wildcard" (str g.hostname_wildcard) (
        field "reference_grant_mode" (str (grant_text g.reference_grant_mode))
          (field "exposure_mode" (str (exposure_text g.exposure_mode)) end))))

abbrev pub rate_limit_fields : RateLimitSettings → Fields
rate_limit_fields r = field "enabled" (bool r.enabled) (
    field "backend_enabled" (bool r.backend_enabled)
      (field "namespace" (str r.namespace) (field "service_name" (str r.service_name) end)))

abbrev pub registry_fields : RegistrySettings → Fields
registry_fields r = field "private_registry" (str r.private_registry) (
    field "strict_airgap" (bool r.strict_airgap)
      (field "images" (arr (of_list (map image_entry r.images))) end))

abbrev pub platform_fields : PlatformConfig → Fields
platform_fields p = field "name" (str p.name) (
    field "agentgateway_version" (str p.baseline.agentgateway_version) (
      field "gateway_api_version" (str p.baseline.gateway_api_version)
        (field "confirmation_token" (str p.confirmation_token) end)))

abbrev pub config_fields : GatewayConfig → Fields
config_fields c = field "platform" (obj (platform_fields c.platform)) (
    field "cluster" (obj (field "expected_context" (str c.platform.cluster.expected_context) end)) (
      field "gateway" (obj (gateway_fields c.platform.gateway)) (
        field "rate_limit" (obj (rate_limit_fields c.platform.rate_limit)) (
          field "registry" (obj (registry_fields c.platform.registry)) (
            field "models" (arr (of_list (map model_value c.models)))
              (field "consumers" (arr (of_list (map consumer_value c.consumers))) end))))))

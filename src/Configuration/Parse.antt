-- ===== src/Configuration/Parse.antt =====
-- `_parse_config` of configuration.py, and the readers of its parts.
use airgapped_ai_gateway_k8s.Base.{String, Option, none, some, ◌==◌, if◌then◌else◌}
use airgapped_ai_gateway_k8s.Base.Outcome.{Result, ok, err, python_error, traverse, ◌>>=◌}
use airgapped_ai_gateway_k8s.Base.Json.{Value, null, Fields, get}
use airgapped_ai_gateway_k8s.Models.{
  ModelKind, chat, embedding, RouteBackend, agentgateway_backend, kubernetes_service,
  ReferenceGrantMode, same_namespace_only, explicit, ExposureMode, retained_nginx,
  greenfield_direct, Baseline, ClusterSettings, GatewaySettings, RateLimitSettings, RegistryImage,
  RegistrySettings, PlatformConfig, ServicePort, ServiceRef, ModelConfig, ConsumerRateLimits,
  ConsumerConfig, GatewayConfig,
}
use airgapped_ai_gateway_k8s.Configuration.Expect.{
  expect_mapping, expect_list, expect_string, expect_bool, expect_int, optional_string,
  optional_int,
}

-- ModelKind(s), and the other enumerations; a value that no member has is a `ValueError`.
unfoldable pub model_kind : String → Result ModelKind
model_kind s =
    if s == "chat"
    then ok chat
    else if s == "embedding"
    then ok embedding
    else err (python_error "ValueError")

unfoldable pub route_backend : String → Result RouteBackend
route_backend s =
    if s == "agentgateway-backend"
    then ok agentgateway_backend
    else if s == "kubernetes-service"
    then ok kubernetes_service
    else err (python_error "ValueError")

unfoldable pub parse_grant_mode : String → Result ReferenceGrantMode
parse_grant_mode s =
    if s == "same-namespace-only"
    then ok same_namespace_only
    else if s == "explicit"
    then ok explicit
    else err (python_error "ValueError")

unfoldable pub parse_exposure_mode : String → Result ExposureMode
parse_exposure_mode s =
    if s == "retained-nginx"
    then ok retained_nginx
    else if s == "greenfield-direct"
    then ok greenfield_direct
    else err (python_error "ValueError")

unfoldable pub parse_image : Value → Result RegistryImage
parse_image raw = do
  item ← expect_mapping raw "registry.images[]"
  name ← expect_string (get item "name") "registry.images[].name"
  source ← expect_string (get item "source") "registry.images[].source"
  target ← expect_string (get item "target") "registry.images[].target"
  ok (record { name = name; source = source; target = target })

unfoldable pub parse_service_port : Value → Result ServicePort
parse_service_port raw = do
  item ← expect_mapping raw "models[].service.ports[]"
  name ← optional_string (get item "name") "models[].service.ports[].name"
  number ← expect_int (get item "number") "models[].service.ports[].number"
  ok (record { name = name; number = number })

unfoldable pub parse_service : Fields → Result ServiceRef
unfolding parse_service_port
parse_service raw = do
  name ← expect_string (get raw "name") "models[].service.name"
  namespace ← expect_string (get raw "namespace") "models[].service.namespace"
  listed ← expect_list (get raw "ports") "models[].service.ports"
  ports ← traverse parse_service_port listed
  target_port_name ←
      optional_string (get raw "target_port_name") "models[].service.target_port_name"
  target_port_number ←
      optional_int (get raw "target_port_number") "models[].service.target_port_number"
  ok (record {
    name = name;
    namespace = namespace;
    ports = ports;
    target_port_name = target_port_name;
    target_port_number = target_port_number;
  })

unfoldable pub parse_model : Value → Result ModelConfig
unfolding parse_service model_kind route_backend
parse_model raw = do
  item ← expect_mapping raw "models[]"
  service_raw ← expect_mapping (get item "service") "models[].service"
  key ← expect_string (get item "key") "models[].key"
  display_name ← expect_string (get item "display_name") "models[].display_name"
  kind_text ← expect_string (get item "kind") "models[].kind"
  kind ← model_kind kind_text
  host ← expect_string (get item "host") "models[].host"
  route_path ← expect_string (get item "route_path") "models[].route_path"
  permission ← expect_string (get item "permission") "models[].permission"
  backend_text ← expect_string (get item "backend") "models[].backend"
  backend ← route_backend backend_text
  service ← parse_service service_raw
  ok (record {
    key = key;
    display_name = display_name;
    kind = kind;
    host = host;
    route_path = route_path;
    permission = permission;
    backend = backend;
    service = service;
  })

unfoldable pub parse_rate_limits : Value → Result (Option ConsumerRateLimits)
parse_rate_limits null = ok none
parse_rate_limits raw = do
  rate_limit ← expect_mapping raw "consumers[].rate_limits"
  requests ←
      expect_int (get rate_limit "requests_per_minute")
        "consumers[].rate_limits.requests_per_minute"
  tokens ←
      optional_int (get rate_limit "tokens_per_minute") "consumers[].rate_limits.tokens_per_minute"
  ok (some (record { requests_per_minute = requests; tokens_per_minute = tokens }))

unfoldable pub parse_allowed_model : Value → Result String
parse_allowed_model value = expect_string value "consumers[].allowed_models[]"

unfoldable pub parse_consumer : Value → Result ConsumerConfig
unfolding parse_rate_limits parse_allowed_model
parse_consumer raw = do
  item ← expect_mapping raw "consumers[]"
  rate_limits ← parse_rate_limits (get item "rate_limits")
  key ← expect_string (get item "key") "consumers[].key"
  display_name ← expect_string (get item "display_name") "consumers[].display_name"
  listed ← expect_list (get item "allowed_models") "consumers[].allowed_models"
  allowed_models ← traverse parse_allowed_model listed
  credential_placeholder ←
      expect_string (get item "credential_placeholder") "consumers[].credential_placeholder"
  ok (record {
    key = key;
    display_name = display_name;
    allowed_models = allowed_models;
    credential_placeholder = credential_placeholder;
    rate_limits = rate_limits;
  })

unfoldable pub parse_baseline : Fields → Result Baseline
parse_baseline raw = do
  agentgateway ← expect_string (get raw "agentgateway_version") "platform.agentgateway_version"
  gateway_api ← expect_string (get raw "gateway_api_version") "platform.gateway_api_version"
  ok (record { agentgateway_version = agentgateway; gateway_api_version = gateway_api })

unfoldable pub parse_gateway : Fields → Result GatewaySettings
unfolding parse_grant_mode parse_exposure_mode
parse_gateway raw = do
  namespace ← expect_string (get raw "namespace") "gateway.namespace"
  name ← expect_string (get raw "name") "gateway.name"
  wildcard ← expect_string (get raw "hostname_wildcard") "gateway.hostname_wildcard"
  grant_text ← expect_string (get raw "reference_grant_mode") "gateway.reference_grant_mode"
  grant_mode ← parse_grant_mode grant_text
  exposure_text ← expect_string (get raw "exposure_mode") "gateway.exposure_mode"
  exposure ← parse_exposure_mode exposure_text
  ok (record {
    namespace = namespace;
    name = name;
    hostname_wildcard = wildcard;
    reference_grant_mode = grant_mode;
    exposure_mode = exposure;
  })

unfoldable pub parse_rate_limit : Fields → Result RateLimitSettings
parse_rate_limit raw = do
  enabled ← expect_bool (get raw "enabled") "rate_limit.enabled"
  backend_enabled ← expect_bool (get raw "backend_enabled") "rate_limit.backend_enabled"
  namespace ← expect_string (get raw "namespace") "rate_limit.namespace"
  service_name ← expect_string (get raw "service_name") "rate_limit.service_name"
  ok (record {
    enabled = enabled;
    backend_enabled = backend_enabled;
    namespace = namespace;
    service_name = service_name;
  })

unfoldable pub parse_registry : Fields → Result RegistrySettings
unfolding parse_image
parse_registry raw = do
  private_registry ← expect_string (get raw "private_registry") "registry.private_registry"
  strict_airgap ← expect_bool (get raw "strict_airgap") "registry.strict_airgap"
  listed ← expect_list (get raw "images") "registry.images"
  images ← traverse parse_image listed
  ok (record {
    private_registry = private_registry;
    strict_airgap = strict_airgap;
    images = images;
  })

unfoldable pub parse_cluster : Fields → Result ClusterSettings
parse_cluster raw = do
  expected_context ← expect_string (get raw "expected_context") "cluster.expected_context"
  ok (record { expected_context = expected_context })

unfoldable pub parse_platform : Fields → Result PlatformConfig
unfolding parse_baseline parse_cluster parse_gateway parse_rate_limit parse_registry
parse_platform raw = do
  platform_raw ← expect_mapping (get raw "platform") "platform"
  cluster_raw ← expect_mapping (get raw "cluster") "cluster"
  gateway_raw ← expect_mapping (get raw "gateway") "gateway"
  rate_limit_raw ← expect_mapping (get raw "rate_limit") "rate_limit"
  registry_raw ← expect_mapping (get raw "registry") "registry"
  name ← expect_string (get platform_raw "name") "platform.name"
  baseline ← parse_baseline platform_raw
  cluster ← parse_cluster cluster_raw
  gateway ← parse_gateway gateway_raw
  rate_limit ← parse_rate_limit rate_limit_raw
  registry ← parse_registry registry_raw
  token ← expect_string (get platform_raw "confirmation_token") "platform.confirmation_token"
  ok (record {
    name = name;
    baseline = baseline;
    cluster = cluster;
    gateway = gateway;
    rate_limit = rate_limit;
    registry = registry;
    confirmation_token = token;
  })

unfoldable pub parse_config : Fields → Result GatewayConfig
unfolding parse_platform parse_model parse_consumer
parse_config raw = do
  platform ← parse_platform raw
  listed_models ← expect_list (get raw "models") "models"
  models ← traverse parse_model listed_models
  listed_consumers ← expect_list (get raw "consumers") "consumers"
  consumers ← traverse parse_consumer listed_consumers
  ok (record { platform = platform; models = models; consumers = consumers })

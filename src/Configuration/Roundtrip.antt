-- ===== src/Configuration/Roundtrip.antt =====
-- A configuration written in the layout of the files is read back.
mod Entries
use airgapped_ai_gateway_k8s.Base.{
  String, ◌≡◌, refl, List, [], ◌∷◌, map, Option, none, some, All, arith, eq_iff,
}
use airgapped_ai_gateway_k8s.Base.Strip.{strip, lstrip, rstrip, is_space}
use airgapped_ai_gateway_k8s.Base.Int.{ℤ}
use airgapped_ai_gateway_k8s.Base.Json.{Value, str, texts, to_list-of_list}
use airgapped_ai_gateway_k8s.Base.Outcome.{Result, ok, traverse}
use airgapped_ai_gateway_k8s.Models.{
  ModelKind, chat, embedding, RouteBackend, agentgateway_backend, kubernetes_service,
  ReferenceGrantMode, same_namespace_only, explicit, ExposureMode, retained_nginx,
  greenfield_direct, GatewaySettings, RateLimitSettings, RegistryImage, RegistrySettings,
  PlatformConfig, ServicePort, ServiceRef, ModelConfig, ConsumerRateLimits, ConsumerConfig,
  GatewayConfig,
}
use airgapped_ai_gateway_k8s.Configuration.Expect.{
  expect_mapping, expect_list, expect_string, expect_bool, expect_int, optional_string,
  optional_int,
}
use airgapped_ai_gateway_k8s.Configuration.Parse.{
  model_kind, route_backend, parse_grant_mode, parse_exposure_mode, parse_image, parse_service_port,
  parse_service, parse_model, parse_rate_limits, parse_allowed_model, parse_consumer,
  parse_baseline, parse_cluster, parse_gateway, parse_rate_limit, parse_registry, parse_platform,
  parse_config,
}
use airgapped_ai_gateway_k8s.Configuration.Stated.{
  IsStated, AreStated, IsAbsentOrStated, ImageStated, PortStated, ServiceStated, ModelStated,
  ConsumerStated, BaselineStated, GatewayStated, RateLimitStated, RegistryStated, PlatformStated,
  ConfigStated,
}
use airgapped_ai_gateway_k8s.Configuration.Written.{
  kind_text, backend_text, grant_text, exposure_text, optional_text_value, optional_int_value,
  image_entry, port_value, service_fields, model_value, limits_value, consumer_value,
  gateway_fields, rate_limit_fields, registry_fields, platform_fields, config_fields,
}
use airgapped_ai_gateway_k8s.Configuration.Roundtrip.Entries.{
  text_read, image_read, traverse_read, grant_stated, grant_read, exposure_stated, exposure_read,
  model_read, consumer_read,
}

baseline_read :
    (p : PlatformConfig)
    → BaselineStated p.baseline
    → parse_baseline (platform_fields p) ≡ ok p.baseline
unfolding parse_baseline
baseline_read p h =
    rw
      (
        text_read p.baseline.agentgateway_version "platform.agentgateway_version"
            h.agentgateway_version,
        text_read p.baseline.gateway_api_version "platform.gateway_api_version"
            h.gateway_api_version,
      )
      refl

gateway_read : (g : GatewaySettings) → GatewayStated g → parse_gateway (gateway_fields g) ≡ ok g
unfolding parse_gateway
gateway_read g h =
    rw
      (
        text_read g.namespace "gateway.namespace" h.namespace,
        text_read g.name "gateway.name" h.name,
        text_read g.hostname_wildcard "gateway.hostname_wildcard" h.hostname_wildcard,
        grant_stated g.reference_grant_mode "gateway.reference_grant_mode",
        grant_read g.reference_grant_mode,
        exposure_stated g.exposure_mode "gateway.exposure_mode",
        exposure_read g.exposure_mode,
      )
      refl

rate_limit_read :
    (r : RateLimitSettings) → RateLimitStated r → parse_rate_limit (rate_limit_fields r) ≡ ok r
unfolding parse_rate_limit expect_bool
rate_limit_read r h =
    rw
      (
        text_read r.namespace "rate_limit.namespace" h.namespace,
        text_read r.service_name "rate_limit.service_name" h.service_name,
      )
      refl

registry_read :
    (r : RegistrySettings) → RegistryStated r → parse_registry (registry_fields r) ≡ ok r
unfolding parse_registry expect_bool expect_list
registry_read r h =
    rw
      (
        text_read r.private_registry "registry.private_registry" h.private_registry,
        to_list-of_list (map image_entry r.images),
        traverse_read ImageStated parse_image image_entry image_read r.images h.images,
      )
      refl

platform_read :
    (c : GatewayConfig)
    → PlatformStated c.platform
    → parse_platform (config_fields c) ≡ ok c.platform
unfolding parse_platform parse_cluster expect_mapping
platform_read c h =
    rw
      (
        text_read c.platform.name "platform.name" h.name,
        baseline_read c.platform h.baseline,
        text_read c.platform.cluster.expected_context "cluster.expected_context" h.context,
        gateway_read c.platform.gateway h.gateway,
        rate_limit_read c.platform.rate_limit h.rate_limit,
        registry_read c.platform.registry h.registry,
        text_read c.platform.confirmation_token "platform.confirmation_token" h.token,
      )
      refl

-- Any configuration of which no required text is blank can be stated in the layout of the files,
-- and what is then read is that configuration, in every field.
pub parse_config-config_fields :
    (c : GatewayConfig) → ConfigStated c → parse_config (config_fields c) ≡ ok c
unfolding parse_config expect_list
parse_config-config_fields c h =
    rw
      (
        platform_read c h.platform,
        to_list-of_list (map model_value c.models),
        traverse_read ModelStated parse_model model_value model_read c.models h.models,
        to_list-of_list (map consumer_value c.consumers),
        traverse_read ConsumerStated parse_consumer consumer_value consumer_read c.consumers
            h.consumers,
      )
      refl

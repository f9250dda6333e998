-- ===== src/Configuration/Valid.antt =====
-- What `validate_config` accepts.
use text.Mathlib.Text.{starts_with}
use airgapped_ai_gateway_k8s.Base.{
  true, false, ◌≡◌, ◌≢◌, ◌⊎◌, map, none, ◌<>◌, All, Distinct, contains,
}
use airgapped_ai_gateway_k8s.Base.Strip.{strip, has_substring, ends_with, rstrip_slashes}
use airgapped_ai_gateway_k8s.Models.{
  chat, embedding, agentgateway_backend, kubernetes_service, explicit, RegistryImage,
  RegistrySettings, ServicePort, ModelConfig, ConsumerConfig, GatewayConfig,
}
use airgapped_ai_gateway_k8s.Configuration.Validate.{model_keys, route_of}
use airgapped_ai_gateway_k8s.Configuration.Ports.{Selects}

-- No two models share a key, a host, a route or a permission field, and no two consumers a key.
pub record IsUnambiguous (config : GatewayConfig) : Type 0 where
  pub keys : Distinct (model_keys config)
  pub hosts : Distinct (map (λ (m : ModelConfig). m.host) config.models)
  pub routes : Distinct (map route_of config.models)
  pub permissions : Distinct (map (λ (m : ModelConfig). m.permission) config.models)
  pub consumers : Distinct (map (λ (c : ConsumerConfig). c.key) config.consumers)

-- A model selects one declared port, stays in the gateway's namespace or has an explicit grant,
-- and has the backend of its kind.
pub record IsRoutable (config : GatewayConfig) (m : ModelConfig) : Type 0 where
  pub selected : (p : ServicePort) × Selects m.service p
  pub granted :
      (m.service.namespace ≡ config.platform.gateway.namespace)
      ⊎ (config.platform.gateway.reference_grant_mode ≡ explicit)
  pub backend :
      (m.kind ≡ chat) × (m.backend ≡ agentgateway_backend)
      ⊎ (m.kind ≡ embedding) × (m.backend ≡ kubernetes_service)

-- An image of the private registry, by digest, and not by its `latest` tag.
pub record IsPinned (registry : RegistrySettings) (image : RegistryImage) : Type 0 where
  pub private_target :
      starts_with image.target (rstrip_slashes registry.private_registry <> "/") ≡ true
  pub by_digest : has_substring "@sha256:" image.target ≡ true
  pub no_latest : ends_with image.target ":latest" ≡ false
  pub no_latest_digest : has_substring ":latest@" image.target ≡ false

pub record IsValid (config : GatewayConfig) : Type 0 where
  pub unambiguous : IsUnambiguous config
  pub known :
      All
        (λ (c : ConsumerConfig). All (λ k. contains (model_keys config) k ≡ true) c.allowed_models)
        config.consumers
  pub routable : All (IsRoutable config) config.models
  pub limits_backed :
      config.platform.rate_limit.enabled ≡ true → config.platform.rate_limit.backend_enabled ≡ true
  pub limits_served :
      config.platform.rate_limit.backend_enabled ≡ false
      → All (λ (c : ConsumerConfig). c.rate_limits ≡ none) config.consumers
  pub pinned :
      config.platform.registry.strict_airgap ≡ true
      → All (IsPinned config.platform.registry) config.platform.registry.images
  pub context : strip config.platform.cluster.expected_context ≢ ""
  pub token : strip config.platform.confirmation_token ≢ ""

-- ===== src/Configuration/Stated.antt =====
-- The texts of a configuration that was read are not blank.
use airgapped_ai_gateway_k8s.Base.{String, ◌≢◌, Option, none, some, List, All}
use airgapped_ai_gateway_k8s.Base.Strip.{strip}
use airgapped_ai_gateway_k8s.Models.{
  Baseline, GatewaySettings, RateLimitSettings, RegistryImage, RegistrySettings, PlatformConfig,
  ServicePort, ServiceRef, ModelConfig, ConsumerConfig, GatewayConfig,
}

abbrev pub IsStated : String → Type 0
IsStated s = strip s ≢ ""

abbrev pub AreStated : List String → Type 0
AreStated = All IsStated

abbrev pub IsAbsentOrStated : Option String → Type 0
IsAbsentOrStated none = Unit
IsAbsentOrStated (some s) = IsStated s

pub record ImageStated (i : RegistryImage) : Type 0 where
  pub name : IsStated i.name
  pub source : IsStated i.source
  pub target : IsStated i.target

abbrev pub PortStated : ServicePort → Type 0
PortStated p = IsAbsentOrStated p.name

pub record ServiceStated (r : ServiceRef) : Type 0 where
  pub name : IsStated r.name
  pub namespace : IsStated r.namespace
  pub ports : All PortStated r.ports
  pub target_port_name : IsAbsentOrStated r.target_port_name

pub record ModelStated (m : ModelConfig) : Type 0 where
  pub key : IsStated m.key
  pub display_name : IsStated m.display_name
  pub host : IsStated m.host
  pub route_path : IsStated m.route_path
  pub permission : IsStated m.permission
  pub service : ServiceStated m.service

pub record ConsumerStated (c : ConsumerConfig) : Type 0 where
  pub key : IsStated c.key
  pub display_name : IsStated c.display_name
  pub allowed_models : AreStated c.allowed_models
  pub credential_placeholder : IsStated c.credential_placeholder

pub record BaselineStated (b : Baseline) : Type 0 where
  pub agentgateway_version : IsStated b.agentgateway_version
  pub gateway_api_version : IsStated b.gateway_api_version

pub record GatewayStated (g : GatewaySettings) : Type 0 where
  pub namespace : IsStated g.namespace
  pub name : IsStated g.name
  pub hostname_wildcard : IsStated g.hostname_wildcard

pub record RateLimitStated (r : RateLimitSettings) : Type 0 where
  pub namespace : IsStated r.namespace
  pub service_name : IsStated r.service_name

pub record RegistryStated (r : RegistrySettings) : Type 0 where
  pub private_registry : IsStated r.private_registry
  pub images : All ImageStated r.images

pub record PlatformStated (p : PlatformConfig) : Type 0 where
  pub name : IsStated p.name
  pub baseline : BaselineStated p.baseline
  pub context : IsStated p.cluster.expected_context
  pub gateway : GatewayStated p.gateway
  pub rate_limit : RateLimitStated p.rate_limit
  pub registry : RegistryStated p.registry
  pub token : IsStated p.confirmation_token

-- Every text that the format requires is there and is not blank.
pub record ConfigStated (c : GatewayConfig) : Type 0 where
  pub platform : PlatformStated c.platform
  pub models : All ModelStated c.models
  pub consumers : All ConsumerStated c.consumers

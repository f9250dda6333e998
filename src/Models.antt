-- ===== src/Models.antt =====
-- src/airgap_ai_gateway/models.py: the immutable configuration, and command.py's result.
use airgapped_ai_gateway_k8s.Base.{String, Bool, List, Option}
use airgapped_ai_gateway_k8s.Base.Int.{ℤ}

pub data ModelKind : Type 0 where
  chat embedding : ModelKind

pub data RouteBackend : Type 0 where
  agentgateway_backend kubernetes_service : RouteBackend

pub data ReferenceGrantMode : Type 0 where
  same_namespace_only explicit : ReferenceGrantMode

pub data ExposureMode : Type 0 where
  retained_nginx greenfield_direct : ExposureMode

pub record Baseline : Type 0 where
  pub agentgateway_version : String
  pub gateway_api_version : String

pub record ClusterSettings : Type 0 where
  pub expected_context : String

pub record GatewaySettings : Type 0 where
  pub namespace : String
  pub name : String
  pub hostname_wildcard : String
  pub reference_grant_mode : ReferenceGrantMode
  pub exposure_mode : ExposureMode

pub record RateLimitSettings : Type 0 where
  pub enabled : Bool
  pub backend_enabled : Bool
  pub namespace : String
  pub service_name : String

pub record RegistryImage : Type 0 where
  pub name : String
  pub source : String
  pub target : String

pub record RegistrySettings : Type 0 where
  pub private_registry : String
  pub strict_airgap : Bool
  pub images : List RegistryImage

pub record PlatformConfig : Type 0 where
  pub name : String
  pub baseline : Baseline
  pub cluster : ClusterSettings
  pub gateway : GatewaySettings
  pub rate_limit : RateLimitSettings
  pub registry : RegistrySettings
  pub confirmation_token : String

pub record ServicePort : Type 0 where
  pub name : Option String
  pub number : ℤ

pub record ServiceRef : Type 0 where
  pub name : String
  pub namespace : String
  pub ports : List ServicePort
  pub target_port_name : Option String
  pub target_port_number : Option ℤ

pub record ModelConfig : Type 0 where
  pub key : String
  pub display_name : String
  pub kind : ModelKind
  pub host : String
  pub route_path : String
  pub permission : String
  pub backend : RouteBackend
  pub service : ServiceRef

pub record ConsumerRateLimits : Type 0 where
  pub requests_per_minute : ℤ
  pub tokens_per_minute : Option ℤ

pub record ConsumerConfig : Type 0 where
  pub key : String
  pub display_name : String
  pub allowed_models : List String
  pub credential_placeholder : String
  pub rate_limits : Option ConsumerRateLimits

pub record GatewayConfig : Type 0 where
  pub platform : PlatformConfig
  pub models : List ModelConfig
  pub consumers : List ConsumerConfig

-- command.py
pub record CommandResult : Type 0 where
  pub returncode : ℤ
  pub stdout : String
  pub stderr : String

pub record CommandIntent : Type 0 where
  pub label : String
  pub argv : List String
  pub mutating : Bool

unfoldable pub describe_intent : String → List String → Bool → CommandIntent
describe_intent label argv mutating = record { label = label; argv = argv; mutating = mutating }

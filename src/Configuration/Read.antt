-- ===== src/Configuration/Read.antt =====
-- What `_parse_config` reads is stated: the rules of its steps, and the parts that use them.
mod Rules
use airgapped_ai_gateway_k8s.Base.{String, Option, some, List, [], ◌∷◌, ◌≡◌, All, arith, eq_iff}
use airgapped_ai_gateway_k8s.Base.Strip.{strip}
use airgapped_ai_gateway_k8s.Base.Json.{Value, null, bool, int, real, str, arr, obj, Fields}
use airgapped_ai_gateway_k8s.Base.Outcome.{Result, ok, traverse, IfOk, IfOk-bind, IfOk-eq, ◌>>=◌}
use airgapped_ai_gateway_k8s.Models.{
  ModelKind, RouteBackend, Baseline, ClusterSettings, GatewaySettings, RateLimitSettings,
  RegistrySettings, PlatformConfig, RegistryImage, ServicePort, ServiceRef, ModelConfig,
  ConsumerConfig, GatewayConfig,
}
use airgapped_ai_gateway_k8s.Configuration.Expect.{expect_mapping, expect_string, optional_string}
use airgapped_ai_gateway_k8s.Configuration.Parse.{
  model_kind, route_backend, parse_image, parse_service_port, parse_service, parse_model,
  parse_allowed_model, parse_consumer, parse_baseline, parse_cluster, parse_gateway,
  parse_rate_limit, parse_registry, parse_platform, parse_config,
}
use airgapped_ai_gateway_k8s.Configuration.Stated.{
  IsStated, AreStated, IsAbsentOrStated, ImageStated, PortStated, ServiceStated, ModelStated,
  ConsumerStated, BaselineStated, GatewayStated, RateLimitStated, RegistryStated, PlatformStated,
  ConfigStated,
}
use airgapped_ai_gateway_k8s.Configuration.Read.Rules.{
  expect_string-IsStated, past, after, after_text, after_optional, after_all,
}

parse_image-Stated : (v : Value) → IfOk ImageStated (parse_image v)
unfolding parse_image
parse_image-Stated v = search (after_text, past) depth 16

parse_service_port-Stated : (v : Value) → IfOk PortStated (parse_service_port v)
unfolding parse_service_port
parse_service_port-Stated v = search (after_optional, past) depth 16

module _ {B : Type 0} (Q : B → Type 0) where
  after_ports :
      (vs : List Value) (f : List ServicePort → Result B)
      → ((ports : List ServicePort) → All PortStated ports → IfOk Q (f ports))
      → IfOk Q (traverse parse_service_port vs >>= f)
  after_ports = after_all Q PortStated parse_service_port parse_service_port-Stated

  after_images :
      (vs : List Value) (f : List RegistryImage → Result B)
      → ((images : List RegistryImage) → All ImageStated images → IfOk Q (f images))
      → IfOk Q (traverse parse_image vs >>= f)
  after_images = after_all Q ImageStated parse_image parse_image-Stated

  after_allowed :
      (vs : List Value) (f : List String → Result B)
      → ((keys : List String) → AreStated keys → IfOk Q (f keys))
      → IfOk Q (traverse parse_allowed_model vs >>= f)
  unfolding parse_allowed_model
  after_allowed = after_all Q IsStated parse_allowed_model λ v. expect_string-IsStated v _

parse_service-Stated : (fs : Fields) → IfOk ServiceStated (parse_service fs)
unfolding parse_service
parse_service-Stated fs = search (after_text, after_optional, after_ports, past) depth 16

after_service :
    {B : Type 0} (Q : B → Type 0) (fs : Fields) (f : ServiceRef → Result B)
    → ((r : ServiceRef) → ServiceStated r → IfOk Q (f r))
    → IfOk Q (parse_service fs >>= f)
after_service Q fs f = after Q ServiceStated _ f (parse_service-Stated fs)

parse_baseline-Stated : (fs : Fields) → IfOk BaselineStated (parse_baseline fs)
unfolding parse_baseline
parse_baseline-Stated fs = search (after_text, past) depth 16

ClusterStated : ClusterSettings → Type 0
ClusterStated c = IsStated c.expected_context

parse_cluster-Stated : (fs : Fields) → IfOk ClusterStated (parse_cluster fs)
unfolding parse_cluster ClusterStated
parse_cluster-Stated fs = search after_text

parse_gateway-Stated : (fs : Fields) → IfOk GatewayStated (parse_gateway fs)
unfolding parse_gateway
parse_gateway-Stated fs = search (after_text, past) depth 16

parse_rate_limit-Stated : (fs : Fields) → IfOk RateLimitStated (parse_rate_limit fs)
unfolding parse_rate_limit
parse_rate_limit-Stated fs = search (after_text, past) depth 16

parse_registry-Stated : (fs : Fields) → IfOk RegistryStated (parse_registry fs)
unfolding parse_registry
parse_registry-Stated fs = search (after_text, after_images, past) depth 16

parse_consumer-Stated : (v : Value) → IfOk ConsumerStated (parse_consumer v)
unfolding parse_consumer
parse_consumer-Stated v = search (after_text, after_allowed, past) depth 16

-- The steps of `_parse_model` that read no text of the configuration.
module _ {B : Type 0} (Q : B → Type 0) where
  past_mapping :
      (v : Value) (label : String) (f : Fields → Result B)
      → ((fs : Fields) → IfOk Q (f fs))
      → IfOk Q (expect_mapping v label >>= f)
  past_mapping v label f = past Q (expect_mapping v label) f

  past_kind :
      (s : String) (f : ModelKind → Result B)
      → ((k : ModelKind) → IfOk Q (f k))
      → IfOk Q (model_kind s >>= f)
  past_kind s f = past Q (model_kind s) f

  past_backend :
      (s : String) (f : RouteBackend → Result B)
      → ((b : RouteBackend) → IfOk Q (f b))
      → IfOk Q (route_backend s >>= f)
  past_backend s f = past Q (route_backend s) f

parse_model-Stated : (v : Value) → IfOk ModelStated (parse_model v)
unfolding parse_model
parse_model-Stated v =
    search (after_text, after_service, past_mapping, past_kind, past_backend) depth 16

module _ {B : Type 0} (Q : B → Type 0) where
  after_baseline :
      (fs : Fields) (f : Baseline → Result B)
      → ((a : Baseline) → BaselineStated a → IfOk Q (f a))
      → IfOk Q (parse_baseline fs >>= f)
  after_baseline fs f = after Q BaselineStated _ f (parse_baseline-Stated fs)

  after_cluster :
      (fs : Fields) (f : ClusterSettings → Result B)
      → ((a : ClusterSettings) → ClusterStated a → IfOk Q (f a))
      → IfOk Q (parse_cluster fs >>= f)
  after_cluster fs f = after Q ClusterStated _ f (parse_cluster-Stated fs)

  after_gateway :
      (fs : Fields) (f : GatewaySettings → Result B)
      → ((a : GatewaySettings) → GatewayStated a → IfOk Q (f a))
      → IfOk Q (parse_gateway fs >>= f)
  after_gateway fs f = after Q GatewayStated _ f (parse_gateway-Stated fs)

  after_rate_limit :
      (fs : Fields) (f : RateLimitSettings → Result B)
      → ((a : RateLimitSettings) → RateLimitStated a → IfOk Q (f a))
      → IfOk Q (parse_rate_limit fs >>= f)
  after_rate_limit fs f = after Q RateLimitStated _ f (parse_rate_limit-Stated fs)

  after_registry :
      (fs : Fields) (f : RegistrySettings → Result B)
      → ((a : RegistrySettings) → RegistryStated a → IfOk Q (f a))
      → IfOk Q (parse_registry fs >>= f)
  after_registry fs f = after Q RegistryStated _ f (parse_registry-Stated fs)

parse_platform-Stated : (fs : Fields) → IfOk PlatformStated (parse_platform fs)
unfolding parse_platform ClusterStated
parse_platform-Stated fs =
    search
      (
        after_text, after_baseline, after_cluster, after_gateway, after_rate_limit, after_registry,
        past,
      )
      depth 16

module _ {B : Type 0} (Q : B → Type 0) where
  after_platform :
      (fs : Fields) (f : PlatformConfig → Result B)
      → ((a : PlatformConfig) → PlatformStated a → IfOk Q (f a))
      → IfOk Q (parse_platform fs >>= f)
  after_platform fs f = after Q PlatformStated _ f (parse_platform-Stated fs)

  after_models :
      (vs : List Value) (f : List ModelConfig → Result B)
      → ((models : List ModelConfig) → All ModelStated models → IfOk Q (f models))
      → IfOk Q (traverse parse_model vs >>= f)
  after_models = after_all Q ModelStated parse_model parse_model-Stated

  after_consumers :
      (vs : List Value) (f : List ConsumerConfig → Result B)
      → ((consumers : List ConsumerConfig) → All ConsumerStated consumers → IfOk Q (f consumers))
      → IfOk Q (traverse parse_consumer vs >>= f)
  after_consumers = after_all Q ConsumerStated parse_consumer parse_consumer-Stated

-- Whatever a file holds, in a configuration that is read from it every text that the format
-- requires is there and is not blank.
pub parse_config-Stated :
    (fs : Fields) (config : GatewayConfig) → parse_config fs ≡ ok config → ConfigStated config
unfolding parse_config
parse_config-Stated fs config e = IfOk-eq ConfigStated _ read e
  where
    read : IfOk ConfigStated (parse_config fs)
    read = search (after_platform, after_models, after_consumers, past) depth 16

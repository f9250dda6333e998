-- ===== src/Configuration/Validate.antt =====
-- `validate_config` of configuration.py: the list of what is wrong with a configuration.
use text.Mathlib.Text.{starts_with}
use airgapped_ai_gateway_k8s.Base.{
  String, Bool, true, false, not, ◌&&◌, ◌||◌, List, [], ◌∷◌, ◌++◌, map, Option, none, some, ◌<>◌,
  ◌==◌, if◌then◌else◌, contains, keep, gather, add_text,
}
use airgapped_ai_gateway_k8s.Base.Int.{ℤ, pos, int_eq}
use airgapped_ai_gateway_k8s.Base.Order.{sorted, str_lt}
use airgapped_ai_gateway_k8s.Base.Strip.{strip, join, has_substring, ends_with, rstrip_slashes}
use airgapped_ai_gateway_k8s.Base.Outcome.{Result, ok, err, config_error}
use airgapped_ai_gateway_k8s.Models.{
  ModelKind, chat, embedding, RouteBackend, agentgateway_backend, kubernetes_service,
  ReferenceGrantMode, same_namespace_only, explicit, RegistryImage, RegistrySettings, ServicePort,
  ModelConfig, ConsumerConfig, GatewayConfig,
}

-- if test: errors.append(message)
unfoldable pub complain : Bool → String → List String
complain true message = message ∷ []
complain false message = []

-- The loop of `_duplicates`: the values seen so far and those seen again; both are sets.
unfoldable pub repeated_values : List String → List String → List String → List String
repeated_values [] seen repeated = repeated
repeated_values (v ∷ vs) seen repeated =
    repeated_values vs (add_text seen v) (if contains seen v then add_text repeated v else repeated)

unfoldable pub duplicates : String → List String → List String
duplicates label values = elim (repeated_values values [] []) [
  | [] ↦ []
  | v ∷ vs ↦ ("duplicate " <> label <> ": " <> join ", " (sorted str_lt (v ∷ vs))) ∷ []
]

-- set(values)
unfoldable pub text_set : List String → List String
text_set [] = []
text_set (v ∷ vs) = add_text (text_set vs) v

unfoldable pub model_keys : GatewayConfig → List String
model_keys config = map (λ (m : ModelConfig). m.key) config.models

-- set(consumer.allowed_models) - model_keys
unfoldable pub unknown_models : List String → ConsumerConfig → List String
unknown_models keys consumer =
    keep (λ key. not (contains keys key)) (text_set consumer.allowed_models)

unfoldable pub unknown_errors : List String → ConsumerConfig → List String
unknown_errors keys consumer = elim (unknown_models keys consumer) [
  | [] ↦ []
  | k ∷ ks ↦
      ("consumer "
        <> consumer.key
        <> " references unknown models: "
        <> join ", " (sorted str_lt (k ∷ ks)))
      ∷ []
]

-- The truth of an optional text, and of an optional number.
unfoldable pub name_given : Option String → Bool
name_given none = false
name_given (some s) = not (s == "")

unfoldable pub number_given : Option ℤ → Bool
number_given none = false
number_given (some n) = not (int_eq n (pos 0))

-- target in {port.name for port in ports if port.name}
unfoldable pub names_port : Option String → List ServicePort → Bool
names_port none ports = false
names_port (some s) [] = false
names_port (some s) (p ∷ ps) =
    let rest = names_port (some s) ps in
    elim p.name [ none ↦ rest | some t ↦ not (t == "") && s == t || rest ]

-- target in {port.number for port in ports}
unfoldable pub numbers_port : Option ℤ → List ServicePort → Bool
numbers_port none ports = false
numbers_port (some n) [] = false
numbers_port (some n) (p ∷ ps) = int_eq n p.number || numbers_port (some n) ps

-- len(ports) > 1
unfoldable pub several : List ServicePort → Bool
several [] = false
several (p ∷ []) = false
several (p ∷ q ∷ qs) = true

unfoldable pub validate_ports : ModelConfig → List ServicePort → List String
unfolding complain several name_given number_given names_port numbers_port
validate_ports model [] = ("model " <> model.key <> " service must declare at least one port") ∷ []
validate_ports model (p ∷ ps) =
    let named = name_given model.service.target_port_name in
    let numbered = number_given model.service.target_port_number in
    complain (named && numbered)
      ("model " <> model.key <> " service cannot set both target_port_name and target_port_number")
    ++ complain (several (p ∷ ps) && not named && not numbered) (
        "model " <> model.key
        <> " has ambiguous Service ports; set target_port_name or target_port_number")
    ++ complain (named && not (names_port model.service.target_port_name (p ∷ ps)))
        ("model " <> model.key <> " target_port_name does not match any declared Service port")
    ++ complain (numbered && not (numbers_port model.service.target_port_number (p ∷ ps)))
        ("model " <> model.key <> " target_port_number does not match any declared Service port")

unfoldable pub validate_service_port : ModelConfig → List String
unfolding validate_ports
validate_service_port model = validate_ports model model.service.ports

-- grant_mode is not ReferenceGrantMode.EXPLICIT, and the like
unfoldable pub is_explicit : ReferenceGrantMode → Bool
is_explicit explicit = true
is_explicit same_namespace_only = false

unfoldable pub is_chat : ModelKind → Bool
is_chat chat = true
is_chat embedding = false

unfoldable pub is_agentgateway : RouteBackend → Bool
is_agentgateway agentgateway_backend = true
is_agentgateway kubernetes_service = false

unfoldable pub model_errors : GatewayConfig → ModelConfig → List String
unfolding validate_service_port complain is_explicit is_chat is_agentgateway
model_errors config model =
    validate_service_port model
    ++ complain
        (not (model.service.namespace == config.platform.gateway.namespace)
          && not (is_explicit config.platform.gateway.reference_grant_mode))
        ("model " <> model.key <> " references Service namespace " <> model.service.namespace
          <> "; set gateway.reference_grant_mode to explicit before using cross-namespace backends")
    ++ complain (is_chat model.kind && not (is_agentgateway model.backend))
        ("chat model " <> model.key <> " must use agentgateway-backend in this baseline")
    ++ complain (not (is_chat model.kind) && is_agentgateway model.backend)
        ("embedding model " <> model.key <> " must use kubernetes-service in this baseline")

unfoldable pub limit_errors : ConsumerConfig → List String
limit_errors consumer = elim consumer.rate_limits [
  | none ↦ []
  | some limits ↦
      ("consumer " <> consumer.key
        <> " defines rate limits while the rate-limit backend is disabled")
      ∷ []
]

unfoldable pub image_errors : RegistrySettings → RegistryImage → List String
unfolding complain
image_errors registry image =
    complain (not (starts_with image.target (rstrip_slashes registry.private_registry <> "/")))
      ("image " <> image.name <> " target must use private registry " <> registry.private_registry)
    ++ complain (not (has_substring "@sha256:" image.target))
        ("image " <> image.name <> " target must be pinned by digest in strict air-gap mode")
    ++ complain (ends_with image.target ":latest" || has_substring ":latest@" image.target)
        ("image " <> image.name <> " target must not use the mutable latest tag")

unfoldable pub validate_strict_airgap_images : RegistrySettings → List String
unfolding image_errors
validate_strict_airgap_images registry = gather (image_errors registry) registry.images

-- host and path of a model's route
unfoldable pub route_of : ModelConfig → String
route_of model = model.host <> model.route_path

unfoldable pub duplicate_errors : GatewayConfig → List String
unfolding duplicates route_of
duplicate_errors config =
    duplicates "model keys" (map (λ (m : ModelConfig). m.key) config.models)
    ++ duplicates "model hosts" (map (λ (m : ModelConfig). m.host) config.models)
    ++ duplicates "model routes" (map route_of config.models)
    ++ duplicates "model permission fields" (map (λ (m : ModelConfig). m.permission) config.models)
    ++ duplicates "consumer keys" (map (λ (c : ConsumerConfig). c.key) config.consumers)

unfoldable pub rate_limit_errors : GatewayConfig → List String
unfolding complain limit_errors
rate_limit_errors config =
    complain (config.platform.rate_limit.enabled && not config.platform.rate_limit.backend_enabled)
      "rate limits are enabled but the rate-limit backend is disabled"
    ++ (if config.platform.rate_limit.backend_enabled
        then []
        else gather limit_errors config.consumers)

unfoldable pub config_errors : GatewayConfig → List String
unfolding duplicate_errors unknown_errors model_errors rate_limit_errors
    validate_strict_airgap_images complain model_keys
config_errors config =
    duplicate_errors config
    ++ gather (unknown_errors (model_keys config)) config.consumers
    ++ gather (model_errors config) config.models
    ++ rate_limit_errors config
    ++ (if config.platform.registry.strict_airgap
        then validate_strict_airgap_images config.platform.registry
        else [])
    ++ complain (strip config.platform.cluster.expected_context == "")
        "cluster.expected_context is required for all future apply-style commands"
    ++ complain (strip config.platform.confirmation_token == "")
        "platform.confirmation_token is required for apply-style commands"

-- raise ConfigError("\n".join(f"- {error}" for error in errors)), if there are errors
unfoldable pub raise_listed : List String → Result (Unit {0})
raise_listed [] = ok tt
raise_listed (e ∷ es) = err (config_error (join "\n" (map (λ message. "- " <> message) (e ∷ es))))

unfoldable pub validate_config : GatewayConfig → Result (Unit {0})
unfolding config_errors raise_listed
validate_config config = raise_listed (config_errors config)

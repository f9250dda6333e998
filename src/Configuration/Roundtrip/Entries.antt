-- ===== src/Configuration/Roundtrip/Entries.antt =====
-- A written model and a written consumer are read back, and every part of them.
use airgapped_ai_gateway_k8s.Base.{
  String, ◌≡◌, refl, List, [], ◌∷◌, map, Option, none, some, All, arith, eq_iff,
}
use airgapped_ai_gateway_k8s.Base.Strip.{strip, lstrip, rstrip, is_space}
use airgapped_ai_gateway_k8s.Base.Int.{ℤ}
use airgapped_ai_gateway_k8s.Base.Json.{Value, str, texts, to_list-of_list}
use airgapped_ai_gateway_k8s.Base.Outcome.{Result, ok, traverse}
use airgapped_ai_gateway_k8s.Models.{
  ModelKind, chat, embedding, RouteBackend, agentgateway_backend, kubernetes_service,
  ReferenceGrantMode, same_namespace_only, explicit, ExposureMode, retained_nginx,
  greenfield_direct, RegistryImage, ServicePort, ServiceRef, ModelConfig, ConsumerRateLimits,
  ConsumerConfig,
}
use airgapped_ai_gateway_k8s.Configuration.Expect.{
  expect_mapping, expect_list, expect_string, expect_int, optional_string, optional_int,
}
use airgapped_ai_gateway_k8s.Configuration.Parse.{
  model_kind, route_backend, parse_grant_mode, parse_exposure_mode, parse_image, parse_service_port,
  parse_service, parse_model, parse_rate_limits, parse_allowed_model, parse_consumer,
}
use airgapped_ai_gateway_k8s.Configuration.Stated.{
  IsStated, AreStated, IsAbsentOrStated, ImageStated, PortStated, ServiceStated, ModelStated,
  ConsumerStated,
}
use airgapped_ai_gateway_k8s.Configuration.Written.{
  kind_text, backend_text, grant_text, exposure_text, optional_text_value, optional_int_value,
  image_entry, port_value, service_fields, model_value, limits_value, consumer_value,
}

pub text_read : (s label : String) → IsStated s → expect_string (str s) label ≡ ok s
unfolding expect_string
text_read s label h = ground (arith, h, eq_iff (strip s) "")

optional_read :
    (o : Option String) (label : String)
    → IsAbsentOrStated o
    → optional_string (optional_text_value o) label ≡ ok o
unfolding optional_string
optional_read none label h = refl
optional_read (some s) label h = rw (text_read s label h) refl

number_read : (o : Option ℤ) (label : String) → optional_int (optional_int_value o) label ≡ ok o
unfolding optional_int expect_int
number_read none label = refl
number_read (some n) label = refl

pub image_read : (i : RegistryImage) → ImageStated i → parse_image (image_entry i) ≡ ok i
unfolding parse_image expect_mapping
image_read i h =
    rw
      (
        text_read i.name "registry.images[].name" h.name,
        text_read i.source "registry.images[].source" h.source,
        text_read i.target "registry.images[].target" h.target,
      )
      refl

port_read : (p : ServicePort) → PortStated p → parse_service_port (port_value p) ≡ ok p
unfolding parse_service_port expect_mapping expect_int
port_read p h = rw (optional_read p.name "models[].service.ports[].name" h) refl

pub traverse_read :
    {A : Type 0} (P : A → Type 0) (f : Value → Result A) (g : A → Value)
    → ((a : A) → P a → f (g a) ≡ ok a)
    → (xs : List A) → All P xs
    → traverse f (map g xs) ≡ ok xs
traverse_read P f g h [] a = refl
traverse_read P f g h (x ∷ xs) a = ground (arith, h x a.0, traverse_read P f g h xs a.1)

service_read : (r : ServiceRef) → ServiceStated r → parse_service (service_fields r) ≡ ok r
unfolding parse_service expect_list
service_read r h =
    rw
      (
        text_read r.name "models[].service.name" h.name,
        text_read r.namespace "models[].service.namespace" h.namespace,
        to_list-of_list (map port_value r.ports),
        traverse_read PortStated parse_service_port port_value port_read r.ports h.ports,
        optional_read r.target_port_name "models[].service.target_port_name" h.target_port_name,
        number_read r.target_port_number "models[].service.target_port_number",
      )
      refl

kind_stated :
    (k : ModelKind) (label : String) → expect_string (str (kind_text k)) label ≡ ok (kind_text k)
unfolding expect_string strip lstrip rstrip is_space
kind_stated chat label = refl
kind_stated embedding label = refl

kind_read : (k : ModelKind) → model_kind (kind_text k) ≡ ok k
unfolding model_kind
kind_read chat = refl
kind_read embedding = refl

backend_stated :
    (k : RouteBackend) (label : String)
    → expect_string (str (backend_text k)) label ≡ ok (backend_text k)
unfolding expect_string strip lstrip rstrip is_space
backend_stated agentgateway_backend label = refl
backend_stated kubernetes_service label = refl

backend_read : (k : RouteBackend) → route_backend (backend_text k) ≡ ok k
unfolding route_backend
backend_read agentgateway_backend = refl
backend_read kubernetes_service = refl

pub grant_stated :
    (k : ReferenceGrantMode) (label : String)
    → expect_string (str (grant_text k)) label ≡ ok (grant_text k)
unfolding expect_string strip lstrip rstrip is_space
grant_stated same_namespace_only label = refl
grant_stated explicit label = refl

pub grant_read : (k : ReferenceGrantMode) → parse_grant_mode (grant_text k) ≡ ok k
unfolding parse_grant_mode
grant_read same_namespace_only = refl
grant_read explicit = refl

pub exposure_stated :
    (k : ExposureMode) (label : String)
    → expect_string (str (exposure_text k)) label ≡ ok (exposure_text k)
unfolding expect_string strip lstrip rstrip is_space
exposure_stated retained_nginx label = refl
exposure_stated greenfield_direct label = refl

pub exposure_read : (k : ExposureMode) → parse_exposure_mode (exposure_text k) ≡ ok k
unfolding parse_exposure_mode
exposure_read retained_nginx = refl
exposure_read greenfield_direct = refl

pub model_read : (m : ModelConfig) → ModelStated m → parse_model (model_value m) ≡ ok m
unfolding parse_model expect_mapping
model_read m h =
    rw
      (
        text_read m.key "models[].key" h.key,
        text_read m.display_name "models[].display_name" h.display_name,
        kind_stated m.kind "models[].kind",
        kind_read m.kind,
        text_read m.host "models[].host" h.host,
        text_read m.route_path "models[].route_path" h.route_path,
        text_read m.permission "models[].permission" h.permission,
        backend_stated m.backend "models[].backend",
        backend_read m.backend,
        service_read m.service h.service,
      )
      refl

limits_read : (o : Option ConsumerRateLimits) → parse_rate_limits (limits_value o) ≡ ok o
unfolding parse_rate_limits expect_mapping expect_int
limits_read none = refl
limits_read (some l) =
    rw (number_read l.tokens_per_minute "consumers[].rate_limits.tokens_per_minute") refl

allowed_read : (ss : List String) → AreStated ss → traverse parse_allowed_model (texts ss) ≡ ok ss
unfolding parse_allowed_model
allowed_read [] h = refl
allowed_read (s ∷ ss) h =
    rw (text_read s "consumers[].allowed_models[]" h.0, allowed_read ss h.1) refl

pub consumer_read :
    (c : ConsumerConfig) → ConsumerStated c → parse_consumer (consumer_value c) ≡ ok c
unfolding parse_consumer expect_mapping expect_list
consumer_read c h =
    rw
      (
        limits_read c.rate_limits,
        text_read c.key "consumers[].key" h.key,
        text_read c.display_name "consumers[].display_name" h.display_name,
        to_list-of_list (texts c.allowed_models),
        allowed_read c.allowed_models h.allowed_models,
        text_read c.credential_placeholder "consumers[].credential_placeholder"
            h.credential_placeholder,
      )
      refl

-- ===== src/Tests/Configs.antt =====
-- A configuration with two models and a consumer, read, checked and loaded.
use airgapped_ai_gateway_k8s.Base.{
  true, false, [], ◌∷◌, none, some, ◌≡◌, refl, ◌↔◌, ◌==◌, leb, contains,
}
use airgapped_ai_gateway_k8s.Base.Int.{pos}
use airgapped_ai_gateway_k8s.Base.Order.{sorted, insort, str_lt}
use airgapped_ai_gateway_k8s.Base.Strip.{join, strip, rstrip_slashes, has_substring, ends_with}
use airgapped_ai_gateway_k8s.Base.Outcome.{ok, err, config_error}
use airgapped_ai_gateway_k8s.Base.Json.{obj}
use airgapped_ai_gateway_k8s.Models.{
  GatewayConfig, ModelConfig, ServicePort, chat, embedding, agentgateway_backend,
  kubernetes_service,
}
use airgapped_ai_gateway_k8s.Tests.Data.{config}
use airgapped_ai_gateway_k8s.Configuration.Expect.{
  expect_mapping, expect_list, expect_string, expect_bool, expect_int, optional_string,
  optional_int,
}
use airgapped_ai_gateway_k8s.Configuration.Parse.{parse_config}
use airgapped_ai_gateway_k8s.Configuration.Validate.{
  repeated_values, duplicates, text_set, unknown_models, validate_service_port, validate_config,
}
use airgapped_ai_gateway_k8s.Configuration.Load.{Files, load_raw_config, load_config}
use airgapped_ai_gateway_k8s.Configuration.Repeats.{count, repeated_values-count}
use airgapped_ai_gateway_k8s.Configuration.Ports.{Selects, validate_service_port_iff}
use airgapped_ai_gateway_k8s.Configuration.Valid.{IsValid}
use airgapped_ai_gateway_k8s.Configuration.Accepted.{validate_config_iff}
use airgapped_ai_gateway_k8s.Configuration.Stated.{ConfigStated}
use airgapped_ai_gateway_k8s.Configuration.Read.{parse_config-Stated}
use airgapped_ai_gateway_k8s.Configuration.Written.{config_fields}
use airgapped_ai_gateway_k8s.Configuration.Roundtrip.{parse_config-config_fields}
use airgapped_ai_gateway_k8s.Configuration.Loaded.{load_config-IsValid}

abbrev port : ServicePort
port = record { name = some "http"; number = pos 8080 }

abbrev llama : ModelConfig
llama = record {
  key = "llama";
  display_name = "Llama";
  kind = chat;
  host = "llama.example.internal";
  route_path = "/v1/chat/completions";
  permission = "llama_chat";
  backend = agentgateway_backend;
  service = record {
    name = "llama";
    namespace = "gateway";
    ports = port ∷ record { name = none; number = pos 9090 } ∷ [];
    target_port_name = some "http";
    target_port_number = none;
  };
}

abbrev embed : ModelConfig
embed = record {
  key = "embed";
  display_name = "Embed";
  kind = embedding;
  host = "embed.example.internal";
  route_path = "/v1/embeddings";
  permission = "embed_use";
  backend = kubernetes_service;
  service = record {
    name = "embed";
    namespace = "gateway";
    ports = port ∷ [];
    target_port_name = none;
    target_port_number = some (pos 8080);
  };
}

abbrev pub full : GatewayConfig
full = record {
  platform = record config.platform {
    registry = record {
      private_registry = "registry.internal/";
      strict_airgap = true;
      images =
          record {
            name = "proxy";
            source = "ghcr.io/proxy:1";
            target = "registry.internal/proxy@sha256:0";
          }
          ∷ [];
    };
  };
  models = llama ∷ embed ∷ [];
  consumers =
      record {
        key = "search";
        display_name = "Search";
        allowed_models = "embed" ∷ "llama" ∷ "embed" ∷ [];
        credential_placeholder = "RUNTIME";
        rate_limits = some (record { requests_per_minute = pos 60; tokens_per_minute = none });
      }
      ∷ [];
}

abbrev pub files : Files
files = record {
  is_file = λ path. path == "gateway.yaml";
  is_dir = λ path. false;
  exists = λ path. false;
  child = λ path name. name;
  yaml_files = λ path. [];
  path_lt = str_lt;
  safe_load = λ path. ok (obj (config_fields full));
  zero_real = λ text. false;
}

read_full : parse_config (config_fields full) ≡ ok full
unfolding parse_config expect_mapping expect_string strip expect_bool expect_list optional_string
    expect_int optional_int
read_full = refl

checked_full : validate_config full ≡ ok tt
unfolding validate_config repeated_values unknown_models text_set rstrip_slashes has_substring
    ends_with strip
checked_full = refl

pub loaded_full : load_config files "gateway.yaml" ≡ ok full
unfolding load_config expect_mapping expect_string strip expect_bool expect_list optional_string
    expect_int optional_int repeated_values unknown_models text_set rstrip_slashes has_substring
    ends_with
loaded_full = refl

not_found :
    load_config files "nowhere" ≡ err (config_error "configuration path does not exist: nowhere")
unfolding load_config load_raw_config
not_found = refl

twice_named :
    duplicates "model keys" ("a" ∷ "b" ∷ "a" ∷ "b" ∷ "a" ∷ []) ≡ "duplicate model keys: a, b" ∷ []
unfolding duplicates repeated_values sorted insort str_lt join
twice_named = refl

repeated_values-count_example :
    contains (repeated_values ("a" ∷ "b" ∷ "a" ∷ []) [] []) "a"
    ≡ leb 2 (count ("a" ∷ "b" ∷ "a" ∷ []) "a")
repeated_values-count_example = repeated_values-count ("a" ∷ "b" ∷ "a" ∷ []) "a"

validate_service_port_iff_example :
    (validate_service_port llama ≡ []) ↔ ((p : ServicePort) × Selects llama.service p)
validate_service_port_iff_example = validate_service_port_iff llama

validate_config_iff_example : (validate_config full ≡ ok tt) ↔ IsValid full
validate_config_iff_example = validate_config_iff full

full_stated : ConfigStated full
full_stated = parse_config-Stated (config_fields full) full read_full

parse_config-config_fields_example : parse_config (config_fields full) ≡ ok full
parse_config-config_fields_example = parse_config-config_fields full full_stated

load_config-IsValid_example : ConfigStated full × IsValid full
load_config-IsValid_example = load_config-IsValid files "gateway.yaml" full loaded_full

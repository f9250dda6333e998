-- ===== src/Configuration/Loaded.antt =====
-- What `load_config` returns.
use airgapped_ai_gateway_k8s.Base.{String, ◌≡◌}
use airgapped_ai_gateway_k8s.Base.Outcome.{ok, IfOk, IfOk-bind, IfOk-eq}
use airgapped_ai_gateway_k8s.Models.{GatewayConfig}
use airgapped_ai_gateway_k8s.Configuration.Parse.{parse_config}
use airgapped_ai_gateway_k8s.Configuration.Validate.{validate_config}
use airgapped_ai_gateway_k8s.Configuration.Load.{Files, load_raw_config, load_config}
use airgapped_ai_gateway_k8s.Configuration.Stated.{ConfigStated}
use airgapped_ai_gateway_k8s.Configuration.Read.{parse_config-Stated}
use airgapped_ai_gateway_k8s.Configuration.Valid.{IsValid}
use airgapped_ai_gateway_k8s.Configuration.Accepted.{validate_config_iff}

abbrev IsUsable : GatewayConfig → Type 0
IsUsable config = ConfigStated config × IsValid config

-- Whatever the files hold, in a configuration that is loaded every required text is there and is
-- not blank, and the configuration is valid: unambiguous models and consumers, known models,
-- selectable ports, backends of the models' kinds, and pinned images in strict air-gap mode.
pub load_config-IsValid :
    (files : Files) (path : String) (config : GatewayConfig)
    → load_config files path ≡ ok config
    → ConfigStated config × IsValid config
unfolding load_config
load_config-IsValid files path config e = IfOk-eq IsUsable _ loaded e
  where
    loaded : IfOk IsUsable (load_config files path)
    loaded = IfOk-bind IsUsable (load_raw_config files path) _ λ raw _.
        IfOk-bind IsUsable (parse_config raw) _ λ read p.
          IfOk-bind IsUsable (validate_config read) (λ _. ok read)
            λ u q. (parse_config-Stated raw read p, (validate_config_iff read).0 q)

-- ===== src/Planning/Summary.antt =====
-- `Plan` and `build_plan` of planning.py: the summary that commands without an execution print.
use airgapped_ai_gateway_k8s.Base.{String, Bool, List, map}
use airgapped_ai_gateway_k8s.Models.{GatewayConfig}
use airgapped_ai_gateway_k8s.Safety.{mutation_state}

pub record Plan : Type 0 where
  pub action : String
  pub platform : String
  pub baseline : String
  pub gateway_namespace : String
  pub models : List String
  pub consumers : List String
  pub state : String
  pub mutating : Bool

unfoldable pub build_plan : GatewayConfig → String → Bool → Plan
unfolding mutation_state
build_plan config action mutating = record {
  action = action;
  platform = config.platform.name;
  baseline = config.platform.baseline.agentgateway_version;
  gateway_namespace = config.platform.gateway.namespace;
  models = map (λ model. model.key) config.models;
  consumers = map (λ consumer. consumer.key) config.consumers;
  state = mutation_state action;
  mutating = mutating;
}

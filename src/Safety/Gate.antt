-- ===== src/Safety/Gate.antt =====
-- What passes `ensure_mutation_is_confirmed`.
use airgapped_ai_gateway_k8s.Base.{String, ◌≡◌, ◌↔◌, ◌⊎◌, false, Option, none, some, arith}
use airgapped_ai_gateway_k8s.Base.{eq_iff, contains}
use airgapped_ai_gateway_k8s.Base.Outcome.{ok}
use airgapped_ai_gateway_k8s.Models.{GatewayConfig}
use airgapped_ai_gateway_k8s.Safety.{mutating_actions, is_other, ensure_mutation_is_confirmed}

is_other_iff :
    (given : Option String) (wanted : String)
    → (is_other given wanted ≡ false) ↔ (given ≡ some wanted)
unfolding is_other
is_other_iff none wanted = ground arith
is_other_iff (some given) wanted = ground (arith, eq_iff given wanted)

-- For any action, configuration and arguments, the gate lets the action pass exactly when the
-- action is none of the mutating ones, or both the context and the confirmation token were given
-- and are the configured ones.
pub ensure_mutation_is_confirmed_iff :
    (action : String) (config : GatewayConfig) (context token : Option String)
    → (ensure_mutation_is_confirmed action config context token ≡ ok tt) ↔ (
        (contains mutating_actions action ≡ false)
        ⊎ (context ≡ some config.platform.cluster.expected_context)
          × (token ≡ some config.platform.confirmation_token))
unfolding ensure_mutation_is_confirmed
ensure_mutation_is_confirmed_iff action config context token = ground (
  arith,
  is_other_iff context config.platform.cluster.expected_context,
  is_other_iff token config.platform.confirmation_token,
)

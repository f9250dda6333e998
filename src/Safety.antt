-- ===== src/Safety.antt =====
-- src/airgap_ai_gateway/safety.py: the gate in front of the commands that change infrastructure.
pub mod Gate
use airgapped_ai_gateway_k8s.Base.{String, Bool, true, List, [], ◌∷◌, Option, none, some, not, ◌==◌}
use airgapped_ai_gateway_k8s.Base.{contains, if◌then◌else◌}
use airgapped_ai_gateway_k8s.Base.Outcome.{Result, ok, err, safety_error}
use airgapped_ai_gateway_k8s.Models.{GatewayConfig}

abbrev pub mutating_actions : List String
mutating_actions =
    "deploy apply" ∷ "cutover apply" ∷ "rollback apply" ∷ "destroy apply" ∷ "gitops apply" ∷ []

-- `given is None or given != wanted`
unfoldable pub is_other : Option String → String → Bool
is_other none wanted = true
is_other (some given) wanted = not (given == wanted)

unfoldable pub ensure_mutation_is_confirmed :
    String → GatewayConfig → Option String → Option String → Result (Unit {0})
ensure_mutation_is_confirmed action config expected_context confirmation =
    if not (contains mutating_actions action)
    then ok tt
    else if is_other expected_context config.platform.cluster.expected_context
    then err (safety_error "pass --expected-context")
    else if is_other confirmation config.platform.confirmation_token
    then err (safety_error "pass --confirm with the exact configured confirmation token")
    else ok tt

unfoldable pub mutation_state : String → String
mutation_state action =
    if contains mutating_actions action
    then "requires approved plan, exact context, apply mode, confirmation, and pre-change snapshot"
    else "offline plan"

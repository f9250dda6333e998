-- ===== src/Conditions/Poll.antt =====
-- The polling of conditions.py, over any state and any way to run a command.
use airgapped_ai_gateway_k8s.Base.{
  ℕ, zero, suc, String, Bool, not, List, [], ◌∷◌, Option, none, some, if◌then◌else◌,
}
use airgapped_ai_gateway_k8s.Base.Int.{ℤ, pos, negsuc, int_eq}
use airgapped_ai_gateway_k8s.Base.Outcome.{Result, ok, err, verification_error}
use airgapped_ai_gateway_k8s.Base.Json.{Value, Fields, as_dict}
use airgapped_ai_gateway_k8s.Base.Exec.{Exec, pure, raise, lift, ◌>>=◌}
use airgapped_ai_gateway_k8s.Base.Runner.{Call, plain_call}
use airgapped_ai_gateway_k8s.Models.{CommandResult}
use airgapped_ai_gateway_k8s.Conditions.Checks.{
  gateway_ready, httproute_ready, policy_ready, deployment_is_ready,
}

-- `json.loads(raw)`, where `none` is a `JSONDecodeError`
abbrev pub Loads : Type 0
Loads = String → Option Value

unfoldable pub parse_json_object : Loads → String → Result Fields
parse_json_object loads raw = elim (loads raw) [
  | none ↦ err (verification_error "returned invalid JSON")
  | some payload ↦ elim (as_dict payload) [
    | none ↦ err (verification_error "returned non-object JSON")
    | some fs ↦ ok fs
  ]
]

abbrev pub get_command : String → String → String → List String
get_command kind namespace name =
    "kubectl" ∷ "-n" ∷ namespace ∷ "get" ∷ kind ∷ name ∷ "-o" ∷ "json" ∷ []

abbrev pub attempts_default : ℤ
attempts_default = pos 5

module _ {S : Type 0} (loads : Loads) (run : Call → Exec S CommandResult) where
  -- The loop `for _ in range(attempts)`, with the attempts that are left.
  unfoldable pub poll_loop : List String → (Fields → Bool) → ℕ → Exec S (Unit {0})
  unfolding parse_json_object
  poll_loop command checker zero = raise (verification_error "timed out waiting")
  poll_loop command checker (suc attempts) =
      let again = poll_loop command checker attempts in
      do
        result ← run (plain_call command)
        if not (int_eq result.returncode (pos 0)) then again else do
          payload ← lift (parse_json_object loads result.stdout)
          if checker payload then pure tt else again

  unfoldable pub poll_condition : List String → (Fields → Bool) → ℤ → Exec S (Unit {0})
  unfolding poll_loop
  poll_condition command checker (negsuc _) =
      raise (verification_error "condition polling attempts must be positive")
  poll_condition command checker (pos zero) =
      raise (verification_error "condition polling attempts must be positive")
  poll_condition command checker (pos (suc n)) = poll_loop command checker (suc n)

  unfoldable pub poll_gateway_programmed : String → String → Exec S (Unit {0})
  unfolding poll_condition
  poll_gateway_programmed namespace name =
      poll_condition (get_command "gateway" namespace name) gateway_ready attempts_default

  unfoldable pub poll_httproute_ready : String → String → Exec S (Unit {0})
  unfolding poll_condition
  poll_httproute_ready namespace name =
      poll_condition (get_command "httproute" namespace name) httproute_ready attempts_default

  unfoldable pub poll_policy_ready : String → String → Exec S (Unit {0})
  unfolding poll_condition
  poll_policy_ready namespace name =
      poll_condition (get_command "agentgatewaypolicy" namespace name) policy_ready attempts_default

  unfoldable pub poll_deployment_ready : String → String → Exec S (Unit {0})
  unfolding poll_condition
  poll_deployment_ready namespace name =
      poll_condition (get_command "deployment" namespace name) deployment_is_ready attempts_default

-- ===== src/Manifest/Safe/Paths.antt =====
-- Routes whose paths are reported on by nothing.
use airgapped_ai_gateway_k8s.Base.{true, ◌≡◌, List, [], ◌∷◌, All, arith}
use airgapped_ai_gateway_k8s.Base.Outcome.{ok}
use airgapped_ai_gateway_k8s.Base.Json.{Value, obj, Fields, get}
use airgapped_ai_gateway_k8s.Manifest.Reads.{report, mapping_of, spec_of, by_kind}
use airgapped_ai_gateway_k8s.Manifest.Routes.{
  is_inference_path, path_message, match_messages, rule_messages, path_messages,
  validate_inference_only_paths,
}
use airgapped_ai_gateway_k8s.Manifest.Safe.{within, listed, All-collect, All-within}

-- The match is of one of the two inference paths.
abbrev pub IsInferenceMatch : Value → Type 0
IsInferenceMatch match = is_inference_path (within match ("path" ∷ "value" ∷ [])) ≡ true

abbrev pub IsInferenceRule : Value → Type 0
IsInferenceRule rule = All IsInferenceMatch (listed (within rule ("matches" ∷ [])))

-- Every match of every rule is.
abbrev pub IsInferenceOnly : Fields → Type 0
IsInferenceOnly route = All IsInferenceRule (listed (within (obj route) ("spec" ∷ "rules" ∷ [])))

match_messages-IsInference :
    (route : Fields) (match : Value) → match_messages route match ≡ ok [] → IsInferenceMatch match
unfolding match_messages path_message mapping_of report within
match_messages-IsInference route match e = ground (arith, e)

rule_messages-IsInference :
    (route : Fields) (rule : Value) → rule_messages route rule ≡ ok [] → IsInferenceRule rule
unfolding rule_messages
rule_messages-IsInference route rule =
    All-within IsInferenceMatch (match_messages route) "matches" rule
      (match_messages-IsInference route)

path_messages-IsInference : (route : Fields) → path_messages route ≡ ok [] → IsInferenceOnly route
unfolding path_messages spec_of within
path_messages-IsInference route =
    All-within IsInferenceRule (rule_messages route) "rules" (get route "spec")
      (rule_messages-IsInference route)

pub routes-IsInferenceOnly :
    (documents : List Fields)
    → validate_inference_only_paths documents ≡ ok []
    → All IsInferenceOnly (by_kind documents "HTTPRoute")
unfolding validate_inference_only_paths
routes-IsInferenceOnly documents =
    All-collect IsInferenceOnly path_messages path_messages-IsInference
      (by_kind documents "HTTPRoute")

-- ===== src/Conditions/Checks.antt =====
-- The checkers of conditions.py: what a resource's status says.
use airgapped_ai_gateway_k8s.Base.{
  String, Bool, false, ◌&&◌, List, [], ◌∷◌, ◌++◌, Option, none, some, ◌==◌, any,
}
use airgapped_ai_gateway_k8s.Base.Int.{ℤ, pos, negsuc, int_leb}
use airgapped_ai_gateway_k8s.Base.Json.{
  Value, int, str, arr, obj, nil, Fields, end, get, get_or, as_dict, as_list, as_int,
}

-- [item for item in items if isinstance(item, dict)]
abbrev pub dicts : List Value → List Fields
dicts [] = []
dicts (obj fs ∷ vs) = fs ∷ dicts vs
dicts (_ ∷ vs) = dicts vs

-- parent.get("conditions", []), and nothing where it is not a list
unfoldable pub conditions_of : Fields → List Fields
conditions_of holder = elim (as_list (get_or holder "conditions" (arr nil))) [
  | none ↦ []
  | some items ↦ dicts items
]

-- The loop over the parents, whose conditions are put in one list.
unfoldable pub parents_conditions : List Fields → List Fields
unfolding conditions_of
parents_conditions [] = []
parents_conditions (parent ∷ parents) = conditions_of parent ++ parents_conditions parents

unfoldable pub status_conditions : Fields → List Fields
unfolding parents_conditions
status_conditions payload = elim (as_dict (get_or payload "status" (obj end))) [
  | none ↦ []
  | some status ↦ elim (as_list (get status "parents")) [
    | some parents ↦ parents_conditions (dicts parents)
    | none ↦ conditions_of status
  ]
]

-- v == s, for a JSON value and a text
abbrev pub is_text : Value → String → Bool
is_text (str t) s = t == s
is_text _ s = false

-- The condition has this type, and its status is "True".
abbrev pub is_true : String → Fields → Bool
is_true condition_type condition =
    is_text (get condition "type") condition_type && is_text (get condition "status") "True"

unfoldable pub has_condition : Fields → String → Bool
unfolding status_conditions
has_condition payload condition_type = any (is_true condition_type) (status_conditions payload)

-- `int(observed) >= int(generation) and int(available) >= int(desired)`, if all are integers
unfoldable pub replicas_ready : Option ℤ → Option ℤ → Option ℤ → Option ℤ → Bool
replicas_ready (some desired) (some generation) (some observed) (some available) =
    int_leb generation observed && int_leb desired available
replicas_ready _ _ _ _ = false

unfoldable pub deployment_fields_ready : Option Fields → Option Fields → Option Fields → Bool
unfolding replicas_ready
deployment_fields_ready (some spec) (some status) (some metadata) =
    replicas_ready (as_int (get_or spec "replicas" (int (pos 1))))
      (as_int (get_or metadata "generation" (int (pos 0))))
      (as_int (get_or status "observedGeneration" (int (negsuc 0))))
      (as_int (get_or status "availableReplicas" (int (pos 0))))
deployment_fields_ready _ _ _ = false

unfoldable pub deployment_is_ready : Fields → Bool
unfolding deployment_fields_ready
deployment_is_ready payload =
    deployment_fields_ready (as_dict (get_or payload "spec" (obj end)))
      (as_dict (get_or payload "status" (obj end))) (as_dict (get_or payload "metadata" (obj end)))

abbrev pub gateway_ready : Fields → Bool
gateway_ready payload = has_condition payload "Programmed"

abbrev pub httproute_ready : Fields → Bool
httproute_ready payload = has_condition payload "Accepted" && has_condition payload "ResolvedRefs"

abbrev pub policy_ready : Fields → Bool
policy_ready payload = has_condition payload "Accepted" && has_condition payload "Attached"

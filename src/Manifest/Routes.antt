-- ===== src/Manifest/Routes.antt =====
-- The checks of the routes of manifest.py: their policies, their backends, their namespaces and
-- their paths.
use airgapped_ai_gateway_k8s.Base.{
  String, Bool, true, false, not, ◌&&◌, ◌||◌, List, [], ◌∷◌, ◌++◌, Option, none, some, ◌==◌,
  if◌then◌else◌,
}
use airgapped_ai_gateway_k8s.Base.Outcome.{Result, ok, traverse, collect, ◌>>=◌, ◌>>◌}
use airgapped_ai_gateway_k8s.Base.Json.{Value, null, str, arr, nil, Fields, get, get_or}
use airgapped_ai_gateway_k8s.Conditions.Checks.{is_text}
use airgapped_ai_gateway_k8s.Manifest.Reads.{
  Python, Message, report, mapping_of, sequence_of, string_of, has_key, metadata_of, name_of,
  spec_of, by_kind, text_of, require_hashable, in_set, hashable_name, route_backend_refs,
}

-- The policies by the name of the route that they target; a later policy replaces an earlier one.
abbrev pub Policies : Type 0
Policies = List (String × Fields)

-- policies_by_route.get(name)
unfoldable pub find_policy : Policies → Value → Option Fields
find_policy [] name = none
find_policy ((route, policy) ∷ policies) name =
    let rest = find_policy policies name in if is_text name route then some policy else rest

-- One target reference of a policy; what is put first is found first.
unfoldable pub note_target : Fields → Policies → Value → Result Policies
unfolding mapping_of string_of
note_target policy policies target = mapping_of target >>= λ reference.
    if is_text (get reference "kind") "HTTPRoute"
    then (string_of (get reference "name") >>= λ name. ok ((name, policy) ∷ policies))
    else ok policies

unfoldable pub note_targets : Fields → Policies → List Value → Result Policies
unfolding note_target
note_targets policy policies [] = ok policies
note_targets policy policies (target ∷ targets) =
    note_target policy policies target >>= λ noted. note_targets policy noted targets

unfoldable pub note_policy : Fields → Policies → Result Policies
unfolding spec_of sequence_of note_targets
note_policy document policies =
    if not (is_text (get document "kind") "AgentgatewayPolicy")
    then ok policies
    else (spec_of document >>= λ spec.
        sequence_of (get_or spec "targetRefs" (arr nil)) >>= λ targets.
        note_targets document policies targets)

unfoldable pub policies_by_route : Policies → List Fields → Result Policies
unfolding note_policy
policies_by_route policies [] = ok policies
policies_by_route policies (document ∷ documents) =
    note_policy document policies >>= λ noted. policies_by_route noted documents

-- What a route's policy has to say.
unfoldable pub policy_messages : Value → Fields → Result (List Message)
unfolding spec_of mapping_of sequence_of has_key report
policy_messages name policy = do
  spec ← spec_of policy
  traffic ← mapping_of (get spec "traffic")
  authn ← mapping_of (get traffic "apiKeyAuthentication")
  authz ← mapping_of (get traffic "authorization")
  rule ← mapping_of (get authz "policy")
  expressions ← sequence_of (get rule "matchExpressions")
  ok (
      report (not (is_text (get authn "mode") "Strict"))
        "HTTPRoute policy does not enforce strict API keys" (name ∷ [])
      ++ report (not (has_key authn "secretRef"))
          "HTTPRoute policy does not reference runtime Secret contract" (name ∷ [])
      ++ report (not (is_text (get authz "action") "Require"))
          "HTTPRoute policy does not require authorization" (name ∷ [])
      ++ report (elim expressions as (λ vs. Bool) [ [] ↦ true | v ∷ vs ↦ false ])
          "HTTPRoute policy has no authorization expression" (name ∷ []))

unfoldable pub route_policy_messages : Policies → Fields → Result (List Message)
unfolding name_of require_hashable find_policy policy_messages report
route_policy_messages policies route = do
  name ← name_of route
  require_hashable name
  elim (find_policy policies name) [
    | none ↦ ok (report true "HTTPRoute has no AgentgatewayPolicy" (name ∷ []))
    | some policy ↦ policy_messages name policy
  ]

unfoldable pub validate_routes_and_policies : List Fields → Result (List Message)
unfolding policies_by_route route_policy_messages by_kind
validate_routes_and_policies documents = do
  policies ← policies_by_route [] documents
  collect (route_policy_messages policies) (by_kind documents "HTTPRoute")

-- value in (None, s)
unfoldable pub none_or : Value → String → Bool
none_or null s = true
none_or (str t) s = t == s
none_or _ s = false

module _ (python : Python) where
  unfoldable pub chat_ref_messages : List Value → Value → Fields → Result (List Message)
  unfolding in_set report
  chat_ref_messages backends model ref = do
    known ← in_set python (get ref "name") backends
    ok (
        report
          (not (is_text (get ref "kind") "AgentgatewayBackend")
            || not (is_text (get ref "group") "agentgateway.dev"))
          "chat route must use AgentgatewayBackend" (model ∷ [])
        ++ report (not known) "chat route references missing AgentgatewayBackend" (model ∷ []))

  unfoldable pub embedding_ref_messages : List Value → Value → Fields → Result (List Message)
  unfolding in_set none_or report
  embedding_ref_messages services model ref = do
    known ← in_set python (get ref "name") services
    ok (
        report (not (none_or (get ref "kind") "Service") || not (none_or (get ref "group") ""))
          "embedding route must use direct Service backend" (model ∷ [])
        ++ report (not known) "embedding route references missing Service backend" (model ∷ []))

  unfoldable pub backend_messages : List Value → List Value → Fields → Result (List Message)
  unfolding metadata_of mapping_of route_backend_refs chat_ref_messages embedding_ref_messages
  backend_messages backends services route = do
    metadata ← metadata_of route
    labels ← mapping_of (get metadata "labels")
    refs ← route_backend_refs route
    chats ←
        if is_text (get labels "ai.gateway/api-shape") "chat"
        then collect (chat_ref_messages backends (get labels "ai.gateway/model-key")) refs
        else ok []
    embeddings ←
        if is_text (get labels "ai.gateway/api-shape") "embedding"
        then collect (embedding_ref_messages services (get labels "ai.gateway/model-key")) refs
        else ok []
    ok (chats ++ embeddings)

  unfoldable pub validate_backend_types : List Fields → Result (List Message)
  unfolding hashable_name backend_messages by_kind
  validate_backend_types documents = do
    backends ← traverse hashable_name (by_kind documents "AgentgatewayBackend")
    services ← traverse hashable_name (by_kind documents "Service")
    collect (backend_messages backends services) (by_kind documents "HTTPRoute")

  -- `granted`: the documents hold a ReferenceGrant.
  unfoldable pub crossing_messages : Bool → Fields → Fields → Fields → Result (List Message)
  unfolding text_of name_of report
  crossing_messages granted metadata route ref =
      let route_namespace = text_of python (get_or metadata "namespace" (str "default")) in
      if not (text_of python (get_or ref "namespace" (str route_namespace)) == route_namespace)
        && not granted
      then (name_of route >>= λ name.
          ok (report true "HTTPRoute crosses namespace without ReferenceGrant" (name ∷ [])))
      else ok []

  unfoldable pub namespace_messages : Bool → Fields → Result (List Message)
  unfolding metadata_of route_backend_refs crossing_messages
  namespace_messages granted route = do
    metadata ← metadata_of route
    refs ← route_backend_refs route
    collect (crossing_messages granted metadata route) refs

  unfoldable pub validate_cross_namespace_references : List Fields → Result (List Message)
  unfolding by_kind namespace_messages
  validate_cross_namespace_references documents =
      let granted = elim (by_kind documents "ReferenceGrant") as (λ ds. Bool) [
        | [] ↦ false
        | d ∷ ds ↦ true
      ] in
      collect (namespace_messages granted) (by_kind documents "HTTPRoute")

abbrev pub is_inference_path : Value → Bool
is_inference_path path = is_text path "/v1/chat/completions" || is_text path "/v1/embeddings"

unfoldable pub path_message : Fields → Value → Result (List Message)
unfolding name_of report
path_message route path =
    if is_inference_path path
    then ok []
    else (name_of route >>= λ name.
        ok (report true "HTTPRoute exposes non-inference path" (name ∷ path ∷ [])))

unfoldable pub match_messages : Fields → Value → Result (List Message)
unfolding mapping_of require_hashable path_message
match_messages route value = do
  fields ← mapping_of value
  path ← mapping_of (get fields "path")
  require_hashable (get path "value")
  path_message route (get path "value")

unfoldable pub rule_messages : Fields → Value → Result (List Message)
unfolding mapping_of sequence_of match_messages
rule_messages route value = do
  rule ← mapping_of value
  matches ← sequence_of (get rule "matches")
  collect (match_messages route) matches

unfoldable pub path_messages : Fields → Result (List Message)
unfolding spec_of sequence_of rule_messages
path_messages route = do
  spec ← spec_of route
  rules ← sequence_of (get spec "rules")
  collect (rule_messages route) rules

unfoldable pub validate_inference_only_paths : List Fields → Result (List Message)
unfolding path_messages by_kind
validate_inference_only_paths documents = collect path_messages (by_kind documents "HTTPRoute")

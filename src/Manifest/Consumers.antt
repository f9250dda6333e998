-- ===== src/Manifest/Consumers.antt =====
-- `_validate_consumer_id_flow` of manifest.py.
use airgapped_ai_gateway_k8s.Base.{
  String, Bool, true, false, not, ◌&&◌, List, [], ◌∷◌, ◌++◌, Option, none, some, if◌then◌else◌,
}
use airgapped_ai_gateway_k8s.Base.Strip.{has_substring}
use airgapped_ai_gateway_k8s.Base.Outcome.{Result, ok, collect, any_of, first_of, ◌>>=◌}
use airgapped_ai_gateway_k8s.Base.Json.{Value, obj, str, Fields, end, get, get_or, as_dict}
use airgapped_ai_gateway_k8s.Conditions.Checks.{is_text}
use airgapped_ai_gateway_k8s.Manifest.Reads.{
  Python, Message, report, mapping_of, sequence_of, metadata_of, name_of, spec_of, by_kind, text_of,
}

-- The metadata of the document has this name.
unfoldable pub is_named : String → Fields → Result Bool
unfolding metadata_of
is_named name document =
    metadata_of document >>= λ metadata. ok (is_text (get metadata "name") name)

-- The entry takes the consumer from the API key.
unfoldable pub is_consumer_entry : Value → Result Bool
unfolding mapping_of
is_consumer_entry value = do
  fields ← mapping_of value
  ok (
      is_text (get fields "name") "consumer_id"
      && is_text (get fields "expression") "apiKey.consumer_id")

unfoldable pub metric_messages : Fields → Result (List Message)
unfolding spec_of mapping_of sequence_of is_consumer_entry report
metric_messages policy = do
  spec ← spec_of policy
  frontend ← mapping_of (get spec "frontend")
  metrics ← mapping_of (get frontend "metrics")
  attributes ← mapping_of (get metrics "attributes")
  additions ← sequence_of (get attributes "add")
  found ← any_of is_consumer_entry additions
  ok (report (not found) "gateway metrics do not include consumer_id from API key metadata" [])

unfoldable pub descriptor_messages : Fields → Value → Result (List Message)
unfolding mapping_of sequence_of is_consumer_entry name_of report
descriptor_messages policy value = mapping_of value >>= λ descriptor.
    sequence_of (get descriptor "entries") >>= λ entries.
    any_of is_consumer_entry entries >>= λ found.
    if found
    then ok []
    else (name_of policy >>= λ name.
        ok (report true "policy lacks consumer_id rate-limit descriptor" (name ∷ [])))

unfoldable pub limit_messages : Fields → Result (List Message)
unfolding spec_of mapping_of sequence_of descriptor_messages
limit_messages policy = do
  spec ← spec_of policy
  traffic ← mapping_of (get spec "traffic")
  rate_limit ← mapping_of (get traffic "rateLimit")
  global_limit ← mapping_of (get rate_limit "global")
  descriptors ← sequence_of (get global_limit "descriptors")
  collect (descriptor_messages policy) descriptors

-- A label of the metadata, where the labels are a mapping.
unfoldable pub has_label : Fields → String → String → Bool
has_label metadata label value = elim (as_dict (get_or metadata "labels" (obj end))) [
  | none ↦ false
  | some labels ↦ is_text (get labels label) value
]

unfoldable pub authorization_messages : Fields → Result (List Message)
unfolding metadata_of has_label limit_messages
authorization_messages policy = metadata_of policy >>= λ metadata.
    if has_label metadata "app.kubernetes.io/component" "model-authorization-policy"
    then limit_messages policy
    else ok []

unfoldable pub envoy_message : List Message
unfolding report
envoy_message = report true "Envoy rate-limit config does not use consumer_id descriptors" []

module _ (python : Python) where
  unfoldable pub envoy_messages : Option Fields → Result (List Message)
  unfolding mapping_of text_of envoy_message
  envoy_messages none = ok envoy_message
  envoy_messages (some config) = mapping_of (get config "data") >>= λ entries. ok (
      if has_substring "key: consumer_id" (text_of python (get_or entries "config.yaml" (str "")))
      then []
      else envoy_message)

  unfoldable pub consumer_messages : List Fields → Fields → Result (List Message)
  unfolding metric_messages authorization_messages by_kind is_named envoy_messages
  consumer_messages documents metric_policy = do
    metrics ← metric_messages metric_policy
    limits ← collect authorization_messages (by_kind documents "AgentgatewayPolicy")
    config ← first_of (is_named "envoy-ratelimit-config") (by_kind documents "ConfigMap")
    envoy ← envoy_messages config
    ok (metrics ++ limits ++ envoy)

  unfoldable pub validate_consumer_id_flow : List Fields → Result (List Message)
  unfolding by_kind is_named consumer_messages report
  validate_consumer_id_flow documents =
      first_of (is_named "gateway-consumer-metrics") (by_kind documents "AgentgatewayPolicy")
      >>= λ found. elim found [
        | none ↦ ok (report true "gateway consumer metrics policy is missing" [])
        | some metric_policy ↦ consumer_messages documents metric_policy
      ]

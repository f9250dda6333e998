-- ===== src/Manifest/Safe/Consumers.antt =====
-- Consumers that are known to the metrics and the rate limits, by documents that are not reported on.
use mathlib.Core.List.{Memᴰ}
use mathlib.Core.List.Memᴰ.{head, tail}
use airgapped_ai_gateway_k8s.Base.{
  String, Bool, true, false, ◌≡◌, refl, ap, ◌∙◌, List, [], ◌∷◌, ◌++◌, Option, none, some, All,
  arith, Bool-cases, inl, inr, append-eq-nil, ◌==◌,
}
use airgapped_ai_gateway_k8s.Base.Strip.{has_substring}
use airgapped_ai_gateway_k8s.Base.Outcome.{
  Result, ok, err, collect, any_of, first_of, IfOk, IfOk-bind, IfOk-eq,
}
use airgapped_ai_gateway_k8s.Base.Json.{
  Value, null, bool, int, real, str, arr, obj, Fields, end, field, get, get_or,
}
use airgapped_ai_gateway_k8s.Conditions.Checks.{is_text}
use airgapped_ai_gateway_k8s.Manifest.Reads.{
  Python, Message, report, mapping_of, sequence_of, metadata_of, spec_of, by_kind, text_of,
}
use airgapped_ai_gateway_k8s.Manifest.Consumers.{
  is_named, is_consumer_entry, metric_messages, descriptor_messages, limit_messages, has_label,
  authorization_messages, envoy_message, envoy_messages, consumer_messages,
  validate_consumer_id_flow,
}
use airgapped_ai_gateway_k8s.Manifest.Safe.{within, listed, All-collect, first_of-Mem}
use airgapped_ai_gateway_k8s.Manifest.Safe.Declared.{metadata_name}
use airgapped_ai_gateway_k8s.Manifest.Safe.Budgets.{has_label-other}

-- One of the entries takes the consumer from the API key.
pub record NamesConsumer (entries : List Value) : Type 0 where
  pub consumer : Value
  pub member : Memᴰ consumer entries
  pub name : is_text (within consumer ("name" ∷ [])) "consumer_id" ≡ true
  pub expression : is_text (within consumer ("expression" ∷ [])) "apiKey.consumer_id" ≡ true

abbrev pub IsAuthorization : Fields → Type 0
IsAuthorization policy =
    is_text (within (obj policy) ("metadata" ∷ "labels" ∷ "app.kubernetes.io/component" ∷ []))
      "model-authorization-policy"
    ≡ true

-- Each rate limit of the policy names the consumer.
abbrev pub LimitsConsumers : Fields → Type 0
LimitsConsumers policy =
    All (λ (d : Value). NamesConsumer (listed (within d ("entries" ∷ []))))
      (listed
        (within (obj policy) ("spec" ∷ "traffic" ∷ "rateLimit" ∷ "global" ∷ "descriptors" ∷ [])))

any_of-Mem :
    {A : Type 0} (f : A → Result Bool) (xs : List A)
    → any_of f xs ≡ ok true
    → (x : A) × Memᴰ x xs × (f x ≡ ok true)
any_of-Mem f [] h = cc
any_of-Mem {A = A} f (x ∷ xs) h = go (f x) refl (any_of-Mem f xs)
  where
    go :
        (r : Result Bool)
        → f x ≡ r
        → (any_of f xs ≡ ok true → (y : A) × Memᴰ y xs × (f y ≡ ok true))
        → (y : A) × Memᴰ y (x ∷ xs) × (f y ≡ ok true)
    go (err e) p rest = ground (arith, h, p)
    go (ok true) p rest = (x, head refl, p)
    go (ok false) p rest = let (y, m, q) = rest (ground (arith, h, p)) in (y, tail m, q)

any_of-NamesConsumer :
    (entries : List Value) → any_of is_consumer_entry entries ≡ ok true → NamesConsumer entries
unfolding is_consumer_entry mapping_of within
any_of-NamesConsumer entries h =
    let (v, m, e) = any_of-Mem is_consumer_entry entries h in
    record { consumer = v; member = m; name = ground (arith, e); expression = ground (arith, e) }

metric_messages-NamesConsumer :
    (policy : Fields)
    → metric_messages policy ≡ ok []
    → any_of is_consumer_entry
        (listed (within (obj policy) ("spec" ∷ "frontend" ∷ "metrics" ∷ "attributes" ∷ "add" ∷ [])))
      ≡ ok true
unfolding metric_messages spec_of mapping_of sequence_of report within listed
metric_messages-NamesConsumer policy h = ground (arith, h)

descriptor_messages-NamesConsumer :
    (policy : Fields) (d : Value)
    → descriptor_messages policy d ≡ ok []
    → any_of is_consumer_entry (listed (within d ("entries" ∷ []))) ≡ ok true
unfolding descriptor_messages mapping_of sequence_of report within listed
descriptor_messages-NamesConsumer policy d h = ground (arith, h)

limit_messages-listed :
    (policy : Fields)
    → limit_messages policy ≡ ok []
    → collect (descriptor_messages policy) (
        listed
          (within (obj policy) ("spec" ∷ "traffic" ∷ "rateLimit" ∷ "global" ∷ "descriptors" ∷ [])))
      ≡ ok []
unfolding limit_messages spec_of mapping_of sequence_of within listed
limit_messages-listed policy h = ground (arith, h)

is_named-within :
    (name : String) (d : Fields) → is_named name d ≡ ok true → is_text (metadata_name d) name ≡ true
unfolding is_named metadata_of mapping_of within
is_named-within name d h = ground (arith, h)

label_found :
    (metadata : Fields) (label value : String)
    → is_text (within (get metadata "labels") (label ∷ [])) value ≡ true
    → has_label metadata label value ≡ true
label_found metadata label value h = elim (Bool-cases (has_label metadata label value)) [
  | inl e ↦ e
  | inr e ↦ ground (arith, h, has_label-other metadata label value e)
]

authorization_messages-limit_messages :
    (policy : Fields)
    → authorization_messages policy ≡ ok []
    → IsAuthorization policy
    → limit_messages policy ≡ ok []
unfolding authorization_messages metadata_of mapping_of within
authorization_messages-limit_messages policy h a = go (get policy "metadata") refl a
  where
    go :
        (v : Value)
        → get policy "metadata" ≡ v
        → is_text
            (within v ("labels" ∷ "app.kubernetes.io/component" ∷ []))
            "model-authorization-policy"
          ≡ true
        → limit_messages policy ≡ ok []
    go (obj metadata) p b = ground (
      arith,
      h,
      p,
      label_found metadata "app.kubernetes.io/component" "model-authorization-policy" b,
    )
    go null p b = cc
    go (bool c) p b = cc
    go (int n) p b = cc
    go (real x) p b = cc
    go (str s) p b = cc
    go (arr vs) p b = cc

authorization_messages-LimitsConsumers :
    (policy : Fields)
    → authorization_messages policy ≡ ok []
    → IsAuthorization policy
    → LimitsConsumers policy
authorization_messages-LimitsConsumers policy h a =
    All-collect (λ d. NamesConsumer (listed (within d ("entries" ∷ []))))
      (descriptor_messages policy)
      (λ d e. any_of-NamesConsumer _ (descriptor_messages-NamesConsumer policy d e)) _
      (limit_messages-listed policy (authorization_messages-limit_messages policy h a))

-- What documents without an error of the consumers' flow hold.
pub record CountsConsumers (python : Python) (documents : List Fields) : Type 0 where
  pub metrics : Fields
  pub measured : Memᴰ metrics (by_kind documents "AgentgatewayPolicy")
  pub metrics_name : is_text (metadata_name metrics) "gateway-consumer-metrics" ≡ true
  pub added :
      NamesConsumer (
        listed (within (obj metrics) ("spec" ∷ "frontend" ∷ "metrics" ∷ "attributes" ∷ "add" ∷ [])))
  pub limited :
      All
        (λ (p : Fields). IsAuthorization p → LimitsConsumers p)
        (by_kind documents "AgentgatewayPolicy")
  pub envoy : Fields
  pub configured : Memᴰ envoy (by_kind documents "ConfigMap")
  pub envoy_name : is_text (metadata_name envoy) "envoy-ratelimit-config" ≡ true
  pub keyed :
      has_substring "key: consumer_id"
        (text_of python (within (obj envoy) ("data" ∷ "config.yaml" ∷ [])))
      ≡ true

module _ (python : Python) where
  empty_text : has_substring "key: consumer_id" (text_of python (str "")) ≡ true → ⊥
  unfolding has_substring text_of
  empty_text h = cc

  -- A text that is missing counts as the empty one, which has no key.
  missing_text :
      (fs : Fields) (k : String)
      → has_substring "key: consumer_id" (text_of python (get_or fs k (str ""))) ≡ true
      → has_substring "key: consumer_id" (text_of python (get fs k)) ≡ true
  missing_text end k h = absurd (empty_text h)
  missing_text (field j v fs) k h = elim (Bool-cases (j == k)) [
    | inl e ↦ rw e (rw e at h)
    | inr e ↦ rw e (missing_text fs k (rw e at h))
  ]

  envoy_messages-keyed :
      (config : Fields)
      → envoy_messages python (some config) ≡ ok []
      → has_substring "key: consumer_id"
          (text_of python (within (obj config) ("data" ∷ "config.yaml" ∷ [])))
        ≡ true
  unfolding envoy_messages mapping_of within envoy_message report
  envoy_messages-keyed config h = go (get config "data") refl
    where
      go :
          (v : Value)
          → get config "data" ≡ v
          → has_substring "key: consumer_id" (text_of python (within v ("config.yaml" ∷ []))) ≡ true
      go (obj entries) p =
          let shown = text_of python (get_or entries "config.yaml" (str "")) in
          elim (Bool-cases (has_substring "key: consumer_id" shown)) [
            | inl e ↦ missing_text entries "config.yaml" e
            | inr e ↦ ground (arith, h, p, e)
          ]
      go null p = ground (arith, h, p)
      go (bool c) p = ground (arith, h, p)
      go (int n) p = ground (arith, h, p)
      go (real x) p = ground (arith, h, p)
      go (str s) p = ground (arith, h, p)
      go (arr vs) p = ground (arith, h, p)

  found_config :
      (config : Option Fields)
      → envoy_messages python config ≡ ok []
      → (d : Fields) × (config ≡ some d) × (envoy_messages python (some d) ≡ ok [])
  unfolding envoy_messages envoy_message report
  found_config none h = cc
  found_config (some d) h = (d, refl, h)

  consumer_messages-CountsConsumers :
      (documents : List Fields) (metrics : Fields)
      → first_of (is_named "gateway-consumer-metrics") (by_kind documents "AgentgatewayPolicy")
        ≡ ok (some metrics)
      → IfOk
          (λ messages. messages ≡ [] → CountsConsumers python documents)
          (consumer_messages python documents metrics)
  unfolding consumer_messages
  consumer_messages-CountsConsumers documents metrics found =
      let P = λ (messages : List Message). messages ≡ [] → CountsConsumers python documents in
      let policies = by_kind documents "AgentgatewayPolicy" in
      IfOk-bind P (metric_messages metrics) _ λ m a.
        IfOk-bind P (collect authorization_messages policies) _ λ l b.
          IfOk-bind P (first_of (is_named "envoy-ratelimit-config") (by_kind documents "ConfigMap"))
            _
            λ c d. IfOk-bind P (envoy_messages python c) _ λ e f q.
              let both = (append-eq-nil (m ++ l) e).0 q in
              let parts = (append-eq-nil m l).0 both.0 in
              let (envoy, s, h) = found_config c (f ∙ ap ok both.1) in
              let metric = first_of-Mem _ policies metrics found in
              let configured = first_of-Mem _ (by_kind documents "ConfigMap") envoy (d ∙ ap ok s) in
              record {
                metrics = metrics;
                measured = metric.0;
                metrics_name = is_named-within "gateway-consumer-metrics" metrics metric.1;
                added =
                    any_of-NamesConsumer _
                      (metric_messages-NamesConsumer metrics (a ∙ ap ok parts.0));
                limited =
                    All-collect (λ p. IsAuthorization p → LimitsConsumers p) authorization_messages
                      authorization_messages-LimitsConsumers policies (b ∙ ap ok parts.1);
                envoy = envoy;
                configured = configured.0;
                envoy_name = is_named-within "envoy-ratelimit-config" envoy configured.1;
                keyed = envoy_messages-keyed envoy h;
              }

  pub documents-CountConsumers :
      (documents : List Fields)
      → validate_consumer_id_flow python documents ≡ ok []
      → CountsConsumers python documents
  unfolding validate_consumer_id_flow report
  documents-CountConsumers documents e =
      go (first_of (is_named "gateway-consumer-metrics") (by_kind documents "AgentgatewayPolicy"))
        refl
    where
      go :
          (r : Result (Option Fields))
          → first_of (is_named "gateway-consumer-metrics") (by_kind documents "AgentgatewayPolicy")
            ≡ r
          → CountsConsumers python documents
      go (err x) p = ground (arith, e, p)
      go (ok none) p = ground (arith, e, p)
      go (ok (some metrics)) p =
          IfOk-eq (λ messages. messages ≡ [] → CountsConsumers python documents) _
            (consumer_messages-CountsConsumers documents metrics p) (ground (arith, e, p)) refl

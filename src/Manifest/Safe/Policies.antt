-- ===== src/Manifest/Safe/Policies.antt =====
-- Routes whose policies, paths and namespaces are reported on by nothing.
use mathlib.Core.Path.{subst}
use mathlib.Core.List.{Memᴰ}
use mathlib.Core.List.Memᴰ.{head, tail}
use airgapped_ai_gateway_k8s.Base.{
  String, true, ◌≡◌, refl, sym, ap, inl, inr, List, [], ◌∷◌, Option, none, some, All, arith,
  eq_refl, Bool-cases,
}
use airgapped_ai_gateway_k8s.Base.Outcome.{Result, ok, err, IfOk, IfOk-bind, IfOk-eq}
use airgapped_ai_gateway_k8s.Base.Json.{
  Value, null, bool, int, real, str, arr, obj, nil, Fields, get, get_or,
}
use airgapped_ai_gateway_k8s.Conditions.Checks.{is_text}
use airgapped_ai_gateway_k8s.Manifest.Reads.{
  report, mapping_of, sequence_of, string_of, spec_of, name_of, by_kind,
}
use airgapped_ai_gateway_k8s.Manifest.Routes.{
  Policies, find_policy, note_target, note_targets, note_policy, policies_by_route, policy_messages,
  route_policy_messages, validate_routes_and_policies,
}
use airgapped_ai_gateway_k8s.Manifest.Safe.{within, keyed, listed, All-collect}
use airgapped_ai_gateway_k8s.Manifest.Safe.Readers.{
  string_of-str, mapping_of-obj, is_text-str, missing-listed,
}

-- The policy demands an API key from the runtime Secret, and authorizes by some expression.
pub record IsStrict (policy : Fields) : Type 0 where
  pub api_key :
      is_text
        (within (obj policy) ("spec" ∷ "traffic" ∷ "apiKeyAuthentication" ∷ "mode" ∷ []))
        "Strict"
      ≡ true
  pub from_secret :
      keyed (within (obj policy) ("spec" ∷ "traffic" ∷ "apiKeyAuthentication" ∷ [])) "secretRef"
      ≡ true
  pub required :
      is_text (within (obj policy) ("spec" ∷ "traffic" ∷ "authorization" ∷ "action" ∷ [])) "Require"
      ≡ true
  pub expression : Value
  pub expressed : Memᴰ expression (
      listed (
        within
          (obj policy)
          ("spec" ∷ "traffic" ∷ "authorization" ∷ "policy" ∷ "matchExpressions" ∷ [])))

abbrev expressions : Fields → List Value
expressions policy = listed (
    within (obj policy) ("spec" ∷ "traffic" ∷ "authorization" ∷ "policy" ∷ "matchExpressions" ∷ []))

policy_messages-unexpressed :
    (name : Value) (policy : Fields)
    → expressions policy ≡ []
    → policy_messages name policy ≡ ok []
    → ⊥
unfolding policy_messages spec_of mapping_of sequence_of report within listed
policy_messages-unexpressed name policy p h = ground (arith, p, h)

policy_messages-expressed :
    (name : Value) (policy : Fields)
    → policy_messages name policy ≡ ok []
    → (expression : Value) × Memᴰ expression (expressions policy)
policy_messages-expressed name policy h = go (expressions policy) refl
  where
    go : (vs : List Value) → expressions policy ≡ vs → (expression : Value) × Memᴰ expression vs
    go [] p = absurd (policy_messages-unexpressed name policy p h)
    go (v ∷ vs) p = (v, head refl)

policy_messages-IsStrict :
    (name : Value) (policy : Fields) → policy_messages name policy ≡ ok [] → IsStrict policy
unfolding policy_messages spec_of mapping_of sequence_of report within keyed
policy_messages-IsStrict name policy h = record {
  api_key = ground (arith, h);
  from_secret = ground (arith, h);
  required = ground (arith, h);
  expression = (policy_messages-expressed name policy h).0;
  expressed = (policy_messages-expressed name policy h).1;
}

-- One of the policy's target references is the route of this name.
abbrev pub Targets : Fields → String → Type 0
Targets policy route =
    (target : Value) × Memᴰ target (listed (within (obj policy) ("spec" ∷ "targetRefs" ∷ [])))
    × (is_text (within target ("kind" ∷ [])) "HTTPRoute" ≡ true)
    × (is_text (within target ("name" ∷ [])) route ≡ true)

-- An entry of the policies: a policy among the documents that targets the route.
record IsPolicyOf (documents : List Fields) (e : String × Fields) : Type 0 where
  pub member : Memᴰ e.1 documents
  pub kind : is_text (get e.1 "kind") "AgentgatewayPolicy" ≡ true
  pub targets : Targets e.1 e.0

module _ (documents : List Fields) (policy : Fields) (member : Memᴰ policy documents)
    (kind : is_text (get policy "kind") "AgentgatewayPolicy" ≡ true) where
  noted_target :
      (policies : Policies) (target : Value)
      → Memᴰ target (listed (within (obj policy) ("spec" ∷ "targetRefs" ∷ [])))
      → All (IsPolicyOf documents) policies
      → IfOk (All (IsPolicyOf documents)) (note_target policy policies target)
  unfolding note_target mapping_of within
  noted_target policies null m h = tt
  noted_target policies (bool b) m h = tt
  noted_target policies (int n) m h = tt
  noted_target policies (real x) m h = tt
  noted_target policies (str s) m h = tt
  noted_target policies (arr vs) m h = tt
  noted_target policies (obj reference) m h =
      elim (Bool-cases (is_text (get reference "kind") "HTTPRoute")) [
        | inl route ↦ rw route (
            IfOk-bind (All (IsPolicyOf documents)) (string_of (get reference "name")) _ λ name e. (
              record {
                member = member;
                kind = kind;
                targets = (
                  obj reference,
                  m,
                  route,
                  rw
                      (IfOk-eq (λ s. get reference "name" ≡ str s) _
                        (string_of-str (get reference "name")) e)
                      (eq_refl name),
                );
              },
              h,
            ))
        | inr other ↦ rw other h
      ]

  noted_targets :
      (policies : Policies) (targets : List Value)
      → ((t : Value)
          → Memᴰ t targets
          → Memᴰ t (listed (within (obj policy) ("spec" ∷ "targetRefs" ∷ []))))
      → All (IsPolicyOf documents) policies
      → IfOk (All (IsPolicyOf documents)) (note_targets policy policies targets)
  unfolding note_targets
  noted_targets policies [] m h = h
  noted_targets policies (target ∷ targets) m h =
      IfOk-bind (All (IsPolicyOf documents)) (note_target policy policies target) _ λ noted e.
        noted_targets noted targets (λ t n. m t (tail n))
          (IfOk-eq (All (IsPolicyOf documents)) _
            (noted_target policies target (m target (head refl)) h) e)

targets-listed :
    (policy spec : Fields) (targets : List Value)
    → spec_of policy ≡ ok spec
    → sequence_of (get_or spec "targetRefs" (arr nil)) ≡ ok targets
    → targets ≡ listed (within (obj policy) ("spec" ∷ "targetRefs" ∷ []))
unfolding spec_of within
targets-listed policy spec targets e f =
    subst (λ v. targets ≡ listed (within v ("targetRefs" ∷ [])))
      (sym (IfOk-eq (λ fs. get policy "spec" ≡ obj fs) _ (mapping_of-obj (get policy "spec")) e))
      (IfOk-eq (λ vs. vs ≡ listed (get spec "targetRefs")) _ (missing-listed spec "targetRefs") f)

noted_policy :
    (documents : List Fields) (document : Fields)
    → Memᴰ document documents
    → (policies : Policies) → All (IsPolicyOf documents) policies
    → IfOk (All (IsPolicyOf documents)) (note_policy document policies)
unfolding note_policy
noted_policy documents document member policies h =
    elim (Bool-cases (is_text (get document "kind") "AgentgatewayPolicy")) [
      | inl kind ↦ rw kind (
          IfOk-bind (All (IsPolicyOf documents)) (spec_of document) _ λ spec e.
            IfOk-bind (All (IsPolicyOf documents))
              (sequence_of (get_or spec "targetRefs" (arr nil))) _
              λ targets f.
                noted_targets documents document member kind policies targets
                  (λ t n. subst (Memᴰ t) (targets-listed document spec targets e f) n) h)
      | inr other ↦ rw other h
    ]

noted_policies :
    (documents remaining : List Fields)
    → ((d : Fields) → Memᴰ d remaining → Memᴰ d documents)
    → (policies : Policies) → All (IsPolicyOf documents) policies
    → IfOk (All (IsPolicyOf documents)) (policies_by_route policies remaining)
unfolding policies_by_route
noted_policies documents [] m policies h = h
noted_policies documents (document ∷ remaining) m policies h =
    IfOk-bind (All (IsPolicyOf documents)) (note_policy document policies) _ λ noted e.
      noted_policies documents remaining (λ d n. m d (tail n)) noted
        (IfOk-eq (All (IsPolicyOf documents)) _
          (noted_policy documents document (m document (head refl)) policies h) e)

-- The route has a name, and a strict policy among the documents targets it.
pub record IsProtected (documents : List Fields) (route : Fields) : Type 0 where
  pub policy : Fields
  pub name : String
  pub named : name_of route ≡ ok (str name)
  pub member : Memᴰ policy documents
  pub kind : is_text (get policy "kind") "AgentgatewayPolicy" ≡ true
  pub targets : Targets policy name
  pub strict : IsStrict policy

-- What is found for a name stands among the policies, under that name.
found_policy :
    (documents : List Fields) (policies : Policies) (name : Value) (policy : Fields)
    → All (IsPolicyOf documents) policies
    → find_policy policies name ≡ some policy
    → (route : String) × (name ≡ str route) × IsPolicyOf documents (route, policy)
unfolding find_policy
found_policy documents [] name policy h e = cc
found_policy documents ((route, p) ∷ policies) name policy h e =
    elim (Bool-cases (is_text name route)) [
      | inl same ↦ (
        route,
        is_text-str name route same,
        subst (λ q. IsPolicyOf documents (route, q)) (ground (arith, e, same)) h.0,
      )
      | inr other ↦ found_policy documents policies name policy h.1 (ground (arith, e, other))
    ]

route_policy_messages-IsProtected :
    (documents : List Fields) (policies : Policies) (route : Fields)
    → All (IsPolicyOf documents) policies
    → route_policy_messages policies route ≡ ok []
    → IsProtected documents route
unfolding route_policy_messages report
route_policy_messages-IsProtected documents policies route h e = go (name_of route) refl
  where
    go : (r : Result Value) → name_of route ≡ r → IsProtected documents route
    go (err x) p = ground (arith, e, p)
    go (ok name) p = found (find_policy policies name) refl
      where
        found : (o : Option Fields) → find_policy policies name ≡ o → IsProtected documents route
        found none q = ground (arith, e, p, q)
        found (some policy) q =
            let (target, same, entry_of) = found_policy documents policies name policy h q in
            record {
              policy = policy;
              name = target;
              named = rw p (ap ok same);
              member = entry_of.member;
              kind = entry_of.kind;
              targets = entry_of.targets;
              strict = policy_messages-IsStrict name policy (ground (arith, e, p, q));
            }

pub routes-IsProtected :
    (documents : List Fields)
    → validate_routes_and_policies documents ≡ ok []
    → All (IsProtected documents) (by_kind documents "HTTPRoute")
unfolding validate_routes_and_policies
routes-IsProtected documents e = go (policies_by_route [] documents) refl
  where
    go :
        (r : Result Policies)
        → policies_by_route [] documents ≡ r
        → All (IsProtected documents) (by_kind documents "HTTPRoute")
    go (err x) p = ground (arith, e, p)
    go (ok policies) p =
        All-collect (IsProtected documents) (route_policy_messages policies)
          (λ route. route_policy_messages-IsProtected documents policies route (
            IfOk-eq (All (IsPolicyOf documents)) _
              (noted_policies documents documents (λ d m. m) [] tt) p))
          (by_kind documents "HTTPRoute") (ground (arith, e, p))

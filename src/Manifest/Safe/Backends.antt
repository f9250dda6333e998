-- ===== src/Manifest/Safe/Backends.antt =====
-- The backends of routes that are not reported on.
use mathlib.Core.Path.{subst}
use mathlib.Core.List.{Memᴰ}
use airgapped_ai_gateway_k8s.Base.{
  String, Bool, true, false, ◌≡◌, refl, sym, ap, ◌∙◌, List, [], ◌∷◌, ◌++◌, ◌⊎◌, inl, inr, All,
  arith, append-eq-nil, eq_iff, if◌then◌else◌,
}
use airgapped_ai_gateway_k8s.Base.Outcome.{
  Result, ok, err, traverse, collect, IfOk, IfOk-bind, IfOk-eq,
}
use airgapped_ai_gateway_k8s.Base.Json.{Value, null, bool, int, real, str, arr, obj, Fields, get}
use airgapped_ai_gateway_k8s.Conditions.Checks.{is_text}
use airgapped_ai_gateway_k8s.Manifest.Reads.{
  Python, Message, report, mapping_of, sequence_of, spec_of, metadata_of, by_kind, same_value,
  in_set, hashable_name, backend_refs_of, route_backend_refs,
}
use airgapped_ai_gateway_k8s.Manifest.Routes.{
  none_or, chat_ref_messages, embedding_ref_messages, backend_messages, validate_backend_types,
}
use airgapped_ai_gateway_k8s.Manifest.Safe.{within, listed, All-collect, All-Mem}
use airgapped_ai_gateway_k8s.Manifest.Safe.Readers.{mapping_of-obj}
use airgapped_ai_gateway_k8s.Manifest.Safe.Declared.{metadata_name}
use airgapped_ai_gateway_k8s.Manifest.Safe.Budgets.{
  traverse-Mem, hashable_name-within, is_among-Mem, in_set-is_among,
}

-- The value is a mapping of which `P` holds.
abbrev pub IsMapping : (Fields → Type 0) → Value → Type 0
IsMapping P v = (fs : Fields) × (v ≡ obj fs) × P fs

-- `P` holds of each backend reference of each rule of the route.
abbrev pub AllBackends : (Fields → Type 0) → Fields → Type 0
AllBackends P route =
    All (λ (rule : Value). All (IsMapping P) (listed (within rule ("backendRefs" ∷ []))))
      (listed (within (obj route) ("spec" ∷ "rules" ∷ [])))

module _ (P : Fields → Type 0) where
  traverse-IsMapping :
      (vs : List Value) → IfOk (λ refs. All P refs → All (IsMapping P) vs) (traverse mapping_of vs)
  traverse-IsMapping [] = λ h. h
  traverse-IsMapping (v ∷ vs) =
      let R = λ (refs : List Fields). All P refs → All (IsMapping P) (v ∷ vs) in
      IfOk-bind R (mapping_of v) _ λ ref a.
        IfOk-bind R (traverse mapping_of vs) (λ rest. ok (ref ∷ rest))
          λ rest b h. (
            (ref, IfOk-eq _ _ (mapping_of-obj v) a, h.0),
            IfOk-eq (λ refs. All P refs → All (IsMapping P) vs) _ (traverse-IsMapping vs) b h.1,
          )

  sequence_of-eq : (v : Value) → IfOk (λ vs. listed v ≡ vs) (sequence_of v)
  unfolding sequence_of listed
  sequence_of-eq null = tt
  sequence_of-eq (bool b) = tt
  sequence_of-eq (int n) = tt
  sequence_of-eq (real x) = tt
  sequence_of-eq (str s) = tt
  sequence_of-eq (arr vs) = refl
  sequence_of-eq (obj fs) = tt

  OfRule : Value → List Fields → Type 0
  OfRule rule refs = All P refs → All (IsMapping P) (listed (within rule ("backendRefs" ∷ [])))

  backend_refs_of-OfRule : (rule : Value) → IfOk (OfRule rule) (backend_refs_of rule)
  unfolding backend_refs_of OfRule within
  backend_refs_of-OfRule rule = IfOk-bind (OfRule rule) (mapping_of rule) _ λ fields a.
      IfOk-bind (OfRule rule) (sequence_of (get fields "backendRefs"))
        (λ vs. traverse mapping_of vs)
        λ vs b.
          let same =
            ap (λ v. listed (within v ("backendRefs" ∷ []))) (IfOk-eq _ _ (mapping_of-obj rule) a)
            ∙ IfOk-eq _ _ (sequence_of-eq (get fields "backendRefs")) b in
          subst (λ us. IfOk (λ refs. All P refs → All (IsMapping P) us) (traverse mapping_of vs))
            (sym same) (traverse-IsMapping vs)

  All-append-left : (xs ys : List Fields) → All P (xs ++ ys) → All P xs × All P ys
  All-append-left [] ys h = (tt, h)
  All-append-left (x ∷ xs) ys h = let (a, b) = All-append-left xs ys h.1 in ((h.0, a), b)

  collect-OfRule :
      (rules : List Value)
      → IfOk
          (λ refs.
            All P refs
            → All (λ rule. All (IsMapping P) (listed (within rule ("backendRefs" ∷ [])))) rules)
          (collect backend_refs_of rules)
  unfolding OfRule
  collect-OfRule [] = λ h. tt
  collect-OfRule (rule ∷ rules) =
      let T = λ (v : Value). All (IsMapping P) (listed (within v ("backendRefs" ∷ []))) in
      let R = λ (refs : List Fields). All P refs → All T (rule ∷ rules) in
      IfOk-bind R (backend_refs_of rule) _ λ found a.
        IfOk-bind R (collect backend_refs_of rules) (λ rest. ok (found ++ rest))
          λ rest b h.
            let (x, y) = All-append-left found rest h in
            (
              IfOk-eq (OfRule rule) _ (backend_refs_of-OfRule rule) a x,
              IfOk-eq (λ refs. All P refs → All T rules) _ (collect-OfRule rules) b y,
            )

  -- What holds of the references that are read holds of all that the route has.
  pub route_backend_refs-AllBackends :
      (route : Fields) → IfOk (λ refs. All P refs → AllBackends P route) (route_backend_refs route)
  unfolding route_backend_refs spec_of within
  route_backend_refs-AllBackends route =
      let R = λ (refs : List Fields). All P refs → AllBackends P route in
      IfOk-bind R (mapping_of (get route "spec")) _ λ spec a.
        IfOk-bind R (sequence_of (get spec "rules")) (λ rules. collect backend_refs_of rules)
          λ rules b.
            let T = λ (v : Value). All (IsMapping P) (listed (within v ("backendRefs" ∷ []))) in
            let same =
              ap (λ v. listed (within v ("rules" ∷ [])))
                (IfOk-eq _ _ (mapping_of-obj (get route "spec")) a)
              ∙ IfOk-eq _ _ (sequence_of-eq (get spec "rules")) b in
            subst (λ us. IfOk (λ refs. All P refs → All T us) (collect backend_refs_of rules))
              (sym same) (collect-OfRule rules)

-- A document of the kind has this name.
pub record IsDeclared (python : Python) (documents : List Fields) (kind : String) (name : Value)
    : Type 0 where
  pub declared : Fields
  pub member : Memᴰ declared (by_kind documents kind)
  pub same_name : same_value python name (metadata_name declared) ≡ true

pub record IsChatRef (python : Python) (documents : List Fields) (ref : Fields) : Type 0 where
  pub kind : is_text (get ref "kind") "AgentgatewayBackend" ≡ true
  pub group : is_text (get ref "group") "agentgateway.dev" ≡ true
  pub target : IsDeclared python documents "AgentgatewayBackend" (get ref "name")

pub record IsEmbeddingRef (python : Python) (documents : List Fields) (ref : Fields) : Type 0 where
  pub kind : (get ref "kind" ≡ null) ⊎ (get ref "kind" ≡ str "Service")
  pub group : (get ref "group" ≡ null) ⊎ (get ref "group" ≡ str "")
  pub target : IsDeclared python documents "Service" (get ref "name")

abbrev pub HasShape : Fields → String → Type 0
HasShape route shape =
    is_text (within (obj route) ("metadata" ∷ "labels" ∷ "ai.gateway/api-shape" ∷ [])) shape ≡ true

-- The backends of a chat route and of an embedding route are of their kinds, and are declared.
pub record IsRouted (python : Python) (documents : List Fields) (route : Fields) : Type 0 where
  pub chats : HasShape route "chat" → AllBackends (IsChatRef python documents) route
  pub embeddings : HasShape route "embedding" → AllBackends (IsEmbeddingRef python documents) route

none_or-cases : (v : Value) (s : String) → none_or v s ≡ true → (v ≡ null) ⊎ (v ≡ str s)
unfolding none_or
none_or-cases null s h = inl refl
none_or-cases (str t) s h = inr (ap str ((eq_iff t s).0 h))
none_or-cases (bool b) s h = cc
none_or-cases (int n) s h = cc
none_or-cases (real x) s h = cc
none_or-cases (arr vs) s h = cc
none_or-cases (obj fs) s h = cc

module _ (python : Python) (documents : List Fields) where
  in_set-IsDeclared :
      (kind : String) (names : List Value) (name : Value)
      → traverse hashable_name (by_kind documents kind) ≡ ok names
      → in_set python name names ≡ ok true
      → IsDeclared python documents kind name
  in_set-IsDeclared kind names name e h =
      let listed = by_kind documents kind in
      let R = λ (v : Value). (d : Fields) × Memᴰ d listed × (hashable_name d ≡ ok v) in
      let (v, m, s) = is_among-Mem python name names (in_set-is_among python name names h) in
      let (d, n, q) =
        All-Mem R v names m (IfOk-eq (All R) _ (traverse-Mem hashable_name listed) e) in
      record { declared = d; member = n; same_name = rw (IfOk-eq _ _ (hashable_name-within d) q) s }

  chat_ref_messages-IsChatRef :
      (names : List Value) (model : Value) (ref : Fields)
      → traverse hashable_name (by_kind documents "AgentgatewayBackend") ≡ ok names
      → chat_ref_messages python names model ref ≡ ok []
      → IsChatRef python documents ref
  unfolding chat_ref_messages report
  chat_ref_messages-IsChatRef names model ref e h = go (in_set python (get ref "name") names) refl
    where
      go :
          (r : Result Bool)
          → in_set python (get ref "name") names ≡ r
          → IsChatRef python documents ref
      go (err x) p = ground (arith, h, p)
      go (ok false) p = ground (arith, h, p)
      go (ok true) p = record {
        kind = ground (arith, h, p);
        group = ground (arith, h, p);
        target = in_set-IsDeclared "AgentgatewayBackend" names (get ref "name") e p;
      }

  embedding_ref_messages-IsEmbeddingRef :
      (names : List Value) (model : Value) (ref : Fields)
      → traverse hashable_name (by_kind documents "Service") ≡ ok names
      → embedding_ref_messages python names model ref ≡ ok []
      → IsEmbeddingRef python documents ref
  unfolding embedding_ref_messages report
  embedding_ref_messages-IsEmbeddingRef names model ref e h =
      go (in_set python (get ref "name") names) refl
    where
      go :
          (r : Result Bool)
          → in_set python (get ref "name") names ≡ r
          → IsEmbeddingRef python documents ref
      go (err x) p = ground (arith, h, p)
      go (ok false) p = ground (arith, h, p)
      go (ok true) p = record {
        kind = none_or-cases (get ref "kind") "Service" (ground (arith, h, p));
        group = none_or-cases (get ref "group") "" (ground (arith, h, p));
        target = in_set-IsDeclared "Service" names (get ref "name") e p;
      }

  backend_messages-IsRouted :
      (backends services : List Value) (route : Fields)
      → traverse hashable_name (by_kind documents "AgentgatewayBackend") ≡ ok backends
      → traverse hashable_name (by_kind documents "Service") ≡ ok services
      → IfOk
          (λ messages. messages ≡ [] → IsRouted python documents route)
          (backend_messages python backends services route)
  unfolding backend_messages metadata_of within
  backend_messages-IsRouted backends services route e f =
      let R = λ (messages : List Message). messages ≡ [] → IsRouted python documents route in
      IfOk-bind R (mapping_of (get route "metadata")) _ λ metadata a.
        IfOk-bind R (mapping_of (get metadata "labels")) _ λ labels b.
          IfOk-bind R (route_backend_refs route) _ λ refs c.
            let chat = is_text (get labels "ai.gateway/api-shape") "chat" in
            let embedding = is_text (get labels "ai.gateway/api-shape") "embedding" in
            let model = get labels "ai.gateway/model-key" in
            IfOk-bind R
              (if chat then collect (chat_ref_messages python backends model) refs else ok []) _
              λ m d.
                IfOk-bind R
                  (if embedding
                    then collect (embedding_ref_messages python services model) refs
                    else ok [])
                  (λ n. ok (m ++ n))
                  λ n g q.
                    let none = (append-eq-nil m n).0 q in
                    let shaped = λ (shape : String).
                      ap (λ v. is_text (within v ("labels" ∷ "ai.gateway/api-shape" ∷ [])) shape)
                        (IfOk-eq _ _ (mapping_of-obj (get route "metadata")) a)
                      ∙ ap (λ v. is_text (within v ("ai.gateway/api-shape" ∷ [])) shape)
                          (IfOk-eq _ _ (mapping_of-obj (get metadata "labels")) b) in
                    record {
                      chats = λ s.
                          IfOk-eq
                            (λ rs.
                              All (IsChatRef python documents) rs
                              → AllBackends (IsChatRef python documents) route)
                            _ (route_backend_refs-AllBackends (IsChatRef python documents) route) c
                            (All-collect (IsChatRef python documents)
                              (chat_ref_messages python backends model)
                              (λ ref. chat_ref_messages-IsChatRef backends model ref e) refs
                              (ground (arith, d, none.0, shaped "chat", s)));
                      embeddings = λ s.
                          IfOk-eq
                            (λ rs.
                              All (IsEmbeddingRef python documents) rs
                              → AllBackends (IsEmbeddingRef python documents) route)
                            _
                            (route_backend_refs-AllBackends (IsEmbeddingRef python documents) route)
                            c
                            (All-collect (IsEmbeddingRef python documents)
                              (embedding_ref_messages python services model)
                              (λ ref. embedding_ref_messages-IsEmbeddingRef services model ref f)
                              refs (ground (arith, g, none.1, shaped "embedding", s)));
                    }

  pub routes-IsRouted :
      validate_backend_types python documents ≡ ok []
      → All (IsRouted python documents) (by_kind documents "HTTPRoute")
  unfolding validate_backend_types
  routes-IsRouted h =
      go (traverse hashable_name (by_kind documents "AgentgatewayBackend"))
        (traverse hashable_name (by_kind documents "Service")) refl refl
    where
      go :
          (r t : Result (List Value))
          → traverse hashable_name (by_kind documents "AgentgatewayBackend") ≡ r
          → traverse hashable_name (by_kind documents "Service") ≡ t
          → All (IsRouted python documents) (by_kind documents "HTTPRoute")
      go (err x) t e f = ground (arith, h, e)
      go (ok backends) (err x) e f = ground (arith, h, e, f)
      go (ok backends) (ok services) e f =
          All-collect (IsRouted python documents) (backend_messages python backends services)
            (λ route k.
              IfOk-eq (λ messages. messages ≡ [] → IsRouted python documents route) _
                (backend_messages-IsRouted backends services route e f) k refl)
            (by_kind documents "HTTPRoute") (ground (arith, h, e, f))

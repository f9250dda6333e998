-- ===== src/Manifest/Safe/Crossing.antt =====
-- Routes and identities that are reported on by nothing.
use mathlib.Core.List.{Memᴰ}
use mathlib.Core.List.Memᴰ.{head, tail}
use airgapped_ai_gateway_k8s.Base.{
  eq_refl, Bool, ◌||◌, String, true, false, ◌≡◌, refl, inl, inr, List, [], ◌∷◌, ◌++◌, All, arith,
  eq_iff, append-eq-nil, Bool-cases,
}
use airgapped_ai_gateway_k8s.Base.Outcome.{
  Result, ok, err, traverse, ok-injective, IfOk-eq, extend-eq-nil, ◌then_extend◌,
}
use airgapped_ai_gateway_k8s.Base.Json.{str, Fields, get, get_or}
use airgapped_ai_gateway_k8s.Manifest.Reads.{
  Python, Message, report, metadata_of, by_kind, text_of, route_backend_refs, resource_id,
}
use airgapped_ai_gateway_k8s.Manifest.Shape.{
  same_texts, has_seen, is_name, missing_fields, name_message, seen_message, shape_loop,
  validate_required_shape,
}
use airgapped_ai_gateway_k8s.Manifest.Routes.{
  crossing_messages, namespace_messages, validate_cross_namespace_references,
}
use airgapped_ai_gateway_k8s.Manifest.Safe.Backends.{AllBackends, route_backend_refs-AllBackends}
use airgapped_ai_gateway_k8s.Manifest.Safe.{All-collect, report-eq-nil}

-- The namespace of a route, and of one of its backends.
abbrev pub route_namespace : Python → Fields → String
route_namespace python metadata = text_of python (get_or metadata "namespace" (str "default"))

abbrev pub ref_namespace : Python → Fields → Fields → String
ref_namespace python metadata ref =
    text_of python (get_or ref "namespace" (str (route_namespace python metadata)))

-- All backends of the route are in its namespace.
pub record StaysHome (python : Python) (route : Fields) : Type 0 where
  pub metadata : Fields
  pub described : metadata_of route ≡ ok metadata
  pub local :
      AllBackends (λ ref. ref_namespace python metadata ref ≡ route_namespace python metadata) route

same_texts_refl : (ss : List String) → same_texts ss ss ≡ true
unfolding same_texts
same_texts_refl [] = refl
same_texts_refl (s ∷ ss) = ground (arith, eq_refl s, same_texts_refl ss)

same_texts_eq : (ss ts : List String) → ss ≡ ts → same_texts ts ss ≡ true
same_texts_eq ss ts e = rw e (same_texts_refl ts)

unseen : (a b : Bool) → (a || b) ≡ false → b ≡ false
unseen true b h = cc
unseen false b h = h

-- An identity that was not seen is none of the seen ones.
has_seen-Mem :
    (seen : List (List String)) (id : List String) → has_seen seen id ≡ false → ¬ Memᴰ id seen
unfolding has_seen
has_seen-Mem [] id h m = elim m [ ]
has_seen-Mem (other ∷ seen) id h (head e) = ground (arith, h, same_texts_eq id other e)
has_seen-Mem (other ∷ seen) id h (tail m) =
    has_seen-Mem seen id (unseen (same_texts other id) (has_seen seen id) h) m

module _ (python : Python) where
  crossing_messages-local :
      (metadata route ref : Fields)
      → crossing_messages python false metadata route ref ≡ ok []
      → ref_namespace python metadata ref ≡ route_namespace python metadata
  unfolding crossing_messages report
  crossing_messages-local metadata route ref e =
      ground
        (arith, e, eq_iff (ref_namespace python metadata ref) (route_namespace python metadata))

  namespace_messages-StaysHome :
      (route : Fields) → namespace_messages python false route ≡ ok [] → StaysHome python route
  unfolding namespace_messages
  namespace_messages-StaysHome route e = go (metadata_of route) (route_backend_refs route) refl refl
    where
      go :
          (m : Result Fields) (r : Result (List Fields))
          → metadata_of route ≡ m
          → route_backend_refs route ≡ r
          → StaysHome python route
      go (err x) r p q = ground (arith, e, p)
      go (ok metadata) (err x) p q = ground (arith, e, p, q)
      go (ok metadata) (ok refs) p q = record {
        metadata = metadata;
        described = p;
        local =
            let P = λ (ref : Fields).
              ref_namespace python metadata ref ≡ route_namespace python metadata in
            IfOk-eq (λ rs. All P rs → AllBackends P route) _
              (route_backend_refs-AllBackends P route) q
              (All-collect P (crossing_messages python false metadata route)
                (λ ref. crossing_messages-local metadata route ref) refs (ground (arith, e, p, q)));
      }

  pub routes-StayHome :
      (documents : List Fields)
      → by_kind documents "ReferenceGrant" ≡ []
      → validate_cross_namespace_references python documents ≡ ok []
      → All (StaysHome python) (by_kind documents "HTTPRoute")
  unfolding validate_cross_namespace_references
  routes-StayHome documents ungranted e =
      All-collect (StaysHome python) (namespace_messages python false) namespace_messages-StaysHome
        (by_kind documents "HTTPRoute") (ground (arith, e, ungranted))

  -- No identity is among the ones before it, nor among those of `seen`.
  abbrev pub Fresh : List (List String) → List (List String) → Type 0
  Fresh seen [] = Unit
  Fresh seen (id ∷ ids) = (¬ Memᴰ id seen) × Fresh (id ∷ seen) ids

  abbrev pub HasIdentities : List (List String) → List Fields → Type 0
  HasIdentities seen documents =
      (ids : List (List String)) × (traverse (resource_id python) documents ≡ ok ids)
      × Fresh seen ids

  named_step :
      (seen : List (List String)) (document : Fields) (documents : List Fields) (id : List String)
      → ok (missing_fields document ++ seen_message seen id)
          then_extend shape_loop python (id ∷ seen) documents
        ≡ ok []
      → (has_seen seen id ≡ false) × (shape_loop python (id ∷ seen) documents ≡ ok [])
  unfolding seen_message report
  named_step seen document documents id e =
      let parts =
        extend-eq-nil (ok (missing_fields document ++ seen_message seen id))
          (shape_loop python (id ∷ seen) documents) e in
      (
        (report-eq-nil (has_seen seen id) _ _).0
            ((append-eq-nil (missing_fields document) (seen_message seen id)).0
              (ok-injective parts.0)).1,
        parts.1,
      )

  unnamed_step :
      (document : Fields) (rest : Result (List Message))
      → ok (missing_fields document ++ name_message document) then_extend rest ≡ ok []
      → ⊥
  unfolding name_message report
  unnamed_step document rest e =
      let parts = extend-eq-nil (ok (missing_fields document ++ name_message document)) rest e in
      let none =
        (append-eq-nil (missing_fields document) (name_message document)).0
          (ok-injective parts.0) in
      ground (arith, none.1)

  abbrev Continues : List (List String) → Fields → List Fields → Type 0
  Continues seen document documents =
      (id : List String) × (resource_id python document ≡ ok id)
      × (has_seen seen id ≡ false)
      × (shape_loop python (id ∷ seen) documents ≡ ok [])

  shape_step :
      (seen : List (List String)) (document : Fields) (documents : List Fields)
      → shape_loop python seen (document ∷ documents) ≡ ok []
      → Continues seen document documents
  unfolding shape_loop
  shape_step seen document documents e = go (metadata_of document) refl
    where
      named :
          (metadata : Fields)
          → metadata_of document ≡ ok metadata
          → is_name (get metadata "name") ≡ true
          → (r : Result (List String)) → resource_id python document ≡ r
          → Continues seen document documents
      named metadata p n (err x) q = ground (arith, e, p, n, q)
      named metadata p n (ok id) q =
          let step = named_step seen document documents id (ground (arith, e, p, n, q)) in
          (id, q, step.0, step.1)

      go : (m : Result Fields) → metadata_of document ≡ m → Continues seen document documents
      go (err x) p = ground (arith, e, p)
      go (ok metadata) p = elim (Bool-cases (is_name (get metadata "name"))) [
        | inl n ↦ named metadata p n (resource_id python document) refl
        | inr n ↦
            absurd
              (unnamed_step document (shape_loop python seen documents) (ground (arith, e, p, n)))
      ]

  shape_loop-HasIdentities :
      (seen : List (List String)) (documents : List Fields)
      → shape_loop python seen documents ≡ ok []
      → HasIdentities seen documents
  shape_loop-HasIdentities seen [] e = ([], refl, tt)
  shape_loop-HasIdentities seen (document ∷ documents) e =
      let (id, p, new, later) = shape_step seen document documents e in
      let (ids, q, fresh) = shape_loop-HasIdentities (id ∷ seen) documents later in
      (id ∷ ids, rw (p, q) refl, (has_seen-Mem seen id new, fresh))

  pub documents-HasIdentities :
      (documents : List Fields)
      → validate_required_shape python documents ≡ ok []
      → HasIdentities [] documents
  unfolding validate_required_shape
  documents-HasIdentities documents = shape_loop-HasIdentities [] documents

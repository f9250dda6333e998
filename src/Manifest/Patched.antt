-- ===== src/Manifest/Patched.antt =====
-- What a patch does to the documents.
use airgapped_ai_gateway_k8s.Base.{
  String, true, false, ◌≡◌, refl, ap, List, [], ◌∷◌, ◌++◌, Option, none, some, arith, Bool-cases,
  inl, inr, All,
}
use airgapped_ai_gateway_k8s.Base.Outcome.{Result, ok, err, python_error, IfOk, IfOk-bind, IfOk-eq}
use airgapped_ai_gateway_k8s.Base.Json.{Fields, get}
use airgapped_ai_gateway_k8s.Conditions.Checks.{is_text}
use airgapped_ai_gateway_k8s.Manifest.Reads.{Python, resource_id}
use airgapped_ai_gateway_k8s.Manifest.Shape.{same_texts}
use airgapped_ai_gateway_k8s.Manifest.Merge.{find_target, apply_single_patch, merge_document}

-- The document has another identity than the target.
abbrev pub IsOther : Python → List String → Fields → Type 0
IsOther python target document =
    (id : List String) × (resource_id python document ≡ ok id) × (same_texts id target ≡ false)

-- The documents are split at the first of the patch's identity, and that one alone is changed.
pub record IsPatch (python : Python) (documents : List Fields) (patch : Fields)
    (result : List Fields) : Type 0 where
  pub before : List Fields
  pub here : Fields
  pub after : List Fields
  pub split : documents ≡ before ++ (here ∷ after)
  pub target : List String
  pub identity : resource_id python patch ≡ ok target
  pub id : List String
  pub found : resource_id python here ≡ ok id
  pub same : same_texts id target ≡ true
  pub others : All (IsOther python target) before
  pub deleted : is_text (get patch "$patch") "delete" ≡ true → result ≡ before ++ after
  pub merged :
      is_text (get patch "$patch") "delete" ≡ false
      → result ≡ before ++ (merge_document python here patch ∷ after)

module _ (python : Python) where
  -- What `find_target` returns.
  Located : List String → List Fields → Option (List Fields × Fields × List Fields) → Type 0
  Located target documents none = All (IsOther python target) documents
  Located target documents (some (before, here, after)) =
      (documents ≡ before ++ (here ∷ after))
      × ((id : List String) × (resource_id python here ≡ ok id) × (same_texts id target ≡ true))
      × All (IsOther python target) before

  Located-later :
      (target : List String) (document : Fields) (documents : List Fields)
      → IsOther python target document
      → (found : Option (List Fields × Fields × List Fields)) → Located target documents found
      → Located target (document ∷ documents) (elim found [
        | none ↦ none
        | some (before, here, after) ↦ some (document ∷ before, here, after)
      ])
  unfolding Located
  Located-later target document documents o none l = (o, l)
  Located-later target document documents o (some (before, here, after)) (s, found, others) =
      (ap (λ ds. document ∷ ds) s, found, (o, others))

  find_target-Located :
      (target : List String) (documents : List Fields)
      → IfOk (Located target documents) (find_target python target documents)
  unfolding find_target Located
  find_target-Located target [] = tt
  find_target-Located target (document ∷ documents) =
      IfOk-bind (Located target (document ∷ documents)) (resource_id python document) _ λ id e.
        elim (Bool-cases (same_texts id target)) [
          | inl same ↦ rw same (refl, (id, e, same), tt)
          | inr other ↦ rw other (
              IfOk-bind (Located target (document ∷ documents))
                (find_target python target documents) _
                λ found f.
                  Located-later target document documents (id, e, other) found
                    (IfOk-eq (Located target documents) _ (find_target-Located target documents) f))
        ]

  patched_at :
      (documents : List Fields) (patch : Fields) (target : List String)
      → resource_id python patch ≡ ok target
      → (found : Option (List Fields × Fields × List Fields))
      → find_target python target documents ≡ ok found
      → IfOk (IsPatch python documents patch) (apply_single_patch python documents patch)
  unfolding apply_single_patch Located
  patched_at documents patch target e none f = ground (arith, e, f)
  patched_at documents patch target e (some (before, here, after)) f =
      let located = IfOk-eq (Located target documents) _ (find_target-Located target documents) f in
      rw (e, f)
        (record {
          before = before;
          here = here;
          after = after;
          split = located.0;
          target = target;
          identity = e;
          id = located.1.0;
          found = located.1.1;
          same = located.1.2;
          others = located.2;
          deleted = λ d. rw d refl;
          merged = λ d. rw d refl;
        })

  -- A patch that is applied changes one document, the first of the patch's identity: the document
  -- is dropped if the patch says `$patch: delete`, and is merged with the patch otherwise. The
  -- documents before it have other identities, and they and the ones after it are left as they are.
  pub apply_single_patch-IsPatch :
      (documents : List Fields) (patch : Fields) (result : List Fields)
      → apply_single_patch python documents patch ≡ ok result
      → IsPatch python documents patch result
  unfolding apply_single_patch
  apply_single_patch-IsPatch documents patch result p = go (resource_id python patch) refl
    where
      found_by :
          (target : List String)
          → resource_id python patch ≡ ok target
          → (o : Result (Option (List Fields × Fields × List Fields)))
          → find_target python target documents ≡ o
          → IsPatch python documents patch result
      found_by target e (err x) f = ground (arith, p, e, f)
      found_by target e (ok found) f =
          IfOk-eq (IsPatch python documents patch) _ (patched_at documents patch target e found f) p

      go :
          (r : Result (List String))
          → resource_id python patch ≡ r
          → IsPatch python documents patch result
      go (err x) e = ground (arith, p, e)
      go (ok target) e = found_by target e (find_target python target documents) refl

  find_target-none :
      (target : List String) (documents : List Fields)
      → All (IsOther python target) documents
      → find_target python target documents ≡ ok none
  unfolding find_target
  find_target-none target [] h = refl
  find_target-none target (document ∷ documents) ((id, e, n), h) =
      ground (arith, e, n, find_target-none target documents h)

  -- A patch whose identity no document has ends in a `ValueError`.
  pub apply_single_patch-missing :
      (documents : List Fields) (patch : Fields) (target : List String)
      → resource_id python patch ≡ ok target
      → All (IsOther python target) documents
      → apply_single_patch python documents patch ≡ err (python_error "ValueError")
  unfolding apply_single_patch
  apply_single_patch-missing documents patch target e h =
      ground (arith, e, find_target-none target documents h)

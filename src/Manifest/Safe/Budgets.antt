-- ===== src/Manifest/Safe/Budgets.antt =====
-- Deployments that are reported on by nothing: each has a budget, and none is the gateway's own.
use mathlib.Core.List.{Memᴰ}
use mathlib.Core.List.Memᴰ.{head, tail}
use airgapped_ai_gateway_k8s.Base.{
  String, Bool, true, false, ◌≡◌, refl, sym, List, [], ◌∷◌, All, All-mono, arith, Bool-cases, inl,
  inr,
}
use airgapped_ai_gateway_k8s.Base.Outcome.{
  Result, ok, err, traverse, collect, extend-eq-nil, ok-injective, IfOk, IfOk-bind, IfOk-eq,
  ◌then_extend◌,
}
use airgapped_ai_gateway_k8s.Base.Json.{
  Value, null, bool, int, real, str, arr, obj, Fields, end, get, get_or,
}
use airgapped_ai_gateway_k8s.Conditions.Checks.{is_text}
use airgapped_ai_gateway_k8s.Manifest.Reads.{
  Python, report, mapping_of, metadata_of, name_of, by_kind, same_value, is_among, in_set,
  require_hashable, hashable_name,
}
use airgapped_ai_gateway_k8s.Manifest.Consumers.{has_label}
use airgapped_ai_gateway_k8s.Manifest.Workloads.{
  deployment_messages, account_messages, default_deny_messages, validate_owned_workload_controls,
  data_plane_messages, validate_no_authored_generated_data_plane,
}
use airgapped_ai_gateway_k8s.Manifest.Safe.{within, name_of-within, All-collect, All-Mem}
use airgapped_ai_gateway_k8s.Manifest.Safe.Declared.{metadata_name}
use airgapped_ai_gateway_k8s.Manifest.Safe.Overlays.{missing-within}

-- A PodDisruptionBudget of the Deployment's name is among the documents.
pub record HasBudget (python : Python) (documents : List Fields) (deployment : Fields)
    : Type 0 where
  pub budget : Fields
  pub member : Memᴰ budget (by_kind documents "PodDisruptionBudget")
  pub same_name : same_value python (metadata_name deployment) (metadata_name budget) ≡ true

-- The Deployment is not labelled as one that the gateway's controller generates.
abbrev pub IsAuthored : Fields → Type 0
IsAuthored deployment =
    is_text (within (obj deployment) ("metadata" ∷ "labels" ∷ "app.kubernetes.io/component" ∷ []))
      "agentgateway-data-plane"
    ≡ false

-- Each result of a loop is the one of an item.
pub traverse-Mem :
    {A B : Type 0} (f : A → Result B) (xs : List A)
    → IfOk (All (λ y. (x : A) × Memᴰ x xs × (f x ≡ ok y))) (traverse f xs)
traverse-Mem f [] = tt
traverse-Mem {A = A} {B} f (x ∷ xs) =
    let P = All (λ (y : B). (z : A) × Memᴰ z (x ∷ xs) × (f z ≡ ok y)) in
    let R = λ (y : B). (z : A) × Memᴰ z xs × (f z ≡ ok y) in
    IfOk-bind P (f x) _ λ y e.
      IfOk-bind P (traverse f xs) (λ ys. ok (y ∷ ys))
        λ ys d. (
          (x, head refl, e),
          All-mono R _ (λ w h. (h.0, tail h.1, h.2)) ys (IfOk-eq (All R) _ (traverse-Mem f xs) d),
        )

pub hashable_name-within :
    (document : Fields) → IfOk (λ name. metadata_name document ≡ name) (hashable_name document)
unfolding hashable_name
hashable_name-within document =
    let P = λ (name : Value). metadata_name document ≡ name in
    IfOk-bind P (name_of document) _
      λ v a. IfOk-bind P (require_hashable v) _ λ u b. name_of-within document v a

-- A label that the test does not find is not there.
pub has_label-other :
    (metadata : Fields) (label value : String)
    → has_label metadata label value ≡ false
    → is_text (within (get metadata "labels") (label ∷ [])) value ≡ false
unfolding has_label within
has_label-other metadata label value h =
    rw (sym (missing-within metadata "labels" label)) (go (get_or metadata "labels" (obj end)) refl)
  where
    go :
        (v : Value)
        → get_or metadata "labels" (obj end) ≡ v
        → is_text (within v (label ∷ [])) value ≡ false
    go (obj labels) p = ground (arith, h, p)
    go null p = refl
    go (bool b) p = refl
    go (int n) p = refl
    go (real x) p = refl
    go (str s) p = refl
    go (arr vs) p = refl

module _ (python : Python) where
  pub is_among-Mem :
      (v : Value) (ws : List Value)
      → is_among python v ws ≡ true
      → (w : Value) × Memᴰ w ws × (same_value python v w ≡ true)
  unfolding is_among
  is_among-Mem v [] h = cc
  is_among-Mem v (w ∷ ws) h = elim (Bool-cases (same_value python v w)) [
    | inl e ↦ (w, head refl, e)
    | inr e ↦ let (u, m, s) = is_among-Mem v ws (rw e at h) in (u, tail m, s)
  ]

  pub in_set-is_among :
      (v : Value) (ws : List Value) → in_set python v ws ≡ ok true → is_among python v ws ≡ true
  unfolding in_set require_hashable
  in_set-is_among null ws h = ok-injective h
  in_set-is_among (bool b) ws h = ok-injective h
  in_set-is_among (int n) ws h = ok-injective h
  in_set-is_among (real x) ws h = ok-injective h
  in_set-is_among (str s) ws h = ok-injective h
  in_set-is_among (arr vs) ws h = cc
  in_set-is_among (obj fs) ws h = cc

  deployment_messages-budgeted :
      (budgets : List Value) (deployment : Fields) (name : Value)
      → name_of deployment ≡ ok name
      → deployment_messages python budgets deployment ≡ ok []
      → in_set python name budgets ≡ ok true
  unfolding deployment_messages report
  deployment_messages-budgeted budgets deployment name p h = go (in_set python name budgets) refl
    where
      go : (r : Result Bool) → in_set python name budgets ≡ r → in_set python name budgets ≡ ok true
      go (err e) q = ground (arith, h, p, q)
      go (ok true) q = q
      go (ok false) q = ground (arith, h, p, q)

  deployment_messages-HasBudget :
      (documents : List Fields) (budgets : List Value)
      → traverse hashable_name (by_kind documents "PodDisruptionBudget") ≡ ok budgets
      → (deployment : Fields) → deployment_messages python budgets deployment ≡ ok []
      → HasBudget python documents deployment
  unfolding deployment_messages
  deployment_messages-HasBudget documents budgets e deployment h = go (name_of deployment) refl
    where
      go : (r : Result Value) → name_of deployment ≡ r → HasBudget python documents deployment
      go (err x) p = ground (arith, h, p)
      go (ok name) p =
          let listed = by_kind documents "PodDisruptionBudget" in
          let R = λ (v : Value). (d : Fields) × Memᴰ d listed × (hashable_name d ≡ ok v) in
          let found =
            in_set-is_among name budgets
              (deployment_messages-budgeted budgets deployment name p h) in
          let (v, m, s) = is_among-Mem name budgets found in
          let (d, n, q) =
            All-Mem R v budgets m (IfOk-eq (All R) _ (traverse-Mem hashable_name listed) e) in
          record {
            budget = d;
            member = n;
            same_name =
                rw (name_of-within deployment name p, IfOk-eq _ _ (hashable_name-within d) q) s;
          }

  pub documents-HaveBudgets :
      (documents : List Fields)
      → validate_owned_workload_controls python documents ≡ ok []
      → All (HasBudget python documents) (by_kind documents "Deployment")
  unfolding validate_owned_workload_controls
  documents-HaveBudgets documents e =
      go (traverse hashable_name (by_kind documents "PodDisruptionBudget")) refl
    where
      go :
          (r : Result (List Value))
          → traverse hashable_name (by_kind documents "PodDisruptionBudget") ≡ r
          → All (HasBudget python documents) (by_kind documents "Deployment")
      go (err x) p = ground (arith, e, p)
      go (ok budgets) p =
          let hardened =
            collect (deployment_messages python budgets) (by_kind documents "Deployment") in
          let closed = collect account_messages (by_kind documents "ServiceAccount") in
          let denial = default_deny_messages (by_kind documents "NetworkPolicy") in
          let three = extend-eq-nil (hardened then_extend closed) denial (ground (arith, e, p)) in
          let two = extend-eq-nil hardened closed three.0 in
          All-collect (HasBudget python documents) (deployment_messages python budgets)
            (deployment_messages-HasBudget documents budgets p) (by_kind documents "Deployment")
            two.0

data_plane_messages-IsAuthored :
    (deployment : Fields) → data_plane_messages deployment ≡ ok [] → IsAuthored deployment
unfolding data_plane_messages metadata_of mapping_of report within
data_plane_messages-IsAuthored deployment e = go (get deployment "metadata") refl
  where
    go : (v : Value) → get deployment "metadata" ≡ v → IsAuthored deployment
    go (obj metadata) p = ground (
      arith,
      e,
      p,
      has_label-other metadata "app.kubernetes.io/component" "agentgateway-data-plane",
    )
    go null p = ground (arith, e, p)
    go (bool b) p = ground (arith, e, p)
    go (int n) p = ground (arith, e, p)
    go (real x) p = ground (arith, e, p)
    go (str s) p = ground (arith, e, p)
    go (arr vs) p = ground (arith, e, p)

pub documents-AreAuthored :
    (documents : List Fields)
    → validate_no_authored_generated_data_plane documents ≡ ok []
    → All IsAuthored (by_kind documents "Deployment")
unfolding validate_no_authored_generated_data_plane
documents-AreAuthored documents =
    All-collect IsAuthored data_plane_messages data_plane_messages-IsAuthored
      (by_kind documents "Deployment")

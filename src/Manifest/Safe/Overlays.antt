-- ===== src/Manifest/Safe/Overlays.antt =====
-- Overlays that are reported on by nothing.
use mathlib.Core.List.{Memᴰ}
use airgapped_ai_gateway_k8s.Base.{
  ◌≤◌, String, true, false, ◌≡◌, refl, List, [], ◌∷◌, Option, none, some, All, any, arith, ◌==◌,
  eq_iff, if◌then◌else◌, Bool-cases, sym, inl, inr,
}
use airgapped_ai_gateway_k8s.Base.Int.{pos, negsuc}
use airgapped_ai_gateway_k8s.Base.Outcome.{Result, ok, err, collect, first_of, extend-eq-nil}
use airgapped_ai_gateway_k8s.Base.Json.{
  Value, null, bool, int, real, str, arr, obj, Fields, end, field, get, get_or,
}
use airgapped_ai_gateway_k8s.Conditions.Checks.{is_text}
use airgapped_ai_gateway_k8s.Manifest.Reads.{
  Python, report, metadata_of, spec_of, by_kind, same_value, mapping_of, name_of,
}
use airgapped_ai_gateway_k8s.Manifest.Consumers.{has_label}
use airgapped_ai_gateway_k8s.Manifest.Workloads.{
  demo_label_messages, single_replica_messages, demo_messages, is_ratelimit, too_few, below_three,
  production_messages, validate_overlay_contract,
}
use airgapped_ai_gateway_k8s.Manifest.Safe.{within, All-collect, name_of-within, first_of-Mem}
use airgapped_ai_gateway_k8s.Manifest.Safe.Workloads.{
  IsThere, any_of-is_named, any_of-is_named-false,
}

-- The label of the demonstration, and one replica.
abbrev pub IsDemoOnly : Fields → Type 0
IsDemoOnly document =
    is_text (within (obj document) ("metadata" ∷ "labels" ∷ "ai.gateway/demo-only" ∷ [])) "true"
    ≡ true

abbrev pub HasOneReplica : Python → Fields → Type 0
HasOneReplica python deployment =
    same_value python (within (obj deployment) ("spec" ∷ "replicas" ∷ [])) (int (pos 1)) ≡ true

-- A number that is three or more; of a `float` only the comparison is known.
abbrev pub AtLeastThree : Python → Value → Type 0
AtLeastThree python (int (pos n)) = 3 ≤ n
AtLeastThree python (real x) = python.real_below x (pos 3) ≡ false
AtLeastThree python (int (negsuc n)) = ⊥
AtLeastThree python null = ⊥
AtLeastThree python (bool b) = ⊥
AtLeastThree python (str s) = ⊥
AtLeastThree python (arr vs) = ⊥
AtLeastThree python (obj fs) = ⊥

pub record IsDemo (python : Python) (documents : List Fields) : Type 0 where
  pub labelled : All IsDemoOnly documents
  pub single : All (HasOneReplica python) (by_kind documents "Deployment")

pub record IsProduction (python : Python) (documents : List Fields) : Type 0 where
  pub no_redis :
      any
        (λ (d : Fields). is_text (within (obj d) ("metadata" ∷ "name" ∷ [])) "redis")
        (by_kind documents "Deployment")
      ≡ false
  pub external_redis : IsThere (by_kind documents "Service") "external-ha-redis"
  pub ratelimit : Fields
  pub deployed : Memᴰ ratelimit (by_kind documents "Deployment")
  pub named : is_text (within (obj ratelimit) ("metadata" ∷ "name" ∷ [])) "envoy-ratelimit" ≡ true
  pub replicated : AtLeastThree python (within (obj ratelimit) ("spec" ∷ "replicas" ∷ []))

-- A missing mapping has no more keys than `null`.
pub missing-within :
    (fs : Fields) (k label : String)
    → within (get_or fs k (obj end)) (label ∷ []) ≡ within (get fs k) (label ∷ [])
unfolding within
missing-within end k label = refl
missing-within (field j v fs) k label = elim (Bool-cases (j == k)) [
  | inl same ↦ rw same refl
  | inr other ↦ rw other (missing-within fs k label)
]

has_label-within :
    (metadata : Fields) (label value : String)
    → has_label metadata label value ≡ true
    → is_text (within (get metadata "labels") (label ∷ [])) value ≡ true
unfolding has_label within
has_label-within metadata label value h =
    rw (sym (missing-within metadata "labels" label)) (go (get_or metadata "labels" (obj end)) refl)
  where
    go :
        (v : Value)
        → get_or metadata "labels" (obj end) ≡ v
        → is_text (within v (label ∷ [])) value ≡ true
    go (obj labels) p = ground (arith, h, p)
    go null p = ground (arith, h, p)
    go (bool b) p = ground (arith, h, p)
    go (int n) p = ground (arith, h, p)
    go (real x) p = ground (arith, h, p)
    go (str s) p = ground (arith, h, p)
    go (arr vs) p = ground (arith, h, p)

demo_label_messages-IsDemoOnly :
    (document : Fields) → demo_label_messages document ≡ ok [] → IsDemoOnly document
unfolding demo_label_messages metadata_of mapping_of report within
demo_label_messages-IsDemoOnly document e = go (get document "metadata") refl
  where
    go : (v : Value) → get document "metadata" ≡ v → IsDemoOnly document
    go (obj metadata) p =
        ground (arith, e, p, has_label-within metadata "ai.gateway/demo-only" "true")
    go null p = ground (arith, e, p)
    go (bool b) p = ground (arith, e, p)
    go (int n) p = ground (arith, e, p)
    go (real x) p = ground (arith, e, p)
    go (str s) p = ground (arith, e, p)
    go (arr vs) p = ground (arith, e, p)

module _ (python : Python) where
  single_replica_messages-one :
      (deployment : Fields)
      → single_replica_messages python deployment ≡ ok []
      → HasOneReplica python deployment
  unfolding single_replica_messages spec_of mapping_of report within
  single_replica_messages-one deployment e = ground (arith, e)

  documents-IsDemo :
      (documents : List Fields) → demo_messages python documents ≡ ok [] → IsDemo python documents
  unfolding demo_messages
  documents-IsDemo documents e =
      let labels = collect demo_label_messages documents in
      let replicas = collect (single_replica_messages python) (by_kind documents "Deployment") in
      let parts = extend-eq-nil labels replicas e in
      record {
        labelled =
            All-collect IsDemoOnly demo_label_messages demo_label_messages-IsDemoOnly documents
              parts.0;
        single =
            All-collect (HasOneReplica python) (single_replica_messages python)
              single_replica_messages-one _ parts.1;
      }

  below_three-AtLeastThree : (v : Value) → below_three python v ≡ ok false → AtLeastThree python v
  unfolding below_three
  below_three-AtLeastThree (int (pos n)) h = ground (arith, h)
  below_three-AtLeastThree (int (negsuc n)) h = cc
  below_three-AtLeastThree (real x) h = ground (arith, h)
  below_three-AtLeastThree null h = cc
  below_three-AtLeastThree (bool b) h = cc
  below_three-AtLeastThree (str s) h = cc
  below_three-AtLeastThree (arr vs) h = cc
  below_three-AtLeastThree (obj fs) h = cc

  -- Missing replicas are none, which are too few.
  replicas-AtLeastThree :
      (fs : Fields)
      → below_three python (get_or fs "replicas" (int (pos 0))) ≡ ok false
      → AtLeastThree python (get fs "replicas")
  unfolding below_three
  replicas-AtLeastThree end h = cc
  replicas-AtLeastThree (field j v fs) h = elim (Bool-cases (j == "replicas")) [
    | inl same ↦ rw same (below_three-AtLeastThree v (rw same at h))
    | inr other ↦ rw other (replicas-AtLeastThree fs (rw other at h))
  ]

  too_few-AtLeastThree :
      (deployment : Fields)
      → too_few python (some deployment) ≡ ok false
      → AtLeastThree python (within (obj deployment) ("spec" ∷ "replicas" ∷ []))
  unfolding too_few spec_of mapping_of within
  too_few-AtLeastThree deployment h = go (get deployment "spec") refl
    where
      go :
          (v : Value) → get deployment "spec" ≡ v → AtLeastThree python (within v ("replicas" ∷ []))
      go (obj spec) p = replicas-AtLeastThree spec (ground (arith, h, p))
      go null p = ground (arith, h, p)
      go (bool b) p = ground (arith, h, p)
      go (int n) p = ground (arith, h, p)
      go (real x) p = ground (arith, h, p)
      go (str s) p = ground (arith, h, p)
      go (arr vs) p = ground (arith, h, p)

  is_ratelimit-named :
      (deployment : Fields)
      → is_ratelimit deployment ≡ ok true
      → is_text (within (obj deployment) ("metadata" ∷ "name" ∷ [])) "envoy-ratelimit" ≡ true
  unfolding is_ratelimit
  is_ratelimit-named deployment h = go (name_of deployment) refl
    where
      go :
          (r : Result Value)
          → name_of deployment ≡ r
          → is_text (within (obj deployment) ("metadata" ∷ "name" ∷ [])) "envoy-ratelimit" ≡ true
      go (err e) p = ground (arith, h, p)
      go (ok name) p = rw (name_of-within deployment name p) (ground (arith, h, p))

  documents-IsProduction :
      (documents : List Fields)
      → production_messages python documents ≡ ok []
      → IsProduction python documents
  unfolding production_messages report
  documents-IsProduction documents e =
      go (first_of is_ratelimit (by_kind documents "Deployment")) refl
    where
      go :
          (r : Result (Option Fields))
          → first_of is_ratelimit (by_kind documents "Deployment") ≡ r
          → IsProduction python documents
      go (err x) p = ground (arith, e, p)
      go (ok none) p = ground (arith, e, p)
      go (ok (some ratelimit)) p = record {
        no_redis =
            any_of-is_named-false "redis" (by_kind documents "Deployment") (ground (arith, e, p));
        external_redis =
            any_of-is_named "external-ha-redis" (by_kind documents "Service")
              (ground (arith, e, p));
        ratelimit = ratelimit;
        deployed = (first_of-Mem is_ratelimit (by_kind documents "Deployment") ratelimit p).0;
        named =
            is_ratelimit-named ratelimit
              (first_of-Mem is_ratelimit (by_kind documents "Deployment") ratelimit p).1;
        replicated = too_few-AtLeastThree ratelimit (ground (arith, e, p));
      }

  pub documents-KeepContract :
      (documents : List Fields) (overlay : String)
      → validate_overlay_contract python documents overlay ≡ ok []
      → (overlay ≡ "kind-demo" → IsDemo python documents)
        × (overlay ≡ "production-reference" → IsProduction python documents)
  unfolding validate_overlay_contract
  documents-KeepContract documents overlay e =
      let parts =
        extend-eq-nil (if overlay == "kind-demo" then demo_messages python documents else ok [])
          (if overlay == "production-reference"
            then production_messages python documents
            else ok [])
          e in
      (
        (λ h. documents-IsDemo documents (ground (arith, parts.0, h, eq_iff overlay "kind-demo"))),
        (λ h.
            documents-IsProduction documents
              (ground (arith, parts.1, h, eq_iff overlay "production-reference"))),
      )

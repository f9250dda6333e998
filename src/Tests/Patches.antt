-- ===== src/Tests/Patches.antt =====
-- Patches of documents, and directories that refer to each other in a circle.
use airgapped_ai_gateway_k8s.Base.{
  suc, String, true, false, List, [], ◌∷◌, some, ◌≡◌, refl, ◌==◌, ◌||◌, length, if◌then◌else◌,
  contains, arith,
}
use airgapped_ai_gateway_k8s.Base.Int.{pos}
use airgapped_ai_gateway_k8s.Base.Outcome.{ok, err, python_error}
use airgapped_ai_gateway_k8s.Base.Json.{
  Value, int, str, to_list, Items, nil, item, Fields, end, field, get,
}
use airgapped_ai_gateway_k8s.Manifest.Reads.{resource_id, same_value}
use airgapped_ai_gateway_k8s.Manifest.Shape.{same_texts}
use airgapped_ai_gateway_k8s.Manifest.Merge.{
  item_name, merge_at, merge_fields, merge_items, apply_single_patch, merge_document,
}
use airgapped_ai_gateway_k8s.Manifest.Patched.{
  IsPatch, apply_single_patch-IsPatch, apply_single_patch-missing,
}
use airgapped_ai_gateway_k8s.Manifest.Kustomize.{Tree, build_kustomization}
use airgapped_ai_gateway_k8s.Manifest.Terminates.{Ends, build_kustomization-Ends}
use airgapped_ai_gateway_k8s.Tests.Manifests.{python, one, many}

abbrev app : Fields → Fields
app rest =
    field "apiVersion" (str "v1")
      (field "kind" (str "Deployment") (field "metadata" (one "name" (str "app")) rest))

abbrev plain : Fields
plain = app (field "spec" (one "replicas" (int (pos 1))) end)

abbrev scaled : Fields
scaled = app (field "spec" (one "replicas" (int (pos 3))) end)

abbrev other : Fields
other =
    field "apiVersion" (str "v1")
      (field "kind" (str "Service") (field "metadata" (one "name" (str "app")) end))

spec_merged : get (merge_fields python plain scaled) "spec" ≡ one "replicas" (int (pos 3))
unfolding merge_fields
spec_merged = refl

abbrev named_item : String → Value
named_item name = one "name" (str name)

abbrev named_items : Items
named_items = item (named_item "a") (item (named_item "b") nil)

abbrev patch_items : Items
patch_items = item (named_item "b") (item (named_item "c") nil)

-- The first of the two is left as it is, the second is merged, and the third is added.
items_merged :
    to_list (merge_items python patch_items named_items patch_items)
    ≡ named_item "a" ∷ named_item "b" ∷ named_item "c" ∷ []
unfolding merge_items item_name merge_at same_value
items_merged = refl

applied :
    apply_single_patch python (other ∷ plain ∷ []) scaled
    ≡ ok (other ∷ merge_document python plain scaled ∷ [])
unfolding apply_single_patch
applied = refl

apply_single_patch-IsPatch_example :
    IsPatch python (other ∷ plain ∷ []) scaled (other ∷ merge_document python plain scaled ∷ [])
apply_single_patch-IsPatch_example =
    apply_single_patch-IsPatch python (other ∷ plain ∷ []) scaled
      (other ∷ merge_document python plain scaled ∷ []) applied

app_id : resource_id python scaled ≡ ok ("v1" ∷ "Deployment" ∷ "default" ∷ "app" ∷ [])
unfolding resource_id
app_id = refl

other_id : resource_id python other ≡ ok ("v1" ∷ "Service" ∷ "default" ∷ "app" ∷ [])
unfolding resource_id
other_id = refl

different :
    same_texts
      ("v1" ∷ "Service" ∷ "default" ∷ "app" ∷ [])
      ("v1" ∷ "Deployment" ∷ "default" ∷ "app" ∷ [])
    ≡ false
unfolding same_texts
different = refl

apply_single_patch-missing_example :
    apply_single_patch python (other ∷ []) scaled ≡ err (python_error "ValueError")
apply_single_patch-missing_example =
    apply_single_patch-missing python (other ∷ []) scaled
      ("v1" ∷ "Deployment" ∷ "default" ∷ "app" ∷ []) app_id
      (("v1" ∷ "Service" ∷ "default" ∷ "app" ∷ [], other_id, different), tt)

-- Two directories, each a resource of the other.
abbrev circle : Tree
circle = record {
  child = λ path name. if name == "kustomization.yaml" then path else name;
  is_dir = λ path. path == "a" || path == "b";
  safe_load_all = λ path. ok (one "resources" (many (str (if path == "a" then "b" else "a"))) ∷ []);
}

circle_found : build_kustomization python circle 3 [] "a" ≡ some (err (python_error "ValueError"))
unfolding build_kustomization
circle_found = refl

abbrev directories : List String
directories = "a" ∷ "b" ∷ []

all_found : (p : String) → circle.is_dir p ≡ true → contains directories p ≡ true
all_found p h = ground (arith, h)

build_kustomization-Ends_example :
    Ends (build_kustomization python circle (suc (length directories)) [] "a")
build_kustomization-Ends_example =
    build_kustomization-Ends python circle directories all_found "a" refl

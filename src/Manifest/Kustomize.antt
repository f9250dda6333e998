-- ===== src/Manifest/Kustomize.antt =====
-- `_build_kustomization` of manifest.py: the resources of a directory, its labels and its patches.
use airgapped_ai_gateway_k8s.Base.{
  ℕ, zero, suc, String, Bool, true, false, List, [], ◌∷◌, ◌++◌, Option, none, some, contains, keep,
  if◌then◌else◌,
}
use airgapped_ai_gateway_k8s.Base.Outcome.{Result, ok, err, python_error, traverse, ◌>>=◌}
use airgapped_ai_gateway_k8s.Base.Json.{
  Value, null, str, arr, obj, nil, Fields, end, field, get, get_or, put, as_dict,
}
use airgapped_ai_gateway_k8s.Configuration.Load.{update}
use airgapped_ai_gateway_k8s.Manifest.Reads.{
  Python, mapping_of, sequence_of, string_of, metadata_of, text_of,
}
use airgapped_ai_gateway_k8s.Manifest.Merge.{apply_single_patch}

-- What the code asks of files: `path / name`, resolved, whether a path is a directory, and what
-- `yaml.safe_load_all` gives for a file.
pub record Tree : Type 0 where
  pub child : String → String → String
  pub is_dir : String → Bool
  pub safe_load_all : String → Result (List Value)

unfoldable pub is_present : Value → Bool
is_present null = false
is_present _ = true

module _ (tree : Tree) where
  unfoldable pub load_yaml_documents : String → Result (List Fields)
  unfolding is_present mapping_of
  load_yaml_documents path =
      tree.safe_load_all path >>= λ loaded. traverse mapping_of (keep is_present loaded)

  unfoldable pub load_single_yaml : String → Result Fields
  unfolding load_yaml_documents
  load_single_yaml path = load_yaml_documents path >>= λ documents. elim documents [
    | [] ↦ err (python_error "ValueError")
    | document ∷ more ↦ elim more [
      | [] ↦ ok document
      | other ∷ others ↦ err (python_error "ValueError")
    ]
  ]

-- `pairs[str(key)] = str(value)` for the items of a mapping
unfoldable pub add_pairs : Python → Fields → Fields → Fields
unfolding text_of
add_pairs python pairs end = pairs
add_pairs python pairs (field key value fs) =
    add_pairs python (put pairs key (str (text_of python value))) fs

unfoldable pub label_pairs : Python → Fields → List Value → Result Fields
unfolding mapping_of add_pairs
label_pairs python pairs [] = ok pairs
label_pairs python pairs (value ∷ values) = do
  spec ← mapping_of value
  given ← mapping_of (get spec "pairs")
  label_pairs python (add_pairs python pairs given) values

unfoldable pub all_pairs : Python → Fields → Result Fields
unfolding sequence_of label_pairs mapping_of add_pairs
all_pairs python kustomization = do
  labels ← sequence_of (get_or kustomization "labels" (arr nil))
  pairs ← label_pairs python end labels
  common ← mapping_of (get_or kustomization "commonLabels" (obj end))
  ok (add_pairs python pairs common)

-- The labels that are there: a missing or malformed value counts as none.
unfoldable pub labels_of : Fields → Fields
labels_of metadata = elim (as_dict (get_or metadata "labels" (obj end))) [
  | none ↦ end
  | some labels ↦ labels
]

unfoldable pub label_document : Fields → Fields → Result Fields
unfolding metadata_of labels_of update
label_document pairs document = do
  metadata ← metadata_of document
  ok (
      put document "metadata"
        (obj (put metadata "labels" (obj (update (labels_of metadata) pairs)))))

unfoldable pub label_documents : Fields → List Fields → Result (List Fields)
unfolding label_document
label_documents end documents = ok documents
label_documents (field key value pairs) documents =
    traverse (label_document (field key value pairs)) documents

unfoldable pub apply_labels : Python → Fields → List Fields → Result (List Fields)
unfolding all_pairs label_documents
apply_labels python kustomization documents =
    all_pairs python kustomization >>= λ pairs. label_documents pairs documents

unfoldable pub apply_each : Python → List Fields → List Fields → Result (List Fields)
unfolding apply_single_patch
apply_each python documents [] = ok documents
apply_each python documents (patch ∷ patches) =
    apply_single_patch python documents patch >>= λ patched. apply_each python patched patches

-- The name of a patch file: the item itself, or its `path`.
unfoldable pub patch_name : Value → Result String
unfolding mapping_of string_of
patch_name (str s) = ok s
patch_name value = mapping_of value >>= λ fs. string_of (get fs "path")

module _ (python : Python) (tree : Tree) where
  unfoldable pub apply_files : String → List Fields → List Value → Result (List Fields)
  unfolding patch_name load_yaml_documents apply_each
  apply_files path documents [] = ok documents
  apply_files path documents (value ∷ values) = do
    name ← patch_name value
    patches ← load_yaml_documents tree (tree.child path name)
    patched ← apply_each python documents patches
    apply_files path patched values

  unfoldable pub apply_patches : String → Fields → List Fields → Result (List Fields)
  unfolding sequence_of apply_files
  apply_patches path kustomization documents =
      sequence_of (get_or kustomization "patches" (arr nil)) >>= λ values.
      apply_files path documents values

-- A build that may run out of fuel: what it returns or raises, if it does.
abbrev pub Build : Type 0
Build = Option (Result (List Fields))

abbrev pub after_build : Build → (List Fields → Build) → Build
after_build none next = none
after_build (some (err e)) next = some (err e)
after_build (some (ok documents)) next = next documents

abbrev pub after_result {ℓ} : {A : Type ℓ} → Result A → (A → Build) → Build
after_result (err e) next = some (err e)
after_result (ok a) next = next a

module _ (python : Python) (tree : Tree) where
  -- One resource: a directory is built, and a file is read.
  unfoldable pub build_resource : (String → Build) → String → Value → Build
  unfolding string_of load_yaml_documents
  build_resource recurse path value = after_result (string_of value) λ name.
      let inside = recurse (tree.child path name) in
      if tree.is_dir (tree.child path name)
      then inside
      else some (load_yaml_documents tree (tree.child path name))

  unfoldable pub build_resources : (String → Build) → String → List Value → Build
  unfolding build_resource
  build_resources recurse path [] = some (ok [])
  build_resources recurse path (value ∷ values) =
      let rest = build_resources recurse path values in
      after_build (build_resource recurse path value)
        λ documents. after_build rest λ more. some (ok (documents ++ more))

  unfoldable pub build_directory : (String → Build) → String → Build
  unfolding load_single_yaml sequence_of build_resources apply_labels apply_patches
  build_directory recurse path =
      after_result (load_single_yaml tree (tree.child path "kustomization.yaml")) λ kustomization.
        after_result (sequence_of (get_or kustomization "resources" (arr nil))) λ values.
          after_build (build_resources recurse path values) λ documents. some (
            apply_labels python kustomization documents >>= λ labelled.
            apply_patches python tree path kustomization labelled)

  -- `seen` are the directories that are being built. The fuel bounds their number.
  unfoldable pub build_kustomization : ℕ → List String → String → Build
  unfolding build_directory
  build_kustomization zero seen path = none
  build_kustomization (suc fuel) seen path =
      let built = build_directory (build_kustomization fuel (path ∷ seen)) path in
      if contains seen path then some (err (python_error "ValueError")) else built

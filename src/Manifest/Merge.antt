-- ===== src/Manifest/Merge.antt =====
-- Patches of manifest.py: `_deep_merge`, `_merge_lists` and `_apply_single_patch`.
use airgapped_ai_gateway_k8s.Base.{
  String, Bool, true, false, ◌&&◌, List, [], ◌∷◌, ◌++◌, Option, none, some, ◌==◌, if◌then◌else◌,
}
use airgapped_ai_gateway_k8s.Base.Outcome.{Result, ok, err, python_error, ◌>>=◌}
use airgapped_ai_gateway_k8s.Base.Json.{
  Value, arr, obj, Items, nil, item, Fields, end, field, get, put, lookup,
}
use airgapped_ai_gateway_k8s.Conditions.Checks.{is_text}
use airgapped_ai_gateway_k8s.Manifest.Reads.{Python, same_value, resource_id}
use airgapped_ai_gateway_k8s.Manifest.Shape.{same_texts}

-- All keys of the first mapping are keys of the second.
unfoldable pub keys_within : Fields → Fields → Bool
keys_within end gs = true
keys_within (field k v fs) gs =
    let rest = keys_within fs gs in elim (lookup gs k) [ none ↦ false | some w ↦ rest ]

module _ (python : Python) where
  unfoldable mutual
    -- a == b
    pub equal : Value → Value → Bool
    equal (arr vs) (arr ws) = equal_items vs ws
    equal (obj fs) (obj gs) = equal_fields fs gs && keys_within gs fs
    equal v w = same_value python v w

    pub equal_items : Items → Items → Bool
    equal_items nil nil = true
    equal_items (item v vs) (item w ws) = equal v w && equal_items vs ws
    equal_items _ _ = false

    -- Each field of the first mapping is in the second, with an equal value.
    pub equal_fields : Fields → Fields → Bool
    equal_fields end gs = true
    equal_fields (field k v fs) gs =
        (elim (lookup gs k) as (λ o. Bool) [ none ↦ false | some w ↦ equal v w ])
        && equal_fields fs gs

  -- isinstance(base_item, dict) and base_item.get("name") == name
  unfoldable pub has_name : Value → Value → Bool
  unfolding equal
  has_name name (obj fs) = equal (get fs "name") name
  has_name name _ = false

  -- The first item of that name is merged, or the patch's item goes to the end.
  unfoldable pub merge_at : Value → Value → (Value → Value) → Items → Items
  unfolding has_name
  merge_at name patch_item merge nil = item patch_item nil
  merge_at name patch_item merge (item v vs) =
      let rest = merge_at name patch_item merge vs in
      if has_name name v then item (merge v) vs else item v rest

  -- patch_item["name"], if the item is a mapping that has it
  unfoldable pub item_name : Value → Option Value
  item_name (obj fs) = lookup fs "name"
  item_name _ = none

  unfoldable mutual
    pub deep_merge : Value → Value → Value
    deep_merge (obj base) (obj patch) = obj (merge_fields base patch)
    deep_merge (arr base) (arr patch) = arr (merge_items patch base patch)
    deep_merge base patch = patch

    pub merge_fields : Fields → Fields → Fields
    merge_fields merged end = merged
    merge_fields merged (field k v patch) =
        merge_fields (if k == "$patch" then merged else put merged k (deep_merge (get merged k) v))
          patch

    -- `whole` is the list of the patch, which replaces the base at an item without a name.
    pub merge_items : Items → Items → Items → Items
    merge_items whole merged nil = merged
    merge_items whole merged (item p patch) = elim (item_name p) [
      | none ↦ whole
      | some name ↦ merge_items whole (merge_at name p (λ v. deep_merge v p) merged) patch
    ]

  unfoldable pub merge_document : Fields → Fields → Fields
  unfolding deep_merge
  merge_document document patch = merge_fields document patch

  -- The documents before the first of this identity, that document and the ones after it.
  unfoldable pub find_target :
      List String → List Fields → Result (Option (List Fields × Fields × List Fields))
  unfolding resource_id same_texts
  find_target target [] = ok none
  find_target target (document ∷ documents) =
      let later = find_target target documents in
      resource_id python document >>= λ id.
      if same_texts id target
      then ok (some ([], document, documents))
      else (later >>= λ found. ok (elim found [
        | none ↦ none
        | some (before, here, after) ↦ some (document ∷ before, here, after)
      ]))

  unfoldable pub apply_single_patch : List Fields → Fields → Result (List Fields)
  unfolding resource_id find_target merge_document
  apply_single_patch documents patch = do
    target ← resource_id python patch
    found ← find_target target documents
    elim found [
      | none ↦ err (python_error "ValueError")
      | some (before, here, after) ↦ ok (
          before
          ++ (if is_text (get patch "$patch") "delete"
              then after
              else merge_document here patch ∷ after))
    ]

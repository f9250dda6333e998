-- ===== src/Manifest/Merged.antt =====
-- What a merge makes of the fields of mappings.
pub mod Items
use airgapped_ai_gateway_k8s.Base.{
  String, true, false, ◌≡◌, refl, Option, none, some, ◌==◌, arith, Bool-cases, inl, inr,
}
use airgapped_ai_gateway_k8s.Base.Json.{Value, Fields, end, field, get, put, lookup, get-put_ne}
use airgapped_ai_gateway_k8s.Manifest.Reads.{Python}
use airgapped_ai_gateway_k8s.Manifest.Merge.{deep_merge, merge_fields}

-- No key occurs twice.
abbrev pub DistinctKeys : Fields → Type 0
DistinctKeys end = Unit
DistinctKeys (field k v fs) = (lookup fs k ≡ none) × DistinctKeys fs

-- The value of a key with what a patch says of it.
abbrev pub patched : Python → Value → Option Value → Value
patched python v none = v
patched python v (some w) = deep_merge python v w

module _ (python : Python) where
  -- One step of the loop over the fields of a patch.
  merge_key :
      (merged patch : Fields) (j : String) (v : Value)
      → (j == "$patch") ≡ false
      → merge_fields python merged (field j v patch)
        ≡ merge_fields python (put merged j (deep_merge python (get merged j) v)) patch
  unfolding merge_fields deep_merge
  merge_key merged patch j v h = rw h refl

  merge_directive :
      (merged patch : Fields) (j : String) (v : Value)
      → (j == "$patch") ≡ true
      → merge_fields python merged (field j v patch) ≡ merge_fields python merged patch
  unfolding merge_fields
  merge_directive merged patch j v h = rw h refl

  merge_end : (merged : Fields) → merge_fields python merged end ≡ merged
  unfolding merge_fields
  merge_end merged = refl

  unpatched :
      (merged patch : Fields) (k : String)
      → lookup patch k ≡ none
      → get (merge_fields python merged patch) k ≡ get merged k
  unpatched merged end k h = rw (merge_end merged) refl
  unpatched merged (field j v patch) k h =
      let value = deep_merge python (get merged j) v in
      elim (Bool-cases (j == "$patch")) [
        | inl directive ↦
            ground (arith, h, merge_directive merged patch j v directive, unpatched merged patch k)
        | inr key ↦ ground (
          arith,
          h,
          merge_key merged patch j v key,
          unpatched (put merged j value) patch k,
          get-put_ne merged j k value,
        )
      ]

-- ===== src/Manifest/Merged/Items.antt =====
-- What `_merge_lists` makes of a list.
use mathlib.Core.List.{Memᴰ}
use airgapped_ai_gateway_k8s.Base.{true, ◌≡◌, List, [], ◌∷◌, ◌++◌, ◌⊎◌, none, some, All}
use airgapped_ai_gateway_k8s.Base.Json.{Value, obj, Items, to_list, Fields, get, lookup}
use airgapped_ai_gateway_k8s.Manifest.Reads.{Python}
use airgapped_ai_gateway_k8s.Manifest.Merge.{equal, deep_merge}

-- The item is a mapping with this value as its `name`.
abbrev pub AnswersTo : Python → Value → Value → Type 0
AnswersTo python name v = (fs : Fields) × (v ≡ obj fs) × (equal python (get fs "name") name ≡ true)

-- The item of a patch is put in: merged into the first item that answers to its name, in its place,
-- or else added at the end.
pub data IsPlaced (python : Python) (name patch_item : Value)
    : List Value → List Value → Type 0 where
  merged_in :
      (before : List Value) (here : Value) (after : List Value)
      → All (λ v. ¬ AnswersTo python name v) before
      → AnswersTo python name here
      → IsPlaced python name patch_item
          (before ++ (here ∷ after))
          (before ++ (deep_merge python here patch_item ∷ after))
  added :
      (base : List Value)
      → All (λ v. ¬ AnswersTo python name v) base
      → IsPlaced python name patch_item base (base ++ (patch_item ∷ []))

-- The items of the patch, each a mapping with a name, are put in one after the other.
pub data ArePlaced (python : Python) : List Value → List Value → List Value → Type 0 where
  no_more : {base : List Value} → ArePlaced python [] base base
  one_more :
      {fs : Fields} {name : Value} {patch base next result : List Value}
      → lookup fs "name" ≡ some name
      → IsPlaced python name (obj fs) base next
      → ArePlaced python patch next result
      → ArePlaced python (obj fs ∷ patch) base result

-- An item that is no mapping, or one without a name.
abbrev pub IsNameless : Value → Type 0
IsNameless v = (fs : Fields) → v ≡ obj fs → lookup fs "name" ≡ none

module _ (python : Python) where
  -- Either all items are put in, or one is nameless and `whole` replaces the list.
  Outcome : Items → Items → Items → Items → Type 0
  Outcome whole base patch result =
      ArePlaced python (to_list patch) (to_list base) (to_list result)
      ⊎ ((p : Value) × Memᴰ p (to_list patch) × IsNameless p × (result ≡ whole))

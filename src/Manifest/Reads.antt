-- ===== src/Manifest/Reads.antt =====
-- The readers at the end of manifest.py, and what they use of Python's values.
use airgapped_ai_gateway_k8s.Base.{
  suc, String, Bool, true, false, not, List, [], ◌∷◌, none, some, ◌<>◌, ◌==◌, if◌then◌else◌,
  contains, keep,
}
use airgapped_ai_gateway_k8s.Base.Int.{ℤ, pos, negsuc, int_eq}
use airgapped_ai_gateway_k8s.Base.Outcome.{
  Result, ok, err, python_error, require_some, traverse, collect, ◌>>=◌, ◌>>◌,
}
use airgapped_ai_gateway_k8s.Base.Json.{
  Value, null, bool, int, real, str, arr, obj, Fields, get, get_or, lookup, as_dict, as_list,
}
use airgapped_ai_gateway_k8s.Conditions.Checks.{is_text}
use airgapped_ai_gateway_k8s.Ledger.Ref.{cluster_scoped_kinds}
use airgapped_ai_gateway_k8s.Planning.Text.{decimal}

-- What is not read here: whether a `float` is the same as another, equals an integer or is below
-- it, the text of a list or mapping, and the YAML text of documents.
pub record Python : Type 0 where
  pub real_same : String → String → Bool
  pub real_equals : String → ℤ → Bool
  pub real_below : String → ℤ → Bool
  pub display : Value → String
  pub safe_dump : Fields → String
  pub safe_dump_all : List Fields → String

-- An entry of the list of errors: its text, and the values that are formatted into it.
pub record Message : Type 0 where
  pub text : String
  pub values : List Value

-- if test: errors.append(message)
unfoldable pub report : Bool → String → List Value → List Message
report true text values = record { text = text; values = values } ∷ []
report false text values = []

unfoldable pub mapping_of : Value → Result Fields
mapping_of value = require_some (as_dict value) (python_error "ValueError")

unfoldable pub sequence_of : Value → Result (List Value)
sequence_of value = require_some (as_list value) (python_error "ValueError")

unfoldable pub string_of : Value → Result String
string_of (str s) = if s == "" then err (python_error "ValueError") else ok s
string_of _ = err (python_error "ValueError")

-- d[k]
unfoldable pub entry : Fields → String → Result Value
entry fs k = require_some (lookup fs k) (python_error "KeyError")

-- k in d
unfoldable pub has_key : Fields → String → Bool
has_key fs k = elim (lookup fs k) [ none ↦ false | some v ↦ true ]

unfoldable pub metadata_of : Fields → Result Fields
unfolding mapping_of
metadata_of document = mapping_of (get document "metadata")

-- _metadata(item)["name"]
unfoldable pub name_of : Fields → Result Value
unfolding metadata_of entry
name_of document = metadata_of document >>= λ metadata. entry metadata "name"

unfoldable pub spec_of : Fields → Result Fields
unfolding mapping_of
spec_of document = mapping_of (get document "spec")

unfoldable pub by_kind : List Fields → String → List Fields
by_kind documents kind = keep (λ (d : Fields). is_text (get d "kind") kind) documents

-- str(value)
unfoldable pub text_of : Python → Value → String
unfolding decimal
text_of python null = "None"
text_of python (bool true) = "True"
text_of python (bool false) = "False"
text_of python (int (pos n)) = decimal n
text_of python (int (negsuc n)) = "-" <> decimal (suc n)
text_of python (real x) = x
text_of python (str s) = s
text_of python (arr vs) = python.display (arr vs)
text_of python (obj fs) = python.display (obj fs)

-- a == b, where `a` is no list and no mapping
unfoldable pub same_value : Python → Value → Value → Bool
same_value python null null = true
same_value python (str s) (str t) = s == t
same_value python (int m) (int n) = int_eq m n
same_value python (int m) (bool b) = int_eq m (if b then pos 1 else pos 0)
same_value python (bool b) (int n) = int_eq (if b then pos 1 else pos 0) n
same_value python (bool true) (bool c) = c
same_value python (bool false) (bool c) = not c
same_value python (real x) (real y) = python.real_same x y
same_value python (real x) (int n) = python.real_equals x n
same_value python (int n) (real x) = python.real_equals x n
same_value python (real x) (bool b) = python.real_equals x (if b then pos 1 else pos 0)
same_value python (bool b) (real x) = python.real_equals x (if b then pos 1 else pos 0)
same_value python _ _ = false

-- hash(value), which lists and mappings do not have
unfoldable pub require_hashable : Value → Result (Unit {0})
require_hashable (arr vs) = err (python_error "TypeError")
require_hashable (obj fs) = err (python_error "TypeError")
require_hashable _ = ok tt

unfoldable pub is_among : Python → Value → List Value → Bool
unfolding same_value
is_among python v [] = false
is_among python v (w ∷ ws) =
    let rest = is_among python v ws in if same_value python v w then true else rest

-- value in set
unfoldable pub in_set : Python → Value → List Value → Result Bool
unfolding require_hashable is_among
in_set python v vs = require_hashable v >>= λ _. ok (is_among python v vs)

-- One item of the set of the documents' names.
unfoldable pub hashable_name : Fields → Result Value
unfolding name_of require_hashable
hashable_name document = do name ← name_of document; require_hashable name; ok name

-- The identity of a resource: version, kind, namespace and name.
unfoldable pub resource_id : Python → Fields → Result (List String)
unfolding metadata_of string_of text_of
resource_id python document = do
  metadata ← metadata_of document
  kind ← string_of (get document "kind")
  api_version ← string_of (get document "apiVersion")
  name ← string_of (get metadata "name")
  ok (
      api_version
      ∷ kind
      ∷ (if contains cluster_scoped_kinds kind
          then ""
          else text_of python (get_or metadata "namespace" (str "default")))
      ∷ name
      ∷ [])

unfoldable pub backend_refs_of : Value → Result (List Fields)
unfolding mapping_of sequence_of
backend_refs_of rule = do
  fields ← mapping_of rule
  refs ← sequence_of (get fields "backendRefs")
  traverse mapping_of refs

unfoldable pub route_backend_refs : Fields → Result (List Fields)
unfolding spec_of sequence_of backend_refs_of
route_backend_refs route = do
  spec ← spec_of route
  rules ← sequence_of (get spec "rules")
  collect backend_refs_of rules

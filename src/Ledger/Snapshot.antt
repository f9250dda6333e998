-- ===== src/Ledger/Snapshot.antt =====
-- `PreChangeSnapshot` of ledger.py: the resources that were there before a change.
use airgapped_ai_gateway_k8s.Base.{
  String, Bool, List, [], ◌∷◌, Option, none, some, ◌==◌, if◌then◌else◌,
}
use airgapped_ai_gateway_k8s.Base.Order.{str_lt, sorted}
use airgapped_ai_gateway_k8s.Base.Outcome.{Result, ok, err, execution_error, ◌>>=◌}
use airgapped_ai_gateway_k8s.Base.Json.{
  Value, null, str, obj, Fields, end, field, get, get_or, as_dict,
}
use airgapped_ai_gateway_k8s.Ledger.Ref.{text, required_string}

-- The `dict` of resources by identity, in the order of insertion.
abbrev pub Resources : Type 0
Resources = List (String × Fields)

pub record PreChangeSnapshot : Type 0 where
  pub status : String
  pub resources : Resources
  pub error : Option String

-- resources.get(identity)
unfoldable pub find_resource : String → Resources → Option Fields
find_resource identity [] = none
find_resource identity ((key, manifest) ∷ rest) =
    if key == identity then some manifest else find_resource identity rest

unfoldable pub empty_ok : PreChangeSnapshot
empty_ok = record { status = "ok"; resources = []; error = none }

-- The loop over `resources_payload.items()`; the keys of a JSON object are texts.
unfoldable pub read_resources : Fields → Result Resources
read_resources end = ok []
read_resources (field key value rest) = elim (as_dict value) [
  | none ↦ err (execution_error "snapshot resource entries must map identity strings to objects")
  | some manifest ↦ do resources ← read_resources rest; ok ((key, manifest) ∷ resources)
]

abbrev pub optional_text : Value → Result (Option String)
optional_text null = ok none
optional_text value = do s ← text value; ok (some s)

unfoldable pub from_dict : Fields → Result PreChangeSnapshot
unfolding read_resources required_string
from_dict payload = elim (as_dict (get_or payload "resources" (obj end))) [
  | none ↦ err (execution_error "snapshot resources must be an object keyed by resource identity")
  | some resources_payload ↦ do
    resources ← read_resources resources_payload
    status ← required_string payload "status"
    error ← optional_text (get payload "error")
    ok (record { status = status; resources = resources; error = error })
]

-- What `json.load` gives for the path, if it exists.
unfoldable pub from_file : Option Value → Result PreChangeSnapshot
unfolding from_dict
from_file none = err (execution_error "pre-change snapshot does not exist")
from_file (some payload) = elim (as_dict payload) [
  | none ↦ err (execution_error "pre-change snapshot must be a JSON object")
  | some fs ↦ from_dict fs
]

unfoldable pub require_ok : PreChangeSnapshot → Result (Unit {0})
require_ok s =
    if s.status == "ok" then ok tt else err (execution_error "pre-change snapshot is not usable")

abbrev pub write_resources : Resources → Fields
write_resources [] = end
write_resources ((key, manifest) ∷ rest) = field key (obj manifest) (write_resources rest)

-- The order of the items of a `dict`, whose keys differ.
abbrev pub key_lt : (String × Fields) → (String × Fields) → Bool
key_lt (a, _) (b, _) = str_lt a b

abbrev pub text_or_null : Option String → Value
text_or_null none = null
text_or_null (some s) = str s

unfoldable pub to_dict : PreChangeSnapshot → Fields
to_dict s = field "error" (text_or_null s.error) (
    field "resources" (obj (write_resources (sorted key_lt s.resources)))
      (field "status" (str s.status) end))

-- ===== src/Planning/Action.antt =====
-- `PlanAction` of planning.py, and the helpers that read JSON there.
use airgapped_ai_gateway_k8s.Base.{
  String, Bool, false, List, Option, none, some, ◌==◌, if◌then◌else◌,
}
use airgapped_ai_gateway_k8s.Base.Outcome.{Result, ok, err, execution_error, ◌>>=◌, require_some}
use airgapped_ai_gateway_k8s.Base.Json.{
  Value, null, bool, str, arr, obj, nil, Fields, end, field, get, get_or, as_dict, as_strs, to_list,
  strs,
}
use airgapped_ai_gateway_k8s.Ledger.Ref
use airgapped_ai_gateway_k8s.Ledger.Ref.{ResourceRef}

pub record PlanAction : Type 0 where
  pub id : String
  pub kind : String
  pub description : String
  pub command : List String
  pub mutating : Bool
  pub resource : Option ResourceRef
  pub payload : Option Fields
  pub sensitive_output : Bool

-- _required_string of planning.py, which refuses the empty text
unfoldable pub required_string : Fields → String → Result String
required_string payload key = elim (get payload key) [
  | str s ↦ if s == "" then err (execution_error "must be a non-empty string") else ok s
  | _ ↦ err (execution_error "must be a non-empty string")
]

-- _bool
unfoldable pub required_bool : Value → Result Bool
required_bool (bool b) = ok b
required_bool _ = err (execution_error "must be a boolean")

-- A list of texts, or the error.
unfoldable pub required_texts : Value → String → Result (List String)
required_texts (arr vs) what = require_some (as_strs (to_list vs)) (execution_error what)
required_texts _ what = err (execution_error what)

unfoldable pub optional_ref : Value → Result (Option ResourceRef)
unfolding Ref.from_dict
optional_ref (obj fs) = do ref ← Ref.from_dict fs; ok (some ref)
optional_ref _ = ok none

unfoldable pub from_dict : Fields → Result PlanAction
unfolding required_string required_bool required_texts optional_ref
from_dict payload = do
  resource ← optional_ref (get payload "resource")
  command ←
      required_texts (get_or payload "command" (arr nil))
        "plan action command must be a list of strings"
  id ← required_string payload "id"
  kind ← required_string payload "kind"
  description ← required_string payload "description"
  mutating ← required_bool (get_or payload "mutating" (bool false))
  sensitive_output ← required_bool (get_or payload "sensitive_output" (bool false))
  ok (record {
    id = id;
    kind = kind;
    description = description;
    command = command;
    mutating = mutating;
    resource = resource;
    payload = as_dict (get payload "payload");
    sensitive_output = sensitive_output;
  })

-- `self.payload or {}`
abbrev pub payload_or_empty : Option Fields → Fields
payload_or_empty none = end
payload_or_empty (some fs) = fs

abbrev pub ref_or_null : Option ResourceRef → Value
ref_or_null none = null
ref_or_null (some r) = obj (Ref.to_dict r)

unfoldable pub to_dict : PlanAction → Fields
to_dict a = field "command" (strs a.command) (
    field "description" (str a.description) (
      field "id" (str a.id) (
        field "kind" (str a.kind) (
          field "mutating" (bool a.mutating) (
            field "payload" (obj (payload_or_empty a.payload)) (
              field "resource" (ref_or_null a.resource)
                (field "sensitive_output" (bool a.sensitive_output) end)))))))

-- ===== src/Ledger/Entry.antt =====
-- `LedgerState` and `LedgerEntry` of ledger.py.
use airgapped_ai_gateway_k8s.Base.{String, Option, none, some, ◌==◌, if◌then◌else◌}
use airgapped_ai_gateway_k8s.Base.Outcome.{Result, ok, err, execution_error, python_error, ◌>>=◌}
use airgapped_ai_gateway_k8s.Base.Json.{Value, null, str, obj, Fields, end, field, get, as_dict}
use airgapped_ai_gateway_k8s.Ledger.Ref
use airgapped_ai_gateway_k8s.Ledger.Ref.{ResourceRef, required_string}

pub data LedgerState : Type 0 where
  created updated pre_existing : LedgerState

-- The `value` of the enumeration's member.
abbrev pub state_value : LedgerState → String
state_value created = "created"
state_value updated = "updated"
state_value pre_existing = "pre-existing"

-- LedgerState(value), a `ValueError` for any other text
unfoldable pub parse_state : String → Result LedgerState
parse_state s =
    if s == "created"
    then ok created
    else if s == "updated"
    then ok updated
    else if s == "pre-existing"
    then ok pre_existing
    else err (python_error "not a valid LedgerState")

-- A `Manifest` is the `dict` of a rendered or captured resource.
pub record LedgerEntry : Type 0 where
  pub ref : ResourceRef
  pub state : LedgerState
  pub run_id : String
  pub before : Option Fields
  pub after : Option Fields

unfoldable pub from_dict : Fields → Result LedgerEntry
unfolding parse_state Ref.from_dict
from_dict payload = elim (as_dict (get payload "ref")) [
  | none ↦ err (execution_error "ledger entry ref must be an object")
  | some ref_payload ↦ do
    ref ← Ref.from_dict ref_payload
    state_text ← required_string payload "state"
    state ← parse_state state_text
    run_id ← required_string payload "run_id"
    ok (record {
      ref = ref;
      state = state;
      run_id = run_id;
      before = as_dict (get payload "before");
      after = as_dict (get payload "after");
    })
]

-- A manifest or `None`, as JSON.
abbrev pub optional_dict : Option Fields → Value
optional_dict none = null
optional_dict (some fs) = obj fs

unfoldable pub to_dict : LedgerEntry → Fields
unfolding Ref.to_dict
to_dict e = field "after" (optional_dict e.after) (
    field "before" (optional_dict e.before) (
      field "ref" (obj (Ref.to_dict e.ref))
        (field "run_id" (str e.run_id) (field "state" (str (state_value e.state)) end))))

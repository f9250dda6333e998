-- ===== src/Ledger/State.antt =====
-- `StateLedger` of ledger.py, and the ledger that a run writes.
use airgapped_ai_gateway_k8s.Base.{String, Bool, List, Option, none, some, map, ◌==◌, keep}
use airgapped_ai_gateway_k8s.Base.Order.{str_lt, sorted}
use airgapped_ai_gateway_k8s.Base.Outcome.{Result, ok, err, execution_error, ◌>>=◌, ◌>>◌, traverse}
use airgapped_ai_gateway_k8s.Base.Json.{
  Value, arr, obj, nil, Fields, end, field, get_or, as_dict, as_list, of_list,
}
use airgapped_ai_gateway_k8s.Ledger.Ref.{ResourceRef, identity, ref_lt}
use airgapped_ai_gateway_k8s.Ledger.Entry
use airgapped_ai_gateway_k8s.Ledger.Entry.{LedgerEntry, LedgerState, created, updated}
use airgapped_ai_gateway_k8s.Ledger.Snapshot.{PreChangeSnapshot, find_resource, require_ok}

pub record StateLedger : Type 0 where
  pub entries : List LedgerEntry

unfoldable pub read_entry : Value → Result LedgerEntry
unfolding Entry.from_dict
read_entry value = elim (as_dict value) [
  | none ↦ err (execution_error "ledger entries must be objects")
  | some payload ↦ Entry.from_dict payload
]

unfoldable pub from_dict : Fields → Result StateLedger
unfolding read_entry
from_dict payload = elim (as_list (get_or payload "entries" (arr nil))) [
  | none ↦ err (execution_error "ledger entries must be a list")
  | some values ↦ do entries ← traverse read_entry values; ok (record { entries = entries })
]

-- What `json.load` gives for the path, if it exists.
unfoldable pub from_file : Option Value → Result StateLedger
unfolding from_dict
from_file none = err (execution_error "state ledger does not exist")
from_file (some payload) = elim (as_dict payload) [
  | none ↦ err (execution_error "state ledger must be a JSON object")
  | some fs ↦ from_dict fs
]

unfoldable pub for_run : StateLedger → String → StateLedger
for_run l run_id = record { entries = keep (λ e. e.run_id == run_id) l.entries }

-- key=lambda entry: entry.ref.identity
abbrev pub identity_lt : LedgerEntry → LedgerEntry → Bool
identity_lt a b = str_lt (identity a.ref) (identity b.ref)

abbrev pub entry_value : LedgerEntry → Value
entry_value e = obj (Entry.to_dict e)

unfoldable pub to_dict : StateLedger → Fields
to_dict l = field "entries" (arr (of_list (map entry_value (sorted identity_lt l.entries)))) end

-- LedgerState.UPDATED if before is not None else LedgerState.CREATED
unfoldable pub state_from_before : Option Fields → LedgerState
state_from_before none = created
state_from_before (some manifest) = updated

unfoldable pub entry_for : PreChangeSnapshot → String → ResourceRef → LedgerEntry
unfolding state_from_before
entry_for snapshot run_id ref =
    let before = find_resource (identity ref) snapshot.resources in
    record {
      ref = ref;
      state = state_from_before before;
      run_id = run_id;
      before = before;
      after = none;
    }

unfoldable pub ledger_from_resources :
    List ResourceRef → PreChangeSnapshot → String → Result StateLedger
unfolding entry_for require_ok
ledger_from_resources resources snapshot run_id = do
  require_ok snapshot
  ok (record { entries = map (entry_for snapshot run_id) (sorted ref_lt resources) })

-- ===== src/Planning/Rollback.antt =====
-- `build_rollback_execution_plan` of planning.py.
use airgapped_ai_gateway_k8s.Base.{
  ℕ, suc, String, ◌<>◌, true, List, [], ◌∷◌, map, none, some, ◌==◌, if◌then◌else◌,
}
use airgapped_ai_gateway_k8s.Base.Order.{sorted}
use airgapped_ai_gateway_k8s.Base.Outcome.{Result, ok, err, plan_error, ◌>>=◌, ◌>>◌}
use airgapped_ai_gateway_k8s.Base.Json.{str, end, field}
use airgapped_ai_gateway_k8s.Models.{GatewayConfig}
use airgapped_ai_gateway_k8s.Ledger.Ref.{ResourceRef, identity}
use airgapped_ai_gateway_k8s.Ledger.Entry.{LedgerEntry, created, updated, pre_existing}
use airgapped_ai_gateway_k8s.Ledger.State.{StateLedger, for_run, identity_lt}
use airgapped_ai_gateway_k8s.Planning.Text.{padded}
use airgapped_ai_gateway_k8s.Planning.Action.{PlanAction}
use airgapped_ai_gateway_k8s.Planning.Plan.{ExecutionPlan, Hashing, with_computed_id}
use airgapped_ai_gateway_k8s.Planning.Build.{
  plan_schema_version, validate_apply_mode, verify_context_action,
}

unfoldable pub delete_resource_command : ResourceRef → List String
delete_resource_command r =
    let resource = r.kind <> ("." <> (r.api_version <> ("/" <> r.name))) in
    if r.namespace == ""
    then "kubectl" ∷ "delete" ∷ resource ∷ "--ignore-not-found=false" ∷ []
    else "kubectl" ∷ "-n" ∷ r.namespace ∷ "delete" ∷ resource ∷ "--ignore-not-found=false" ∷ []

unfoldable pub restore_action : ℕ → LedgerEntry → PlanAction
restore_action index e = record {
  id = "restore-" <> padded index;
  kind = "kubectl-restore";
  description = "Restore pre-change " <> (e.ref.kind <> (" " <> (e.ref.name <> ".")));
  command = "kubectl" ∷ "apply" ∷ "-f" ∷ "-" ∷ [];
  mutating = true;
  resource = some e.ref;
  payload = some (field "restore_identity" (str (identity e.ref)) end);
  sensitive_output = e.ref.kind == "Secret";
}

unfoldable pub delete_action : String → ℕ → LedgerEntry → PlanAction
unfolding delete_resource_command
delete_action run_id index e = record {
  id = "delete-created-" <> padded index;
  kind = "kubectl-delete-resource";
  description = "Delete resource created by run " <> (run_id <> (": " <> (identity e.ref <> ".")));
  command = delete_resource_command e.ref;
  mutating = true;
  resource = some e.ref;
  payload = none;
  sensitive_output = e.ref.kind == "Secret";
}

-- The restore of an entry, which needs the resource from before.
unfoldable pub restore_entry : ℕ → LedgerEntry → Result PlanAction
unfolding restore_action
restore_entry index e = elim e.before [
  | none ↦ err (plan_error "ledger entry has no pre-change resource to restore")
  | some manifest ↦ ok (restore_action index e)
]

-- The body of the loop. The enumeration has no fourth member, so the last branch is not reached.
unfoldable pub rollback_action : String → ℕ → LedgerEntry → Result PlanAction
unfolding restore_entry delete_action
rollback_action run_id index e = elim e.state [
  | updated ↦ restore_entry index e
  | pre_existing ↦ restore_entry index e
  | created ↦ ok (delete_action run_id index e)
]

-- The loop over `enumerate(entries, start=index)`.
unfoldable pub rollback_actions : String → ℕ → List LedgerEntry → Result (List PlanAction)
unfolding rollback_action
rollback_actions run_id index [] = ok []
rollback_actions run_id index (e ∷ es) = do
  action ← rollback_action run_id index e
  actions ← rollback_actions run_id (suc index) es
  ok (action ∷ actions)

abbrev pub ref_of : LedgerEntry → ResourceRef
ref_of e = e.ref

-- The plan that is returned, before its identifier is computed.
abbrev pub rollback_planned :
    GatewayConfig → List LedgerEntry → String → List PlanAction → ExecutionPlan
rollback_planned config entries apply_mode actions = record {
  schema_version = plan_schema_version;
  plan_id = "";
  command = "rollback apply";
  platform = config.platform.name;
  baseline = config.platform.baseline.agentgateway_version;
  overlay = "ledger";
  namespace = config.platform.gateway.namespace;
  apply_mode = apply_mode;
  expected_context = config.platform.cluster.expected_context;
  tls_verify = true;
  actions = verify_context_action ∷ actions;
  resources = map ref_of entries;
  notes = "Rollback only acts on resources recorded for the selected run." ∷ [];
}

unfoldable pub require_entries : List LedgerEntry → Result (Unit {0})
require_entries [] = err (plan_error "no ledger entries found for run")
require_entries (e ∷ es) = ok tt

module _ (hashing : Hashing) where
  unfoldable pub build_rollback_execution_plan :
      GatewayConfig → StateLedger → String → String → Result ExecutionPlan
  unfolding rollback_actions with_computed_id verify_context_action validate_apply_mode for_run
      require_entries
  build_rollback_execution_plan config ledger run_id apply_mode = do
    validate_apply_mode apply_mode
    require_entries (for_run ledger run_id).entries
    let entries = sorted identity_lt (for_run ledger run_id).entries
    actions ← rollback_actions run_id 1 entries
    ok (with_computed_id hashing (rollback_planned config entries apply_mode actions))

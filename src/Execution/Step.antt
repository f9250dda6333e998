-- ===== src/Execution/Step.antt =====
-- `_execute_action` of execution.py: one action of the plan.
use airgapped_ai_gateway_k8s.Base.{
  String, Bool, true, false, not, List, [], ◌∷◌, Option, none, some, ◌==◌, ◌||◌, if◌then◌else◌,
}
use airgapped_ai_gateway_k8s.Base.Int.{ℤ, pos, int_eq}
use airgapped_ai_gateway_k8s.Base.Strip.{strip, has_substring}
use airgapped_ai_gateway_k8s.Base.Outcome.{Result, ok, err, safety_error, execution_error}
use airgapped_ai_gateway_k8s.Base.Json.{Value, str, Fields, get}
use airgapped_ai_gateway_k8s.Base.Exec.{Exec, pure, raise, lift, modify, ◌>>=◌, ◌>>◌}
use airgapped_ai_gateway_k8s.Base.Runner.{Call, Runner}
use airgapped_ai_gateway_k8s.Models.{CommandResult}
use airgapped_ai_gateway_k8s.Ledger.Ref.{identity}
use airgapped_ai_gateway_k8s.Ledger.Entry.{LedgerEntry}
use airgapped_ai_gateway_k8s.Ledger.State.{StateLedger}
use airgapped_ai_gateway_k8s.Planning.Action.{PlanAction, payload_or_empty}
use airgapped_ai_gateway_k8s.Conditions.Poll.{
  Loads, poll_gateway_programmed, poll_httproute_ready, poll_policy_ready, poll_deployment_ready,
}
use airgapped_ai_gateway_k8s.Execution.Log.{ExecState, logging_run}

pub record ActionResult : Type 0 where
  pub action_id : String
  pub kind : String
  pub status : String
  pub returncode : Option ℤ
  pub stdout : String
  pub stderr : String
  pub sensitive_output : Bool

unfoldable pub interpret_kubectl_diff : CommandResult → Result String
interpret_kubectl_diff result =
    if int_eq result.returncode (pos 0)
    then ok "no_changes"
    else if int_eq result.returncode (pos 1)
    then ok "changes_present"
    else err (execution_error "kubectl diff failed")

-- _action_result
unfoldable pub action_result : PlanAction → CommandResult → String → ActionResult
action_result a result status = record {
  action_id = a.id;
  kind = a.kind;
  status = status;
  returncode = some result.returncode;
  stdout = result.stdout;
  stderr = result.stderr;
  sensitive_output = a.sensitive_output;
}

-- ActionResult(action_id=action.id, kind=action.kind, status="ready")
unfoldable pub ready_result : PlanAction → ActionResult
ready_result a = record {
  action_id = a.id;
  kind = a.kind;
  status = "ready";
  returncode = none;
  stdout = "";
  stderr = "";
  sensitive_output = false;
}

-- The loop of `_restore_manifest` over the entries of the ledger.
unfoldable pub find_before : String → List LedgerEntry → Option Fields
find_before wanted [] = none
find_before wanted (e ∷ es) =
    let rest = find_before wanted es in
    elim e.before [
      | none ↦ rest
      | some manifest ↦ if identity e.ref == wanted then some manifest else rest
    ]

unfoldable pub restore_manifest : PlanAction → Option StateLedger → Result Fields
unfolding find_before
restore_manifest a none = err (execution_error "requires the saved state ledger")
restore_manifest a (some ledger) = elim (get (payload_or_empty a.payload) "restore_identity") [
  | str wanted ↦ elim (find_before wanted ledger.entries) [
    | some manifest ↦ ok manifest
    | none ↦ err (execution_error "could not find pre-change resource")
  ]
  | _ ↦ err (execution_error "restore action has no ledger identity")
]

abbrev pub both_texts : Value → Value → Result (String × String)
both_texts (str namespace) (str name) = ok (namespace, name)
both_texts _ _ = err (execution_error "poll action requires namespace and name")

-- _poll_payload
unfoldable pub poll_payload : PlanAction → Result (String × String)
poll_payload a =
    let payload = payload_or_empty a.payload in
    both_texts (get payload "namespace") (get payload "name")

abbrev pub command_call : PlanAction → Call
command_call a = record {
  argv = a.command;
  input_text = none;
  sensitive_output = a.sensitive_output;
}

abbrev pub restore_call : PlanAction → String → Call
restore_call a manifest = record {
  argv = a.command;
  input_text = some manifest;
  sensitive_output = true;
}

-- Any exit code but 0 raises.
unfoldable pub require_zero : String → CommandResult → Result (Unit {0})
require_zero what result =
    if int_eq result.returncode (pos 0) then ok tt else err (execution_error what)

abbrev pub is_write_kind : String → Bool
is_write_kind kind =
    kind == "kubectl-apply" || (kind == "kubectl-delete" || kind == "kubectl-delete-resource")

-- `yaml_dump` is `yaml.safe_dump(manifest, sort_keys=False)`.
module _ (loads : Loads) (yaml_dump : Fields → String) (runner : Runner) where
  unfoldable pub run_required : PlanAction → Exec ExecState CommandResult
  unfolding logging_run require_zero
  run_required a = do
    result ← logging_run runner (command_call a)
    lift (require_zero "failed with return code" result)
    pure result

  unfoldable pub verify_context : String → PlanAction → Exec ExecState ActionResult
  unfolding run_required
  verify_context expected_context a = do
    result ← run_required a
    if not (strip result.stdout == expected_context)
        then raise (safety_error "context mismatch")
        else pure (action_result a result "verified")

  unfoldable pub diff : PlanAction → Exec ExecState ActionResult
  unfolding logging_run interpret_kubectl_diff
  diff a = do
    result ← logging_run runner (command_call a)
    status ← lift (interpret_kubectl_diff result)
    pure (action_result a result status)

  unfoldable pub read_ingress : PlanAction → Exec ExecState ActionResult
  unfolding logging_run require_zero
  read_ingress a = do
    result ← logging_run runner (command_call a)
    lift (require_zero "Ingress state could not be read; aborting before changing traffic" result)
    pure (action_result a result "read")

  unfoldable pub apply_or_delete : PlanAction → Exec ExecState ActionResult
  unfolding run_required
  apply_or_delete a = do
    result ← run_required a
    pure (action_result a result (if has_substring "apply" a.kind then "applied" else "deleted"))

  unfoldable pub restore : Option StateLedger → PlanAction → Exec ExecState ActionResult
  unfolding logging_run restore_manifest require_zero
  restore ledger a = do
    manifest ← lift (restore_manifest a ledger)
    result ← logging_run runner (restore_call a (yaml_dump manifest))
    lift (require_zero "failed with return code" result)
    pure (action_result a result "restored")

  -- A poll by one of the functions of conditions.py.
  unfoldable pub poll :
      (String → String → Exec ExecState (Unit {0})) → PlanAction → Exec ExecState ActionResult
  unfolding poll_payload ready_result
  poll wait a = do target ← lift (poll_payload a); wait target.0 target.1; pure (ready_result a)

  -- The branches on the kind of the action.
  unfoldable pub dispatch :
      String → Option StateLedger → String → PlanAction → Exec ExecState ActionResult
  unfolding verify_context diff read_ingress apply_or_delete restore poll poll_gateway_programmed
      poll_httproute_ready poll_policy_ready poll_deployment_ready
  dispatch expected_context ledger kind a =
      if kind == "verify-context"
      then verify_context expected_context a
      else if kind == "kubectl-diff"
      then diff a
      else if kind == "read-ingress-state"
      then read_ingress a
      else if is_write_kind kind
      then apply_or_delete a
      else if kind == "kubectl-restore"
      then restore ledger a
      else if kind == "poll-gateway"
      then poll (poll_gateway_programmed loads (logging_run runner)) a
      else if kind == "poll-httproute"
      then poll (poll_httproute_ready loads (logging_run runner)) a
      else if kind == "poll-policy"
      then poll (poll_policy_ready loads (logging_run runner)) a
      else if kind == "poll-deployment"
      then poll (poll_deployment_ready loads (logging_run runner)) a
      else raise (execution_error "unsupported plan action kind")

  unfoldable pub execute_action :
      String → Option StateLedger → PlanAction → Exec ExecState ActionResult
  unfolding dispatch
  execute_action expected_context ledger a = do
    modify (λ (s : ExecState). record s { action_id = a.id })
    dispatch expected_context ledger a.kind a

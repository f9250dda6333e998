-- ===== src/Tests/Applies.antt =====
-- An apply command on files that hold a configuration, a plan and a snapshot.
use airgapped_ai_gateway_k8s.Base.{String, ◌≡◌, refl, ◌⊎◌, Option, none, some, ◌==◌, if◌then◌else◌}
use airgapped_ai_gateway_k8s.Base.Outcome.{Error, Result, ok, err, gateway_error}
use airgapped_ai_gateway_k8s.Base.Json.{Value, obj}
use airgapped_ai_gateway_k8s.Safety.{ensure_mutation_is_confirmed, is_other}
use airgapped_ai_gateway_k8s.Configuration.Valid.{IsValid}
use airgapped_ai_gateway_k8s.Ledger.Snapshot
use airgapped_ai_gateway_k8s.Planning.Plan
use airgapped_ai_gateway_k8s.Planning.Action
use airgapped_ai_gateway_k8s.Ledger.Ref
use airgapped_ai_gateway_k8s.Base.Order.{sorted}
use airgapped_ai_gateway_k8s.Planning.Build.{build_execution_plan}
use airgapped_ai_gateway_k8s.Planning.Roundtrip.{loaded}
use airgapped_ai_gateway_k8s.Execution.Log.{initial}
use airgapped_ai_gateway_k8s.Execution.Run.{execute_plan}
use airgapped_ai_gateway_k8s.Execution.Gate.{IsApproved}
use airgapped_ai_gateway_k8s.Apply.{
  ApplyArguments, Prepared, require_apply_argument, read_plan, read_snapshot, read_ledger,
  prepare_apply, handle_apply,
}
use airgapped_ai_gateway_k8s.Apply.Approved.{IsPrepared, handle_apply-IsApproved}
use airgapped_ai_gateway_k8s.Tests.Data.{tools, snapshot}
use airgapped_ai_gateway_k8s.Tests.Plans.{cutover, cutover_plan}
use airgapped_ai_gateway_k8s.Tests.Configs.{files, loaded_full}

abbrev with_result : {A B : Type 0} → (A → B) → Result A → Result B
with_result f (ok a) = ok (f a)
with_result f (err e) = err e

abbrev json_file : String → Result (Option Value)
json_file path =
    if path == "plan.json"
    then ok (some (obj (Plan.to_dict cutover_plan)))
    else if path == "snapshot.json"
    then ok (some (obj (Snapshot.to_dict snapshot)))
    else ok none

abbrev cutover_apply : ApplyArguments
cutover_apply = record {
  action = "cutover apply";
  config = "gateway.yaml";
  expected_context = some "kind-demo";
  confirm = some "YES";
  apply_mode = some "server-side-dry-run";
  plan_file = some "plan.json";
  snapshot_file = some "snapshot.json";
  ledger_file = none;
}

abbrev without_token : ApplyArguments
without_token = record cutover_apply { confirm = some "" }

refused_token :
    prepare_apply files json_file without_token ≡ err (gateway_error "apply command refused")
unfolding prepare_apply require_apply_argument
refused_token = rw loaded_full refl

cutover_accepted :
    with_result (λ p. p.plan) (prepare_apply files json_file cutover_apply)
    ≡ ok (loaded cutover_plan)
unfolding prepare_apply require_apply_argument read_plan ensure_mutation_is_confirmed is_other
    read_snapshot read_ledger Plan.from_file Snapshot.from_file Plan.to_dict Plan.from_dict
    Snapshot.to_dict Snapshot.from_dict cutover build_execution_plan Ref.from_manifest
    Action.to_dict sorted Ref.to_dict
cutover_accepted = rw loaded_full refl

handle_apply-IsApproved_example :
    ((p : Prepared) × IsPrepared files json_file cutover_apply p
      × IsValid p.config
      × IsApproved tools.hashing p.plan p.config p.arguments
      × (handle_apply files json_file tools cutover_apply initial
          ≡ execute_plan tools p.plan p.config p.arguments initial))
    ⊎ ((e : Error) × (handle_apply files json_file tools cutover_apply initial ≡ (err e, initial)))
handle_apply-IsApproved_example =
    handle_apply-IsApproved files json_file cutover_apply tools initial

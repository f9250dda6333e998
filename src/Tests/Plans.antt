-- ===== src/Tests/Plans.antt =====
-- Plans that are built and executed.
use airgapped_ai_gateway_k8s.Base.{
  String, false, [], ◌∷◌, none, ◌≡◌, refl, ◌≢◌, inr, All, ◌⊎◌, ◌↔◌, map,
}
use airgapped_ai_gateway_k8s.Base.Outcome.{Error, Result, ok, err}
use airgapped_ai_gateway_k8s.Base.Order.{sorted, tuple_lt, str_lt}
use airgapped_ai_gateway_k8s.Base.Strip.{strip, has_substring}
use airgapped_ai_gateway_k8s.Ledger.Ref.{identity, ref_lt, from_manifest}
use airgapped_ai_gateway_k8s.Ledger.Snapshot.{find_resource}
use airgapped_ai_gateway_k8s.Execution.Step.{execute_action, action_result}
use airgapped_ai_gateway_k8s.Ledger.State.{StateLedger, ledger_from_resources}
use airgapped_ai_gateway_k8s.Planning.Plan.{ExecutionPlan}
use airgapped_ai_gateway_k8s.Planning.Build.{build_execution_plan, planned}
use airgapped_ai_gateway_k8s.Planning.Rollback.{build_rollback_execution_plan}
use airgapped_ai_gateway_k8s.Planning.Scope.{IsScoped, build_rollback_execution_plan-IsScoped}
use airgapped_ai_gateway_k8s.Planning.Modes.{
  IsDry, build_execution_plan-IsDry, rollback_mode_ignored,
}
use airgapped_ai_gateway_k8s.Planning.Undoable.{ledger_from_resources-undoable}
use airgapped_ai_gateway_k8s.Execution.Log.{initial}
use airgapped_ai_gateway_k8s.Execution.Run.{ExecutionReport, execute_plan}
use airgapped_ai_gateway_k8s.Execution.Output.{report_dict, blanked, report_dict-blanked}
use airgapped_ai_gateway_k8s.Execution.Context.{Guarded}
use airgapped_ai_gateway_k8s.Execution.Context.Plan.{execute_plan-Guarded}
use airgapped_ai_gateway_k8s.Execution.Marked.{
  verify_context_action-IsMarked, build_execution_plan-Guarded,
  build_rollback_execution_plan-Guarded,
}
use airgapped_ai_gateway_k8s.Execution.Gate.{
  IsApproved, execute_plan-IsApproved, validated, validated_iff,
}
use airgapped_ai_gateway_k8s.Execution.Report.{IsReport, execute_plan-IsReport}
use airgapped_ai_gateway_k8s.Execution.Recorded.{answered, without_action, execute_plan-Recorded}
use airgapped_ai_gateway_k8s.Tests.Data.{
  config, hashing, runner, tools, settings, extra, snapshot, args, build_overlay,
}

-- What a build returned.
abbrev pub returned : {A : Type 0} → Result A → A → A
returned (ok a) other = a
returned (err e) other = other

abbrev pub nothing : ExecutionPlan
nothing = planned config "" "" "" [] []

unfoldable pub cutover : Result ExecutionPlan
unfolding build_execution_plan
cutover =
    build_execution_plan hashing build_overlay config "cutover apply" "kind-demo"
      "server-side-dry-run" false

abbrev pub cutover_plan : ExecutionPlan
cutover_plan = returned cutover nothing

cutover_returned :
    build_execution_plan hashing build_overlay config "cutover apply" "kind-demo"
      "server-side-dry-run" false
    ≡ ok cutover_plan
unfolding cutover from_manifest
cutover_returned = refl

-- The ledger of a run that updated `settings` and created `extra`.
made : Result StateLedger
unfolding ledger_from_resources
made = ledger_from_resources (settings ∷ extra ∷ []) snapshot "run-1"

abbrev ledger : StateLedger
ledger = returned made (record { entries = [] })

ledger_made : ledger_from_resources (settings ∷ extra ∷ []) snapshot "run-1" ≡ ok ledger
unfolding made
ledger_made = refl

rollback : String → Result ExecutionPlan
unfolding build_rollback_execution_plan made
rollback = build_rollback_execution_plan hashing config ledger "run-1"

abbrev rollback_plan : String → ExecutionPlan
rollback_plan mode = returned (rollback mode) nothing

dry_rollback_returned :
    build_rollback_execution_plan hashing config ledger "run-1" "server-side-dry-run"
    ≡ ok (rollback_plan "server-side-dry-run")
unfolding rollback sorted ref_lt tuple_lt str_lt identity find_resource
dry_rollback_returned = refl

live_rollback_returned :
    build_rollback_execution_plan hashing config ledger "run-1" "live" ≡ ok (rollback_plan "live")
unfolding rollback sorted ref_lt tuple_lt str_lt identity find_resource
live_rollback_returned = refl

run_cutover : Result ExecutionReport
unfolding execute_plan cutover
run_cutover = (execute_plan tools cutover_plan config args initial).0

abbrev no_report : ExecutionReport
no_report = record {
  status = "";
  plan_id = "";
  command = "";
  apply_mode = "";
  results = [];
  ledger = none;
}

abbrev cutover_report : ExecutionReport
cutover_report = returned run_cutover no_report

cutover_succeeds : (execute_plan tools cutover_plan config args initial).0 ≡ ok cutover_report
unfolding run_cutover from_manifest execute_action action_result strip has_substring
    ledger_from_resources
cutover_succeeds = refl

cutover_statuses : map (λ r. r.status) cutover_report.results ≡ "verified" ∷ "read" ∷ "applied" ∷ []
unfolding run_cutover from_manifest execute_action action_result strip has_substring
    ledger_from_resources
cutover_statuses = refl

build_execution_plan-Guarded_example :
    Guarded runner "kind-demo" (execute_plan tools cutover_plan config args initial).1.calls
build_execution_plan-Guarded_example =
    build_execution_plan-Guarded tools build_overlay config config "cutover apply" "kind-demo"
      "server-side-dry-run" false args cutover_plan cutover_returned

build_rollback_execution_plan-Guarded_example :
    Guarded runner "kind-demo"
      (execute_plan tools (rollback_plan "live") config args initial).1.calls
build_rollback_execution_plan-Guarded_example =
    build_rollback_execution_plan-Guarded tools config config ledger "run-1" "live" args
      (rollback_plan "live") live_rollback_returned

execute_plan-IsApproved_example :
    IsApproved hashing cutover_plan config args
    ⊎ ((e : Error) × (execute_plan tools cutover_plan config args initial ≡ (err e, initial)))
execute_plan-IsApproved_example = execute_plan-IsApproved tools cutover_plan config args initial

validated_iff_example :
    (validated hashing cutover_plan config args ≡ ok tt)
    ↔ IsApproved hashing cutover_plan config args
validated_iff_example = validated_iff hashing cutover_plan config args

execute_plan-IsReport_example : IsReport cutover_plan args cutover_report
execute_plan-IsReport_example =
    execute_plan-IsReport tools cutover_plan config args initial cutover_report cutover_succeeds

execute_plan-Recorded_example :
    map without_action (execute_plan tools cutover_plan config args initial).1.log
    ≡ answered runner (execute_plan tools cutover_plan config args initial).1.calls
execute_plan-Recorded_example = execute_plan-Recorded tools cutover_plan config args

build_rollback_execution_plan-IsScoped_example : IsScoped ledger "run-1" (rollback_plan "live")
build_rollback_execution_plan-IsScoped_example =
    build_rollback_execution_plan-IsScoped hashing config ledger "run-1" "live"
      (rollback_plan "live") live_rollback_returned

rollback_mode_ignored_example :
    (rollback_plan "server-side-dry-run").actions ≡ (rollback_plan "live").actions
rollback_mode_ignored_example =
    rollback_mode_ignored hashing config ledger "run-1" (rollback_plan "server-side-dry-run")
      (rollback_plan "live") dry_rollback_returned live_rollback_returned

build_execution_plan-IsDry_example : All IsDry cutover_plan.actions
build_execution_plan-IsDry_example =
    build_execution_plan-IsDry hashing build_overlay config "cutover apply" "kind-demo" false
      cutover_plan (inr refl) cutover_returned

some_resources : settings ∷ extra ∷ [] ≢ []
some_resources e = cc

ledger_from_resources-undoable_example :
    (plan : ExecutionPlan) × (build_rollback_execution_plan hashing config ledger "run-1" "live"
      ≡ ok plan)
ledger_from_resources-undoable_example =
    ledger_from_resources-undoable hashing config (settings ∷ extra ∷ []) snapshot "run-1" "live"
      ledger some_resources refl ledger_made

execute_plan-Guarded_example :
    Guarded runner "kind-demo"
      (execute_plan tools
        (planned config "deploy apply" "kind-demo" "live" [] [])
        config
        args
        initial).1.calls
execute_plan-Guarded_example =
    execute_plan-Guarded tools (planned config "deploy apply" "kind-demo" "live" [] []) config args
      (verify_context_action-IsMarked, tt)

abbrev same_text : String → String
same_text s = s

report_dict-blanked_example :
    report_dict same_text same_text
      (record cutover_report { results = map blanked cutover_report.results })
    ≡ report_dict same_text same_text cutover_report
report_dict-blanked_example = report_dict-blanked same_text same_text cutover_report

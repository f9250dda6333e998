-- ===== src/Apply.antt =====
-- `_handle_apply` of src/airgap_ai_gateway/cli.py: what an apply command reads and checks before it
-- executes the approved plan.
pub mod Approved
use airgapped_ai_gateway_k8s.Base.{
  String, Bool, true, false, not, ◌&&◌, Option, none, some, ◌==◌, if◌then◌else◌,
}
use airgapped_ai_gateway_k8s.Base.Outcome.{
  Result, ok, err, gateway_error, raise_if, require_some, ◌>>=◌, ◌>>◌,
}
use airgapped_ai_gateway_k8s.Base.Json.{Value}
use airgapped_ai_gateway_k8s.Base.Exec
use airgapped_ai_gateway_k8s.Base.Exec.{Exec, lift}
use airgapped_ai_gateway_k8s.Models.{GatewayConfig}
use airgapped_ai_gateway_k8s.Safety.{ensure_mutation_is_confirmed}
use airgapped_ai_gateway_k8s.Configuration.Load.{Files, load_config}
use airgapped_ai_gateway_k8s.Ledger.Snapshot
use airgapped_ai_gateway_k8s.Ledger.Snapshot.{PreChangeSnapshot}
use airgapped_ai_gateway_k8s.Ledger.State
use airgapped_ai_gateway_k8s.Ledger.State.{StateLedger}
use airgapped_ai_gateway_k8s.Planning.Plan
use airgapped_ai_gateway_k8s.Planning.Plan.{ExecutionPlan}
use airgapped_ai_gateway_k8s.Execution.Log.{ExecState}
use airgapped_ai_gateway_k8s.Execution.Validate.{Arguments, is_none}
use airgapped_ai_gateway_k8s.Execution.Run.{Tools, ExecutionReport, execute_plan}

-- The arguments of the command line.
pub record ApplyArguments : Type 0 where
  pub action : String
  pub config : String
  pub expected_context : Option String
  pub confirm : Option String
  pub apply_mode : Option String
  pub plan_file : Option String
  pub snapshot_file : Option String
  pub ledger_file : Option String

-- `not isinstance(value, str) or not value` is refused
unfoldable pub require_apply_argument : Option String → Result String
require_apply_argument none = err (gateway_error "apply command refused")
require_apply_argument (some s) =
    if s == "" then err (gateway_error "apply command refused") else ok s

-- What is executed.
pub record Prepared : Type 0 where
  pub config : GatewayConfig
  pub plan : ExecutionPlan
  pub arguments : Arguments

-- `json_file` is what `json.load` gives for a file that exists.
module _ (files : Files) (json_file : String → Result (Option Value)) where
  unfoldable pub read_ledger : Option String → Result (Option StateLedger)
  read_ledger none = ok none
  read_ledger (some path) = do
    payload ← json_file path
    ledger ← State.from_file payload
    ok (some ledger)

  unfoldable pub read_plan : String → String → Result ExecutionPlan
  read_plan action path = do
    payload ← json_file path
    plan ← Plan.from_file payload
    raise_if (not (plan.command == action)) (gateway_error "plan command differs")
    ok plan

  unfoldable pub read_snapshot : String → Result PreChangeSnapshot
  read_snapshot path = json_file path >>= Snapshot.from_file

  unfoldable pub prepare_apply : ApplyArguments → Result Prepared
  unfolding require_apply_argument read_plan read_snapshot read_ledger
  prepare_apply args = do
    config ← load_config files args.config
    context ← require_apply_argument args.expected_context
    confirmation ← require_apply_argument args.confirm
    apply_mode ← require_apply_argument args.apply_mode
    plan_file ← require_some args.plan_file (gateway_error "pass --plan-file")
    snapshot_file ← require_some args.snapshot_file (gateway_error "pass --snapshot-file")
    ensure_mutation_is_confirmed args.action config args.expected_context args.confirm
    plan ← read_plan args.action plan_file
    snapshot ← read_snapshot snapshot_file
    ledger ← read_ledger args.ledger_file
    raise_if (args.action == "rollback apply" && is_none ledger)
        (gateway_error "pass --ledger-file")
    ok (record {
      config = config;
      plan = plan;
      arguments = record {
        expected_context = context;
        apply_mode = apply_mode;
        confirmation = confirmation;
        snapshot = some snapshot;
        ledger = ledger;
      };
    })

  unfoldable pub handle_apply : Tools → ApplyArguments → Exec ExecState ExecutionReport
  unfolding prepare_apply execute_plan
  handle_apply tools args =
      Exec.◌>>=◌ (lift (prepare_apply args)) λ p. execute_plan tools p.plan p.config p.arguments

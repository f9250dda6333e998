-- ===== src/Execution/Context.antt =====
-- When a call that changes the cluster counts as guarded by the context check of execution.py.
pub mod Steps
pub mod Plan
use airgapped_ai_gateway_k8s.Base.{
  ℕ, zero, suc, String, Bool, true, false, not, ◌&&◌, ◌||◌, List, [], ◌∷◌, Option, none, some, ◌==◌,
  ◌≡◌, refl, ◌⊎◌, inl, inr, arith, eq_iff, All, contains, Bool-cases, if◌then◌else◌,
}
use airgapped_ai_gateway_k8s.Base.Int.{pos, int_eq}
use airgapped_ai_gateway_k8s.Base.Strip.{strip}
use airgapped_ai_gateway_k8s.Base.Outcome.{Error, Result, ok, err}
use airgapped_ai_gateway_k8s.Base.Exec.{
  Exec, ◌>>=◌, Keeps, Keeps-bind, Keeps-if, Keeps-lift, Keeps-pure, Keeps-raise, after_bind, pure,
  raise, modify, keeps_rules,
}
use airgapped_ai_gateway_k8s.Base.Runner.{Call, History, Runner, plain_call}
use airgapped_ai_gateway_k8s.Models.{CommandResult, GatewayConfig}
use airgapped_ai_gateway_k8s.Base.Json.{Fields}
use airgapped_ai_gateway_k8s.Conditions.Poll.{
  Loads, poll_loop, parse_json_object, poll_condition, get_command, attempts_default,
  poll_gateway_programmed, poll_httproute_ready, poll_policy_ready, poll_deployment_ready,
}
use airgapped_ai_gateway_k8s.Conditions.Checks.{
  gateway_ready, httproute_ready, policy_ready, deployment_is_ready,
}
use airgapped_ai_gateway_k8s.Ledger.State.{StateLedger}
use airgapped_ai_gateway_k8s.Planning.Action.{PlanAction}
use airgapped_ai_gateway_k8s.Execution.Step.{
  command_call, restore_call, run_required, verify_context, diff, read_ingress, apply_or_delete,
  restore, poll, dispatch, execute_action, ActionResult,
}
use airgapped_ai_gateway_k8s.Execution.Run.{Tools, run_actions, execute_plan}
use airgapped_ai_gateway_k8s.Planning.Plan.{ExecutionPlan}
use airgapped_ai_gateway_k8s.Execution.Validate.{Arguments}
use airgapped_ai_gateway_k8s.Execution.Log.{initial, ExecState, logging_run, noted}

-- The verb of a kubectl command line, behind an optional `-n NAMESPACE`.
abbrev pub verb : List String → String
verb (program ∷ flag ∷ namespace ∷ word ∷ rest) = if flag == "-n" then word else flag
verb (program ∷ word ∷ rest) = word
verb _ = ""

-- The command line changes the cluster (or asks for it, in a dry run).
abbrev pub changes_cluster : List String → Bool
changes_cluster argv = verb argv == "apply" || verb argv == "delete"

-- The answer is a success that names the context.
abbrev pub names_context : String → Result CommandResult → Bool
names_context context (ok result) =
    int_eq result.returncode (pos 0) && (strip result.stdout == context)
names_context context (err e) = false

abbrev pub context_command : List String
context_command = "kubectl" ∷ "config" ∷ "current-context" ∷ []

module _ (runner : Runner) (context : String) where
  -- Some call so far asked for the current context, and the answer was the expected one.
  abbrev pub Checked : History → Type 0
  Checked [] = ⊥
  Checked (call ∷ calls) =
      ((call.argv ≡ context_command) × (names_context context (runner calls call) ≡ true))
      ⊎ Checked calls

  -- Each call that changes the cluster comes after such a call.
  abbrev pub Guarded : History → Type 0
  Guarded [] = Unit
  Guarded (call ∷ calls) = (changes_cluster call.argv ≡ true → Checked calls) × Guarded calls

  -- The invariant of the loop, by its flag.
  abbrev pub Inv : Bool → ExecState → Type 0
  Inv verified s = Guarded s.calls × (verified ≡ true → Checked s.calls)

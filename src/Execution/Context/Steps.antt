-- ===== src/Execution/Context/Steps.antt =====
-- One action of execution.py against the context check.
use airgapped_ai_gateway_k8s.Base.{String, Bool, true, ◌∷◌, Option, ◌≡◌, refl, inr, arith}
use airgapped_ai_gateway_k8s.Base.Outcome.{Result, ok, err}
use airgapped_ai_gateway_k8s.Base.Exec.{◌>>=◌, Keeps}
use airgapped_ai_gateway_k8s.Base.Runner.{Call, Runner}
use airgapped_ai_gateway_k8s.Models.{CommandResult}
use airgapped_ai_gateway_k8s.Base.Json.{Fields}
use airgapped_ai_gateway_k8s.Conditions.Poll.{Loads}
use airgapped_ai_gateway_k8s.Ledger.State.{StateLedger}
use airgapped_ai_gateway_k8s.Planning.Action.{PlanAction}
use airgapped_ai_gateway_k8s.Execution.Step.{verify_context, execute_action, ActionResult}
use airgapped_ai_gateway_k8s.Execution.Log.{ExecState, logging_run, noted}
use airgapped_ai_gateway_k8s.Execution.Keeping.{Keeps-execute_action}
use airgapped_ai_gateway_k8s.Execution.Context.{context_command, changes_cluster, Checked, Inv}

module _ (runner : Runner) (context : String) where
  pub calls-logging_run :
      (call : Call) (s : ExecState) → (logging_run runner call s).1.calls ≡ call ∷ s.calls
  unfolding logging_run
  calls-logging_run call s = go (runner s.calls call)
    where
      go : (r : Result CommandResult) → (noted call r s).1.calls ≡ call ∷ s.calls
      go (ok result) = refl
      go (err e) = refl

  pub Inv-logging_run :
      (verified : Bool) (call : Call)
      → (changes_cluster call.argv ≡ true → verified ≡ true)
      → Keeps (Inv runner context verified) (logging_run runner call)
  Inv-logging_run verified call h = record {
    from = λ s inv. rw (calls-logging_run call s) ((λ c. inv.1 (h c), inv.0), λ v. inr (inv.1 v));
  }

  module _ (loads : Loads) (yaml_dump : Fields → String) (verified : Bool) where
    pub Inv-execute_action :
        (a : PlanAction) (ledger : Option StateLedger)
        → (changes_cluster a.command ≡ true → verified ≡ true)
        → Keeps
            (Inv runner context verified)
            (execute_action loads yaml_dump runner context ledger a)
    Inv-execute_action a ledger marked =
        Keeps-execute_action runner loads yaml_dump (Inv runner context verified)
          (λ argv. changes_cluster argv ≡ true → verified ≡ true) (Inv-logging_run verified)
          (λ kind namespace name e. cc) a marked context ledger (λ s id inv. inv)

  module _ (loads : Loads) (yaml_dump : Fields → String) (a : PlanAction)
      (asks : a.command ≡ context_command) where
    pub verify_context-Checked :
        (s : ExecState) (r : ActionResult)
        → (verify_context loads yaml_dump runner context a s).0 ≡ ok r
        → Checked runner context (verify_context loads yaml_dump runner context a s).1.calls
    unfolding verify_context ◌>>=◌
    verify_context-Checked s r h = ground (arith, asks)

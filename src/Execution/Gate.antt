-- ===== src/Execution/Gate.antt =====
-- What must hold before the executor issues a command.
use airgapped_ai_gateway_k8s.Base.{
  true, false, Option, none, some, ◌≡◌, ◌≢◌, refl, ◌⊎◌, inl, inr, arith, eq_iff, contains, ◌↔◌,
}
use airgapped_ai_gateway_k8s.Base.Outcome.{Error, Result, ok, err, ◌>>◌}
use airgapped_ai_gateway_k8s.Base.Exec
use airgapped_ai_gateway_k8s.Models.{GatewayConfig}
use airgapped_ai_gateway_k8s.Safety.{mutating_actions}
use airgapped_ai_gateway_k8s.Ledger.Snapshot.{PreChangeSnapshot, require_ok}
use airgapped_ai_gateway_k8s.Planning.Plan.{ExecutionPlan, Hashing, computed_id, with_computed_id}
use airgapped_ai_gateway_k8s.Execution.Log.{ExecState}
use airgapped_ai_gateway_k8s.Execution.Validate.{
  Arguments, require_snapshot, validate_plan_integrity, validate_execution_inputs, is_none,
}
use airgapped_ai_gateway_k8s.Execution.Run.{Tools, execute_plan}

-- What the operator and the saved files vouch for.
pub record IsApproved (hashing : Hashing) (plan : ExecutionPlan) (config : GatewayConfig)
    (args : Arguments) : Type 0 where
  pub identified : computed_id hashing plan ≡ plan.plan_id
  pub command : contains mutating_actions plan.command ≡ true
  pub of_config : args.expected_context ≡ config.platform.cluster.expected_context
  pub of_plan : args.expected_context ≡ plan.expected_context
  pub mode : args.apply_mode ≡ plan.apply_mode
  pub confirmed : args.confirmation ≡ config.platform.confirmation_token
  pub captured :
      (snapshot : PreChangeSnapshot) × (args.snapshot ≡ some snapshot) × (snapshot.status ≡ "ok")
  pub ledger : plan.command ≡ "rollback apply" → args.ledger ≢ none

abbrev pub validated : Hashing → ExecutionPlan → GatewayConfig → Arguments → Result (Unit {0})
validated hashing plan config args =
    validate_plan_integrity hashing plan >> validate_execution_inputs plan config args

some_is_none : {A : Type 0} (o : Option A) → is_none o ≡ false → o ≢ none
some_is_none none h = cc
some_is_none (some a) h = λ e. cc

none_of : {A : Type 0} (o : Option A) → is_none o ≡ true → o ≡ none
none_of none h = refl
none_of (some a) h = cc

module _ (hashing : Hashing) (plan : ExecutionPlan) (config : GatewayConfig)
    (args : Arguments) where
  captured_of :
      (o : Option PreChangeSnapshot)
      → args.snapshot ≡ o
      → validated hashing plan config args ≡ ok tt
      → (snapshot : PreChangeSnapshot) × (args.snapshot ≡ some snapshot) × (snapshot.status ≡ "ok")
  unfolding validate_plan_integrity validate_execution_inputs require_snapshot require_ok
  captured_of none e h = ground arith
  captured_of (some snapshot) e h = (snapshot, e, ground (arith, eq_iff snapshot.status "ok"))

  approved : validated hashing plan config args ≡ ok tt → IsApproved hashing plan config args
  unfolding validate_plan_integrity validate_execution_inputs with_computed_id
  approved h = record {
    identified = ground (arith, eq_iff (computed_id hashing plan) plan.plan_id);
    command = ground arith;
    of_config =
        ground (arith, eq_iff args.expected_context config.platform.cluster.expected_context);
    of_plan = ground (arith, eq_iff args.expected_context plan.expected_context);
    mode = ground (arith, eq_iff args.apply_mode plan.apply_mode);
    confirmed = ground (arith, eq_iff args.confirmation config.platform.confirmation_token);
    captured = captured_of args.snapshot refl h;
    ledger = λ e. some_is_none args.ledger (ground (arith, eq_iff plan.command "rollback apply"));
  }

  passes : IsApproved hashing plan config args → validated hashing plan config args ≡ ok tt
  unfolding validate_plan_integrity validate_execution_inputs with_computed_id require_snapshot
      require_ok
  passes a = go a.captured.0 a.captured.1 a.captured.2
    where
      go :
          (snapshot : PreChangeSnapshot)
          → args.snapshot ≡ some snapshot
          → snapshot.status ≡ "ok"
          → validated hashing plan config args ≡ ok tt
      go snapshot e status = ground (
        arith,
        eq_iff (computed_id hashing plan) plan.plan_id,
        eq_iff args.expected_context config.platform.cluster.expected_context,
        eq_iff args.expected_context plan.expected_context,
        eq_iff args.apply_mode plan.apply_mode,
        eq_iff args.confirmation config.platform.confirmation_token,
        eq_iff snapshot.status "ok",
        eq_iff plan.command "rollback apply",
        none_of args.ledger,
      )

-- The checks before the first action pass exactly when: the plan's identifier is the one computed
-- from its contents, its command is a mutating one, the given context is the configured one and the
-- plan's, the given mode is the plan's, the given token is the configured one, a snapshot that
-- succeeded is given, and a ledger is given for a rollback.
pub validated_iff :
    (hashing : Hashing) (plan : ExecutionPlan) (config : GatewayConfig) (args : Arguments)
    → (validated hashing plan config args ≡ ok tt) ↔ IsApproved hashing plan config args
validated_iff hashing plan config args =
    (approved hashing plan config args, passes hashing plan config args)

-- Either the plan's identifier is the one computed from its contents, its command is a mutating
-- one, the given context is the configured one and the plan's, the given mode is the plan's, the
-- given token is the configured one, a snapshot that succeeded is given, and a ledger is given for
-- a rollback; or the execution raises and leaves the state as it was: no command was issued and
-- nothing was logged.
pub execute_plan-IsApproved :
    (tools : Tools) (plan : ExecutionPlan) (config : GatewayConfig) (args : Arguments)
    (s : ExecState)
    → IsApproved tools.hashing plan config args
      ⊎ ((e : Error) × (execute_plan tools plan config args s ≡ (err e, s)))
unfolding execute_plan Exec.◌>>=◌ Exec.continue Exec.lift
execute_plan-IsApproved tools plan config args s =
    go (validate_plan_integrity tools.hashing plan) refl
      (validate_execution_inputs plan config args) refl
  where
    go :
        (p : Result (Unit {0}))
        → validate_plan_integrity tools.hashing plan ≡ p
        → (q : Result (Unit {0})) → validate_execution_inputs plan config args ≡ q
        → IsApproved tools.hashing plan config args
          ⊎ ((e : Error) × (execute_plan tools plan config args s ≡ (err e, s)))
    go (err e) p q r = inr (e, rw p refl)
    go (ok _) p (err e) q = inr (e, rw (p, q) refl)
    go (ok _) p (ok _) q = inl ((validated_iff tools.hashing plan config args).0 (rw (p, q) refl))

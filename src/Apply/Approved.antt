-- ===== src/Apply/Approved.antt =====
-- An apply command issues nothing that was not prepared and approved.
use airgapped_ai_gateway_k8s.Base.{
  String, Bool, true, false, not, ◌≡◌, refl, ◌⊎◌, inl, inr, Option, none, some, ◌==◌, ◌&&◌, arith,
  eq_iff,
}
use airgapped_ai_gateway_k8s.Base.Outcome.{
  Error, Result, ok, err, gateway_error, raise_if, require_some, IfOk, IfOk-bind, IfOk-eq, ◌>>=◌,
}
use airgapped_ai_gateway_k8s.Base.Json.{Value}
use airgapped_ai_gateway_k8s.Base.Exec
use airgapped_ai_gateway_k8s.Safety.{ensure_mutation_is_confirmed}
use airgapped_ai_gateway_k8s.Configuration.Load.{Files, load_config}
use airgapped_ai_gateway_k8s.Configuration.Valid.{IsValid}
use airgapped_ai_gateway_k8s.Configuration.Loaded.{load_config-IsValid}
use airgapped_ai_gateway_k8s.Models.{GatewayConfig}
use airgapped_ai_gateway_k8s.Ledger.Snapshot.{PreChangeSnapshot}
use airgapped_ai_gateway_k8s.Ledger.State.{StateLedger}
use airgapped_ai_gateway_k8s.Planning.Plan.{ExecutionPlan}
use airgapped_ai_gateway_k8s.Planning.Plan
use airgapped_ai_gateway_k8s.Execution.Log.{ExecState}
use airgapped_ai_gateway_k8s.Execution.Validate.{is_none}
use airgapped_ai_gateway_k8s.Execution.Run.{Tools, execute_plan}
use airgapped_ai_gateway_k8s.Execution.Gate.{IsApproved, execute_plan-IsApproved}
use airgapped_ai_gateway_k8s.Apply.{
  ApplyArguments, Prepared, require_apply_argument, read_ledger, read_plan, read_snapshot,
  prepare_apply, handle_apply,
}

-- What is executed comes from the files and the arguments that were given.
pub record IsPrepared (files : Files) (json_file : String → Result (Option Value))
    (args : ApplyArguments) (p : Prepared) : Type 0 where
  pub loaded : load_config files args.config ≡ ok p.config
  pub context : args.expected_context ≡ some p.arguments.expected_context
  pub token : args.confirm ≡ some p.arguments.confirmation
  pub mode : args.apply_mode ≡ some p.arguments.apply_mode
  pub gate :
      ensure_mutation_is_confirmed args.action p.config args.expected_context args.confirm ≡ ok tt
  pub plan_file : String
  pub plan_given : args.plan_file ≡ some plan_file
  pub plan_read : (json_file plan_file >>= Plan.from_file) ≡ ok p.plan
  pub command : p.plan.command ≡ args.action

argument_text : (o : Option String) → IfOk (λ s. o ≡ some s) (require_apply_argument o)
unfolding require_apply_argument
argument_text none = tt
argument_text (some s) = ground arith

flag_value : (o : Option String) (e : Error) → IfOk (λ s. o ≡ some s) (require_some o e)
flag_value none e = tt
flag_value (some s) e = refl

no_raise : (b : Bool) (e : Error) (u : Unit {0}) → raise_if b e ≡ ok u → b ≡ false
no_raise true e u h = cc
no_raise false e u h = refl

module _ (files : Files) (json_file : String → Result (Option Value)) (args : ApplyArguments) where
  -- The plan was read from the file, and is of the action.
  IsRead : String → ExecutionPlan → Type 0
  IsRead path plan = ((json_file path >>= Plan.from_file) ≡ ok plan) × (plan.command ≡ args.action)

  read_plan-IsRead :
      (path : String) → IfOk (IsRead path) (read_plan files json_file args.action path)
  unfolding read_plan IsRead
  read_plan-IsRead path = IfOk-bind (IsRead path) (json_file path) _ λ payload e.
      IfOk-bind (IsRead path) (Plan.from_file payload) _ λ plan f.
        IfOk-bind (IsRead path)
          (raise_if (not (plan.command == args.action)) (gateway_error "plan command differs"))
          (λ _. ok plan)
          λ u g. (
            rw e f,
            ground (
              arith,
              no_raise (not (plan.command == args.action)) _ u g,
              eq_iff plan.command args.action,
            ),
          )

  abbrev prepared_of :
      GatewayConfig
      → String
      → String
      → String
      → ExecutionPlan
      → PreChangeSnapshot
      → Option StateLedger
      → Prepared
  prepared_of config context confirmation mode plan snapshot ledger = record {
    config = config;
    plan = plan;
    arguments = record {
      expected_context = context;
      apply_mode = mode;
      confirmation = confirmation;
      snapshot = some snapshot;
      ledger = ledger;
    };
  }

  -- What the arguments and the configuration give.
  record IsGiven (config : GatewayConfig) (context confirmation mode plan_file : String)
      : Type 0 where
    pub loaded : load_config files args.config ≡ ok config
    pub context_read : require_apply_argument args.expected_context ≡ ok context
    pub token_read : require_apply_argument args.confirm ≡ ok confirmation
    pub mode_read : require_apply_argument args.apply_mode ≡ ok mode
    pub path_read : require_some args.plan_file (gateway_error "pass --plan-file") ≡ ok plan_file
    pub gate :
        ensure_mutation_is_confirmed args.action config args.expected_context args.confirm ≡ ok tt

  prepared_of-IsPrepared :
      (config : GatewayConfig) (context confirmation mode plan_file : String)
      → IsGiven config context confirmation mode plan_file
      → (plan : ExecutionPlan) (snapshot : PreChangeSnapshot) (ledger : Option StateLedger)
      → read_plan files json_file args.action plan_file ≡ ok plan
      → IsPrepared files json_file args
          (prepared_of config context confirmation mode plan snapshot ledger)
  unfolding IsRead
  prepared_of-IsPrepared config context confirmation mode plan_file h plan snapshot ledger m =
      let (read, command) = IfOk-eq (IsRead plan_file) _ (read_plan-IsRead plan_file) m in
      record {
        loaded = h.loaded;
        context = IfOk-eq _ _ (argument_text args.expected_context) h.context_read;
        token = IfOk-eq _ _ (argument_text args.confirm) h.token_read;
        mode = IfOk-eq _ _ (argument_text args.apply_mode) h.mode_read;
        gate = h.gate;
        plan_file = plan_file;
        plan_given =
            IfOk-eq _ _ (flag_value args.plan_file (gateway_error "pass --plan-file")) h.path_read;
        plan_read = read;
        command = command;
      }

  prepare_apply-IsPrepared :
      IfOk (IsPrepared files json_file args) (prepare_apply files json_file args)
  unfolding prepare_apply
  prepare_apply-IsPrepared =
      let P = IsPrepared files json_file args in
      IfOk-bind P (load_config files args.config) _ λ config e.
        IfOk-bind P (require_apply_argument args.expected_context) _ λ context f.
          IfOk-bind P (require_apply_argument args.confirm) _ λ confirmation g.
            IfOk-bind P (require_apply_argument args.apply_mode) _ λ mode h.
              IfOk-bind P (require_some args.plan_file (gateway_error "pass --plan-file")) _
                λ plan_file i.
                  IfOk-bind P
                    (require_some args.snapshot_file (gateway_error "pass --snapshot-file")) _
                    λ snapshot_file j.
                      IfOk-bind P
                        (ensure_mutation_is_confirmed args.action config args.expected_context
                          args.confirm)
                        _
                        λ u k.
                          IfOk-bind P (read_plan files json_file args.action plan_file) _ λ plan m.
                            IfOk-bind P (read_snapshot files json_file snapshot_file) _
                              λ snapshot q.
                                IfOk-bind P (read_ledger files json_file args.ledger_file) _
                                  λ ledger r.
                                    IfOk-bind P
                                      (raise_if (args.action == "rollback apply" && is_none ledger)
                                        (gateway_error "pass --ledger-file"))
                                      (λ _. ok (
                                        prepared_of config context confirmation mode plan snapshot
                                          ledger))
                                      λ w s.
                                        prepared_of-IsPrepared config context confirmation mode
                                          plan_file
                                          (record {
                                            loaded = e;
                                            context_read = f;
                                            token_read = g;
                                            mode_read = h;
                                            path_read = i;
                                            gate = k;
                                          })
                                          plan snapshot ledger m

  -- Whatever the files hold and whatever state a run starts in, an apply command does one of two
  -- things. Either it executes a plan that was read from the given plan file and is of the given
  -- action, under a configuration that was loaded from the given path and is valid; the context, the
  -- mode and the token are the given ones and pass the gate, and the plan is approved for them. Or
  -- it raises and leaves the state as it was: nothing was run.
  pub handle_apply-IsApproved :
      (tools : Tools) (s : ExecState)
      → ((p : Prepared) × IsPrepared files json_file args p
          × IsValid p.config
          × IsApproved tools.hashing p.plan p.config p.arguments
          × (handle_apply files json_file tools args s
              ≡ execute_plan tools p.plan p.config p.arguments s))
        ⊎ ((e : Error) × (handle_apply files json_file tools args s ≡ (err e, s)))
  unfolding handle_apply Exec.◌>>=◌ Exec.continue Exec.lift
  handle_apply-IsApproved tools s = go (prepare_apply files json_file args) refl
    where
      go :
          (r : Result Prepared)
          → prepare_apply files json_file args ≡ r
          → ((p : Prepared) × IsPrepared files json_file args p
              × IsValid p.config
              × IsApproved tools.hashing p.plan p.config p.arguments
              × (handle_apply files json_file tools args s
                  ≡ execute_plan tools p.plan p.config p.arguments s))
            ⊎ ((e : Error) × (handle_apply files json_file tools args s ≡ (err e, s)))
      go (err e) q = inr (e, rw q refl)
      go (ok p) q = elim (execute_plan-IsApproved tools p.plan p.config p.arguments s) [
        | inl approved ↦
            let prepared = IfOk-eq (IsPrepared files json_file args) _ prepare_apply-IsPrepared q in
            inl (
              p,
              prepared,
              (load_config-IsValid files args.config p.config prepared.loaded).1,
              approved,
              rw q refl,
            )
        | inr (e, t) ↦ inr (e, rw q t)
      ]

-- ===== src/Planning/Scope.antt =====
-- What a rollback plan undoes.
use mathlib.Core.List.{Perm}
use airgapped_ai_gateway_k8s.Base.{
  ℕ, suc, String, true, ◌≡◌, refl, ◌≢◌, List, [], ◌∷◌, Option, none, some, All, arith, keep, ◌==◌,
  eq_iff,
}
use airgapped_ai_gateway_k8s.Base.Order.{sorted, sorted-perm, All-sorted}
use airgapped_ai_gateway_k8s.Base.Outcome.{ok, IfOk, IfOk-bind, IfOk-eq}
use airgapped_ai_gateway_k8s.Base.Json.{Fields, str, field, end}
use airgapped_ai_gateway_k8s.Models.{GatewayConfig}
use airgapped_ai_gateway_k8s.Ledger.Ref.{identity}
use airgapped_ai_gateway_k8s.Ledger.Entry.{LedgerEntry, LedgerState, created, updated, pre_existing}
use airgapped_ai_gateway_k8s.Ledger.State.{StateLedger, for_run, identity_lt}
use airgapped_ai_gateway_k8s.Planning.Action.{PlanAction}
use airgapped_ai_gateway_k8s.Planning.Plan.{ExecutionPlan, Hashing, with_computed_id}
use airgapped_ai_gateway_k8s.Planning.Build.{validate_apply_mode, verify_context_action}
use airgapped_ai_gateway_k8s.Planning.Rollback.{
  delete_resource_command, restore_action, delete_action, restore_entry, rollback_action,
  rollback_actions, rollback_planned, require_entries, build_rollback_execution_plan,
}

-- The action undoes what the entry records: it deletes a resource that the run created, and puts
-- back the captured state, which must be there, of one that it did not.
pub record IsUndo (e : LedgerEntry) (a : PlanAction) : Type 0 where
  pub resource : a.resource ≡ some e.ref
  pub mutating : a.mutating ≡ true
  pub deletes :
      e.state ≡ created
      → (a.kind ≡ "kubectl-delete-resource") × (a.command ≡ delete_resource_command e.ref)
  pub restores :
      e.state ≢ created
      → (a.kind ≡ "kubectl-restore")
        × (a.payload ≡ some (field "restore_identity" (str (identity e.ref)) end))
        × (e.before ≢ none)

-- One action for each entry, in order.
abbrev pub Undoes : List LedgerEntry → List PlanAction → Type 0
Undoes [] [] = Unit
Undoes (e ∷ es) (a ∷ actions) = IsUndo e a × Undoes es actions
Undoes _ _ = ⊥

restored-IsUndo :
    (index : ℕ) (e : LedgerEntry) → e.state ≢ created → IfOk (IsUndo e) (restore_entry index e)
unfolding restore_entry restore_action
restored-IsUndo index e h = go e.before refl
  where
    go : (before : Option Fields) → e.before ≡ before → IfOk (IsUndo e) (restore_entry index e)
    go none p = rw p tt
    go (some manifest) p = rw p (record {
      resource = refl;
      mutating = refl;
      deletes = λ c. absurd (h c);
      restores = λ _. (refl, refl, λ q. cc);
    })

rollback_action-IsUndo :
    (run_id : String) (index : ℕ) (e : LedgerEntry)
    → IfOk (IsUndo e) (rollback_action run_id index e)
unfolding rollback_action delete_action
rollback_action-IsUndo run_id index e = go e.state refl
  where
    go : (state : LedgerState) → e.state ≡ state → IfOk (IsUndo e) (rollback_action run_id index e)
    go created p = rw p (record {
      resource = refl;
      mutating = refl;
      deletes = λ _. (refl, refl);
      restores = λ n. absurd (n refl);
    })
    go updated p = rw p (restored-IsUndo index (record e { state = updated }) λ q. cc)
    go pre_existing p = rw p (restored-IsUndo index (record e { state = pre_existing }) λ q. cc)

rollback_actions-Undoes :
    (run_id : String) (index : ℕ) (es : List LedgerEntry)
    → IfOk (Undoes es) (rollback_actions run_id index es)
unfolding rollback_actions
rollback_actions-Undoes run_id index [] = tt
rollback_actions-Undoes run_id index (e ∷ es) =
    IfOk-bind (Undoes (e ∷ es)) (rollback_action run_id index e) _ λ action p.
      IfOk-bind (Undoes (e ∷ es)) (rollback_actions run_id (suc index) es)
        (λ actions. ok (action ∷ actions))
        λ actions q. (
          IfOk-eq (IsUndo e) _ (rollback_action-IsUndo run_id index e) p,
          IfOk-eq (Undoes es) _ (rollback_actions-Undoes run_id (suc index) es) q,
        )

-- After the context check, the plan has one action for each entry of the run and no other.
pub record IsScoped (ledger : StateLedger) (run_id : String) (plan : ExecutionPlan) : Type 0 where
  pub entries : List LedgerEntry
  pub actions : List PlanAction
  pub same : Perm entries (for_run ledger run_id).entries
  pub of_run : All (λ e. e.run_id ≡ run_id) entries
  pub planned : plan.actions ≡ verify_context_action ∷ actions
  pub undone : Undoes entries actions

for_run-of_run :
    (run_id : String) (es : List LedgerEntry)
    → All (λ e. e.run_id ≡ run_id) (keep (λ e. e.run_id == run_id) es)
for_run-of_run run_id [] = tt
for_run-of_run run_id (e ∷ es) = ground (arith, for_run-of_run run_id es, eq_iff e.run_id run_id)

-- Whatever the ledger holds, a rollback plan that is returned starts with the context check, and
-- then has exactly one action for each entry of the selected run. The action of an entry with the
-- state `created` deletes that resource. The action of any other entry restores it, and the entry
-- has a captured resource.
pub build_rollback_execution_plan-IsScoped :
    (hashing : Hashing) (config : GatewayConfig) (ledger : StateLedger) (run_id apply_mode : String)
    (plan : ExecutionPlan)
    → build_rollback_execution_plan hashing config ledger run_id apply_mode ≡ ok plan
    → IsScoped ledger run_id plan
unfolding build_rollback_execution_plan with_computed_id for_run
build_rollback_execution_plan-IsScoped hashing config ledger run_id apply_mode plan e =
    IfOk-eq (IsScoped ledger run_id) _ built e
  where
    entries : List LedgerEntry
    entries = sorted identity_lt (for_run ledger run_id).entries

    built :
        IfOk
          (IsScoped ledger run_id)
          (build_rollback_execution_plan hashing config ledger run_id apply_mode)
    built = IfOk-bind (IsScoped ledger run_id) (validate_apply_mode apply_mode) _ λ _ _.
        IfOk-bind (IsScoped ledger run_id) (require_entries (for_run ledger run_id).entries) _
          λ _ _.
            IfOk-bind (IsScoped ledger run_id) (rollback_actions run_id 1 entries)
              (λ actions.
                ok (with_computed_id hashing (rollback_planned config entries apply_mode actions)))
              λ actions p. record {
                entries = entries;
                actions = actions;
                same = sorted-perm identity_lt (for_run ledger run_id).entries;
                of_run =
                    All-sorted identity_lt (λ e. e.run_id ≡ run_id) _
                      (for_run-of_run run_id ledger.entries);
                planned = refl;
                undone = IfOk-eq (Undoes entries) _ (rollback_actions-Undoes run_id 1 entries) p;
              }

-- ===== src/Planning/Undoable.antt =====
-- The rollback of the ledger that `ledger_from_resources` makes.
use airgapped_ai_gateway_k8s.Base.{
  ℕ, suc, String, Bool, true, ◌≡◌, refl, ◌≢◌, List, [], ◌∷◌, map, Option, none, some, All, arith,
  keep, ◌==◌, eq_refl, contains,
}
use airgapped_ai_gateway_k8s.Base.Order.{sorted, All-sorted, insort}
use airgapped_ai_gateway_k8s.Base.Outcome.{ok, IfOk-eq, IfOk-bind}
use airgapped_ai_gateway_k8s.Base.Json.{Fields}
use airgapped_ai_gateway_k8s.Models.{GatewayConfig}
use airgapped_ai_gateway_k8s.Ledger.Ref.{ResourceRef, ref_lt}
use airgapped_ai_gateway_k8s.Ledger.Entry.{LedgerEntry, LedgerState, created, updated, pre_existing}
use airgapped_ai_gateway_k8s.Ledger.Snapshot.{PreChangeSnapshot, require_ok}
use airgapped_ai_gateway_k8s.Ledger.State.{
  StateLedger, for_run, identity_lt, entry_for, ledger_from_resources,
}
use airgapped_ai_gateway_k8s.Planning.Action.{PlanAction}
use airgapped_ai_gateway_k8s.Planning.Plan.{ExecutionPlan, Hashing, with_computed_id}
use airgapped_ai_gateway_k8s.Planning.Build.{validate_apply_mode, apply_modes}
use airgapped_ai_gateway_k8s.Planning.Rollback.{
  restore_entry, rollback_action, rollback_actions, require_entries, rollback_planned,
  build_rollback_execution_plan,
}

-- What an entry needs to be undone.
abbrev pub CanUndo : LedgerEntry → Type 0
CanUndo e = e.state ≢ created → e.before ≢ none

rollback_action-returns :
    (run_id : String) (index : ℕ) (e : LedgerEntry)
    → CanUndo e
    → (a : PlanAction) × (rollback_action run_id index e ≡ ok a)
unfolding rollback_action restore_entry
rollback_action-returns run_id index e h = go e.state e.before h
  where
    go :
        (state : LedgerState) (before : Option Fields)
        → (state ≢ created → before ≢ none)
        → (a : PlanAction) × (rollback_action run_id index
              (record e { state = state; before = before })
            ≡ ok a)
    go created before h = (_, refl)
    go updated (some m) h = (_, refl)
    go updated none h = absurd (h (λ q. cc) refl)
    go pre_existing (some m) h = (_, refl)
    go pre_existing none h = absurd (h (λ q. cc) refl)

rollback_actions-returns :
    (run_id : String) (index : ℕ) (es : List LedgerEntry)
    → All CanUndo es
    → (actions : List PlanAction) × (rollback_actions run_id index es ≡ ok actions)
unfolding rollback_actions
rollback_actions-returns run_id index [] h = ([], refl)
rollback_actions-returns run_id index (e ∷ es) h =
    let first = rollback_action-returns run_id index e h.0 in
    let rest = rollback_actions-returns run_id (suc index) es h.1 in
    (first.0 ∷ rest.0, rw (first.1, rest.1) refl)

-- The entries of `entry_for` can be undone, and are all of the run.
entry_for-CanUndo :
    (snapshot : PreChangeSnapshot) (run_id : String) (rs : List ResourceRef)
    → All CanUndo (map (entry_for snapshot run_id) rs)
unfolding entry_for
entry_for-CanUndo snapshot run_id [] = tt
entry_for-CanUndo snapshot run_id (r ∷ rs) =
    (λ n q. ground arith, entry_for-CanUndo snapshot run_id rs)

for_run-entry_for :
    (snapshot : PreChangeSnapshot) (run_id : String) (rs : List ResourceRef)
    → keep (λ e. e.run_id == run_id) (map (entry_for snapshot run_id) rs)
      ≡ map (entry_for snapshot run_id) rs
unfolding entry_for
for_run-entry_for snapshot run_id [] = refl
for_run-entry_for snapshot run_id (r ∷ rs) =
    rw (eq_refl run_id, for_run-entry_for snapshot run_id rs) refl

insort-nonempty : {A : Type 0} (lt : A → A → Bool) (x : A) (ys : List A) → insort lt x ys ≢ []
unfolding insort
insort-nonempty lt x [] = λ q. cc
insort-nonempty lt x (y ∷ ys) = λ q. ground arith

sorted-nonempty : {A : Type 0} (lt : A → A → Bool) (xs : List A) → xs ≢ [] → sorted lt xs ≢ []
unfolding sorted
sorted-nonempty lt [] h = h
sorted-nonempty lt (x ∷ xs) h = insort-nonempty lt x (sorted lt xs)

require-entry_for :
    (snapshot : PreChangeSnapshot) (run_id : String) (rs : List ResourceRef)
    → rs ≢ []
    → require_entries (map (entry_for snapshot run_id) rs) ≡ ok tt
unfolding require_entries
require-entry_for snapshot run_id [] h = absurd (h refl)
require-entry_for snapshot run_id (r ∷ rs) h = refl

entries_of :
    (resources : List ResourceRef) (snapshot : PreChangeSnapshot) (run_id : String)
    (ledger : StateLedger)
    → ledger_from_resources resources snapshot run_id ≡ ok ledger
    → ledger.entries ≡ map (entry_for snapshot run_id) (sorted ref_lt resources)
unfolding ledger_from_resources
entries_of resources snapshot run_id ledger e =
    IfOk-eq (λ l. l.entries ≡ map (entry_for snapshot run_id) (sorted ref_lt resources)) _
      (IfOk-bind _ (require_ok snapshot) _ λ _ _. refl) e

module _ (hashing : Hashing) (config : GatewayConfig) where
  -- The ledger that a run makes of at least one resource can be rolled back: in a supported mode,
  -- the rollback plan for that run is returned.
  pub ledger_from_resources-undoable :
      (resources : List ResourceRef) (snapshot : PreChangeSnapshot) (run_id apply_mode : String)
      (ledger : StateLedger)
      → resources ≢ []
      → contains apply_modes apply_mode ≡ true
      → ledger_from_resources resources snapshot run_id ≡ ok ledger
      → (plan : ExecutionPlan) × (build_rollback_execution_plan hashing config ledger run_id
            apply_mode
          ≡ ok plan)
  unfolding build_rollback_execution_plan for_run validate_apply_mode
  ledger_from_resources-undoable resources snapshot run_id apply_mode ledger some_resource mode e =
      let rs = sorted ref_lt resources in
      let es = map (entry_for snapshot run_id) rs in
      let returned =
        rollback_actions-returns run_id 1 (sorted identity_lt es)
          (All-sorted identity_lt CanUndo es (entry_for-CanUndo snapshot run_id rs)) in
      (
        with_computed_id hashing
            (rollback_planned config (sorted identity_lt es) apply_mode returned.0),
        rw
            (
              entries_of resources snapshot run_id ledger e,
              mode,
              for_run-entry_for snapshot run_id rs,
              require-entry_for snapshot run_id rs (sorted-nonempty ref_lt resources some_resource),
              returned.1,
            )
            refl,
      )

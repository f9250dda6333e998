-- ===== src/Execution/Restore.antt =====
-- Which resource a restore action puts back.
use airgapped_ai_gateway_k8s.Base.{
  ℕ, String, ◌≡◌, refl, List, [], ◌∷◌, ◌++◌, none, some, All, arith, eq_iff, eq_refl,
}
use airgapped_ai_gateway_k8s.Base.Outcome.{ok}
use airgapped_ai_gateway_k8s.Base.Json.{Fields}
use airgapped_ai_gateway_k8s.Ledger.Ref.{identity}
use airgapped_ai_gateway_k8s.Ledger.Entry.{LedgerEntry}
use airgapped_ai_gateway_k8s.Planning.Rollback.{restore_action}
use airgapped_ai_gateway_k8s.Execution.Step.{find_before, restore_manifest}

-- The entry has another identity, or no captured resource.
abbrev pub Passes : String → LedgerEntry → Type 0
Passes wanted e = identity e.ref ≡ wanted → e.before ≡ none

find_before-passed :
    (wanted : String) (earlier rest : List LedgerEntry)
    → All (Passes wanted) earlier
    → find_before wanted (earlier ++ rest) ≡ find_before wanted rest
unfolding find_before
find_before-passed wanted [] rest h = refl
find_before-passed wanted (e ∷ earlier) rest h =
    ground (arith, eq_iff (identity e.ref) wanted, find_before-passed wanted earlier rest h.1)

-- A restore action puts back the captured resource of the first entry of the ledger that has the
-- identity of the action's resource and a captured resource. The run of that entry plays no role.
pub restore_manifest-first :
    (index : ℕ) (e first : LedgerEntry) (earlier rest : List LedgerEntry) (manifest : Fields)
    → All (Passes (identity e.ref)) earlier
    → identity first.ref ≡ identity e.ref
    → first.before ≡ some manifest
    → restore_manifest
        (restore_action index e)
        (some (record { entries = earlier ++ first ∷ rest }))
      ≡ ok manifest
unfolding restore_manifest find_before restore_action
restore_manifest-first index e first earlier rest manifest passed same captured =
    rw
      (
        restore_manifest,
        find_before-passed (identity e.ref) earlier (first ∷ rest) passed,
        captured,
        same,
        eq_refl (identity e.ref),
      )
      refl

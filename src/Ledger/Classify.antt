-- ===== src/Ledger/Classify.antt =====
-- What the ledger of a run says of each resource.
use mathlib.Core.List.{Perm}
use airgapped_ai_gateway_k8s.Base.{
  String, ◌≡◌, refl, ◌≢◌, ◌↔◌, List, [], ◌∷◌, map, none, All, arith, eq_iff,
}
use airgapped_ai_gateway_k8s.Base.Order.{sorted, sorted-perm}
use airgapped_ai_gateway_k8s.Base.Outcome.{ok}
use airgapped_ai_gateway_k8s.Ledger.Ref.{ResourceRef, identity, ref_lt}
use airgapped_ai_gateway_k8s.Ledger.Entry.{LedgerEntry, created, updated}
use airgapped_ai_gateway_k8s.Ledger.Snapshot.{PreChangeSnapshot, find_resource}
use airgapped_ai_gateway_k8s.Ledger.State.{StateLedger, entry_for, ledger_from_resources}

-- An entry says what the snapshot says: the captured resource if there is one, and `updated` or
-- `created` by that.
pub record IsClassified (snapshot : PreChangeSnapshot) (run_id : String) (e : LedgerEntry)
    : Type 0 where
  pub captured : e.before ≡ find_resource (identity e.ref) snapshot.resources
  pub created_iff : (e.state ≡ created) ↔ (e.before ≡ none)
  pub updated_iff : (e.state ≡ updated) ↔ (e.before ≢ none)
  pub of_run : e.run_id ≡ run_id

entry_for-IsClassified :
    (snapshot : PreChangeSnapshot) (run_id : String) (r : ResourceRef)
    → IsClassified snapshot run_id (entry_for snapshot run_id r)
unfolding entry_for
entry_for-IsClassified snapshot run_id r = record {
  captured = refl;
  created_iff = ground arith;
  updated_iff = ground arith;
  of_run = refl;
}

refs-entry_for :
    (snapshot : PreChangeSnapshot) (run_id : String) (rs : List ResourceRef)
    → map (λ (e : LedgerEntry). e.ref) (map (entry_for snapshot run_id) rs) ≡ rs
unfolding entry_for
refs-entry_for snapshot run_id [] = refl
refs-entry_for snapshot run_id (r ∷ rs) = ground (arith, refs-entry_for snapshot run_id rs)

All-entry_for :
    (snapshot : PreChangeSnapshot) (run_id : String) (rs : List ResourceRef)
    → All (IsClassified snapshot run_id) (map (entry_for snapshot run_id) rs)
All-entry_for snapshot run_id [] = tt
All-entry_for snapshot run_id (r ∷ rs) =
    (entry_for-IsClassified snapshot run_id r, All-entry_for snapshot run_id rs)

-- From a snapshot that succeeded the ledger is made, it has one entry for each of the given
-- resources and no other, and each entry has the run's id, the resource that the snapshot holds
-- under its identity, and the state `updated` exactly if there is one and `created` exactly if not.
pub ledger_from_resources-IsClassified :
    (resources : List ResourceRef) (snapshot : PreChangeSnapshot) (run_id : String)
    → snapshot.status ≡ "ok"
    → (l : StateLedger) × (ledger_from_resources resources snapshot run_id ≡ ok l)
      × Perm (map (λ (e : LedgerEntry). e.ref) l.entries) resources
      × All (IsClassified snapshot run_id) l.entries
unfolding ledger_from_resources
ledger_from_resources-IsClassified resources snapshot run_id h = (
  record { entries = map (entry_for snapshot run_id) (sorted ref_lt resources) },
  ground (arith, eq_iff snapshot.status "ok"),
  rw (refs-entry_for snapshot run_id (sorted ref_lt resources)) (sorted-perm ref_lt resources),
  All-entry_for snapshot run_id (sorted ref_lt resources),
)

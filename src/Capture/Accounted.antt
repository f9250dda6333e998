-- ===== src/Capture/Accounted.antt =====
-- Which resources of a plan a snapshot of snapshot.py accounts for.
use mathlib.Core.Path.{subst}
use airgapped_ai_gateway_k8s.Base.{
  String, true, not, List, [], ◌∷◌, none, ◌≡◌, refl, ◌≢◌, ◌⊎◌, inl, inr, All, ◌==◌, eq_refl, arith,
  Bool-cases,
}
use airgapped_ai_gateway_k8s.Base.Int.{pos, int_eq}
use airgapped_ai_gateway_k8s.Base.Outcome.{Result, ok, err, raise_if, safety_error, ok-injective}
use airgapped_ai_gateway_k8s.Base.Json.{Fields}
use airgapped_ai_gateway_k8s.Base.Exec.{pure, raise, lift, ◌>>=◌, continue, after_bind}
use airgapped_ai_gateway_k8s.Base.Runner.{Call, History, Runner, plain_call, run}
use airgapped_ai_gateway_k8s.Models.{CommandResult}
use airgapped_ai_gateway_k8s.Ledger.Ref.{ResourceRef, identity}
use airgapped_ai_gateway_k8s.Ledger.Snapshot.{PreChangeSnapshot, Resources, find_resource}
use airgapped_ai_gateway_k8s.Planning.Plan.{ExecutionPlan}
use airgapped_ai_gateway_k8s.Conditions.Poll.{Loads}
use airgapped_ai_gateway_k8s.Capture.{
  SnapshotReport, Progress, nothing_yet, set_resource, parse_manifest, is_not_found, get_call,
  with_resource, captured, capture_report, verify_current_context, note_answer, capture_one,
  capture_all, capture_snapshot,
}

abbrev pub Held : String → Resources → Type 0
Held wanted resources = find_resource wanted resources ≢ none

Held-set_same :
    (wanted : String) (manifest : Fields) (resources : Resources)
    → Held wanted (set_resource wanted manifest resources)
unfolding set_resource find_resource
Held-set_same wanted manifest [] = rw (eq_refl wanted) (λ e. cc)
Held-set_same wanted manifest ((key, held) ∷ rest) =
    ground (arith, Held-set_same wanted manifest rest)

Held-set :
    (wanted other : String) (manifest : Fields) (resources : Resources)
    → Held wanted resources
    → Held wanted (set_resource other manifest resources)
unfolding set_resource find_resource
Held-set wanted other manifest [] h = absurd (h refl)
Held-set wanted other manifest ((key, held) ∷ rest) h = elim (Bool-cases (key == other)) [
  | inl e ↦ rw e (ground arith)
  | inr n ↦ rw n (ground (arith, Held-set wanted other manifest rest))
]

module _ (loads : Loads) (lower : String → String) (runner : Runner) where
  -- Some call so far read the resource, and the answer was that it does not exist.
  abbrev pub Missed : ResourceRef → History → Type 0
  Missed ref [] = ⊥
  Missed ref (call ∷ calls) =
      ((call ≡ get_call lower ref)
        × ((result : CommandResult) × (runner calls call ≡ ok result)
            × (is_not_found lower result ≡ true)))
      ⊎ Missed ref calls

  abbrev Accounted : ResourceRef → Progress → History → Type 0
  Accounted ref p calls = Held (identity ref) p.resources ⊎ Missed ref calls

  -- The step from one state of the loop to another loses nothing.
  abbrev Grows : Progress → History → Progress → History → Type 0
  Grows p calls q later = (ref : ResourceRef) → Accounted ref p calls → Accounted ref q later

  abbrev Step : ResourceRef → Progress → History → Result Progress × History → Type 0
  Step ref p calls (err e, later) = Unit
  Step ref p calls (ok q, later) = Accounted ref q later × Grows p calls q later

  Step-parsed :
      (ref : ResourceRef) (p : Progress) (calls : History) (call : Call) (parsed : Result Fields)
      → Step ref p calls (
          continue
            (lift parsed (call ∷ calls)).0
            (λ manifest. pure (with_resource ref manifest p))
            (call ∷ calls))
  unfolding continue lift pure
  Step-parsed ref p calls call (err e) = tt
  Step-parsed ref p calls call (ok manifest) = (
    inl (Held-set_same (identity ref) manifest p.resources),
    λ other known. elim known [
      | inl held ↦ inl (Held-set (identity other) (identity ref) manifest p.resources held)
      | inr missed ↦ inr (inr missed)
    ],
  )

  Step-note_answer :
      (ref : ResourceRef) (p : Progress) (result : CommandResult) (calls : History)
      → runner calls (get_call lower ref) ≡ ok result
      → Step ref p calls (note_answer loads lower runner ref p result (get_call lower ref ∷ calls))
  unfolding note_answer lift pure raise ◌>>=◌
  Step-note_answer ref p result calls answered =
      elim (Bool-cases (int_eq result.returncode (pos 0))) [
        | inl zero ↦
            rw zero
              (Step-parsed ref p calls (get_call lower ref) (parse_manifest loads result.stdout))
        | inr other ↦ elim (Bool-cases (is_not_found lower result)) [
          | inl absent ↦
              rw (other, absent)
                (
                  inr (inl (refl, (result, answered, absent))),
                  λ ref known. elim known [ inl held ↦ inl held | inr missed ↦ inr (inr missed) ],
                )
          | inr failed ↦ rw (other, failed) tt
        ]
      ]

  -- What holds after one more call held before it.
  Step-later :
      (ref : ResourceRef) (p : Progress) (call : Call) (calls : History)
      (o : Result Progress × History)
      → Step ref p (call ∷ calls) o
      → Step ref p calls o
  Step-later ref p call calls (err e, later) h = tt
  Step-later ref p call calls (ok q, later) h = (
    h.0,
    λ other known. elim known [
      | inl held ↦ h.1 other (inl held)
      | inr missed ↦ h.1 other (inr (inr missed))
    ],
  )

  Step-read :
      (ref : ResourceRef) (p : Progress) (calls : History)
      → Step ref p calls
          ((run runner (get_call lower ref) >>= note_answer loads lower runner ref p) calls)
  unfolding run ◌>>=◌
  Step-read ref p calls = go (runner calls (get_call lower ref)) refl
    where
      go :
          (r : Result CommandResult)
          → runner calls (get_call lower ref) ≡ r
          → Step ref p calls
              (continue r (note_answer loads lower runner ref p) (get_call lower ref ∷ calls))
      go (ok result) e = Step-note_answer ref p result calls e
      go (err x) e = tt

  abbrev context_call : Call
  context_call = plain_call ("kubectl" ∷ "config" ∷ "current-context" ∷ [])

  verified_calls :
      (context : String) (calls : History)
      → (verify_current_context loads lower runner context calls).1 ≡ context_call ∷ calls
  unfolding verify_current_context run lift ◌>>=◌ continue
  verified_calls context calls = go (runner calls context_call) refl
    where
      go :
          (r : Result CommandResult)
          → runner calls context_call ≡ r
          → (verify_current_context loads lower runner context calls).1 ≡ context_call ∷ calls
      go (ok result) e = rw e refl
      go (err x) e = rw e refl

  Step-capture_one :
      (context : String) (ref : ResourceRef) (p : Progress) (calls : History)
      → Step ref p calls (capture_one loads lower runner context ref p calls)
  unfolding capture_one
  Step-capture_one context ref p calls =
      after_bind (Step ref p calls) (verify_current_context loads lower runner context) _ calls
        (λ _ e.
          rw (verified_calls context calls)
            (Step-later ref p context_call calls _ (Step-read ref p (context_call ∷ calls))))
        (λ x e. tt)

  outcome_of :
      (ref : ResourceRef) (p : Progress) (calls : History) (o : Result Progress × History)
      {q : Progress}
      → Step ref p calls o
      → o.0 ≡ ok q
      → Accounted ref q o.1 × Grows p calls q o.1
  outcome_of ref p calls (ok r, later) step e =
      subst (λ x. Accounted ref x later × Grows p calls x later) (ok-injective e) step
  outcome_of ref p calls (err x, later) step e = cc

  -- What holds of the loop's end.
  abbrev End : List ResourceRef → Progress → History → Result Progress × History → Type 0
  End refs p calls (err e, later) = Unit
  End refs p calls (ok q, later) = All (λ ref. Accounted ref q later) refs × Grows p calls q later

  End-cons :
      (ref : ResourceRef) (refs : List ResourceRef) (p q : Progress) (calls later : History)
      (o : Result Progress × History)
      → Accounted ref q later × Grows p calls q later
      → End refs q later o
      → End (ref ∷ refs) p calls o
  End-cons ref refs p q calls later (err e, last) step end = tt
  End-cons ref refs p q calls later (ok r, last) step end =
      ((end.1 ref step.0, end.0), λ other known. end.1 other (step.1 other known))

  End-capture_all :
      (context : String) (refs : List ResourceRef) (p : Progress) (calls : History)
      → End refs p calls (capture_all loads lower runner context refs p calls)
  unfolding capture_all pure
  End-capture_all context [] p calls = (tt, λ ref known. known)
  End-capture_all context (ref ∷ refs) p calls =
      after_bind (End (ref ∷ refs) p calls) (capture_one loads lower runner context ref p) _ calls
        (λ q e.
          End-cons ref refs p q calls (capture_one loads lower runner context ref p calls).1 _
            (outcome_of ref p calls _ (Step-capture_one context ref p calls) e)
            (End-capture_all context refs q (capture_one loads lower runner context ref p calls).1))
        (λ x e. tt)

  -- What holds of a capture.
  abbrev Captured : ExecutionPlan → Result (PreChangeSnapshot × SnapshotReport) × History → Type 0
  Captured plan (err e, later) = Unit
  Captured plan (ok (snapshot, report), later) =
      (snapshot.status ≡ "ok")
      × All (λ ref. Held (identity ref) snapshot.resources ⊎ Missed ref later) plan.resources

  Captured-End :
      (plan : ExecutionPlan) (calls : History) (o : Result Progress × History)
      → End plan.resources nothing_yet calls o
      → Captured plan (continue o.0 (λ p. pure (captured p, capture_report p)) o.1)
  unfolding continue pure
  Captured-End plan calls (ok p, later) end = (refl, end.0)
  Captured-End plan calls (err e, later) end = tt

  Captured-capture_snapshot :
      (plan : ExecutionPlan) (context : String) (calls : History)
      → Captured plan (capture_snapshot loads lower runner plan context calls)
  unfolding capture_snapshot ◌>>=◌ lift
  Captured-capture_snapshot plan context calls = go (
      raise_if (not (context == plan.expected_context))
        (safety_error "expected context must match the saved plan exactly"))
    where
      go :
          (r : Result (Unit {0}))
          → Captured plan (
              continue r
                (λ _. capture_all loads lower runner context plan.resources nothing_yet >>= λ p.
                  pure (captured p, capture_report p))
                calls)
      go (err e) = tt
      go (ok _) =
          Captured-End plan calls _ (End-capture_all context plan.resources nothing_yet calls)

  snapshot_of :
      (plan : ExecutionPlan) (o : Result (PreChangeSnapshot × SnapshotReport) × History)
      {c : PreChangeSnapshot × SnapshotReport}
      → Captured plan o
      → o.0 ≡ ok c
      → Captured plan (ok c, o.1)
  snapshot_of plan (ok d, later) h e = subst (λ x. Captured plan (ok x, later)) (ok-injective e) h
  snapshot_of plan (err x, later) h e = cc

  -- For any runner: if a snapshot is captured, then each resource of the plan is held by the
  -- snapshot under its identity, or some call read that resource and the answer was that it was not
  -- found; and the snapshot is usable.
  pub capture_snapshot-Accounted :
      (plan : ExecutionPlan) (context : String) (calls : History) (snapshot : PreChangeSnapshot)
      (report : SnapshotReport)
      → (capture_snapshot loads lower runner plan context calls).0 ≡ ok (snapshot, report)
      → (snapshot.status ≡ "ok")
        × All
            (λ ref.
              Held (identity ref) snapshot.resources
              ⊎ Missed ref (capture_snapshot loads lower runner plan context calls).1)
            plan.resources
  capture_snapshot-Accounted plan context calls snapshot report h =
      snapshot_of plan _ (Captured-capture_snapshot plan context calls) h

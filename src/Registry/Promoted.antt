-- ===== src/Registry/Promoted.antt =====
-- What the results of a promotion say.
use mathlib.Core.Path.{subst}
use airgapped_ai_gateway_k8s.Base.{
  String, Bool, true, false, not, List, [], ◌∷◌, ◌≡◌, refl, ◌⊎◌, inl, inr, Bool-cases,
  if◌then◌else◌,
}
use airgapped_ai_gateway_k8s.Base.Int.{pos, int_eq}
use airgapped_ai_gateway_k8s.Base.Outcome.{Result, ok, err, bundle_error, ok-injective}
use airgapped_ai_gateway_k8s.Base.Json.{Value}
use airgapped_ai_gateway_k8s.Base.Exec.{Exec, pure, raise, lift, ◌>>=◌, continue, after_bind}
use airgapped_ai_gateway_k8s.Base.Runner.{History, Runner, plain_call, run}
use airgapped_ai_gateway_k8s.Models.{CommandResult}
use airgapped_ai_gateway_k8s.Registry.{
  PromotionAction, Promotion, read_promotion, copy_image, promote, promote_all,
}

module _ (runner : Runner) where
  -- Some call so far ran the command, and it succeeded.
  abbrev pub Ran : List String → History → Type 0
  Ran argv [] = ⊥
  Ran argv (call ∷ calls) =
      ((call ≡ plain_call argv)
        × ((result : CommandResult) × (runner calls call ≡ ok result)
            × (int_eq result.returncode (pos 0) ≡ true)))
      ⊎ Ran argv calls

  -- The result of an action is true of the commands that ran.
  abbrev pub IsDone : PromotionAction → Promotion → History → Type 0
  IsDone a r calls =
      (r.name ≡ a.name)
      × (((r.status ≡ "promoted") × Ran a.copy_command calls)
          ⊎ ((r.status ≡ "already-present")
              × (a.check_existing ≡ true)
              × Ran a.existence_check calls))

  -- No call is lost.
  abbrev Later : History → History → Type 0
  Later calls later = (argv : List String) → Ran argv calls → Ran argv later

  abbrev Step : PromotionAction → History → Result Promotion × History → Type 0
  Step a calls (err e, later) = Unit
  Step a calls (ok r, later) = IsDone a r later × Later calls later

  Step-Later :
      (a : PromotionAction) (calls : History) (argv : List String) (o : Result Promotion × History)
      → Step a (plain_call argv ∷ calls) o
      → Step a calls o
  Step-Later a calls argv (err e, later) h = tt
  Step-Later a calls argv (ok r, later) h = (h.0, λ other ran. h.1 other (inr ran))

  Step-copied :
      (a : PromotionAction) (calls : History) (result : CommandResult)
      → runner calls (plain_call a.copy_command) ≡ ok result
      → Step a calls (
          (if not (int_eq result.returncode (pos 0))
              then raise (bundle_error "registry promotion failed")
              else pure (record { name = a.name; status = "promoted" }))
            (plain_call a.copy_command ∷ calls))
  unfolding raise pure
  Step-copied a calls result e = elim (Bool-cases (int_eq result.returncode (pos 0))) [
    | inl zero ↦ rw zero ((refl, inl (refl, inl (refl, (result, e, zero)))), λ argv ran. inr ran)
    | inr other ↦ rw other tt
  ]

  Step-copy_image :
      (a : PromotionAction) (calls : History) → Step a calls (copy_image runner a calls)
  unfolding copy_image run ◌>>=◌ continue
  Step-copy_image a calls = go (runner calls (plain_call a.copy_command)) refl
    where
      go :
          (r : Result CommandResult)
          → runner calls (plain_call a.copy_command) ≡ r
          → Step a calls (copy_image runner a calls)
      go (ok result) e = rw e (Step-copied a calls result e)
      go (err x) e = rw e tt

  Step-checked :
      (a : PromotionAction) (calls : History) (result : CommandResult)
      → a.check_existing ≡ true
      → runner calls (plain_call a.existence_check) ≡ ok result
      → Step a calls (
          (if int_eq result.returncode (pos 0)
              then pure (record { name = a.name; status = "already-present" })
              else copy_image runner a)
            (plain_call a.existence_check ∷ calls))
  unfolding pure
  Step-checked a calls result check e = elim (Bool-cases (int_eq result.returncode (pos 0))) [
    | inl zero ↦
        rw zero ((refl, inr (refl, check, inl (refl, (result, e, zero)))), λ argv ran. inr ran)
    | inr other ↦ rw other (
        Step-Later a calls a.existence_check _
          (Step-copy_image a (plain_call a.existence_check ∷ calls)))
  ]

  Step-checking :
      (a : PromotionAction) (calls : History)
      → a.check_existing ≡ true
      → Step a calls (
          (run runner (plain_call a.existence_check) >>= λ check.
          if int_eq check.returncode (pos 0)
          then pure (record { name = a.name; status = "already-present" })
          else copy_image runner a)
            calls)
  unfolding run ◌>>=◌
  Step-checking a calls check = go (runner calls (plain_call a.existence_check)) refl
    where
      go :
          (r : Result CommandResult)
          → runner calls (plain_call a.existence_check) ≡ r
          → Step a calls (
              continue r
                (λ check.
                  if int_eq check.returncode (pos 0)
                  then pure (record { name = a.name; status = "already-present" })
                  else copy_image runner a)
                (plain_call a.existence_check ∷ calls))
      go (ok result) e = Step-checked a calls result check e
      go (err x) e = tt

  Step-promote : (a : PromotionAction) (calls : History) → Step a calls (promote runner a calls)
  unfolding promote
  Step-promote a calls = split a.check_existing
    where
      split :
          (b : Bool)
          → Step
              (record a { check_existing = b })
              calls
              (promote runner (record a { check_existing = b }) calls)
      split true = Step-checking (record a { check_existing = true }) calls refl
      split false = Step-copy_image (record a { check_existing = false }) calls

  -- One result for each action of the plan, in order, each true of the commands that ran.
  abbrev pub AreDone : (String → Bool) → List Value → List Promotion → History → Type 0
  AreDone zero_real [] [] calls = Unit
  AreDone zero_real (value ∷ values) (r ∷ rs) calls =
      ((a : PromotionAction) × (read_promotion zero_real value ≡ ok a) × IsDone a r calls)
      × AreDone zero_real values rs calls
  AreDone zero_real _ _ calls = ⊥

  IsDone-Later :
      (a : PromotionAction) (r : Promotion) (calls later : History)
      → Later calls later
      → IsDone a r calls
      → IsDone a r later
  IsDone-Later a r calls later h done = (
    done.0,
    elim done.1 [
      | inl promoted ↦ inl (promoted.0, h a.copy_command promoted.1)
      | inr present ↦ inr (present.0, present.1, h a.existence_check present.2)
    ],
  )

  module _ (zero_real : String → Bool) where
    abbrev End : List Value → History → Result (List Promotion) × History → Type 0
    End values calls (err e, later) = Unit
    End values calls (ok rs, later) = AreDone zero_real values rs later × Later calls later

    End-cons :
        (value : Value) (values : List Value) (a : PromotionAction) (r : Promotion)
        (calls middle : History) (o : Result (List Promotion) × History)
        → read_promotion zero_real value ≡ ok a
        → IsDone a r middle × Later calls middle
        → End values middle o
        → End (value ∷ values) calls (continue o.0 (λ rs. pure (r ∷ rs)) o.1)
    unfolding continue pure
    End-cons value values a r calls middle (err e, later) read step end = tt
    End-cons value values a r calls middle (ok rs, later) read step end = (
      ((a, read, IsDone-Later a r middle later end.1 step.0), end.0),
      λ argv ran. end.1 argv (step.1 argv ran),
    )

    End-rest :
        (value : Value) (values : List Value) (a : PromotionAction) (r : Promotion)
        (calls middle : History) (m : Exec History (List Promotion))
        → read_promotion zero_real value ≡ ok a
        → IsDone a r middle × Later calls middle
        → End values middle (m middle)
        → End (value ∷ values) calls ((m >>= λ rs. pure (r ∷ rs)) middle)
    unfolding ◌>>=◌
    End-rest value values a r calls middle m = End-cons value values a r calls middle (m middle)

    outcome_of :
        (a : PromotionAction) (calls : History) (o : Result Promotion × History) {r : Promotion}
        → Step a calls o
        → o.0 ≡ ok r
        → IsDone a r o.1 × Later calls o.1
    outcome_of a calls (ok q, later) step e =
        subst (λ x. IsDone a x later × Later calls later) (ok-injective e) step
    outcome_of a calls (err x, later) step e = cc

    End-promote_all :
        (values : List Value) (calls : History)
        → End values calls (promote_all runner zero_real values calls)
    unfolding promote_all pure lift
    End-promote_all [] calls = (tt, λ argv ran. ran)
    End-promote_all (value ∷ values) calls =
        after_bind (End (value ∷ values) calls) (lift (read_promotion zero_real value)) _ calls
          (λ a read.
            after_bind (End (value ∷ values) calls) (promote runner a) _ calls
              (λ r e.
                End-rest value values a r calls (promote runner a calls).1
                  (promote_all runner zero_real values) read
                  (outcome_of a calls (promote runner a calls) (Step-promote a calls) e)
                  (End-promote_all values (promote runner a calls).1))
              (λ x e. tt))
          (λ x e. tt)

    done_of :
        (values : List Value) (calls : History) (o : Result (List Promotion) × History)
        {rs : List Promotion}
        → End values calls o
        → o.0 ≡ ok rs
        → AreDone zero_real values rs o.1
    done_of values calls (ok qs, later) end e =
        subst (λ x. AreDone zero_real values x later) (ok-injective e) end.0
    done_of values calls (err x, later) end e = cc

    -- For any runner: if the promotion of the plan's actions returns, there is one result for each
    -- action, in order, under its name. The status is `promoted` and the action's copy command was
    -- run and succeeded, or it is `already-present`, the action asked for the check, and its
    -- existence check was run and succeeded.
    pub promote_all-AreDone :
        (values : List Value) (calls : History) (results : List Promotion)
        → (promote_all runner zero_real values calls).0 ≡ ok results
        → AreDone zero_real values results (promote_all runner zero_real values calls).1
    promote_all-AreDone values calls results e =
        done_of values calls _ (End-promote_all values calls) e

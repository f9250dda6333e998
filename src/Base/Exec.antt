-- ===== src/Base/Exec.antt =====
-- Code that changes a state and may raise. What was done before an exception stays done, so the
-- state comes back beside the exception too.
use mathlib.Core.Path.{◌≡◌, refl}
use mathlib.Core.Bool.{Bool, true, false}
use airgapped_ai_gateway_k8s.Base.Tests.{if◌then◌else◌}
use airgapped_ai_gateway_k8s.Base.Outcome.{Error, Result, ok, err}

abbrev pub Exec : Type 0 → Type 0 → Type 0
Exec S A = S → Result A × S

unfoldable pub pure : {S A : Type 0} → A → Exec S A
pure a s = (ok a, s)

unfoldable pub raise : {S A : Type 0} → Error → Exec S A
raise e s = (err e, s)

-- A call that does not touch the state.
unfoldable pub lift : {S A : Type 0} → Result A → Exec S A
lift r s = (r, s)

unfoldable pub modify : {S : Type 0} → (S → S) → Exec S (Unit {0})
modify f s = (ok tt, f s)

-- What follows a result: nothing more, if it is an exception.
unfoldable pub continue : {S A B : Type 0} → Result A → (A → Exec S B) → Exec S B
continue (ok a) f s = f a s
continue (err e) f s = (err e, s)

infixl 5 ◌>>=◌ ◌>>◌
unfoldable pub ◌>>=◌ : {S A B : Type 0} → Exec S A → (A → Exec S B) → Exec S B
unfolding continue pure raise lift modify
◌>>=◌ m f s = continue (m s).0 f (m s).1

abbrev pub ◌>>◌ : {S B : Type 0} → Exec S (Unit {0}) → Exec S B → Exec S B
m >> n = m >>= λ _. n

-- `m` preserves `P`, whether it returns or raises.
pub record Keeps {S A : Type 0} (P : S → Type 0) (m : Exec S A) : Type 0 where
  pub from : (s : S) → P s → P (m s).1

module _ {S A : Type 0} {P : S → Type 0} where
  pub Keeps-lift : (r : Result A) → Keeps P (lift r)
  unfolding lift
  Keeps-lift r = record { from = λ s h. h }

  pub Keeps-pure : (a : A) → Keeps P (pure a)
  unfolding pure
  Keeps-pure a = record { from = λ s h. h }

  pub Keeps-raise : (e : Error) → Keeps P (raise {A = A} e)
  unfolding raise
  Keeps-raise e = record { from = λ s h. h }

  pub Keeps-if : (b : Bool) (m n : Exec S A) → Keeps P m → Keeps P n → Keeps P (if b then m else n)
  Keeps-if true m n km kn = km
  Keeps-if false m n km kn = kn

module _ {S A B : Type 0} {P : S → Type 0} where
  Keeps-continue :
      (result : Result A) (next : A → Exec S B)
      → ((value : A) → Keeps P (next value))
      → Keeps P (continue result next)
  unfolding continue
  Keeps-continue (err e) next kept_next = record { from = λ state kept. kept }
  Keeps-continue (ok value) next kept_next = kept_next value

  pub Keeps-bind :
      (first : Exec S A) (next : A → Exec S B)
      → Keeps P first
      → ((value : A) → Keeps P (next value))
      → Keeps P (first >>= next)
  unfolding ◌>>=◌
  Keeps-bind first next kept_first kept_next = record {
    from = λ state kept.
        (Keeps-continue (first state).0 next kept_next).from (first state).1
          (kept_first.from state kept);
  }

pub ruleset keeps_rules = (Keeps-if, Keeps-lift, Keeps-pure, Keeps-raise, Keeps-bind)

module _ {S A B : Type 0} (P : Result B × S → Type 0) (m : Exec S A) (f : A → Exec S B)
    (s : S) where
  -- What follows `m` may use what `m` returned.
  pub after_bind :
      ((a : A) → (m s).0 ≡ ok a → P (f a (m s).1))
      → ((e : Error) → (m s).0 ≡ err e → P (err e, (m s).1))
      → P ((m >>= f) s)
  unfolding ◌>>=◌
  after_bind returned raised = go (m s).0 refl
    where
      go : (r : Result A) → (m s).0 ≡ r → P (continue r f (m s).1)
      go (ok a) p = returned a p
      go (err e) p = raised e p

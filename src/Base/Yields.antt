-- ===== src/Base/Yields.antt =====
-- What a call in the state returns, whenever it returns.
use mathlib.Core.Path.{◌≡◌, refl}
use mathlib.Core.Bool.{Bool, true, false}
use airgapped_ai_gateway_k8s.Base.Tests.{if◌then◌else◌}
use airgapped_ai_gateway_k8s.Base.Outcome.{Error, Result, ok, err, IfOk}
use airgapped_ai_gateway_k8s.Base.Exec.{Exec, pure, raise, lift, continue, ◌>>=◌}

-- Whatever the state, what `m` returns satisfies `P`.
pub record Yields {S A : Type 0} (P : A → Type 0) (m : Exec S A) : Type 0 where
  pub from : (s : S) → IfOk P (m s).0

module _ {S A : Type 0} {P : A → Type 0} where
  pub Yields-pure : (a : A) → P a → Yields {S = S} P (pure a)
  unfolding pure
  Yields-pure a h = record { from = λ s. h }

  -- What a call outside the state returns.
  pub Yields-lift : (r : Result A) → ((a : A) → r ≡ ok a → P a) → Yields {S = S} P (lift r)
  unfolding lift
  Yields-lift (ok a) h = record { from = λ s. h a refl }
  Yields-lift (err e) h = record { from = λ s. tt }

  pub Yields-raise : (e : Error) → Yields {S = S} P (raise e)
  unfolding raise
  Yields-raise e = record { from = λ s. tt }

  pub Yields-if :
      (b : Bool) (m n : Exec S A) → Yields P m → Yields P n → Yields P (if b then m else n)
  Yields-if true m n hm hn = hm
  Yields-if false m n hm hn = hn

module _ {S A B : Type 0} {P : B → Type 0} where
  pub Yields-bind :
      (m : Exec S A) (f : A → Exec S B) → ((a : A) → Yields P (f a)) → Yields P (m >>= f)
  unfolding ◌>>=◌ continue
  Yields-bind m f h = record { from = λ s. go s (m s).0 }
    where
      go : (s : S) (r : Result A) → IfOk P (continue r f (m s).1).0
      go s (ok a) = (h a).from (m s).1
      go s (err e) = tt

  -- What follows `m` may use what holds of all that `m` returns.
  pub Yields-after :
      {Q : A → Type 0} (m : Exec S A) (f : A → Exec S B)
      → Yields Q m
      → ((a : A) → Q a → Yields P (f a))
      → Yields P (m >>= f)
  unfolding ◌>>=◌ continue
  Yields-after {Q = Q} m f hm h = record { from = λ s. go s (m s).0 (hm.from s) }
    where
      go : (s : S) (r : Result A) → IfOk Q r → IfOk P (continue r f (m s).1).0
      go s (ok a) q = (h a q).from (m s).1
      go s (err e) q = tt

pub ruleset yields_rules = (Yields-if, Yields-raise, Yields-bind)

module _ {S A B : Type 0} (m : Exec S A) (f : A → Exec S B) (s : S) {b : B} where
  -- Inversion of a bind that returned.
  pub bind-eq-ok : ((m >>= f) s).0 ≡ ok b → (a : A) × ((m s).0 ≡ ok a) × ((f a (m s).1).0 ≡ ok b)
  unfolding ◌>>=◌ continue
  bind-eq-ok h = go (m s).0 refl h
    where
      go :
          (r : Result A)
          → (m s).0 ≡ r
          → (continue r f (m s).1).0 ≡ ok b
          → (a : A) × ((m s).0 ≡ ok a) × ((f a (m s).1).0 ≡ ok b)
      go (ok a) e h = (a, e, h)
      go (err x) e h = cc

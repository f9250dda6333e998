-- ===== src/Base/Outcome.antt =====
-- errors.py: the exceptions of the program, and the result of code that may raise one.
use Prim.Native.String.{String}
use mathlib.Core.Path.{◌≡◌, refl, subst}
use mathlib.Core.Bool.{Bool, true, false}
use mathlib.Core.Option.{Option, none, some}
use mathlib.Core.List.{List, [], ◌∷◌, ◌++◌, map}
use native.Mathlib.Omega.{arith}
use airgapped_ai_gateway_k8s.Base.Tests.{if◌then◌else◌}
use airgapped_ai_gateway_k8s.Base.Lists.{append-eq-nil}

-- One constructor for each class of errors.py; `gateway_error` is the base class itself. `python_error` stands for the exceptions that the
-- program does not declare (`ValueError` and the like). The text is the message without the values
-- that the source formats into it.
pub data Error : Type 0 where
  config_error safety_error plan_error execution_error : String → Error
  discovery_error verification_error bundle_error python_error gateway_error : String → Error

-- What a call returns, or the exception that ends it.
pub data Result {ℓ} (A : Type ℓ) : Type ℓ where
  err : Error → Result A
  ok : A → Result A

infixl 5 ◌>>=◌ ◌>>◌
abbrev pub ◌>>=◌ {ℓ ℓ'} : {A : Type ℓ} {C : Type ℓ'} → Result A → (A → Result C) → Result C
err error >>= next = err error
ok value >>= next = next value

abbrev pub ◌>>◌ {ℓ} : {C : Type ℓ} → Result (Unit {0}) → Result C → Result C
first >> second = first >>= λ _. second

-- if test: raise e
abbrev pub raise_if : Bool → Error → Result (Unit {0})
raise_if true e = err e
raise_if false e = ok tt

-- A result, where there is one.
abbrev pub require_some {ℓ} : {A : Type ℓ} → Option A → Error → Result A
require_some none e = err e
require_some (some a) e = ok a

-- tuple(f(x) for x in xs), where `f` may raise
abbrev pub traverse : {A B : Type 0} → (A → Result B) → List A → Result (List B)
traverse f [] = ok []
traverse f (x ∷ xs) = f x >>= λ y. traverse f xs >>= λ ys. ok (y ∷ ys)

-- The items that a loop over `xs` appends, in order, where a step may raise.
abbrev pub collect {ℓ κ} :
    {A : Type ℓ} {B : Type κ} → (A → Result (List B)) → List A → Result (List B)
collect f [] = ok []
collect f (x ∷ xs) = f x >>= λ found. collect f xs >>= λ rest. ok (found ++ rest)

-- errors.extend(check(…)), where the check may raise
infixl 6 ◌then_extend◌
abbrev pub ◌then_extend◌ {ℓ} : {A : Type ℓ} → Result (List A) → Result (List A) → Result (List A)
errors then_extend more = errors >>= λ found. more >>= λ rest. ok (found ++ rest)

-- any(f(x) for x in xs), which stops at the first that holds
abbrev pub any_of {ℓ} : {A : Type ℓ} → (A → Result Bool) → List A → Result Bool
any_of f [] = ok false
any_of f (x ∷ xs) = let rest = any_of f xs in f x >>= λ found. if found then ok true else rest

-- next((x for x in xs if f(x)), None)
abbrev pub first_of {ℓ} : {A : Type ℓ} → (A → Result Bool) → List A → Result (Option A)
first_of f [] = ok none
first_of f (x ∷ xs) =
    let rest = first_of f xs in f x >>= λ found. if found then ok (some x) else rest

-- The call returns, and the value satisfies `P`.
abbrev pub Returns {ℓ} : {A : Type ℓ} → (A → Type 0) → Result A → Type 0
Returns P (ok a) = P a
Returns P (err e) = ⊥

pub traverse-map :
    {A B : Type 0} (f : B → Result A) (g : A → B) (xs : List A)
    → ((x : A) → f (g x) ≡ ok x)
    → traverse f (map g xs) ≡ ok xs
traverse-map f g [] h = refl
traverse-map f g (x ∷ xs) h = ground (arith, h x, traverse-map f g xs h)

-- If the call returns, the value satisfies `P`.
abbrev pub IfOk {ℓ} : {A : Type ℓ} → (A → Type 0) → Result A → Type 0
IfOk P (ok a) = P a
IfOk P (err e) = Unit

pub IfOk-bind {ℓ κ} :
    {A : Type ℓ} {B : Type κ} (P : B → Type 0) (m : Result A) (f : A → Result B)
    → ((a : A) → m ≡ ok a → IfOk P (f a))
    → IfOk P (m >>= f)
IfOk-bind P (ok a) f h = h a refl
IfOk-bind P (err e) f h = tt

pub ok-injective {ℓ} : {A : Type ℓ} {a b : A} → ok a ≡ ok b → a ≡ b
ok-injective e = cc

pub IfOk-eq {ℓ} : {A : Type ℓ} (P : A → Type 0) (m : Result A) {a : A} → IfOk P m → m ≡ ok a → P a
IfOk-eq P (ok a) h e = subst P (ok-injective e) h
IfOk-eq P (err x) h e = cc

pub IfOk-if {ℓ} :
    {A : Type ℓ} (P : A → Type 0) (b : Bool) (m n : Result A)
    → IfOk P m
    → IfOk P n
    → IfOk P (if b then m else n)
IfOk-if P true m n hm hn = hm
IfOk-if P false m n hm hn = hn

-- Nothing is in the list at the end only if nothing was there and nothing was added.
pub extend-eq-nil {ℓ} :
    {A : Type ℓ} (m n : Result (List A)) → m then_extend n ≡ ok [] → (m ≡ ok []) × (n ≡ ok [])
extend-eq-nil (ok []) (ok []) h = (refl, refl)
extend-eq-nil (ok []) (ok (c ∷ cs)) h = cc
extend-eq-nil (ok (b ∷ bs)) (ok cs) h = ground (arith, h, append-eq-nil (b ∷ bs) cs)
extend-eq-nil (ok bs) (err e) h = cc
extend-eq-nil (err e) n h = cc

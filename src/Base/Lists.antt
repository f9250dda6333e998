-- ===== src/Base/Lists.antt =====
-- Lists as the program uses them: `any`, `all`, membership by a test, and predicates on the items.
use Prim.Native.Nat.{ℕ, suc}
use Prim.Native.String.{String}
use mathlib.Core.Path.{◌≡◌, refl}
use mathlib.Core.Logic.{◌↔◌}
use mathlib.Core.Bool.{Bool, true, false, ◌&&◌, ◌||◌}
use mathlib.Core.List.{List, [], ◌∷◌, ◌++◌, map}
use native.Mathlib.Omega.{arith}
use text.Mathlib.Text.{◌==◌}
use airgapped_ai_gateway_k8s.Base.Tests.{if◌then◌else◌}

module _ {ℓ} {A : Type ℓ} where
  abbrev pub length : List A → ℕ
  length [] = 0
  length (x ∷ xs) = suc (length xs)

  -- any(test(x) for x in xs)
  abbrev pub any : (A → Bool) → List A → Bool
  any test [] = false
  any test (x ∷ xs) = test x || any test xs

  -- all(test(x) for x in xs)
  abbrev pub all : (A → Bool) → List A → Bool
  all test [] = true
  all test (x ∷ xs) = test x && all test xs

  -- [x for x in xs if test(x)]
  abbrev pub keep : (A → Bool) → List A → List A
  keep test [] = []
  keep test (x ∷ xs) = let rest = keep test xs in if test x then x ∷ rest else rest

  -- The items that a loop over `xs` appends, in order.
  abbrev pub gather {κ} : {B : Type κ} → (A → List B) → List A → List B
  gather f [] = []
  gather f (x ∷ xs) = f x ++ gather f xs

  abbrev pub All {κ} : (A → Type κ) → List A → Type κ
  All P [] = Unit
  All P (x ∷ xs) = P x × All P xs

-- s in xs
abbrev pub contains : List String → String → Bool
contains [] s = false
contains (x ∷ xs) s = s == x || contains xs s

-- set.add(s), on a set kept as the list of its items
abbrev pub add_text : List String → String → List String
add_text xs s = if contains xs s then xs else s ∷ xs

-- No text occurs twice.
abbrev pub Distinct : List String → Type 0
Distinct [] = Unit
Distinct (x ∷ xs) = (contains xs x ≡ false) × Distinct xs

pub append-eq-nil {ℓ} : {A : Type ℓ} (xs ys : List A) → (xs ++ ys ≡ []) ↔ (xs ≡ []) × (ys ≡ [])
append-eq-nil [] ys = ground arith
append-eq-nil (x ∷ xs) ys = ground arith

-- Nothing is appended exactly if both parts are empty, with what each part's emptiness says.
pub both-eq-nil {ℓ κ ν} :
    {A : Type ℓ} {P : Type κ} {Q : Type ν} {xs ys : List A}
    → ((xs ≡ []) ↔ P)
    → ((ys ≡ []) ↔ Q)
    → (xs ++ ys ≡ []) ↔ P × Q
both-eq-nil {xs = xs} {ys} h k = ground (arith, append-eq-nil xs ys, h, k)

-- What is appended under a test, and what is appended unless the test holds.
pub then-eq-nil {ℓ κ} :
    {A : Type ℓ} {P : Type κ} {xs : List A} (b : Bool)
    → ((xs ≡ []) ↔ P)
    → ((if b then xs else []) ≡ []) ↔ (b ≡ true → P)
then-eq-nil true h = ground (arith, h)
then-eq-nil false h = ground (arith, h)

pub else-eq-nil {ℓ κ} :
    {A : Type ℓ} {P : Type κ} {xs : List A} (b : Bool)
    → ((xs ≡ []) ↔ P)
    → ((if b then [] else xs) ≡ []) ↔ (b ≡ false → P)
else-eq-nil true h = ground (arith, h)
else-eq-nil false h = ground (arith, h)

-- A loop appends nothing exactly if it appends nothing for each item.
pub gather-eq-nil {ℓ κ ν} :
    {A : Type ℓ} {B : Type κ} (P : A → Type ν) (f : A → List B)
    → ((x : A) → (f x ≡ []) ↔ P x)
    → (xs : List A) → (gather f xs ≡ []) ↔ All P xs
gather-eq-nil P f h [] = ground arith
gather-eq-nil P f h (x ∷ xs) =
    ground (arith, append-eq-nil (f x) (gather f xs), h x, gather-eq-nil P f h xs)

module _ {ℓ κ} {A : Type ℓ} (P : A → Type κ) where
  pub All-append : (xs ys : List A) → All P xs → All P ys → All P (xs ++ ys)
  All-append [] ys hx hy = hy
  All-append (x ∷ xs) ys hx hy = (hx.0, All-append xs ys hx.1 hy)

  pub All-keep : (test : A → Bool) (xs : List A) → All P xs → All P (keep test xs)
  All-keep test [] h = tt
  All-keep test (x ∷ xs) h = ground (arith, All-keep test xs h.1)

pub All-mono {ℓ κ ν} :
    {A : Type ℓ} (P : A → Type κ) (Q : A → Type ν)
    → ((x : A) → P x → Q x)
    → (xs : List A) → All P xs
    → All Q xs
All-mono P Q f [] h = tt
All-mono P Q f (x ∷ xs) h = (f x h.0, All-mono P Q f xs h.1)

pub All-map {ℓ ℓ' κ} :
    {A : Type ℓ} {B : Type ℓ'} (P : B → Type κ) (f : A → B) (xs : List A)
    → ((x : A) → P (f x))
    → All P (map f xs)
All-map P f [] h = tt
All-map P f (x ∷ xs) h = (h x, All-map P f xs h)

pub map_append {ℓ κ} :
    {A : Type ℓ} {B : Type κ} (f : A → B) (xs ys : List A) → map f (xs ++ ys) ≡ map f xs ++ map f ys
map_append f [] ys = refl
map_append f (x ∷ xs) ys = rw (map_append f xs ys) refl

pub append_nil {ℓ} : {A : Type ℓ} (xs : List A) → xs ++ [] ≡ xs
append_nil [] = refl
append_nil (x ∷ xs) = rw (append_nil xs) refl

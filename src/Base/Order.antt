-- ===== src/Base/Order.antt =====
-- Python's order of texts and of tuples of texts, `sorted`, and what sorting keeps.
use Prim.Native.Nat.{ℕ, zero, suc, Ordering, compare as compare_ℕ}
use Prim.Native.Nat.compare as compare_ℕ
use Prim.Native.Char.{code}
use Prim.Native.String
use Prim.Native.String.{String, compare, then as first_of_two}
use mathlib.Core.Path.{◌≡◌, refl}
use mathlib.Core.Logic.{inl, inr}
use mathlib.Core.Bool.{Bool, true, false}
use mathlib.Core.List.{List, [], ◌∷◌, Perm}
use mathlib.Core.List.Perm
use native.Mathlib.Omega.{arith}
use text.Mathlib.Text.{is_lt, ◌==◌}
use text.Mathlib.TextEquality.{eq_iff}
use airgapped_ai_gateway_k8s.Base.Tests.{Bool-cases, if◌then◌else◌}
use airgapped_ai_gateway_k8s.Base.Lists.{All}

-- a < b, by code points
unfoldable pub str_lt : String → String → Bool
str_lt s t = is_lt (compare s t)

-- a < b on tuples of texts
unfoldable pub tuple_lt : List String → List String → Bool
tuple_lt [] [] = false
tuple_lt [] (b ∷ bs) = true
tuple_lt (a ∷ more) [] = false
tuple_lt (a ∷ more) (b ∷ bs) = let rest = tuple_lt more bs in if a == b then rest else str_lt a b

abbrev flip : Ordering → Ordering
flip Ordering.lt = Ordering.gt
flip Ordering.eq = Ordering.eq
flip Ordering.gt = Ordering.lt

flip-then : (o r : Ordering) → first_of_two (flip o) (flip r) ≡ flip (first_of_two o r)
flip-then Ordering.lt r = refl
flip-then Ordering.eq r = refl
flip-then Ordering.gt r = refl

flip_numbers : (m n : ℕ) → compare_ℕ n m ≡ flip (compare_ℕ m n)
flip_numbers zero zero = refl
flip_numbers zero (suc n) = rw (compare_ℕ.suc-zero n, compare_ℕ.zero-suc n)
flip_numbers (suc m) zero = rw (compare_ℕ.zero-suc m, compare_ℕ.suc-zero m)
flip_numbers (suc m) (suc n) = rw (compare_ℕ.suc-suc n m, compare_ℕ.suc-suc m n) (flip_numbers m n)

flip_texts : (s t : String) → compare t s ≡ flip (compare s t)
flip_texts String.[] String.[] = refl
flip_texts String.[] (String.◌∷◌ d t) =
    rw (String.compare.cons-nil d t, String.compare.nil-cons d t)
flip_texts (String.◌∷◌ c s) String.[] =
    rw (String.compare.nil-cons c s, String.compare.cons-nil c s)
flip_texts (String.◌∷◌ c s) (String.◌∷◌ d t) =
    rw (String.compare.cons-cons d c t s, String.compare.cons-cons c d s t)
      (rw (flip_numbers (code c) (code d), flip_texts s t) (flip-then _ _))

is_lt-flip : (o : Ordering) → is_lt o ≡ true → is_lt (flip o) ≡ false
is_lt-flip Ordering.lt h = refl
is_lt-flip Ordering.eq h = refl
is_lt-flip Ordering.gt h = cc

pub str_lt_asymm : (s t : String) → str_lt s t ≡ true → str_lt t s ≡ false
unfolding str_lt
str_lt_asymm s t h = rw (flip_texts s t) (is_lt-flip (compare s t) h)

pub tuple_lt_asymm : (xs ys : List String) → tuple_lt xs ys ≡ true → tuple_lt ys xs ≡ false
unfolding tuple_lt
tuple_lt_asymm [] [] h = refl
tuple_lt_asymm [] (b ∷ ys) h = refl
tuple_lt_asymm (a ∷ xs) [] h = cc
tuple_lt_asymm (a ∷ xs) (b ∷ ys) h =
    ground (arith, eq_iff a b, eq_iff b a, tuple_lt_asymm xs ys, str_lt_asymm a b)

module _ {A : Type 0} (lt : A → A → Bool) where
  -- `x` goes before the first item that is not smaller, so that equal items keep their order.
  unfoldable pub insort : A → List A → List A
  insort x [] = x ∷ []
  insort x (y ∷ ys) = let rest = insort x ys in if lt y x then y ∷ rest else x ∷ y ∷ ys

  -- sorted(xs), which is stable
  unfoldable pub sorted : List A → List A
  unfolding insort
  sorted [] = []
  sorted (x ∷ xs) = insort x (sorted xs)

  abbrev pub IsSorted : List A → Type 0
  IsSorted [] = Unit
  IsSorted (x ∷ []) = Unit
  IsSorted (x ∷ y ∷ ys) = (lt y x ≡ false) × IsSorted (y ∷ ys)

  insort-IsSorted :
      ((a b : A) → lt a b ≡ true → lt b a ≡ false)
      → (x : A) (ys : List A) → IsSorted ys
      → IsSorted (insort x ys)
  unfolding insort
  insort-IsSorted asymm x [] h = tt
  insort-IsSorted asymm x (y ∷ []) h = ground (arith, asymm y x)
  insort-IsSorted asymm x (y ∷ z ∷ zs) h =
      ground (arith, asymm y x, asymm z x, insort-IsSorted asymm x (z ∷ zs) h.1)

  pub sorted-IsSorted :
      ((a b : A) → lt a b ≡ true → lt b a ≡ false) → (xs : List A) → IsSorted (sorted xs)
  unfolding sorted
  sorted-IsSorted asymm [] = tt
  sorted-IsSorted asymm (x ∷ xs) = insort-IsSorted asymm x (sorted xs) (sorted-IsSorted asymm xs)

  -- What is in order is left as it is.
  pub sorted-eq_self : (xs : List A) → IsSorted xs → sorted xs ≡ xs
  unfolding sorted
  sorted-eq_self [] h = refl
  sorted-eq_self (x ∷ []) h = refl
  sorted-eq_self (x ∷ y ∷ ys) h = rw (sorted-eq_self (y ∷ ys) h.1, insort) (ground arith)

  pub sorted_idem :
      ((a b : A) → lt a b ≡ true → lt b a ≡ false) → (xs : List A) → sorted (sorted xs) ≡ sorted xs
  sorted_idem asymm xs = sorted-eq_self (sorted xs) (sorted-IsSorted asymm xs)

  insort-perm : (x : A) (ys : List A) → Perm (insort x ys) (x ∷ ys)
  unfolding insort
  insort-perm x [] = Perm.refl (x ∷ [])
  insort-perm x (y ∷ ys) = elim (Bool-cases (lt y x)) [
    | inl later ↦ rw later (Perm.trans (Perm.cons y (insort-perm x ys)) (Perm.swap x y ys))
    | inr first ↦ rw first (Perm.refl (x ∷ y ∷ ys))
  ]

  -- Nothing is lost, and nothing is added.
  pub sorted-perm : (xs : List A) → Perm (sorted xs) xs
  unfolding sorted
  sorted-perm [] = Perm.refl []
  sorted-perm (x ∷ xs) = Perm.trans (insort-perm x (sorted xs)) (Perm.cons x (sorted-perm xs))

  module _ (P : A → Type 0) where
    All-insort : (x : A) (ys : List A) → P x → All P ys → All P (insort x ys)
    unfolding insort
    All-insort x [] hx h = (hx, tt)
    All-insort x (y ∷ ys) hx h = ground (arith, All-insort x ys hx h.1)

    pub All-sorted : (xs : List A) → All P xs → All P (sorted xs)
    unfolding sorted
    All-sorted [] h = tt
    All-sorted (x ∷ xs) h = All-insort x (sorted xs) h.0 (All-sorted xs h.1)

-- ===== src/Configuration/Read/Rules.antt =====
-- What the readers of values return, and the rules for a step of a reader.
use airgapped_ai_gateway_k8s.Base.{String, Option, some, List, [], ◌∷◌, All, arith, eq_iff}
use airgapped_ai_gateway_k8s.Base.Strip.{strip}
use airgapped_ai_gateway_k8s.Base.Json.{Value, null, bool, int, real, str, arr, obj}
use airgapped_ai_gateway_k8s.Base.Outcome.{Result, ok, traverse, IfOk, IfOk-bind, IfOk-eq, ◌>>=◌}
use airgapped_ai_gateway_k8s.Configuration.Expect.{expect_string, optional_string}
use airgapped_ai_gateway_k8s.Configuration.Stated.{IsStated, IsAbsentOrStated}

pub expect_string-IsStated : (v : Value) (label : String) → IfOk IsStated (expect_string v label)
unfolding expect_string
expect_string-IsStated (str s) label = ground (arith, eq_iff (strip s) "")
expect_string-IsStated null label = tt
expect_string-IsStated (bool b) label = tt
expect_string-IsStated (int n) label = tt
expect_string-IsStated (real x) label = tt
expect_string-IsStated (arr vs) label = tt
expect_string-IsStated (obj fs) label = tt

optional_of :
    (v : Value) (label : String)
    → IfOk IsAbsentOrStated (expect_string v label >>= λ s. ok (some s))
optional_of v label =
    IfOk-bind IsAbsentOrStated (expect_string v label) (λ s. ok (some s))
      λ s e. IfOk-eq IsStated _ (expect_string-IsStated v label) e

optional_string-IsStated :
    (v : Value) (label : String) → IfOk IsAbsentOrStated (optional_string v label)
unfolding optional_string
optional_string-IsStated null label = tt
optional_string-IsStated (str s) label = optional_of (str s) label
optional_string-IsStated (bool b) label = optional_of (bool b) label
optional_string-IsStated (int n) label = optional_of (int n) label
optional_string-IsStated (real x) label = optional_of (real x) label
optional_string-IsStated (arr vs) label = optional_of (arr vs) label
optional_string-IsStated (obj fs) label = optional_of (obj fs) label

traverse-All :
    {A B : Type 0} (P : B → Type 0) (f : A → Result B)
    → ((a : A) → IfOk P (f a))
    → (xs : List A) → IfOk (All P) (traverse f xs)
traverse-All P f h [] = tt
traverse-All P f h (x ∷ xs) = IfOk-bind (All P) (f x) _ λ y e.
    IfOk-bind (All P) (traverse f xs) (λ ys. ok (y ∷ ys))
      λ ys d. (IfOk-eq P (f x) (h x) e, IfOk-eq (All P) _ (traverse-All P f h xs) d)

module _ {B : Type 0} (Q : B → Type 0) where
  -- A step of which the property does not depend.
  pub past :
      {A : Type 0} (m : Result A) (f : A → Result B) → ((a : A) → IfOk Q (f a)) → IfOk Q (m >>= f)
  past m f k = IfOk-bind Q m f λ a e. k a

  -- What a step returned is as its lemma says, and the rest follows.
  pub after :
      {A : Type 0} (P : A → Type 0) (m : Result A) (f : A → Result B)
      → IfOk P m
      → ((a : A) → P a → IfOk Q (f a))
      → IfOk Q (m >>= f)
  after P m f h k = IfOk-bind Q m f λ a e. k a (IfOk-eq P m h e)

  pub after_text :
      (v : Value) (label : String) (f : String → Result B)
      → ((s : String) → IsStated s → IfOk Q (f s))
      → IfOk Q (expect_string v label >>= f)
  after_text v label f = after IsStated _ f (expect_string-IsStated v label)

  pub after_optional :
      (v : Value) (label : String) (f : Option String → Result B)
      → ((o : Option String) → IsAbsentOrStated o → IfOk Q (f o))
      → IfOk Q (optional_string v label >>= f)
  after_optional v label f = after IsAbsentOrStated _ f (optional_string-IsStated v label)

  pub after_all :
      {A : Type 0} (P : A → Type 0) (g : Value → Result A)
      → ((v : Value) → IfOk P (g v))
      → (vs : List Value) (f : List A → Result B)
      → ((found : List A) → All P found → IfOk Q (f found))
      → IfOk Q (traverse g vs >>= f)
  after_all P g h vs f = after (All P) _ f (traverse-All P g h vs)

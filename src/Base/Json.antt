-- ===== src/Base/Json.antt =====
-- JSON values as the `json` module loads them: `dict`, `list`, `str`, `int`, `float`, `bool`, `None`.
use Prim.Native.String.{String}
use mathlib.Core.Path.{◌≡◌, refl}
use mathlib.Core.Bool.{Bool, true, false}
use mathlib.Core.Option.{Option, none, some}
use mathlib.Core.List.{List, [], ◌∷◌}
use native.Mathlib.Omega.{arith}
use text.Mathlib.Text.{◌==◌}
use text.Mathlib.TextEquality.{eq_iff}
use text.Mathlib.TextPositions.{eq_refl}
use airgapped_ai_gateway_k8s.Base.Tests.{if◌then◌else◌}
use airgapped_ai_gateway_k8s.Base.Int.{ℤ, pos}

-- A `float` is kept as its text: no code here computes with one.
mutual
  pub data Value : Type 0 where
    null : Value
    bool : Bool → Value
    int : ℤ → Value
    real : String → Value
    str : String → Value
    arr : Items → Value
    obj : Fields → Value

  pub data Items : Type 0 where
    nil : Items
    item : Value → Items → Items

  pub data Fields : Type 0 where
    end : Fields
    field : String → Value → Fields → Fields

-- d.get(k, default)
abbrev pub get_or : Fields → String → Value → Value
get_or end k default = default
get_or (field j v fs) k default = if j == k then v else get_or fs k default

-- d.get(k)
abbrev pub get : Fields → String → Value
get fs k = get_or fs k null

-- The value of d[k], if k in d.
abbrev pub lookup : Fields → String → Option Value
lookup end k = none
lookup (field j v fs) k = if j == k then some v else lookup fs k

-- d[k] = v, which keeps the place of a key that is there
abbrev pub put : Fields → String → Value → Fields
put end k v = field k v end
put (field j w fs) k v = if j == k then field j v fs else field j w (put fs k v)

-- The items of a list, in order, and back.
abbrev pub to_list : Items → List Value
to_list nil = []
to_list (item v vs) = v ∷ to_list vs

abbrev pub of_list : List Value → Items
of_list [] = nil
of_list (v ∷ vs) = item v (of_list vs)

pub to_list-of_list : (vs : List Value) → to_list (of_list vs) ≡ vs
to_list-of_list [] = refl
to_list-of_list (v ∷ vs) = λ i. v ∷ to_list-of_list vs i

-- isinstance(v, dict), isinstance(v, list), isinstance(v, str), isinstance(v, bool), with the value.
abbrev pub as_dict : Value → Option Fields
as_dict (obj fs) = some fs
as_dict _ = none

abbrev pub as_list : Value → Option (List Value)
as_list (arr vs) = some (to_list vs)
as_list _ = none

abbrev pub as_str : Value → Option String
as_str (str s) = some s
as_str _ = none

abbrev pub as_bool : Value → Option Bool
as_bool (bool b) = some b
as_bool _ = none

-- isinstance(v, int): in Python a `bool` is an `int`, `True` is 1 and `False` is 0.
abbrev pub as_int : Value → Option ℤ
as_int (int n) = some n
as_int (bool true) = some (pos 1)
as_int (bool false) = some (pos 0)
as_int _ = none

-- The texts of a list whose items are all texts.
abbrev pub as_strs : List Value → Option (List String)
as_strs [] = some []
as_strs (str s ∷ vs) = elim (as_strs vs) [ none ↦ none | some ss ↦ some (s ∷ ss) ]
as_strs (_ ∷ vs) = none

abbrev pub texts : List String → List Value
texts [] = []
texts (s ∷ ss) = str s ∷ texts ss

-- A list of texts as a JSON list.
abbrev pub strs : List String → Value
strs ss = arr (of_list (texts ss))

pub as_strs-texts : (ss : List String) → as_strs (texts ss) ≡ some ss
as_strs-texts [] = refl
as_strs-texts (s ∷ ss) = rw (as_strs-texts ss, as_strs)

pub get-put_eq : (fs : Fields) (k : String) (v : Value) → get (put fs k v) k ≡ v
get-put_eq end k v = rw (eq_refl k) refl
get-put_eq (field j w fs) k v = ground (arith, eq_iff j k, eq_refl k, get-put_eq fs k v)

pub get-put_ne :
    (fs : Fields) (k j : String) (v : Value) → (k == j) ≡ false → get (put fs k v) j ≡ get fs j
get-put_ne end k j v h = rw h refl
get-put_ne (field i w fs) k j v h =
    ground (arith, eq_iff i k, eq_iff i j, eq_iff k j, get-put_ne fs k j v h)

-- ===== src/Manifest/Safe.antt =====
-- What documents without an error are like.
mod Readers
pub mod Policies
pub mod Overlays
pub mod Budgets
pub mod Backends
pub mod Consumers
pub mod Crossing
pub mod Declared
pub mod Rendered
pub mod Collected
pub mod Pictures
pub mod Workloads
pub mod Paths
use airgapped_ai_gateway_k8s.Base.{
  String, Bool, true, false, not, ◌≡◌, refl, sym, ap, ◌↔◌, List, [], ◌∷◌, ◌++◌, All, All-mono,
  arith, append-eq-nil, Option, none, some,
}
use mathlib.Core.Path.{subst}
use mathlib.Core.List.{Memᴰ}
use mathlib.Core.List.Memᴰ.{head, tail}
use airgapped_ai_gateway_k8s.Base.Outcome.{Result, ok, err, collect, extend-eq-nil, first_of, ◌>>=◌}
use airgapped_ai_gateway_k8s.Base.Json.{
  Value, null, bool, int, real, str, arr, obj, to_list, Fields, end, field, get, lookup,
}
use airgapped_ai_gateway_k8s.Conditions.Checks.{is_text}
use airgapped_ai_gateway_k8s.Manifest.Reads.{
  Message, report, has_key, mapping_of, sequence_of, metadata_of, name_of, entry,
}

-- The value at a path of nested mappings, or `null`.
unfoldable pub within : Value → List String → Value
within value [] = value
within (obj fs) (k ∷ ks) = within (get fs k) ks
within _ (k ∷ ks) = null

-- One step along a path.
pub within-obj :
    (fs : Fields) (k : String) (ks : List String) (v : Value)
    → get fs k ≡ v
    → within (obj fs) (k ∷ ks) ≡ within v ks
unfolding within
within-obj fs k ks v h = ap (λ w. within w ks) h

unfoldable pub keyed : Value → String → Bool
unfolding has_key
keyed (obj fs) k = has_key fs k
keyed _ k = false

unfoldable pub listed : Value → List Value
listed (arr vs) = to_list vs
listed _ = []

-- d[k], where there is one, is d.get(k).
pub lookup-get : (fs : Fields) (k : String) (v : Value) → lookup fs k ≡ some v → get fs k ≡ v
lookup-get end k v h = cc
lookup-get (field j w fs) k v h = ground (arith, h, lookup-get fs k v)

pub entry-get : (fs : Fields) (k : String) (v : Value) → entry fs k ≡ ok v → get fs k ≡ v
unfolding entry
entry-get fs k v h = ground (arith, h, lookup-get fs k v)

-- The name of a document is the one in its metadata.
pub name_of-within :
    (document : Fields) (name : Value)
    → name_of document ≡ ok name
    → within (obj document) ("metadata" ∷ "name" ∷ []) ≡ name
unfolding name_of metadata_of mapping_of entry within
name_of-within document name h = go (get document "metadata") refl
  where
    go : (v : Value) → get document "metadata" ≡ v → within v ("name" ∷ []) ≡ name
    go (obj metadata) p = ground (arith, h, p, lookup-get metadata "name" name)
    go null p = ground (arith, h, p)
    go (bool b) p = ground (arith, h, p)
    go (int n) p = ground (arith, h, p)
    go (real x) p = ground (arith, h, p)
    go (str s) p = ground (arith, h, p)
    go (arr vs) p = ground (arith, h, p)

-- What holds of all items holds of each one.
pub All-Mem : {A : Type 0} (P : A → Type 0) (x : A) (xs : List A) → Memᴰ x xs → All P xs → P x
All-Mem P x [] m h = elim m [ ]
All-Mem P x (y ∷ xs) (head e) h = subst P (sym e) h.0
All-Mem P x (y ∷ xs) (tail m) h = All-Mem P x xs m h.1

-- What is found first is one of the items, and passes the test.
pub first_of-Mem :
    {A : Type 0} (test : A → Result Bool) (xs : List A) (x : A)
    → first_of test xs ≡ ok (some x)
    → Memᴰ x xs × (test x ≡ ok true)
first_of-Mem test [] x h = cc
first_of-Mem test (y ∷ xs) x h = go (test y) refl (first_of-Mem test xs x)
  where
    here : test y ≡ ok true → y ≡ x
    here p = ground (arith, h, p)

    go :
        (r : Result Bool)
        → test y ≡ r
        → (first_of test xs ≡ ok (some x) → Memᴰ x xs × (test x ≡ ok true))
        → Memᴰ x (y ∷ xs) × (test x ≡ ok true)
    go (err e) p rec = ground (arith, h, p)
    go (ok true) p rec = subst (λ z. Memᴰ z (y ∷ xs) × (test z ≡ ok true)) (here p) (head refl, p)
    go (ok false) p rec = let (m, e) = rec (ground (arith, h, p)) in (tail m, e)

pub report-eq-nil :
    (b : Bool) (text : String) (values : List Value) → (report b text values ≡ []) ↔ (b ≡ false)
unfolding report
report-eq-nil true text values = ground arith
report-eq-nil false text values = ground arith

-- A loop that reports nothing reports nothing of each item.
pub collect-eq-nil :
    {A B : Type 0} (f : A → Result (List B)) (xs : List A)
    → collect f xs ≡ ok []
    → All (λ x. f x ≡ ok []) xs
collect-eq-nil f [] h = tt
collect-eq-nil f (x ∷ xs) h =
    let parts = extend-eq-nil (f x) (collect f xs) h in (parts.0, collect-eq-nil f xs parts.1)

-- So each item is as a check without a report says.
pub All-collect :
    {A B : Type 0} (P : A → Type 0) (f : A → Result (List B))
    → ((x : A) → f x ≡ ok [] → P x)
    → (xs : List A) → collect f xs ≡ ok []
    → All P xs
All-collect P f h xs e = All-mono (λ x. f x ≡ ok []) P h xs (collect-eq-nil f xs e)

-- A sequence that was read, and nothing reported of its items.
All-listed :
    {B : Type 0} (P : Value → Type 0) (f : Value → Result (List B)) (v : Value)
    → ((x : Value) → f x ≡ ok [] → P x)
    → (sequence_of v >>= λ xs. collect f xs) ≡ ok []
    → All P (listed v)
unfolding sequence_of listed
All-listed P f (arr vs) h e = All-collect P f h (to_list vs) e
All-listed P f null h e = cc
All-listed P f (bool b) h e = cc
All-listed P f (int n) h e = cc
All-listed P f (real x) h e = cc
All-listed P f (str s) h e = cc
All-listed P f (obj fs) h e = cc

-- The same of a sequence under a key of a mapping.
pub All-within :
    {B : Type 0} (P : Value → Type 0) (f : Value → Result (List B)) (k : String) (v : Value)
    → ((x : Value) → f x ≡ ok [] → P x)
    → (mapping_of v >>= λ fs. sequence_of (get fs k) >>= λ xs. collect f xs) ≡ ok []
    → All P (listed (within v (k ∷ [])))
unfolding mapping_of within
All-within P f k (obj fs) h e = All-listed P f (get fs k) h e
All-within P f k null h e = cc
All-within P f k (bool b) h e = cc
All-within P f k (int n) h e = cc
All-within P f k (real x) h e = cc
All-within P f k (str s) h e = cc
All-within P f k (arr vs) h e = cc

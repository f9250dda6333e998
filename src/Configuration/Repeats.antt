-- ===== src/Configuration/Repeats.antt =====
-- What the loop of `_duplicates` finds.
use airgapped_ai_gateway_k8s.Base.{
  ℕ, suc, String, Bool, false, ◌≡◌, refl, ◌↔◌, List, [], ◌∷◌, ◌||◌, ◌&&◌, leb, ◌==◌, if◌then◌else◌,
  contains, Distinct, add_text, arith, eq_iff, eq_refl,
}
use airgapped_ai_gateway_k8s.Configuration.Validate.{repeated_values, duplicates}

-- How many times a text occurs.
abbrev pub count : List String → String → ℕ
count [] s = 0
count (x ∷ xs) s = let rest = count xs s in if s == x then suc rest else rest

-- The text occurs again after one of its occurrences.
twice : List String → String → Bool
twice [] s = false
twice (x ∷ xs) s = s == x && contains xs s || twice xs s

contains-count : (xs : List String) (s : String) → contains xs s ≡ leb 1 (count xs s)
contains-count [] s = refl
contains-count (x ∷ xs) s = ground (arith, contains-count xs s)

twice-count : (xs : List String) (s : String) → twice xs s ≡ leb 2 (count xs s)
unfolding twice
twice-count [] s = refl
twice-count (x ∷ xs) s = ground (arith, contains-count xs s, twice-count xs s)

contains-add_text :
    (xs : List String) (x s : String) → contains (add_text xs x) s ≡ (s == x || contains xs s)
contains-add_text xs x s = ground (arith, eq_iff s x)

repeated_values-loop :
    (vs seen repeated : List String) (s : String)
    → contains (repeated_values vs seen repeated) s
      ≡ (contains repeated s || (contains seen s && contains vs s || twice vs s))
unfolding repeated_values twice
repeated_values-loop [] seen repeated s = ground arith
repeated_values-loop (v ∷ vs) seen repeated s = ground (
  arith,
  eq_iff s v,
  contains-add_text seen v s,
  contains-add_text repeated v s,
  repeated_values-loop vs (add_text seen v) (add_text repeated v) s,
  repeated_values-loop vs (add_text seen v) repeated s,
)

-- For any list of texts, a text is among those that the loop over two sets collects exactly if it
-- occurs at least twice in the list.
pub repeated_values-count :
    (vs : List String) (s : String) → contains (repeated_values vs [] []) s ≡ leb 2 (count vs s)
repeated_values-count vs s = ground (arith, repeated_values-loop vs [] [] s, twice-count vs s)

nothing_in : (xs : List String) → ((s : String) → contains xs s ≡ false) → xs ≡ []
nothing_in [] h = refl
nothing_in (x ∷ xs) h = ground (arith, h x, eq_refl x)

Distinct-twice : (xs : List String) → Distinct xs → (s : String) → twice xs s ≡ false
unfolding twice
Distinct-twice [] h s = refl
Distinct-twice (x ∷ xs) h s = ground (arith, eq_iff s x, Distinct-twice xs h.1 s)

twice-Distinct : (xs : List String) → ((s : String) → twice xs s ≡ false) → Distinct xs
unfolding twice
twice-Distinct [] h = tt
twice-Distinct (x ∷ xs) h =
    (ground (arith, h x, eq_refl x), twice-Distinct xs (λ s. ground (arith, h s)))

none_repeated_iff : (vs : List String) → (repeated_values vs [] [] ≡ []) ↔ Distinct vs
none_repeated_iff vs = (
  (λ e. twice-Distinct vs λ s. ground (arith, e, repeated_values-loop vs [] [] s)),
  (λ d.
      nothing_in (repeated_values vs [] [])
        λ s. ground (arith, Distinct-twice vs d s, repeated_values-loop vs [] [] s)),
)

pub duplicates-eq-nil :
    (label : String) (vs : List String) → (duplicates label vs ≡ []) ↔ Distinct vs
unfolding duplicates
duplicates-eq-nil label vs = ground (arith, none_repeated_iff vs)

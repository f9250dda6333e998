-- ===== src/Configuration/Ports/Lookups.antt =====
-- The tests of `_validate_service_port` that look for a port by its name or number.
use mathlib.Core.List.{Memᴰ}
use mathlib.Core.List.Memᴰ.{head, tail}
use airgapped_ai_gateway_k8s.Base.{
  String, true, false, ◌≡◌, refl, sym, ◌≢◌, ◌↔◌, ◌⊎◌, inl, inr, List, [], ◌∷◌, Option, none, some,
  ◌==◌, arith, eq_iff, Bool-cases,
}
use airgapped_ai_gateway_k8s.Base.Int.{ℤ, pos, negsuc, int_eq}
use airgapped_ai_gateway_k8s.Models.{ServicePort}
use airgapped_ai_gateway_k8s.Configuration.Validate.{
  name_given, number_given, names_port, numbers_port,
}

pub int_eq_iff : (a b : ℤ) → (int_eq a b ≡ true) ↔ (a ≡ b)
int_eq_iff (pos m) (pos n) = ground arith
int_eq_iff (pos m) (negsuc n) = ground arith
int_eq_iff (negsuc m) (pos n) = ground arith
int_eq_iff (negsuc m) (negsuc n) = ground arith

pub name_given_iff : (o : Option String) → (name_given o ≡ false) ↔ (o ≡ none) ⊎ (o ≡ some "")
unfolding name_given
name_given_iff none = ground arith
name_given_iff (some s) = ground (arith, eq_iff s "")

pub number_given_iff : (o : Option ℤ) → (number_given o ≡ false) ↔ (o ≡ none) ⊎ (o ≡ some (pos 0))
unfolding number_given
number_given_iff none = ground arith
number_given_iff (some n) = ground (arith, int_eq_iff n (pos 0))

abbrev Named : String → List ServicePort → Type 0
Named s ps = (p : ServicePort) × Memᴰ p ps × (p.name ≡ some s)

found_at :
    (s : String) (p : ServicePort) (ps : List ServicePort)
    → (names_port (some s) ps ≡ true → Named s ps)
    → names_port (some s) (p ∷ ps) ≡ true
    → Named s (p ∷ ps)
unfolding names_port
found_at s p ps rest h = go p.name refl
  where
    later : names_port (some s) ps ≡ true → Named s (p ∷ ps)
    later r = let (q, m, e) = rest r in (q, tail m, e)

    go : (name : Option String) → p.name ≡ name → Named s (p ∷ ps)
    go none e = later (ground (arith, h, e))
    go (some t) e = elim (Bool-cases (s == t)) [
      | inl same ↦ (p, head refl, ground (arith, e, same, eq_iff s t))
      | inr other ↦ later (ground (arith, h, e, other))
    ]

pub port_with_name :
    (s : String) (ps : List ServicePort) → names_port (some s) ps ≡ true → Named s ps
unfolding names_port
port_with_name s [] h = cc
port_with_name s (p ∷ ps) h = found_at s p ps (port_with_name s ps) h

pub Memᴰ-names_port :
    (s : String) (p : ServicePort) (ps : List ServicePort)
    → s ≢ ""
    → p.name ≡ some s
    → Memᴰ p ps
    → names_port (some s) ps ≡ true
unfolding names_port
Memᴰ-names_port s p [] n e m = elim m [ ]
Memᴰ-names_port s p (q ∷ ps) n e (head same) =
    rw (sym same, e) (ground (arith, eq_iff s "", eq_iff s s))
Memᴰ-names_port s p (q ∷ ps) n e (tail m) = ground (arith, Memᴰ-names_port s p ps n e m)

abbrev Numbered : ℤ → List ServicePort → Type 0
Numbered n ps = (p : ServicePort) × Memᴰ p ps × (p.number ≡ n)

pub port_with_number :
    (n : ℤ) (ps : List ServicePort) → numbers_port (some n) ps ≡ true → Numbered n ps
unfolding numbers_port
port_with_number n [] h = cc
port_with_number n (p ∷ ps) h = elim (Bool-cases (int_eq n p.number)) [
  | inl same ↦ (p, head refl, ground (arith, same, int_eq_iff n p.number))
  | inr other ↦ let (q, m, e) = port_with_number n ps (ground (arith, other, h)) in (q, tail m, e)
]

pub Memᴰ-numbers_port :
    (n : ℤ) (p : ServicePort) (ps : List ServicePort)
    → p.number ≡ n
    → Memᴰ p ps
    → numbers_port (some n) ps ≡ true
unfolding numbers_port
Memᴰ-numbers_port n p [] e m = elim m [ ]
Memᴰ-numbers_port n p (q ∷ ps) e (head same) = rw (sym same, e) (ground (arith, int_eq_iff n n))
Memᴰ-numbers_port n p (q ∷ ps) e (tail m) = ground (arith, Memᴰ-numbers_port n p ps e m)

-- ===== src/Configuration/Ports.antt =====
-- Which port a model's service reference selects.
mod Lookups
use mathlib.Core.List.{Memᴰ}
use mathlib.Core.List.Memᴰ.{head, tail}
use mathlib.Core.Path.{subst}
use airgapped_ai_gateway_k8s.Base.{
  String, Bool, true, false, ◌≡◌, refl, sym, ◌≢◌, ◌↔◌, ◌⊎◌, inl, inr, List, [], ◌∷◌, ◌&&◌, not,
  Option, none, some, ◌==◌, arith, eq_iff, both-eq-nil, Bool-cases,
}
use airgapped_ai_gateway_k8s.Base.Int.{ℤ, pos, negsuc, int_eq}
use airgapped_ai_gateway_k8s.Models.{ServicePort, ServiceRef, ModelConfig}
use airgapped_ai_gateway_k8s.Configuration.Validate.{
  complain, name_given, number_given, names_port, numbers_port, several, validate_ports,
  validate_service_port,
}
use airgapped_ai_gateway_k8s.Configuration.Ports.Lookups.{
  int_eq_iff, name_given_iff, number_given_iff, port_with_name, Memᴰ-names_port, port_with_number,
  Memᴰ-numbers_port,
}

-- Without a name, and without a number: an empty name and the number 0 count as none.
abbrev pub Unnamed : ServiceRef → Type 0
Unnamed service = (service.target_port_name ≡ none) ⊎ (service.target_port_name ≡ some "")

abbrev pub Unnumbered : ServiceRef → Type 0
Unnumbered service =
    (service.target_port_number ≡ none) ⊎ (service.target_port_number ≡ some (pos 0))

-- The reference selects the declared port `p`: by its name, by its number, or as the only one.
pub data Selects (service : ServiceRef) (p : ServicePort) : Type 0 where
  by_name :
      (s : String)
      → service.target_port_name ≡ some s
      → s ≢ ""
      → Unnumbered service
      → Memᴰ p service.ports
      → p.name ≡ some s
      → Selects service p
  by_number :
      (n : ℤ)
      → service.target_port_number ≡ some n
      → n ≢ pos 0
      → Unnamed service
      → Memᴰ p service.ports
      → p.number ≡ n
      → Selects service p
  as_only : Unnamed service → Unnumbered service → service.ports ≡ p ∷ [] → Selects service p

pub complain-eq-nil : (b : Bool) (message : String) → (complain b message ≡ []) ↔ (b ≡ false)
unfolding complain
complain-eq-nil true message = ground arith
complain-eq-nil false message = ground arith

-- The four tests of `_validate_service_port`, of a reference with ports.
Agrees : ModelConfig → ServicePort → List ServicePort → Type 0
Agrees model p ps =
    let named = name_given model.service.target_port_name in
    let numbered = number_given model.service.target_port_number in
    (((named && numbered ≡ false) × (several (p ∷ ps) && not named && not numbered ≡ false))
      × (named && not (names_port model.service.target_port_name (p ∷ ps)) ≡ false))
    × (numbered && not (numbers_port model.service.target_port_number (p ∷ ps)) ≡ false)

validate_ports-Agrees :
    (model : ModelConfig) (p : ServicePort) (ps : List ServicePort)
    → (validate_ports model (p ∷ ps) ≡ []) ↔ Agrees model p ps
unfolding validate_ports Agrees
validate_ports-Agrees model p ps =
    both-eq-nil
      (both-eq-nil (both-eq-nil (complain-eq-nil _ _) (complain-eq-nil _ _)) (complain-eq-nil _ _))
      (complain-eq-nil _ _)

chosen_by_name :
    (service : ServiceRef)
    → name_given service.target_port_name ≡ true
    → Unnumbered service
    → names_port service.target_port_name service.ports ≡ true
    → (q : ServicePort) × Selects service q
unfolding name_given names_port
chosen_by_name service h u k = go service.target_port_name refl
  where
    go :
        (name : Option String)
        → service.target_port_name ≡ name
        → (q : ServicePort) × Selects service q
    go none e = ground (arith, h, e)
    go (some s) e =
        let (q, m, f) = port_with_name s service.ports (rw (sym e) k) in
        (q, by_name s e (λ z. ground (arith, h, e, eq_iff s "")) u m f)

chosen_by_number :
    (service : ServiceRef)
    → number_given service.target_port_number ≡ true
    → Unnamed service
    → numbers_port service.target_port_number service.ports ≡ true
    → (q : ServicePort) × Selects service q
unfolding number_given numbers_port
chosen_by_number service h u k = go service.target_port_number refl
  where
    go :
        (number : Option ℤ)
        → service.target_port_number ≡ number
        → (q : ServicePort) × Selects service q
    go none e = ground (arith, h, e)
    go (some n) e =
        let (q, m, f) = port_with_number n service.ports (rw (sym e) k) in
        (q, by_number n e (λ z. ground (arith, h, e, int_eq_iff n (pos 0))) u m f)

only_of : (p : ServicePort) (ps : List ServicePort) → several (p ∷ ps) ≡ false → ps ≡ []
unfolding several
only_of p [] h = refl
only_of p (q ∷ qs) h = cc

Agrees-Selects :
    (model : ModelConfig) (p : ServicePort) (ps : List ServicePort)
    → model.service.ports ≡ p ∷ ps
    → Agrees model p ps
    → (q : ServicePort) × Selects model.service q
unfolding Agrees
Agrees-Selects model p ps e h = elim (Bool-cases (name_given model.service.target_port_name)) [
  | inl named ↦
      chosen_by_name model.service named ((number_given_iff _).0 (ground (arith, h, named)))
        (rw e (ground (arith, h, named)))
  | inr unnamed ↦ elim (Bool-cases (number_given model.service.target_port_number)) [
    | inl numbered ↦
        chosen_by_number model.service numbered ((name_given_iff _).0 unnamed)
          (rw e (ground (arith, h, numbered)))
    | inr unnumbered ↦ (
      p,
      as_only ((name_given_iff _).0 unnamed) ((number_given_iff _).0 unnumbered)
          (ground (arith, e, only_of p ps (ground (arith, h, unnamed, unnumbered)))),
    )
  ]
]

Selects-Agrees :
    (model : ModelConfig) (p q : ServicePort) (ps : List ServicePort)
    → model.service.ports ≡ p ∷ ps
    → Selects model.service q
    → Agrees model p ps
unfolding Agrees several name_given number_given
Selects-Agrees model p q ps e (by_name s f n u m g) = ground (
  arith,
  f,
  eq_iff s "",
  (number_given_iff _).1 u,
  Memᴰ-names_port s q (p ∷ ps) n g (subst (Memᴰ q) e m),
)
Selects-Agrees model p q ps e (by_number n f z u m g) = ground (
  arith,
  f,
  int_eq_iff n (pos 0),
  (name_given_iff _).1 u,
  Memᴰ-numbers_port n q (p ∷ ps) g (subst (Memᴰ q) e m),
)
Selects-Agrees model p q ps e (as_only u v f) =
    ground (arith, e, f, (name_given_iff _).1 u, (number_given_iff _).1 v)

Selects-nonempty : (service : ServiceRef) (p : ServicePort) → Selects service p → service.ports ≢ []
Selects-nonempty service p (by_name s f n u m g) e = elim (subst (Memᴰ p) e m) [ ]
Selects-nonempty service p (by_number n f z u m g) e = elim (subst (Memᴰ p) e m) [ ]
Selects-nonempty service p (as_only u v f) e = cc

validate_ports-nil : (model : ModelConfig) → validate_ports model [] ≢ []
unfolding validate_ports
validate_ports-nil model h = cc

-- For any model, the port check reports nothing exactly if the service reference selects one of
-- the declared ports: by a non-empty name alone, by a number other than 0 alone, or, with neither,
-- because only one port is declared.
pub validate_service_port_iff :
    (model : ModelConfig)
    → (validate_service_port model ≡ []) ↔ ((p : ServicePort) × Selects model.service p)
unfolding validate_service_port
validate_service_port_iff model = go model.service.ports refl
  where
    go :
        (ports : List ServicePort)
        → model.service.ports ≡ ports
        → (validate_service_port model ≡ []) ↔ ((p : ServicePort) × Selects model.service p)
    go [] e = (
      (λ h. absurd (validate_ports-nil model (subst (λ ps. validate_ports model ps ≡ []) e h))),
      (λ s. absurd (Selects-nonempty model.service s.0 s.1 e)),
    )
    go (p ∷ ps) e = (
      (λ h.
          Agrees-Selects model p ps e (
            (validate_ports-Agrees model p ps).0 (subst (λ ps. validate_ports model ps ≡ []) e h))),
      (λ s. rw e ((validate_ports-Agrees model p ps).1 (Selects-Agrees model p s.0 ps e s.1))),
    )

-- ===== src/Discovery/Unique.antt =====
-- How the candidate that discovery.py selects compares with the others.
use mathlib.Core.List.{Perm}
use airgapped_ai_gateway_k8s.Base.{true, false, List, [], ◌∷◌, none, ◌≡◌, refl, All, keep, arith}
use airgapped_ai_gateway_k8s.Base.Int.{ℤ, pos, negsuc, int_eq, int_leb}
use airgapped_ai_gateway_k8s.Base.Order.{
  tuple_lt_asymm, sorted, sorted-IsSorted, sorted-perm, IsSorted,
}
use airgapped_ai_gateway_k8s.Base.Outcome.{ok, IfOk, IfOk-eq}
use airgapped_ai_gateway_k8s.Discovery.{
  DiscoveryCandidate, int_lt, candidate_lt, has_score, require_unique, select_unique_candidate,
}

int_leb_total : (a b : ℤ) → int_leb a b ≡ false → int_leb b a ≡ true
int_leb_total (pos m) (pos n) h = ground arith
int_leb_total (pos m) (negsuc n) h = refl
int_leb_total (negsuc m) (pos n) h = cc
int_leb_total (negsuc m) (negsuc n) h = ground arith

int_leb_trans : (a b c : ℤ) → int_leb a b ≡ true → int_leb b c ≡ true → int_leb a c ≡ true
int_leb_trans (pos a) (pos b) (pos c) h k = ground arith
int_leb_trans (pos a) (pos b) (negsuc c) h k = cc
int_leb_trans (pos a) (negsuc b) c h k = cc
int_leb_trans (negsuc a) b (pos c) h k = refl
int_leb_trans (negsuc a) (pos b) (negsuc c) h k = cc
int_leb_trans (negsuc a) (negsuc b) (negsuc c) h k = ground arith

int_leb_antisymm : (a b : ℤ) → int_leb a b ≡ true → int_leb b a ≡ true → int_eq a b ≡ true
int_leb_antisymm (pos a) (pos b) h k = ground arith
int_leb_antisymm (pos a) (negsuc b) h k = cc
int_leb_antisymm (negsuc a) (pos b) h k = cc
int_leb_antisymm (negsuc a) (negsuc b) h k = ground arith

int_eq-leb : (a b : ℤ) → int_eq a b ≡ true → int_leb a b ≡ true
int_eq-leb (pos a) (pos b) h = ground arith
int_eq-leb (pos a) (negsuc b) h = cc
int_eq-leb (negsuc a) (pos b) h = cc
int_eq-leb (negsuc a) (negsuc b) h = ground arith

int_eq_comm : (a b : ℤ) → int_eq a b ≡ true → int_eq b a ≡ true
int_eq_comm (pos a) (pos b) h = ground arith
int_eq_comm (pos a) (negsuc b) h = cc
int_eq_comm (negsuc a) (pos b) h = cc
int_eq_comm (negsuc a) (negsuc b) h = ground arith

candidate_lt_asymm : (a b : DiscoveryCandidate) → candidate_lt a b ≡ true → candidate_lt b a ≡ false
unfolding candidate_lt
candidate_lt_asymm a b h = ground (
  arith,
  int_eq_comm a.score b.score,
  int_eq_comm b.score a.score,
  int_leb_total a.score b.score,
  int_leb_total b.score a.score,
  tuple_lt_asymm (a.namespace ∷ a.name ∷ []) (b.namespace ∷ b.name ∷ []),
)

-- What does not go before has no higher score.
leb-candidate_lt :
    (a b : DiscoveryCandidate) → candidate_lt a b ≡ false → int_leb a.score b.score ≡ true
unfolding candidate_lt
leb-candidate_lt a b h = ground (arith, int_eq-leb a.score b.score)

abbrev NotAbove : ℤ → DiscoveryCandidate → Type 0
NotAbove score x = int_leb x.score score ≡ true

NotAbove-rest :
    (score : ℤ) (w : DiscoveryCandidate) (rest : List DiscoveryCandidate)
    → int_leb w.score score ≡ true
    → IsSorted candidate_lt (w ∷ rest)
    → All (NotAbove score) rest
NotAbove-rest score w [] h s = tt
NotAbove-rest score w (x ∷ rest) h s =
    let below = int_leb_trans x.score w.score score (leb-candidate_lt x w s.0) h in
    (below, NotAbove-rest score x rest below s.1)

-- The score is strictly lower.
abbrev pub IsBelow : ℤ → DiscoveryCandidate → Type 0
IsBelow score x = int_lt x.score score ≡ true

IsBelow-rest :
    (score : ℤ) (rest : List DiscoveryCandidate)
    → All (NotAbove score) rest
    → keep (has_score score) rest ≡ []
    → All (IsBelow score) rest
IsBelow-rest score [] h k = tt
IsBelow-rest score (x ∷ rest) h k =
    ground (arith, int_leb_antisymm x.score score, IsBelow-rest score rest h.1)

int_leb_refl : (a : ℤ) → int_leb a a ≡ true
int_leb_refl (pos a) = ground arith
int_leb_refl (negsuc a) = ground arith

-- The candidate is one of those given, and every other has a strictly lower score.
abbrev pub IsBest : List DiscoveryCandidate → DiscoveryCandidate → Type 0
IsBest cs c = (rest : List DiscoveryCandidate) × Perm (c ∷ rest) cs × All (IsBelow c.score) rest

require_unique-IsBest :
    (cs sorted_candidates : List DiscoveryCandidate)
    → Perm sorted_candidates cs
    → IsSorted candidate_lt sorted_candidates
    → IfOk (IsBest cs) (require_unique sorted_candidates)
unfolding require_unique
require_unique-IsBest cs [] p s = tt
require_unique-IsBest cs (w ∷ rest) p s = go (keep (has_score w.score) rest) refl
  where
    go :
        (tied : List DiscoveryCandidate)
        → keep (has_score w.score) rest ≡ tied
        → IfOk (IsBest cs) (require_unique (w ∷ rest))
    go [] e =
        rw (require_unique, e)
          (
            rest,
            p,
            IsBelow-rest w.score rest (NotAbove-rest w.score w rest (int_leb_refl w.score) s) e,
          )
    go (other ∷ others) e = rw (require_unique, e) tt

select-IsBest : (cs : List DiscoveryCandidate) → IfOk (IsBest cs) (select_unique_candidate cs none)
unfolding select_unique_candidate
select-IsBest [] = tt
select-IsBest (c ∷ cs) =
    require_unique-IsBest (c ∷ cs) (sorted candidate_lt (c ∷ cs))
      (sorted-perm candidate_lt (c ∷ cs)) (sorted-IsSorted candidate_lt candidate_lt_asymm (c ∷ cs))

-- Without an override, a candidate that is selected is one of the given candidates, and every other
-- one has a strictly lower score.
pub select_unique_candidate-IsBest :
    (cs : List DiscoveryCandidate) (c : DiscoveryCandidate)
    → select_unique_candidate cs none ≡ ok c
    → IsBest cs c
select_unique_candidate-IsBest cs c e = IfOk-eq (IsBest cs) _ (select-IsBest cs) e

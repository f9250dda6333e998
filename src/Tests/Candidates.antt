-- ===== src/Tests/Candidates.antt =====
-- A choice between two candidates.
use airgapped_ai_gateway_k8s.Base.{List, [], ◌∷◌, none, ◌≡◌, refl, String}
use airgapped_ai_gateway_k8s.Base.Int.{ℤ, pos}
use airgapped_ai_gateway_k8s.Base.Order.{sorted}
use airgapped_ai_gateway_k8s.Base.Outcome.{ok}
use airgapped_ai_gateway_k8s.Discovery.{DiscoveryCandidate, select_unique_candidate}
use airgapped_ai_gateway_k8s.Discovery.Unique.{IsBest, select_unique_candidate-IsBest}

abbrev candidate : String → ℤ → DiscoveryCandidate
candidate name score = record { name = name; namespace = "edge"; score = score; details = "" }

abbrev candidates : List DiscoveryCandidate
candidates = candidate "low" (pos 1) ∷ candidate "high" (pos 2) ∷ []

selected : select_unique_candidate candidates none ≡ ok (candidate "high" (pos 2))
unfolding select_unique_candidate sorted
selected = refl

select_unique_candidate-IsBest_example : IsBest candidates (candidate "high" (pos 2))
select_unique_candidate-IsBest_example =
    select_unique_candidate-IsBest candidates (candidate "high" (pos 2)) selected

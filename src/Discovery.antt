-- ===== src/Discovery.antt =====
-- src/airgap_ai_gateway/discovery.py: the choice among discovered candidates.
pub mod Unique
use airgapped_ai_gateway_k8s.Base.{
  ℕ, String, ◌<>◌, Bool, true, false, not, ◌||◌, List, [], ◌∷◌, Option, none, some, ◌==◌, length,
  keep, if◌then◌else◌,
}
use airgapped_ai_gateway_k8s.Base.Int.{ℤ, int_eq, int_leb}
use airgapped_ai_gateway_k8s.Base.Order.{tuple_lt, sorted}
use airgapped_ai_gateway_k8s.Base.Outcome.{Result, ok, err, discovery_error}
use airgapped_ai_gateway_k8s.Models.{GatewayConfig}

pub record DiscoveryReport : Type 0 where
  pub platform : String
  pub expected_context : String
  pub model_count : ℕ
  pub consumer_count : ℕ
  pub status : String

pub record DiscoveryCandidate : Type 0 where
  pub name : String
  pub namespace : String
  pub score : ℤ
  pub details : String

unfoldable pub discover : GatewayConfig → DiscoveryReport
discover config = record {
  platform = config.platform.name;
  expected_context = config.platform.cluster.expected_context;
  model_count = length config.models;
  consumer_count = length config.consumers;
  status = "offline-discovery-skeleton";
}

-- a < b
abbrev pub int_lt : ℤ → ℤ → Bool
int_lt a b = not (int_leb b a)

-- The order of the keys (-score, namespace, name).
unfoldable pub candidate_lt : DiscoveryCandidate → DiscoveryCandidate → Bool
candidate_lt a b =
    if int_eq a.score b.score
    then tuple_lt (a.namespace ∷ a.name ∷ []) (b.namespace ∷ b.name ∷ [])
    else int_lt b.score a.score

-- The loop over the candidates for the override.
unfoldable pub find_override : String → List DiscoveryCandidate → Result DiscoveryCandidate
find_override override [] = err (discovery_error "override did not match any discovered candidate")
find_override override (c ∷ cs) =
    let rest = find_override override cs in
    if c.name == override || (c.namespace <> ("/" <> c.name)) == override then ok c else rest

abbrev pub has_score : ℤ → DiscoveryCandidate → Bool
has_score score c = int_eq c.score score

-- The winner of the sorted candidates, if no other has its score.
unfoldable pub require_unique : List DiscoveryCandidate → Result DiscoveryCandidate
require_unique [] = err (discovery_error "no candidates discovered")
require_unique (winner ∷ rest) = elim (keep (has_score winner.score) rest) [
  | [] ↦ ok winner
  | other ∷ others ↦ err (discovery_error "ambiguous discovery")
]

unfoldable pub select_unique_candidate :
    List DiscoveryCandidate → Option String → Result DiscoveryCandidate
unfolding find_override require_unique candidate_lt
select_unique_candidate [] override = err (discovery_error "no candidates discovered")
select_unique_candidate (c ∷ cs) (some override) = find_override override (c ∷ cs)
select_unique_candidate (c ∷ cs) none = require_unique (sorted candidate_lt (c ∷ cs))

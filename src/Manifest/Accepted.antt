-- ===== src/Manifest/Accepted.antt =====
-- What `validate_documents` accepts.
use airgapped_ai_gateway_k8s.Base.{String, ◌≡◌, List, [], All}
use airgapped_ai_gateway_k8s.Base.Outcome.{ok}
use airgapped_ai_gateway_k8s.Base.Json.{Fields}
use airgapped_ai_gateway_k8s.Manifest.Reads.{Python, by_kind}
use airgapped_ai_gateway_k8s.Manifest.Shape.{validate_required_shape, validate_no_secret_material}
use airgapped_ai_gateway_k8s.Manifest.Images.{validate_images}
use airgapped_ai_gateway_k8s.Manifest.Routes.{
  validate_routes_and_policies, validate_backend_types, validate_cross_namespace_references,
  validate_inference_only_paths,
}
use airgapped_ai_gateway_k8s.Manifest.Consumers.{validate_consumer_id_flow}
use airgapped_ai_gateway_k8s.Manifest.Workloads.{
  validate_owned_workload_controls, validate_overlay_contract,
  validate_no_authored_generated_data_plane,
}
use airgapped_ai_gateway_k8s.Manifest.Safe.Policies.{IsProtected}
use airgapped_ai_gateway_k8s.Manifest.Safe.Paths.{IsInferenceOnly}
use airgapped_ai_gateway_k8s.Manifest.Safe.Workloads.{HasNoSecret, IsOwned}
use airgapped_ai_gateway_k8s.Manifest.Safe.Pictures.{HasAllowedImages}
use airgapped_ai_gateway_k8s.Manifest.Safe.Crossing.{HasIdentities, StaysHome}
use airgapped_ai_gateway_k8s.Manifest.Safe.Budgets.{HasBudget, IsAuthored}
use airgapped_ai_gateway_k8s.Manifest.Safe.Consumers.{CountsConsumers}
use airgapped_ai_gateway_k8s.Manifest.Safe.Backends.{IsRouted}
use airgapped_ai_gateway_k8s.Manifest.Safe.Overlays.{IsDemo, IsProduction}

-- Every check of `validate_documents` passes.
record Passes (python : Python) (documents : List Fields) (overlay : String) (allowed : List String)
    : Type 0 where
  pub shape : validate_required_shape python documents ≡ ok []
  pub secrets : validate_no_secret_material python documents ≡ ok []
  pub images : validate_images python allowed documents ≡ ok []
  pub routes : validate_routes_and_policies documents ≡ ok []
  pub namespaces : validate_cross_namespace_references python documents ≡ ok []
  pub consumers : validate_consumer_id_flow python documents ≡ ok []
  pub backends : validate_backend_types python documents ≡ ok []
  pub plane : validate_no_authored_generated_data_plane documents ≡ ok []
  pub workloads : validate_owned_workload_controls python documents ≡ ok []
  pub overlays : validate_overlay_contract python documents overlay ≡ ok []
  pub paths : validate_inference_only_paths documents ≡ ok []

-- What documents without an error are like.
pub record IsSafe (python : Python) (documents : List Fields) (overlay : String)
    (allowed : List String) : Type 0 where
  pub identities : HasIdentities python [] documents
  pub no_secret : All (HasNoSecret python) documents
  pub images : HasAllowedImages python allowed documents
  pub protected : All (IsProtected documents) (by_kind documents "HTTPRoute")
  pub inference_only : All IsInferenceOnly (by_kind documents "HTTPRoute")
  pub home :
      by_kind documents "ReferenceGrant" ≡ []
      → All (StaysHome python) (by_kind documents "HTTPRoute")
  pub owned : IsOwned documents
  pub budgeted : All (HasBudget python documents) (by_kind documents "Deployment")
  pub authored : All IsAuthored (by_kind documents "Deployment")
  pub routed : All (IsRouted python documents) (by_kind documents "HTTPRoute")
  pub counted : CountsConsumers python documents
  pub demo : overlay ≡ "kind-demo" → IsDemo python documents
  pub production : overlay ≡ "production-reference" → IsProduction python documents

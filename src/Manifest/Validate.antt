-- ===== src/Manifest/Validate.antt =====
-- `validate_documents` of manifest.py.
use airgapped_ai_gateway_k8s.Base.{String, List, []}
use airgapped_ai_gateway_k8s.Base.Outcome.{Result, ok, ◌then_extend◌}
use airgapped_ai_gateway_k8s.Base.Json.{Fields}
use airgapped_ai_gateway_k8s.Manifest.Reads.{Python, Message}
use airgapped_ai_gateway_k8s.Manifest.Shape.{validate_required_shape, validate_no_secret_material}
use airgapped_ai_gateway_k8s.Manifest.Images.{validate_images}
use airgapped_ai_gateway_k8s.Manifest.Routes.{
  validate_routes_and_policies, validate_backend_types, validate_cross_namespace_references,
  validate_inference_only_paths,
}
use airgapped_ai_gateway_k8s.Manifest.Consumers.{validate_consumer_id_flow}
use airgapped_ai_gateway_k8s.Manifest.Workloads.{
  validate_owned_workload_controls, validate_overlay_contract,
  validate_no_authored_generated_data_plane,
}

-- `allowed` are the values of the image map.
unfoldable pub validate_documents :
    Python → List Fields → String → List String → Result (List Message)
validate_documents python documents overlay allowed =
    ok []
    then_extend validate_required_shape python documents
    then_extend validate_no_secret_material python documents
    then_extend validate_images python allowed documents
    then_extend validate_routes_and_policies documents
    then_extend validate_backend_types python documents
    then_extend validate_consumer_id_flow python documents
    then_extend validate_cross_namespace_references python documents
    then_extend validate_owned_workload_controls python documents
    then_extend validate_overlay_contract python documents overlay
    then_extend validate_inference_only_paths documents
    then_extend validate_no_authored_generated_data_plane documents

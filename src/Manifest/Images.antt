-- ===== src/Manifest/Images.antt =====
-- `_rendered_images` and `_validate_images` of manifest.py.
use text.Mathlib.Text.{starts_with}
use airgapped_ai_gateway_k8s.Base.{
  String, not, List, [], ◌∷◌, ◌++◌, ◌<>◌, ◌==◌, if◌then◌else◌, contains, gather,
}
use airgapped_ai_gateway_k8s.Base.Strip.{has_substring}
use airgapped_ai_gateway_k8s.Base.Outcome.{Result, ok, ◌>>=◌}
use airgapped_ai_gateway_k8s.Base.Json.{Value, str, arr, nil, Fields, get, get_or}
use airgapped_ai_gateway_k8s.Conditions.Checks.{is_text}
use airgapped_ai_gateway_k8s.Manifest.Reads.{
  Python, Message, report, mapping_of, sequence_of, string_of, entry, name_of, spec_of, text_of,
}

-- An image's name and its reference.
abbrev pub Images : Type 0
Images = List (String × String)

-- images[name] = image
unfoldable pub set_image : Images → String → String → Images
set_image [] name image = (name, image) ∷ []
set_image ((n, i) ∷ images) name image =
    let rest = set_image images name image in
    if n == name then (n, image) ∷ images else (n, i) ∷ rest

-- The pod specification of a Deployment.
unfoldable pub pod_spec_of : Fields → Result Fields
unfolding spec_of mapping_of
pod_spec_of document = do
  spec ← spec_of document
  template ← mapping_of (get spec "template")
  mapping_of (get template "spec")

abbrev pub public_image_markers : List String
public_image_markers =
    "cr.agentgateway.dev/" ∷ "docker.io/" ∷ "ghcr.io/" ∷ "quay.io/" ∷ "registry.k8s.io/" ∷ []

abbrev pub private_registry : String
private_registry = "registry.example.internal:5000"

unfoldable pub marker_messages : String → String → String → List Message
unfolding report
marker_messages name image marker =
    report (has_substring marker image) "image contains public registry marker"
      (str name ∷ str marker ∷ [])

unfoldable pub output_messages : String → String → List Message
unfolding report
output_messages rendered marker =
    report (has_substring marker rendered) "rendered output contains public image marker"
      (str marker ∷ [])

-- `allowed` are the values of the image map.
unfoldable pub image_messages : List String → String × String → List Message
unfolding report marker_messages
image_messages allowed (name, image) =
    let about = str name ∷ str image ∷ [] in
    report (not (contains allowed image)) "image is not sourced from images.yaml" about
    ++ report (not (starts_with image (private_registry <> "/")))
        "image does not use the private registry" about
    ++ report (not (has_substring "@sha256:" image)) "image is not digest pinned" about
    ++ report (has_substring ":latest" image) "image uses mutable latest tag" about
    ++ gather (marker_messages name image) public_image_markers

module _ (python : Python) where
  unfoldable pub container_image : Fields → Images → Value → Result Images
  unfolding mapping_of name_of entry string_of text_of set_image
  container_image document images container = do
    fields ← mapping_of container
    image ← string_of (get fields "image")
    name ← name_of document
    container_name ← entry fields "name"
    ok (set_image images (text_of python name <> "/" <> text_of python container_name) image)

  unfoldable pub container_images : Fields → Images → List Value → Result Images
  unfolding container_image
  container_images document images [] = ok images
  container_images document images (container ∷ containers) =
      container_image document images container >>= λ updated.
      container_images document updated containers

  unfoldable pub deployment_images : Fields → Images → Result Images
  unfolding pod_spec_of sequence_of container_images
  deployment_images document images =
      if is_text (get document "kind") "Deployment"
      then (pod_spec_of document >>= λ pod_spec.
          sequence_of (get_or pod_spec "containers" (arr nil)) >>= λ containers.
          container_images document images containers)
      else ok images

  unfoldable pub parameters_image : Fields → Result (String × String)
  unfolding spec_of mapping_of entry name_of text_of
  parameters_image document = do
    spec ← spec_of document
    image ← mapping_of (get spec "image")
    registry ← entry image "registry"
    repository ← entry image "repository"
    digest ← entry image "digest"
    name ← name_of document
    ok (
      text_of python name <> "/agentgateway",
      text_of python registry <> "/" <> text_of python repository <> "@" <> text_of python digest,
    )

  unfoldable pub parameters_images : Fields → Images → Result Images
  unfolding parameters_image set_image
  parameters_images document images =
      if is_text (get document "kind") "AgentgatewayParameters"
      then (parameters_image document >>= λ named. ok (set_image images named.0 named.1))
      else ok images

  unfoldable pub images_loop : Images → List Fields → Result Images
  unfolding deployment_images parameters_images
  images_loop images [] = ok images
  images_loop images (document ∷ documents) = deployment_images document images >>= λ deployed.
      parameters_images document deployed >>= λ both. images_loop both documents

  unfoldable pub rendered_images : List Fields → Result Images
  unfolding images_loop
  rendered_images documents = images_loop [] documents

  unfoldable pub validate_images : List String → List Fields → Result (List Message)
  unfolding rendered_images image_messages output_messages
  validate_images allowed documents = do
    images ← rendered_images documents
    ok (
        gather (image_messages allowed) images
        ++ gather (output_messages (python.safe_dump_all documents)) public_image_markers)

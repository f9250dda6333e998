-- ===== src/Manifest/Safe/Pictures.antt =====
-- Images that are reported on by nothing.
use text.Mathlib.Text.{starts_with}
use mathlib.Core.Path.{subst}
use airgapped_ai_gateway_k8s.Base.{
  String, Bool, true, false, not, ◌≡◌, refl, ◌↔◌, List, [], All, All-mono, arith, ◌<>◌, ◌≢◌, ◌==◌,
  eq_iff, Bool-cases, inl, inr, contains, gather, append-eq-nil, both-eq-nil, gather-eq-nil,
}
use airgapped_ai_gateway_k8s.Base.Strip.{has_substring}
use airgapped_ai_gateway_k8s.Base.Outcome.{Result, ok, err}
use airgapped_ai_gateway_k8s.Base.Json.{Value, Fields}
use airgapped_ai_gateway_k8s.Manifest.Reads.{Python, by_kind}
use airgapped_ai_gateway_k8s.Manifest.Images.{
  Images, marker_messages, output_messages, image_messages, rendered_images, public_image_markers,
  private_registry, validate_images,
}
use airgapped_ai_gateway_k8s.Manifest.Safe.{report-eq-nil, All-Mem}
use airgapped_ai_gateway_k8s.Manifest.Safe.Declared.{
  containers_of, IsContainerImage, IsParametersImage, Declares, HasKey,
}
use airgapped_ai_gateway_k8s.Manifest.Safe.Rendered.{HasRead, HasParameters}
use airgapped_ai_gateway_k8s.Manifest.Safe.Collected.{rendered_images-IsRead}

-- The image is one of the image map, of the private registry and no public one, and pinned.
pub record IsAllowed (allowed : List String) (named : String × String) : Type 0 where
  pub mapped : contains allowed named.1 ≡ true
  pub private_image : starts_with named.1 (private_registry <> "/") ≡ true
  pub by_digest : has_substring "@sha256:" named.1 ≡ true
  pub no_latest : has_substring ":latest" named.1 ≡ false
  pub no_public : All (λ marker. has_substring marker named.1 ≡ false) public_image_markers

different : (s t : String) → (s == t) ≡ false → s ≡ t → ⊥
different s t h e = ground (arith, h, (eq_iff s t).1 e)

marker_messages-eq-nil :
    (name image marker : String)
    → (marker_messages name image marker ≡ []) ↔ (has_substring marker image ≡ false)
unfolding marker_messages
marker_messages-eq-nil name image marker = report-eq-nil _ _ _

true_of_not : (b : Bool) → not b ≡ false → b ≡ true
true_of_not true h = refl
true_of_not false h = cc

image_messages-IsAllowed :
    (allowed : List String) (named : String × String)
    → image_messages allowed named ≡ []
    → IsAllowed allowed named
unfolding image_messages
image_messages-IsAllowed allowed (name, image) =
    let tests =
      both-eq-nil
        (both-eq-nil
          (both-eq-nil (both-eq-nil (report-eq-nil _ _ _) (report-eq-nil _ _ _))
            (report-eq-nil _ _ _))
          (report-eq-nil _ _ _))
        (gather-eq-nil (λ marker. has_substring marker image ≡ false) (marker_messages name image)
          (marker_messages-eq-nil name image) public_image_markers) in
    λ e.
      let h = tests.0 e in
      record {
        mapped = true_of_not _ h.0.0.0.0;
        private_image = true_of_not _ h.0.0.0.1;
        by_digest = true_of_not _ h.0.0.1;
        no_latest = h.0.1;
        no_public = h.1;
      }

-- The image is allowed. Else the code does not see it: it keeps one image for each pair of names, and
-- another image that the documents declare under the same names is kept in its place, and is allowed.
pub data IsCovered (python : Python) (allowed : List String) (documents : List Fields)
    (named : String × String) : Type 0 where
  seen : IsAllowed allowed named → IsCovered python allowed documents named
  replaced :
      (other : String)
      → other ≢ named.1
      → Declares python documents (named.0, other)
      → IsAllowed allowed (named.0, other)
      → IsCovered python allowed documents named

-- The images of the containers of Deployments and of parameters are covered, and the YAML text of the
-- documents names no public registry.
pub record HasAllowedImages (python : Python) (allowed : List String) (documents : List Fields)
    : Type 0 where
  pub containers :
      All
        (λ (d : Fields).
          All
            (λ (c : Value).
              (named : String × String) × IsContainerImage python d c named
              × IsCovered python allowed documents named)
            (containers_of d))
        (by_kind documents "Deployment")
  pub parameters :
      All
        (λ (d : Fields).
          (named : String × String) × IsParametersImage python d named
          × IsCovered python allowed documents named)
        (by_kind documents "AgentgatewayParameters")
  pub no_marker :
      All
        (λ marker. has_substring marker (python.safe_dump_all documents) ≡ false)
        public_image_markers

module _ (python : Python) (allowed : List String) (documents : List Fields) where
  HasKey-IsCovered :
      (images : Images)
      → All (Declares python documents) images
      → All (IsAllowed allowed) images
      → (named : String × String) → HasKey named.0 images
      → IsCovered python allowed documents named
  HasKey-IsCovered images declared all (key, image) (other, m) =
      let a = All-Mem (IsAllowed allowed) (key, other) images m all in
      let d = All-Mem (Declares python documents) (key, other) images m declared in
      elim (Bool-cases (other == image)) [
        | inl e ↦ seen (subst (λ i. IsAllowed allowed (key, i)) ((eq_iff other image).0 e) a)
        | inr e ↦ replaced other (λ p. different other image e p) d a
      ]

  marked :
      (marker : String)
      → (output_messages (python.safe_dump_all documents) marker ≡ [])
        ↔ (has_substring marker (python.safe_dump_all documents) ≡ false)
  unfolding output_messages
  marked marker = report-eq-nil _ _ _

  collected_images :
      (images : Images)
      → rendered_images python documents ≡ ok images
      → validate_images python allowed documents ≡ ok []
      → HasAllowedImages python allowed documents
  unfolding validate_images HasRead HasParameters
  collected_images images p e =
      let output = gather (output_messages (python.safe_dump_all documents)) public_image_markers in
      let none = λ (named : String × String). image_messages allowed named ≡ [] in
      let parts =
        (append-eq-nil (gather (image_messages allowed) images) output).0 (ground (arith, e, p)) in
      let each =
        (gather-eq-nil none (image_messages allowed) (λ named. (λ h. h, λ h. h)) images).0
          parts.0 in
      let all = All-mono none (IsAllowed allowed) (image_messages-IsAllowed allowed) images each in
      let read = rendered_images-IsRead python documents images p in
      let covered = HasKey-IsCovered images read.0 all in
      record {
        containers =
            All-mono (λ d. All (HasRead python d images) (containers_of d)) _
              (λ d h.
                All-mono (HasRead python d images) _ (λ c r. (r.0, r.1, covered r.0 r.2))
                  (containers_of d) h)
              (by_kind documents "Deployment") read.1;
        parameters =
            All-mono (λ d. HasParameters python d images) _ (λ d r. (r.0, r.1, covered r.0 r.2))
              (by_kind documents "AgentgatewayParameters") read.2;
        no_marker =
            (gather-eq-nil (λ marker. has_substring marker (python.safe_dump_all documents) ≡ false)
                (output_messages (python.safe_dump_all documents)) marked public_image_markers).0
              parts.1;
      }

  pub documents-HasAllowedImages :
      validate_images python allowed documents ≡ ok [] → HasAllowedImages python allowed documents
  unfolding validate_images
  documents-HasAllowedImages e = go (rendered_images python documents) refl
    where
      go :
          (r : Result Images)
          → rendered_images python documents ≡ r
          → HasAllowedImages python allowed documents
      go (err x) p = ground (arith, e, p)
      go (ok images) p = collected_images images p e

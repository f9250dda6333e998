-- ===== src/Manifest/Safe/Rendered.antt =====
-- What the loops of `_rendered_images` keep of the images that the documents declare.
use mathlib.Core.Path.{subst}
use mathlib.Core.List.{Memᴰ}
use mathlib.Core.List.Memᴰ.{head, tail}
use airgapped_ai_gateway_k8s.Base.{String, true, ◌≡◌, refl, sym, ap, ◌∙◌, List, [], ◌∷◌, All}
use airgapped_ai_gateway_k8s.Base.Outcome.{Result, ok, err, IfOk, IfOk-eq, IfOk-bind}
use airgapped_ai_gateway_k8s.Base.Json.{Value, arr, obj, nil, Fields, get, get_or}
use airgapped_ai_gateway_k8s.Conditions.Checks.{is_text}
use airgapped_ai_gateway_k8s.Manifest.Reads.{
  Python, mapping_of, sequence_of, spec_of, entry, name_of,
}
use airgapped_ai_gateway_k8s.Manifest.Images.{
  Images, pod_spec_of, container_image, container_images, deployment_images, parameters_image,
  parameters_images,
}
use airgapped_ai_gateway_k8s.Manifest.Safe.{within, within-obj, listed, entry-get, name_of-within}
use airgapped_ai_gateway_k8s.Manifest.Safe.Readers.{mapping_of-obj, missing-listed}
use airgapped_ai_gateway_k8s.Manifest.Safe.Declared.{
  containers_of, IsContainerImage, IsParametersImage, HasKey, set_image-Mem, Extends, Extends-refl,
  Extends-trans, Extends-set_image, IsWritten, container_image-IsWritten,
}

pub IfOk-mono :
    {A : Type 0} (P Q : A → Type 0) (m : Result A) → IfOk P m → ((a : A) → P a → Q a) → IfOk Q m
IfOk-mono P Q (ok a) h f = f a h
IfOk-mono P Q (err e) h f = tt

pod_spec_of-containers_of :
    (d : Fields) → IfOk (λ ps. containers_of d ≡ listed (get ps "containers")) (pod_spec_of d)
unfolding pod_spec_of spec_of within
pod_spec_of-containers_of d =
    let P = λ (ps : Fields). containers_of d ≡ listed (get ps "containers") in
    IfOk-bind P (mapping_of (get d "spec")) _ λ spec a.
      IfOk-bind P (mapping_of (get spec "template")) _ λ template b.
        IfOk-mono (λ ps. get template "spec" ≡ obj ps) P (mapping_of (get template "spec"))
          (mapping_of-obj (get template "spec"))
          λ ps c. ap listed (
            within-obj d "spec" ("template" ∷ "spec" ∷ "containers" ∷ []) (obj spec)
              (IfOk-eq _ _ (mapping_of-obj (get d "spec")) a)
            ∙ within-obj spec "template" ("spec" ∷ "containers" ∷ []) (obj template)
                (IfOk-eq _ _ (mapping_of-obj (get spec "template")) b)
            ∙ within-obj template "spec" ("containers" ∷ []) (obj ps) c)

-- The three parts of the image of parameters.
image_part :
    (d spec image : Fields) (k : String) (v : Value)
    → get d "spec" ≡ obj spec
    → get spec "image" ≡ obj image
    → entry image k ≡ ok v
    → within (obj d) ("spec" ∷ "image" ∷ k ∷ []) ≡ v
unfolding within
image_part d spec image k v a b e =
    within-obj d "spec" ("image" ∷ k ∷ []) (obj spec) a
    ∙ within-obj spec "image" (k ∷ []) (obj image) b
    ∙ entry-get image k v e

parameters_image-IsParametersImage :
    (python : Python) (document : Fields)
    → IfOk (IsParametersImage python document) (parameters_image python document)
unfolding parameters_image spec_of
parameters_image-IsParametersImage python document =
    let P = IsParametersImage python document in
    IfOk-bind P (mapping_of (get document "spec")) _ λ spec a.
      IfOk-bind P (mapping_of (get spec "image")) _ λ image b.
        IfOk-bind P (entry image "registry") _ λ registry c.
          IfOk-bind P (entry image "repository") _ λ repository d.
            IfOk-bind P (entry image "digest") _ λ digest e.
              IfOk-bind P (name_of document) _ λ name f.
                let x = IfOk-eq _ _ (mapping_of-obj (get document "spec")) a in
                let y = IfOk-eq _ _ (mapping_of-obj (get spec "image")) b in
                record {
                  key = rw (name_of-within document name f) refl;
                  image =
                      rw
                        (
                          image_part document spec image "registry" registry x y c,
                          image_part document spec image "repository" repository x y d,
                          image_part document spec image "digest" digest x y e,
                        )
                        refl;
                }

module _ (python : Python) where
  -- A container's image was read, and there is an image under its key.
  unfoldable pub HasRead : Fields → Images → Value → Type 0
  HasRead document later container =
      (named : String × String) × IsContainerImage python document container named
      × HasKey named.0 later

  unfoldable pub HasParameters : Fields → Images → Type 0
  HasParameters document later =
      (named : String × String) × IsParametersImage python document named × HasKey named.0 later

  module _ (Q : String × String → Type 0) where
    unfoldable pub ContainersRead : Fields → Images → List Value → Images → Type 0
    ContainersRead document images containers later =
        Extends Q images later × All (HasRead document later) containers

    IsWritten-ContainersRead :
        (document : Fields) (images next later : Images) (container : Value)
        (containers : List Value)
        → ((named : String × String) → IsContainerImage python document container named → Q named)
        → IsWritten python document images container next
        → ContainersRead document next containers later
        → ContainersRead document images (container ∷ containers) later
    unfolding ContainersRead HasRead IsWritten
    IsWritten-ContainersRead document images next later container containers q (named, i, e)
          (x, all) =
        (
          Extends-trans
              (subst (λ n. Extends Q images n) (sym e) (Extends-set_image images named (q named i)))
              x,
          (
            (
              named,
              i,
              x.keeps named.0 (
                named.1,
                subst (λ n. Memᴰ named n) (sym e) (set_image-Mem images named.0 named.1),
              ),
            ),
            all,
          ),
        )

    container_images-ContainersRead :
        (document : Fields) (images : Images) (containers : List Value)
        → ((container : Value)
            → Memᴰ container containers
            → (named : String × String) → IsContainerImage python document container named
            → Q named)
        → IfOk
            (ContainersRead document images containers)
            (container_images python document images containers)
    unfolding container_images ContainersRead
    container_images-ContainersRead document images [] q = (Extends-refl images, tt)
    container_images-ContainersRead document images (container ∷ containers) q =
        IfOk-bind _ (container_image python document images container) _ λ next a.
          IfOk-mono (ContainersRead document next containers) _
            (container_images python document next containers)
            (container_images-ContainersRead document next containers λ c m. q c (tail m))
            λ later.
              IsWritten-ContainersRead document images next later container containers
                (q container (head refl))
                (IfOk-eq _ _ (container_image-IsWritten python document images container) a)

    -- A Deployment's containers were read, if it is one.
    pub deployment_images-ContainersRead :
        (document : Fields) (images : Images)
        → is_text (get document "kind") "Deployment" ≡ true
        → ((container : Value)
            → Memᴰ container (containers_of document)
            → (named : String × String) → IsContainerImage python document container named
            → Q named)
        → IfOk
            (ContainersRead document images (containers_of document))
            (deployment_images python document images)
    unfolding deployment_images ContainersRead
    deployment_images-ContainersRead document images kind q =
        let P = ContainersRead document images (containers_of document) in
        rw kind (
          IfOk-bind P (pod_spec_of document) _ λ pod_spec a.
            IfOk-bind P (sequence_of (get_or pod_spec "containers" (arr nil))) _ λ containers b.
              let same =
                IfOk-eq _ _ (missing-listed pod_spec "containers") b
                ∙ sym (IfOk-eq _ _ (pod_spec_of-containers_of document) a) in
              subst
                (λ cs.
                  IfOk (ContainersRead document images cs)
                    (container_images python document images containers))
                same
                (container_images-ContainersRead document images containers
                  λ c m. q c (subst (λ cs. Memᴰ c cs) same m)))

    pub parameters_images-HasParameters :
        (document : Fields) (images : Images)
        → is_text (get document "kind") "AgentgatewayParameters" ≡ true
        → ((named : String × String) → IsParametersImage python document named → Q named)
        → IfOk
            (λ later. Extends Q images later × HasParameters document later)
            (parameters_images python document images)
    unfolding parameters_images HasParameters
    parameters_images-HasParameters document images kind q =
        let P = λ (later : Images). Extends Q images later × HasParameters document later in
        rw kind (
          IfOk-bind P (parameters_image python document) _ λ named a.
            let i = IfOk-eq _ _ (parameters_image-IsParametersImage python document) a in
            (
              Extends-set_image images named (q named i),
              (named, i, (named.1, set_image-Mem images named.0 named.1)),
            ))

-- ===== src/Manifest/Safe/Collected.antt =====
-- The images that `_rendered_images` collects of all documents.
use mathlib.Core.List.Memᴰ.{head, tail}
use airgapped_ai_gateway_k8s.Base.{
  String, true, ◌≡◌, refl, List, [], ◌∷◌, All, All-mono, Bool-cases, inl, inr,
}
use airgapped_ai_gateway_k8s.Base.Outcome.{ok, IfOk, IfOk-eq, IfOk-bind}
use airgapped_ai_gateway_k8s.Base.Json.{Value, Fields, get}
use airgapped_ai_gateway_k8s.Conditions.Checks.{is_text}
use airgapped_ai_gateway_k8s.Manifest.Reads.{Python, by_kind}
use airgapped_ai_gateway_k8s.Manifest.Images.{
  Images, deployment_images, parameters_images, images_loop, rendered_images,
}
use airgapped_ai_gateway_k8s.Manifest.Safe.Declared.{
  containers_of, Declares, by_container, by_parameters, Extends, Extends-refl, Extends-trans,
}
use airgapped_ai_gateway_k8s.Manifest.Safe.Rendered.{
  IfOk-mono, HasRead, HasParameters, ContainersRead, deployment_images-ContainersRead,
  parameters_images-HasParameters,
}

-- What holds of each document of a kind holds of the documents of that kind.
pub All-by_kind :
    (P : Fields → Type 0) (documents : List Fields) (kind : String)
    → All (λ (d : Fields). is_text (get d "kind") kind ≡ true → P d) documents
    → All P (by_kind documents kind)
unfolding by_kind
All-by_kind P [] kind h = tt
All-by_kind P (d ∷ documents) kind (h, rest) = elim (Bool-cases (is_text (get d "kind") kind)) [
  | inl e ↦ rw e (h e, All-by_kind P documents kind rest)
  | inr e ↦ rw e (All-by_kind P documents kind rest)
]

Declares-later :
    (python : Python) (document : Fields) (documents : List Fields) (named : String × String)
    → Declares python documents named
    → Declares python (document ∷ documents) named
Declares-later python document documents named (by_container d m k c n i) =
    by_container d (tail m) k c n i
Declares-later python document documents named (by_parameters d m k i) =
    by_parameters d (tail m) k i

Declares-first :
    (python : Python) (document : Fields) (documents : List Fields) (named : String × String)
    → Declares python (document ∷ []) named
    → Declares python (document ∷ documents) named
Declares-first python document documents named (by_container d (head m) k c n i) =
    by_container d (head m) k c n i
Declares-first python document documents named (by_container d (tail m) k c n i) = elim m [ ]
Declares-first python document documents named (by_parameters d (head m) k i) =
    by_parameters d (head m) k i
Declares-first python document documents named (by_parameters d (tail m) k i) = elim m [ ]

module _ (python : Python) where
  -- What the document declares was read.
  IsRead : Images → Fields → Type 0
  IsRead later document =
      (is_text (get document "kind") "Deployment" ≡ true
        → All (HasRead python document later) (containers_of document))
      × (is_text (get document "kind") "AgentgatewayParameters" ≡ true
          → HasParameters python document later)

  module _ (Q : String × String → Type 0) where
    deployment_read :
        (document : Fields) (images : Images)
        → ((named : String × String) → Declares python (document ∷ []) named → Q named)
        → IfOk
            (λ later.
              Extends Q images later
              × (is_text (get document "kind") "Deployment" ≡ true
                  → All (HasRead python document later) (containers_of document)))
            (deployment_images python document images)
    unfolding deployment_images ContainersRead
    deployment_read document images q =
        let P = λ (later : Images).
          Extends Q images later
          × (is_text (get document "kind") "Deployment" ≡ true
              → All (HasRead python document later) (containers_of document)) in
        elim (Bool-cases (is_text (get document "kind") "Deployment")) [
          | inl e ↦
              IfOk-mono (ContainersRead python Q document images (containers_of document)) P
                (deployment_images python document images)
                (deployment_images-ContainersRead python Q document images e
                  λ c m n i. q n (by_container document (head refl) e c m i))
                λ later r. (r.0, λ k. r.1)
          | inr e ↦ rw e (Extends-refl images, λ k. cc)
        ]

    parameters_read :
        (document : Fields) (images : Images)
        → ((named : String × String) → Declares python (document ∷ []) named → Q named)
        → IfOk
            (λ later.
              Extends Q images later
              × (is_text (get document "kind") "AgentgatewayParameters" ≡ true
                  → HasParameters python document later))
            (parameters_images python document images)
    unfolding parameters_images
    parameters_read document images q =
        let P = λ (later : Images).
          Extends Q images later
          × (is_text (get document "kind") "AgentgatewayParameters" ≡ true
              → HasParameters python document later) in
        elim (Bool-cases (is_text (get document "kind") "AgentgatewayParameters")) [
          | inl e ↦
              IfOk-mono (λ later. Extends Q images later × HasParameters python document later) P
                (parameters_images python document images)
                (parameters_images-HasParameters python Q document images e
                  λ n i. q n (by_parameters document (head refl) e i))
                λ later r. (r.0, λ k. r.1)
          | inr e ↦ rw e (Extends-refl images, λ k. cc)
        ]

    -- What was read of a document is still there when the later ones were read.
    containers_later :
        (document : Fields) (images later : Images)
        → Extends Q images later
        → (containers : List Value) → All (HasRead python document images) containers
        → All (HasRead python document later) containers
    unfolding HasRead
    containers_later document images later x containers all =
        All-mono (HasRead python document images) (HasRead python document later)
          (λ c h. (h.0, h.1, x.keeps h.0.0 h.2)) containers all

    parameters_later :
        (document : Fields) (images later : Images)
        → Extends Q images later
        → HasParameters python document images
        → HasParameters python document later
    unfolding HasParameters
    parameters_later document images later x h = (h.0, h.1, x.keeps h.0.0 h.2)

    images_loop-IsRead :
        (images : Images) (documents : List Fields)
        → ((named : String × String) → Declares python documents named → Q named)
        → IfOk
            (λ later. Extends Q images later × All (IsRead later) documents)
            (images_loop python images documents)
    unfolding images_loop IsRead
    images_loop-IsRead images [] q = (Extends-refl images, tt)
    images_loop-IsRead images (document ∷ documents) q =
        let P =
          λ (later : Images). Extends Q images later × All (IsRead later) (document ∷ documents) in
        IfOk-bind P (deployment_images python document images) _ λ deployed a.
          IfOk-bind P (parameters_images python document deployed) _ λ both b.
            IfOk-mono (λ later. Extends Q both later × All (IsRead later) documents) P
              (images_loop python both documents)
              (images_loop-IsRead both documents
                λ n d. q n (Declares-later python document documents n d))
              λ later r.
                let first = λ (n : String × String) (d : Declares python (document ∷ []) n).
                  q n (Declares-first python document documents n d) in
                let d = IfOk-eq _ _ (deployment_read document images first) a in
                let p = IfOk-eq _ _ (parameters_read document deployed first) b in
                let rest = Extends-trans p.0 r.0 in
                (
                  Extends-trans d.0 rest,
                  (
                    (
                      (λ k.
                          containers_later document deployed later rest (containers_of document)
                            (d.1 k)),
                      (λ k. parameters_later document both later r.0 (p.1 k)),
                    ),
                    r.1,
                  ),
                )

  -- Each image that is collected is declared, and all that the documents declare was read.
  pub rendered_images-IsRead :
      (documents : List Fields) (images : Images)
      → rendered_images python documents ≡ ok images
      → All (Declares python documents) images
        × All
            (λ d. All (HasRead python d images) (containers_of d))
            (by_kind documents "Deployment")
        × All (λ d. HasParameters python d images) (by_kind documents "AgentgatewayParameters")
  unfolding rendered_images IsRead
  rendered_images-IsRead documents images e =
      let (x, all) =
        IfOk-eq _ _ (images_loop-IsRead (Declares python documents) [] documents (λ n d. d)) e in
      (
        x.sound tt,
        All-by_kind (λ d. All (HasRead python d images) (containers_of d)) documents "Deployment"
            (All-mono (IsRead images) _ (λ d r. r.0) documents all),
        All-by_kind (λ d. HasParameters python d images) documents "AgentgatewayParameters"
            (All-mono (IsRead images) _ (λ d r. r.1) documents all),
      )

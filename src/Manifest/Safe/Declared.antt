-- ===== src/Manifest/Safe/Declared.antt =====
-- The images that documents declare, and what `_rendered_images` reads of them.
use mathlib.Core.List.{Memᴰ}
use mathlib.Core.List.Memᴰ.{head, tail}
use airgapped_ai_gateway_k8s.Base.{
  String, true, ◌≡◌, refl, ap, List, [], ◌∷◌, inl, inr, All, ◌<>◌, ◌==◌, eq_iff, Bool-cases,
}
use airgapped_ai_gateway_k8s.Base.Outcome.{IfOk, IfOk-eq, IfOk-bind}
use airgapped_ai_gateway_k8s.Base.Json.{Value, str, obj, Fields, get}
use airgapped_ai_gateway_k8s.Conditions.Checks.{is_text}
use airgapped_ai_gateway_k8s.Manifest.Reads.{Python, mapping_of, string_of, entry, name_of, text_of}
use airgapped_ai_gateway_k8s.Manifest.Images.{Images, set_image, container_image}
use airgapped_ai_gateway_k8s.Manifest.Safe.{within, listed, entry-get, name_of-within}
use airgapped_ai_gateway_k8s.Manifest.Safe.Readers.{string_of-str, mapping_of-obj}

abbrev pub metadata_name : Fields → Value
metadata_name document = within (obj document) ("metadata" ∷ "name" ∷ [])

-- The containers of a Deployment.
abbrev pub containers_of : Fields → List Value
containers_of deployment =
    listed (within (obj deployment) ("spec" ∷ "template" ∷ "spec" ∷ "containers" ∷ []))

-- The image of a container, under the names of the Deployment and of the container.
pub record IsContainerImage (python : Python) (document : Fields) (container : Value)
    (named : String × String) : Type 0 where
  pub key :
      named.0
      ≡ text_of python (metadata_name document)
        <> "/"
        <> text_of python (within container ("name" ∷ []))
  pub image : within container ("image" ∷ []) ≡ str named.1

-- The image of parameters, in its parts.
pub record IsParametersImage (python : Python) (document : Fields) (named : String × String)
    : Type 0 where
  pub key : named.0 ≡ text_of python (metadata_name document) <> "/agentgateway"
  pub image :
      named.1
      ≡ text_of python (within (obj document) ("spec" ∷ "image" ∷ "registry" ∷ []))
        <> "/"
        <> text_of python (within (obj document) ("spec" ∷ "image" ∷ "repository" ∷ []))
        <> "@"
        <> text_of python (within (obj document) ("spec" ∷ "image" ∷ "digest" ∷ []))

-- One of the documents has this image, under these names.
pub data Declares (python : Python) (documents : List Fields) (named : String × String)
    : Type 0 where
  by_container :
      (deployment : Fields)
      → Memᴰ deployment documents
      → is_text (get deployment "kind") "Deployment" ≡ true
      → (container : Value) → Memᴰ container (containers_of deployment)
      → IsContainerImage python deployment container named
      → Declares python documents named
  by_parameters :
      (parameters : Fields)
      → Memᴰ parameters documents
      → is_text (get parameters "kind") "AgentgatewayParameters" ≡ true
      → IsParametersImage python parameters named
      → Declares python documents named

-- There is an image under the key.
abbrev pub HasKey : String → Images → Type 0
HasKey key images = (image : String) × Memᴰ (key, image) images

pub set_image-Mem :
    (images : Images) (name image : String) → Memᴰ (name, image) (set_image images name image)
unfolding set_image
set_image-Mem [] name image = head refl
set_image-Mem ((n, i) ∷ images) name image = elim (Bool-cases (n == name)) [
  | inl e ↦ rw e (rw ((eq_iff n name).0 e) (head refl))
  | inr e ↦ rw e (tail (set_image-Mem images name image))
]

replaced :
    (n j image key i : String) (images : Images)
    → Memᴰ (key, i) ((n, j) ∷ images)
    → HasKey key ((n, image) ∷ images)
replaced n j image key i images (head p) = (image, head (ap (λ k. (k.0, image)) p))
replaced n j image key i images (tail t) = (i, tail t)

behind :
    (named : String × String) (key : String) (images : Images)
    → HasKey key images
    → HasKey key (named ∷ images)
behind named key images (i, m) = (i, tail m)

in_rest :
    (key i : String) (named : String × String) (images later : Images)
    → (HasKey key images → HasKey key later)
    → Memᴰ (key, i) (named ∷ images)
    → HasKey key (named ∷ later)
in_rest key i named images later rest (head p) = (i, head p)
in_rest key i named images later rest (tail t) = behind named key later (rest (i, t))

-- An image that is set takes no key away.
set_image-HasKey :
    (images : Images) (name image key : String)
    → HasKey key images
    → HasKey key (set_image images name image)
unfolding set_image
set_image-HasKey [] name image key (i, m) = elim m [ ]
set_image-HasKey ((n, j) ∷ images) name image key (i, m) = elim (Bool-cases (n == name)) [
  | inl e ↦ rw e (replaced n j image key i images m)
  | inr e ↦ rw e (
      in_rest key i (n, j) images (set_image images name image)
        (set_image-HasKey images name image key) m)
]

set_image-All :
    (Q : String × String → Type 0) (images : Images) (name image : String)
    → All Q images
    → Q (name, image)
    → All Q (set_image images name image)
unfolding set_image
set_image-All Q [] name image all q = (q, tt)
set_image-All Q ((n, i) ∷ images) name image all q = elim (Bool-cases (n == name)) [
  | inl e ↦ rw e (rw ((eq_iff n name).0 e) (q, all.1))
  | inr e ↦ rw e (all.0, set_image-All Q images name image all.1 q)
]

-- The later images hold the keys of the earlier ones, and images of `Q` alone if those did.
pub record Extends (Q : String × String → Type 0) (images later : Images) : Type 0 where
  pub keeps : (key : String) → HasKey key images → HasKey key later
  pub sound : All Q images → All Q later

module _ {Q : String × String → Type 0} where
  pub Extends-refl : (images : Images) → Extends Q images images
  Extends-refl images = record { keeps = λ key h. h; sound = λ all. all }

  pub Extends-trans :
      {images next later : Images}
      → Extends Q images next
      → Extends Q next later
      → Extends Q images later
  Extends-trans e f = record {
    keeps = λ key h. f.keeps key (e.keeps key h);
    sound = λ all. f.sound (e.sound all);
  }

  pub Extends-set_image :
      (images : Images) (named : String × String)
      → Q named
      → Extends Q images (set_image images named.0 named.1)
  Extends-set_image images named q = record {
    keeps = set_image-HasKey images named.0 named.1;
    sound = λ all. set_image-All Q images named.0 named.1 all q;
  }

module _ (python : Python) where
  -- The container's image was set, and nothing else.
  unfoldable pub IsWritten : Fields → Images → Value → Images → Type 0
  IsWritten document images container later =
      (named : String × String) × IsContainerImage python document container named
      × (later ≡ set_image images named.0 named.1)

  pub container_image-IsWritten :
      (document : Fields) (images : Images) (container : Value)
      → IfOk
          (IsWritten document images container)
          (container_image python document images container)
  unfolding container_image IsWritten within
  container_image-IsWritten document images container =
      let P = IsWritten document images container in
      IfOk-bind P (mapping_of container) _ λ fields a.
        IfOk-bind P (string_of (get fields "image")) _ λ image b.
          IfOk-bind P (name_of document) _ λ name c.
            IfOk-bind P (entry fields "name") _ λ container_name d. (
              (text_of python name <> "/" <> text_of python container_name, image),
              record {
                key =
                    rw
                      (
                        name_of-within document name c,
                        IfOk-eq _ _ (mapping_of-obj container) a,
                        entry-get fields "name" container_name d,
                      )
                      refl;
                image =
                    rw (IfOk-eq _ _ (mapping_of-obj container) a)
                      (IfOk-eq _ _ (string_of-str (get fields "image")) b);
              },
              refl,
            )

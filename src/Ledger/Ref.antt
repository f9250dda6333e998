-- ===== src/Ledger/Ref.antt =====
-- `ResourceRef` of ledger.py, and the helpers that read texts from JSON.
use airgapped_ai_gateway_k8s.Base.{
  String, ◌<>◌, Bool, List, [], ◌∷◌, none, some, ◌==◌, contains, if◌then◌else◌,
}
use airgapped_ai_gateway_k8s.Base.Order.{tuple_lt}
use airgapped_ai_gateway_k8s.Base.Outcome.{Result, ok, err, execution_error, ◌>>=◌}
use airgapped_ai_gateway_k8s.Base.Json.{Value, str, Fields, end, field, get, get_or, as_dict}

pub record ResourceRef : Type 0 where
  pub api_version : String
  pub kind : String
  pub namespace : String
  pub name : String

-- `namespace or "_cluster"`
abbrev pub or_cluster : String → String
or_cluster namespace = if namespace == "" then "_cluster" else namespace

unfoldable pub identity : ResourceRef → String
identity r =
    r.api_version <> ("/" <> (r.kind <> ("/" <> (or_cluster r.namespace <> ("/" <> r.name)))))

-- The order of the dataclass: field by field, as tuples.
unfoldable pub ref_lt : ResourceRef → ResourceRef → Bool
ref_lt a b =
    tuple_lt (a.api_version ∷ a.kind ∷ a.namespace ∷ a.name ∷ [])
      (b.api_version ∷ b.kind ∷ b.namespace ∷ b.name ∷ [])

-- manifest.py
abbrev pub cluster_scoped_kinds : List String
cluster_scoped_kinds =
    "CustomResourceDefinition" ∷ "GatewayClass" ∷ "Namespace" ∷ "Node" ∷ "PersistentVolume"
    ∷ "StorageClass" ∷ []

-- isinstance(value, str) and value, or the error
unfoldable pub nonempty_text : Value → String → Result String
nonempty_text (str s) what = if s == "" then err (execution_error what) else ok s
nonempty_text _ what = err (execution_error what)

-- The namespace of a manifest: none for a kind of the cluster's scope, and "default" if left out.
unfoldable pub manifest_namespace : String → Fields → Result String
unfolding nonempty_text
manifest_namespace kind metadata =
    if contains cluster_scoped_kinds kind
    then ok ""
    else nonempty_text (get_or metadata "namespace" (str "default")) "invalid metadata.namespace"

unfoldable pub from_manifest : Fields → Result ResourceRef
unfolding manifest_namespace
from_manifest manifest = elim (as_dict (get manifest "metadata")) [
  | none ↦ err (execution_error "manifest missing metadata")
  | some metadata ↦ do
    api_version ← nonempty_text (get manifest "apiVersion") "manifest missing apiVersion"
    kind ← nonempty_text (get manifest "kind") "manifest missing kind"
    name ← nonempty_text (get metadata "name") "manifest missing apiVersion, kind, or metadata.name"
    namespace ← manifest_namespace kind metadata
    ok (record { api_version = api_version; kind = kind; namespace = namespace; name = name })
]

-- _string
unfoldable pub text : Value → Result String
text (str s) = ok s
text _ = err (execution_error "expected string value")

-- _required_string of ledger.py, which lets the empty text pass
unfoldable pub required_string : Fields → String → Result String
unfolding text
required_string payload key = text (get payload key)

unfoldable pub from_dict : Fields → Result ResourceRef
unfolding required_string
from_dict payload = do
  api_version ← required_string payload "apiVersion"
  kind ← required_string payload "kind"
  namespace ← text (get_or payload "namespace" (str ""))
  name ← required_string payload "name"
  ok (record { api_version = api_version; kind = kind; namespace = namespace; name = name })

unfoldable pub to_dict : ResourceRef → Fields
to_dict r = field "apiVersion" (str r.api_version) (
    field "kind" (str r.kind) (field "name" (str r.name) (field "namespace" (str r.namespace) end)))

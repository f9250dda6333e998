-- ===== src/Redaction.antt =====
-- src/airgap_ai_gateway/redaction.py: what reports and command logs show in place of secrets.
pub mod Laws
pub mod Alike
use Prim.Native.Char.{code}
use airgapped_ai_gateway_k8s.Base.{
  String, Bool, false, List, [], ◌∷◌, ◌==◌, ◌||◌, nat_eq, any, if◌then◌else◌,
}
use airgapped_ai_gateway_k8s.Base.Strip.{has_substring}
use airgapped_ai_gateway_k8s.Base.Json.{
  Value, null, bool, int, real, str, arr, obj, Items, nil, item, Fields, end, field, get,
}

abbrev pub sensitive_keys : List String
sensitive_keys =
    "authorization" ∷ "api_key" ∷ "apikey" ∷ "client key data" ∷ "credential" ∷ "password"
    ∷ "secret" ∷ "token" ∷ "value" ∷ []

abbrev pub redacted : String
redacted = "<redacted>"

-- s.replace("-", "_")
unfoldable pub dashes_to_underscores : String → String
dashes_to_underscores String.[] = ""
dashes_to_underscores (String.◌∷◌ c s) =
    String.◌∷◌ (if nat_eq (code c) b'-' then "_" else c) (dashes_to_underscores s)

abbrev pub is_secret_kind : Value → Bool
is_secret_kind (str s) = s == "Secret"
is_secret_kind _ = false

abbrev pub is_secret_field : String → Bool
is_secret_field key = key == "data" || key == "stringData"

-- any(sensitive in key_text for sensitive in SENSITIVE_KEYS), where `lower` is `str.lower`
unfoldable pub is_sensitive_key : (String → String) → String → Bool
unfolding dashes_to_underscores
is_sensitive_key lower key =
    let key_text = dashes_to_underscores (lower key) in
    any (λ sensitive. has_substring sensitive key_text) sensitive_keys

-- `redact_text` is the substitution of the patterns by the library's `re`.
module _ (redact_text : String → String) (lower : String → String) where
  unfoldable mutual
    pub redact_mapping : Value → Value
    redact_mapping (obj fs) =
        if is_secret_kind (get fs "kind")
        then obj (redact_secret_fields fs)
        else obj (redact_fields fs)
    redact_mapping (arr vs) = arr (redact_items vs)
    redact_mapping (str s) = str (redact_text s)
    redact_mapping null = null
    redact_mapping (bool b) = bool b
    redact_mapping (int n) = int n
    redact_mapping (real x) = real x

    pub redact_items : Items → Items
    redact_items nil = nil
    redact_items (item v vs) = item (redact_mapping v) (redact_items vs)

    pub redact_fields : Fields → Fields
    redact_fields end = end
    redact_fields (field key v fs) =
        field key (if is_sensitive_key lower key then str redacted else redact_mapping v)
          (redact_fields fs)

    pub redact_secret_fields : Fields → Fields
    redact_secret_fields end = end
    redact_secret_fields (field key v fs) =
        field key (if is_secret_field key then str redacted else redact_mapping v)
          (redact_secret_fields fs)

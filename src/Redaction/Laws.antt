-- ===== src/Redaction/Laws.antt =====
-- What the redaction of a value does not depend on.
use airgapped_ai_gateway_k8s.Base.{
  String, true, false, ◌≡◌, eq_iff, Bool-cases, inl, inr, ◌==◌, refl,
}
use airgapped_ai_gateway_k8s.Base.Strip.{has_substring}
use airgapped_ai_gateway_k8s.Base.Json.{obj, Fields, end, field, get}
use airgapped_ai_gateway_k8s.Redaction.{
  is_sensitive_key, is_secret_kind, redact_mapping, redact_fields,
}

module _ (redact_text : String → String) (lower : String → String) where
  -- A field of another key than the sensitive ones is redacted as a value of its own.
  redact_fields-get :
      (fs : Fields) (k : String)
      → is_sensitive_key lower k ≡ false
      → get (redact_fields redact_text lower fs) k ≡ redact_mapping redact_text lower (get fs k)
  unfolding redact_fields redact_mapping
  redact_fields-get end k h = refl
  redact_fields-get (field j u fs) k h = elim (Bool-cases (j == k)) [
    | inl e ↦ rw e (rw (other e) refl)
    | inr n ↦ rw n (redact_fields-get fs k h)
  ]
    where
      other : (j == k) ≡ true → is_sensitive_key lower j ≡ false
      other e = rw ((eq_iff j k).0 e) h

  -- If `lower` leaves the kubeconfig key `client-key-data` alone, then in any mapping but a Secret
  -- the key's name hides nothing: what the redacted mapping has under it is what the redaction makes
  -- of that value by itself.
  pub client_key_data_is_shown :
      (fs : Fields)
      → is_secret_kind (get fs "kind") ≡ false
      → lower "client-key-data" ≡ "client-key-data"
      → (gs : Fields) × (redact_mapping redact_text lower (obj fs) ≡ obj gs)
        × (get gs "client-key-data" ≡ redact_mapping redact_text lower (get fs "client-key-data"))
  unfolding redact_mapping is_sensitive_key has_substring
  client_key_data_is_shown fs n h = (
    redact_fields redact_text lower fs,
    rw n refl,
    redact_fields-get fs "client-key-data" (rw h refl),
  )

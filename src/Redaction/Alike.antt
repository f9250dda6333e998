-- ===== src/Redaction/Alike.antt =====
-- Values that differ only in what is hidden are redacted to the same value.
use Prim.Native.Char.{Char}
use Prim.Native.String.slice
use Prim.Native.String.{slice, len}
use mathlib.Core.List.{Memᴰ}
use mathlib.Core.List.Memᴰ.{head, tail}
use text.Mathlib.TextLemmas.{nil-append, cons-append}
use text.Mathlib.Text.{starts_with}
use text.Mathlib.TextPositions.{starts_with-append}
use airgapped_ai_gateway_k8s.Base.{
  String, Bool, true, false, ◌≡◌, ◌≢◌, refl, sym, ap, ◌∙◌, List, [], ◌∷◌, ◌⊎◌, inl, inr, ◌<>◌, any,
  arith, eq_iff, Bool-cases,
}
use airgapped_ai_gateway_k8s.Base.Strip.{has_substring}
use airgapped_ai_gateway_k8s.Base.Json.{
  Value, null, bool, int, real, str, arr, obj, Items, nil, item, Fields, end, field, get,
}
use airgapped_ai_gateway_k8s.Redaction.{
  sensitive_keys, dashes_to_underscores, is_sensitive_key, is_secret_kind, is_secret_field,
  redact_mapping, redact_items, redact_fields, redact_secret_fields,
}

-- One of the listed words stands somewhere in the key, in lower case and with `_` for `-`.
pub record IsSensitive (lower : String → String) (key : String) : Type 0 where
  pub word : String
  pub listed : Memᴰ word sensitive_keys
  pub before : String
  pub after : String
  pub spelled : dashes_to_underscores (lower key) ≡ before <> (word <> after)

abbrev pub IsSecretField : String → Type 0
IsSecretField key = (key ≡ "data") ⊎ (key ≡ "stringData")

-- What is hidden of a Secret, and of another mapping.
abbrev pub IsHidden : (String → String) → Bool → String → Type 0
IsHidden lower true key = IsSecretField key
IsHidden lower false key = IsSensitive lower key

-- The values are the same but for what stands, at any depth, under a sensitive key of a mapping that
-- is no Secret, or under `data` or `stringData` of a Secret.
mutual
  pub data Alike (lower : String → String) : Value → Value → Type 0 where
    same : {v : Value} → Alike lower v v
    lists : {vs ws : Items} → AlikeItems lower vs ws → Alike lower (arr vs) (arr ws)
    secrets :
        {fs gs : Fields}
        → get fs "kind" ≡ str "Secret"
        → get gs "kind" ≡ str "Secret"
        → AlikeFields lower true fs gs
        → Alike lower (obj fs) (obj gs)
    mappings :
        {fs gs : Fields}
        → get fs "kind" ≢ str "Secret"
        → get gs "kind" ≢ str "Secret"
        → AlikeFields lower false fs gs
        → Alike lower (obj fs) (obj gs)

  pub data AlikeItems (lower : String → String) : Items → Items → Type 0 where
    no_items : AlikeItems lower nil nil
    one_item :
        {v w : Value} {vs ws : Items}
        → Alike lower v w
        → AlikeItems lower vs ws
        → AlikeItems lower (item v vs) (item w ws)

  pub data AlikeFields (lower : String → String) : Bool → Fields → Fields → Type 0 where
    no_fields : {secret : Bool} → AlikeFields lower secret end end
    hidden_field :
        {secret : Bool} {key : String} {v w : Value} {fs gs : Fields}
        → IsHidden lower secret key
        → AlikeFields lower secret fs gs
        → AlikeFields lower secret (field key v fs) (field key w gs)
    shown_field :
        {secret : Bool} {key : String} {v w : Value} {fs gs : Fields}
        → Alike lower v w
        → AlikeFields lower secret fs gs
        → AlikeFields lower secret (field key v fs) (field key w gs)

-- A text is found at its start.
found_first : (sub s : String) → starts_with s sub ≡ true → has_substring sub s ≡ true
unfolding has_substring
found_first sub String.[] h =
    (eq_iff sub "").1 (sym ((eq_iff (slice "" 0 (len sub)) sub).0 h) ∙ slice.nil 0 (len sub))
found_first sub (String.◌∷◌ c s) h = rw h refl

found_later :
    (sub s : String) (c : Char)
    → has_substring sub s ≡ true
    → has_substring sub (String.◌∷◌ c s) ≡ true
unfolding has_substring
found_later sub s c h = elim (Bool-cases (starts_with (String.◌∷◌ c s) sub)) [
  | inl e ↦ rw e refl
  | inr e ↦ rw e h
]

-- What stands somewhere in a text is found in it.
has_substring-infix :
    (before sub after : String) → has_substring sub (before <> (sub <> after)) ≡ true
has_substring-infix String.[] sub after =
    rw (nil-append (sub <> after)) (found_first sub (sub <> after) (starts_with-append sub after))
has_substring-infix (String.◌∷◌ c before) sub after =
    rw (cons-append c before (sub <> after))
      (found_later sub _ c (has_substring-infix before sub after))

any-Mem :
    (test : String → Bool) (s : String) (ss : List String)
    → Memᴰ s ss
    → test s ≡ true
    → any test ss ≡ true
any-Mem test s [] m h = elim m [ ]
any-Mem test s (t ∷ ss) (head e) h = rw (sym e, h) refl
any-Mem test s (t ∷ ss) (tail m) h = ground (arith, any-Mem test s ss m h)

IsSensitive-found :
    (lower : String → String) (key : String)
    → IsSensitive lower key
    → is_sensitive_key lower key ≡ true
unfolding is_sensitive_key
IsSensitive-found lower key h =
    any-Mem (λ word. has_substring word (dashes_to_underscores (lower key))) h.word sensitive_keys
      h.listed (rw h.spelled (has_substring-infix h.before h.word h.after))

is_secret_kind-text : (v : Value) → v ≡ str "Secret" → is_secret_kind v ≡ true
is_secret_kind-text v e = rw e refl

is_secret_kind-other : (v : Value) → v ≢ str "Secret" → is_secret_kind v ≡ false
is_secret_kind-other (str s) n = ground (arith, eq_iff s "Secret", n)
is_secret_kind-other null n = refl
is_secret_kind-other (bool b) n = refl
is_secret_kind-other (int m) n = refl
is_secret_kind-other (real x) n = refl
is_secret_kind-other (arr vs) n = refl
is_secret_kind-other (obj fs) n = refl

IsSecretField-found : (key : String) → IsSecretField key → is_secret_field key ≡ true
IsSecretField-found key (inl e) = rw e refl
IsSecretField-found key (inr e) = rw e refl

module _ (redact_text : String → String) (lower : String → String) where
  mutual
    unfolding redact_mapping

    shown_values :
        (v w : Value)
        → Alike lower v w
        → redact_mapping redact_text lower v ≡ redact_mapping redact_text lower w
    shown_values v w same = refl
    shown_values (arr vs) (arr ws) (lists h) = ap arr (shown_items vs ws h)
    shown_values (obj fs) (obj gs) (secrets p q h) =
        rw (is_secret_kind-text _ p, is_secret_kind-text _ q) (ap obj (shown_secret_fields fs gs h))
    shown_values (obj fs) (obj gs) (mappings p q h) =
        rw (is_secret_kind-other _ p, is_secret_kind-other _ q) (ap obj (shown_fields fs gs h))

    shown_items :
        (vs ws : Items)
        → AlikeItems lower vs ws
        → redact_items redact_text lower vs ≡ redact_items redact_text lower ws
    shown_items nil nil no_items = refl
    shown_items nil (item w ws) h = elim h [ ]
    shown_items (item v vs) nil h = elim h [ ]
    shown_items (item v vs) (item w ws) (one_item a h) =
        rw (shown_values v w a, shown_items vs ws h) refl

    shown_fields :
        (fs gs : Fields)
        → AlikeFields lower false fs gs
        → redact_fields redact_text lower fs ≡ redact_fields redact_text lower gs
    shown_fields end end no_fields = refl
    shown_fields end (field j w gs) h = elim h [ ]
    shown_fields (field k v fs) end h = elim h [ ]
    shown_fields (field k v fs) (field j w gs) (hidden_field s h) =
        rw (IsSensitive-found lower k s, shown_fields fs gs h) refl
    shown_fields (field k v fs) (field j w gs) (shown_field a h) =
        rw (shown_values v w a, shown_fields fs gs h) refl

    shown_secret_fields :
        (fs gs : Fields)
        → AlikeFields lower true fs gs
        → redact_secret_fields redact_text lower fs ≡ redact_secret_fields redact_text lower gs
    shown_secret_fields end end no_fields = refl
    shown_secret_fields end (field j w gs) h = elim h [ ]
    shown_secret_fields (field k v fs) end h = elim h [ ]
    shown_secret_fields (field k v fs) (field j w gs) (hidden_field s h) =
        rw (IsSecretField-found k s, shown_secret_fields fs gs h) refl
    shown_secret_fields (field k v fs) (field j w gs) (shown_field a h) =
        rw (shown_values v w a, shown_secret_fields fs gs h) refl

  -- Whatever the text patterns do and whatever `lower` does: values that differ only in what stands,
  -- at any depth, under the sensitive keys of mappings that are no Secrets, and under `data` and
  -- `stringData` of Secrets, are redacted to the same value.
  pub redact_mapping-Alike :
      (v w : Value)
      → Alike lower v w
      → redact_mapping redact_text lower v ≡ redact_mapping redact_text lower w
  redact_mapping-Alike = shown_values

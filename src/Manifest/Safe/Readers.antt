-- ===== src/Manifest/Safe/Readers.antt =====
-- What the readers of values accept.
use airgapped_ai_gateway_k8s.Base.{
  String, true, ◌≡◌, refl, arith, eq_iff, ◌==◌, Bool-cases, inl, inr,
}
use airgapped_ai_gateway_k8s.Base.Outcome.{ok, err, IfOk, IfOk-if}
use airgapped_ai_gateway_k8s.Base.Json.{
  Value, null, bool, int, real, str, arr, obj, nil, Fields, end, field, get, get_or,
}
use airgapped_ai_gateway_k8s.Conditions.Checks.{is_text}
use airgapped_ai_gateway_k8s.Manifest.Reads.{mapping_of, string_of, sequence_of}
use airgapped_ai_gateway_k8s.Manifest.Safe.{listed}

pub string_of-str : (v : Value) → IfOk (λ s. v ≡ str s) (string_of v)
unfolding string_of
string_of-str null = tt
string_of-str (bool b) = tt
string_of-str (int n) = tt
string_of-str (real x) = tt
string_of-str (str s) = IfOk-if (λ t. str s ≡ str t) (s == "") (err _) (ok s) tt refl
string_of-str (arr vs) = tt
string_of-str (obj fs) = tt

pub mapping_of-obj : (v : Value) → IfOk (λ fs. v ≡ obj fs) (mapping_of v)
unfolding mapping_of
mapping_of-obj null = tt
mapping_of-obj (bool b) = tt
mapping_of-obj (int n) = tt
mapping_of-obj (real x) = tt
mapping_of-obj (str s) = tt
mapping_of-obj (arr vs) = tt
mapping_of-obj (obj fs) = refl

pub is_text-str : (v : Value) (s : String) → is_text v s ≡ true → v ≡ str s
is_text-str (str t) s h = ground (arith, h, eq_iff t s)
is_text-str null s h = cc
is_text-str (bool b) s h = cc
is_text-str (int n) s h = cc
is_text-str (real x) s h = cc
is_text-str (arr vs) s h = cc
is_text-str (obj fs) s h = cc

pub sequence_of-listed : (v : Value) → IfOk (λ vs. vs ≡ listed v) (sequence_of v)
unfolding sequence_of listed
sequence_of-listed null = tt
sequence_of-listed (bool b) = tt
sequence_of-listed (int n) = tt
sequence_of-listed (real x) = tt
sequence_of-listed (str s) = tt
sequence_of-listed (arr vs) = refl
sequence_of-listed (obj fs) = tt

-- A missing sequence counts as the empty one.
pub missing-listed :
    (fs : Fields) (k : String)
    → IfOk (λ vs. vs ≡ listed (get fs k)) (sequence_of (get_or fs k (arr nil)))
unfolding sequence_of listed
missing-listed end k = refl
missing-listed (field j v fs) k = elim (Bool-cases (j == k)) [
  | inl same ↦ rw same (sequence_of-listed v)
  | inr other ↦ rw other (missing-listed fs k)
]

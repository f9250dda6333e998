-- ===== src/Capture.antt =====
-- src/airgap_ai_gateway/snapshot.py: the snapshot before a change.
pub mod Accounted
use airgapped_ai_gateway_k8s.Base.{
  ℕ, ◌+◌, String, ◌<>◌, Bool, true, false, not, ◌&&◌, ◌||◌, List, [], ◌∷◌, Option, none, some, ◌==◌,
  length, if◌then◌else◌,
}
use airgapped_ai_gateway_k8s.Base.Int.{pos, int_eq}
use airgapped_ai_gateway_k8s.Base.Strip.{strip, has_substring}
use airgapped_ai_gateway_k8s.Base.Outcome.{Result, ok, err, safety_error, execution_error, raise_if}
use airgapped_ai_gateway_k8s.Base.Order.{sorted}
use airgapped_ai_gateway_k8s.Redaction.{redacted, is_secret_kind}
use airgapped_ai_gateway_k8s.Base.Json.{Value, str, obj, Fields, end, field, get, as_dict}
use airgapped_ai_gateway_k8s.Base.Exec.{Exec, pure, raise, lift, ◌>>=◌, ◌>>◌}
use airgapped_ai_gateway_k8s.Base.Runner.{Call, History, Runner, plain_call, run}
use airgapped_ai_gateway_k8s.Models.{CommandResult}
use airgapped_ai_gateway_k8s.Ledger.Ref.{ResourceRef, identity}
use airgapped_ai_gateway_k8s.Ledger.Snapshot.{PreChangeSnapshot, Resources, key_lt}
use airgapped_ai_gateway_k8s.Planning.Plan.{ExecutionPlan}
use airgapped_ai_gateway_k8s.Conditions.Poll.{Loads}

-- The report, without the path of the file.
pub record SnapshotReport : Type 0 where
  pub status : String
  pub resource_count : ℕ
  pub absent_count : ℕ
  pub sensitive_count : ℕ

-- The variables of the loop.
pub record Progress : Type 0 where
  pub resources : Resources
  pub absent : ℕ
  pub sensitive : ℕ

abbrev pub nothing_yet : Progress
nothing_yet = record { resources = []; absent = 0; sensitive = 0 }

-- resources[identity] = manifest: a key that is there keeps its place.
unfoldable pub set_resource : String → Fields → Resources → Resources
set_resource identity manifest [] = (identity, manifest) ∷ []
set_resource identity manifest ((key, held) ∷ rest) =
    let others = set_resource identity manifest rest in
    if key == identity then (key, manifest) ∷ rest else (key, held) ∷ others

unfoldable pub parse_manifest : Loads → String → Result Fields
parse_manifest loads stdout = elim (loads stdout) [
  | none ↦ err (execution_error "snapshot capture returned invalid JSON")
  | some payload ↦ elim (as_dict payload) [
    | none ↦ err (execution_error "snapshot capture returned non-object JSON")
    | some manifest ↦ ok manifest
  ]
]

-- `lower` is `str.lower`.
unfoldable pub get_resource_command : (String → String) → ResourceRef → List String
get_resource_command lower ref =
    if ref.namespace == ""
    then "kubectl" ∷ "get" ∷ lower ref.kind ∷ ref.name ∷ "-o" ∷ "json" ∷ []
    else "kubectl" ∷ "-n" ∷ ref.namespace ∷ "get" ∷ lower ref.kind ∷ ref.name ∷ "-o" ∷ "json" ∷ []

unfoldable pub is_not_found : (String → String) → CommandResult → Bool
is_not_found lower result =
    let combined = lower (result.stdout <> ("\n" <> result.stderr)) in
    not (int_eq result.returncode (pos 0))
    && (has_substring "notfound" combined || has_substring "not found" combined)

abbrev pub get_call : (String → String) → ResourceRef → Call
get_call lower ref = record {
  argv = get_resource_command lower ref;
  input_text = none;
  sensitive_output = ref.kind == "Secret";
}

abbrev pub with_resource : ResourceRef → Fields → Progress → Progress
with_resource ref manifest p = record {
  resources = set_resource (identity ref) manifest p.resources;
  absent = p.absent;
  sensitive = if ref.kind == "Secret" then p.sensitive + 1 else p.sensitive;
}

abbrev pub with_absent : Progress → Progress
with_absent p = record p { absent = p.absent + 1 }

abbrev pub captured : Progress → PreChangeSnapshot
captured p = record { status = "ok"; resources = p.resources; error = none }

abbrev pub capture_report : Progress → SnapshotReport
capture_report p = record {
  status = "captured";
  resource_count = length p.resources;
  absent_count = p.absent;
  sensitive_count = p.sensitive;
}

module _ (loads : Loads) (lower : String → String) (runner : Runner) where
  unfoldable pub verify_current_context : String → Exec History (Unit {0})
  unfolding run
  verify_current_context expected_context = do
    result ← run runner (plain_call ("kubectl" ∷ "config" ∷ "current-context" ∷ []))
    lift (
        raise_if
          (not (int_eq result.returncode (pos 0)) || not (strip result.stdout == expected_context))
          (safety_error "context mismatch"))

  -- What is done with the answer to the read.
  unfoldable pub note_answer : ResourceRef → Progress → CommandResult → Exec History Progress
  unfolding parse_manifest
  note_answer ref p result =
      if int_eq result.returncode (pos 0)
      then (lift (parse_manifest loads result.stdout) >>= λ manifest.
          pure (with_resource ref manifest p))
      else if is_not_found lower result
      then pure (with_absent p)
      else raise (execution_error "snapshot capture failed")

  -- The body of the loop.
  unfoldable pub capture_one : String → ResourceRef → Progress → Exec History Progress
  unfolding run verify_current_context note_answer
  capture_one expected_context ref p = do
    verify_current_context expected_context
    result ← run runner (get_call lower ref)
    note_answer ref p result

  unfoldable pub capture_all : String → List ResourceRef → Progress → Exec History Progress
  unfolding capture_one
  capture_all expected_context [] p = pure p
  capture_all expected_context (ref ∷ refs) p = do
    q ← capture_one expected_context ref p
    capture_all expected_context refs q

  -- The snapshot that is written to the file, and the report.
  unfoldable pub capture_snapshot :
      ExecutionPlan → String → Exec History (PreChangeSnapshot × SnapshotReport)
  unfolding capture_all
  capture_snapshot plan expected_context = do
    lift (
        raise_if (not (expected_context == plan.expected_context))
          (safety_error "expected context must match the saved plan exactly"))
    p ← capture_all expected_context plan.resources nothing_yet
    pure (captured p, capture_report p)

-- What the preview shows of a resource.
abbrev preview_value : Fields → Value
preview_value manifest =
    if is_secret_kind (get manifest "kind") then str redacted else get manifest "kind"

abbrev preview_items : Resources → Fields
preview_items [] = end
preview_items ((key, manifest) ∷ rest) = field key (preview_value manifest) (preview_items rest)

unfoldable pub redacted_snapshot_preview : PreChangeSnapshot → Fields
redacted_snapshot_preview s =
    field "resources" (obj (preview_items (sorted key_lt s.resources)))
      (field "status" (str s.status) end)

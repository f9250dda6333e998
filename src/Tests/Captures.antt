-- ===== src/Tests/Captures.antt =====
-- A snapshot of two resources, and a promotion of two images.
use airgapped_ai_gateway_k8s.Base.{
  String, Bool, true, false, List, [], ◌∷◌, none, some, ◌≡◌, refl, ◌⊎◌, All, ◌==◌, any,
  if◌then◌else◌,
}
use airgapped_ai_gateway_k8s.Base.Int.{pos}
use airgapped_ai_gateway_k8s.Base.Strip.{strip, has_substring}
use airgapped_ai_gateway_k8s.Base.Outcome.{ok}
use airgapped_ai_gateway_k8s.Base.Json.{Value, bool, str, obj, end, field, strs}
use airgapped_ai_gateway_k8s.Base.Exec.{◌>>=◌}
use airgapped_ai_gateway_k8s.Base.Runner.{Runner}
use airgapped_ai_gateway_k8s.Models.{CommandResult}
use airgapped_ai_gateway_k8s.Ledger.Ref.{identity}
use airgapped_ai_gateway_k8s.Ledger.Snapshot.{PreChangeSnapshot}
use airgapped_ai_gateway_k8s.Planning.Plan.{ExecutionPlan}
use airgapped_ai_gateway_k8s.Planning.Build.{planned}
use airgapped_ai_gateway_k8s.Conditions.Poll.{Loads}
use airgapped_ai_gateway_k8s.Capture.{
  SnapshotReport, is_not_found, capture_snapshot, get_resource_command, set_resource,
}
use airgapped_ai_gateway_k8s.Capture.Accounted.{Held, Missed, capture_snapshot-Accounted}
use airgapped_ai_gateway_k8s.Registry.{Promotion, promote_all}
use airgapped_ai_gateway_k8s.Registry.Promoted.{AreDone, promote_all-AreDone}
use airgapped_ai_gateway_k8s.Tests.Data.{config, manifest, settings, extra}

abbrev same_text : String → String
same_text s = s

abbrev answer : Bool → CommandResult
answer found =
    if found
    then record { returncode = pos 0; stdout = "kind-demo"; stderr = "" }
    else record { returncode = pos 1; stdout = ""; stderr = "Error: secrets not found" }

-- `extra` is not in the cluster, and `extra` is not in the registry.
abbrev cluster : Runner
cluster calls call = ok (answer (if any (λ word. word == "extra") call.argv then false else true))

abbrev loads : Loads
loads s = some (obj manifest)

abbrev plan : ExecutionPlan
plan = planned config "deploy apply" "kind-demo" "live" (settings ∷ extra ∷ []) []

abbrev snapshot_taken : PreChangeSnapshot
snapshot_taken = record {
  status = "ok";
  resources = ("v1/ConfigMap/gateway/settings", manifest) ∷ [];
  error = none;
}

abbrev report : SnapshotReport
report = record { status = "captured"; resource_count = 1; absent_count = 1; sensitive_count = 0 }

capture_returns :
    (capture_snapshot loads same_text cluster plan "kind-demo" []).0 ≡ ok (snapshot_taken, report)
unfolding capture_snapshot ◌>>=◌ is_not_found identity strip has_substring get_resource_command
    set_resource
capture_returns = refl

capture_snapshot-Accounted_example :
    (snapshot_taken.status ≡ "ok")
    × All
        (λ ref.
          Held (identity ref) snapshot_taken.resources
          ⊎ Missed loads same_text cluster ref
              (capture_snapshot loads same_text cluster plan "kind-demo" []).1)
        plan.resources
capture_snapshot-Accounted_example =
    capture_snapshot-Accounted loads same_text cluster plan "kind-demo" [] snapshot_taken report
      capture_returns

abbrev promotion : String → Value
promotion name = obj (
    field "name" (str name) (
      field "checkExistingBeforePush" (bool true) (
        field "existenceCheck" (strs ("crane" ∷ "digest" ∷ name ∷ []))
          (field "copyCommand" (strs ("crane" ∷ "copy" ∷ "proxy" ∷ [])) end))))

abbrev zero_real : String → Bool
zero_real x = false

abbrev results : List Promotion
results =
    record { name = "proxy"; status = "already-present" }
    ∷ record { name = "extra"; status = "promoted" }
    ∷ []

promotion_returns :
    (promote_all cluster zero_real (promotion "proxy" ∷ promotion "extra" ∷ []) []).0 ≡ ok results
unfolding promote_all ◌>>=◌
promotion_returns = refl

promote_all-AreDone_example :
    AreDone cluster zero_real
      (promotion "proxy" ∷ promotion "extra" ∷ [])
      results
      (promote_all cluster zero_real (promotion "proxy" ∷ promotion "extra" ∷ []) []).1
promote_all-AreDone_example =
    promote_all-AreDone cluster zero_real (promotion "proxy" ∷ promotion "extra" ∷ []) [] results
      promotion_returns

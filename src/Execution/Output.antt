-- ===== src/Execution/Output.antt =====
-- `ActionResult.to_dict` and `ExecutionReport.to_dict` of execution.py: what a report shows.
use airgapped_ai_gateway_k8s.Base.{
  String, Bool, true, false, List, [], ◌∷◌, map, Option, none, some, ◌≡◌, refl, if◌then◌else◌,
}
use airgapped_ai_gateway_k8s.Base.Int.{ℤ}
use airgapped_ai_gateway_k8s.Base.Json.{
  Value, null, int, str, arr, obj, Fields, end, field, of_list,
}
use airgapped_ai_gateway_k8s.Ledger.State
use airgapped_ai_gateway_k8s.Ledger.State.{StateLedger}
use airgapped_ai_gateway_k8s.Redaction.{redact_mapping}
use airgapped_ai_gateway_k8s.Execution.Log.{shown}
use airgapped_ai_gateway_k8s.Execution.Step.{ActionResult}
use airgapped_ai_gateway_k8s.Execution.Run.{ExecutionReport}

abbrev returncode_value : Option ℤ → Value
returncode_value none = null
returncode_value (some n) = int n

abbrev ledger_value : Option StateLedger → Value
ledger_value none = null
ledger_value (some ledger) = obj (State.to_dict ledger)

module _ (redact_text lower : String → String) where
  -- ActionResult.to_dict
  unfoldable pub result_dict : ActionResult → Fields
  result_dict r = field "action_id" (str r.action_id) (
      field "kind" (str r.kind) (
        field "returncode" (returncode_value r.returncode) (
          field "status" (str r.status) (
            field "stderr" (str (shown redact_text r.sensitive_output r.stderr))
              (field "stdout" (str (shown redact_text r.sensitive_output r.stdout)) end)))))

  abbrev result_value : ActionResult → Value
  result_value r = obj (result_dict r)

  -- ExecutionReport.to_dict
  unfoldable pub report_dict : ExecutionReport → Value
  unfolding result_dict redact_mapping
  report_dict report = redact_mapping redact_text lower (
      obj (
        field "apply_mode" (str report.apply_mode) (
          field "command" (str report.command) (
            field "ledger" (ledger_value report.ledger) (
              field "plan_id" (str report.plan_id) (
                field "results" (arr (of_list (map result_value report.results)))
                  (field "status" (str report.status) end)))))))

-- The result without its output, if that is sensitive.
abbrev pub blanked : ActionResult → ActionResult
blanked r = if r.sensitive_output then record r { stdout = ""; stderr = "" } else r

result_dict-blanked :
    (redact_text lower : String → String) (r : ActionResult)
    → result_dict redact_text lower (blanked r) ≡ result_dict redact_text lower r
unfolding result_dict
result_dict-blanked redact_text lower r = go r.sensitive_output
  where
    go :
        (b : Bool)
        → result_dict redact_text lower (blanked (record r { sensitive_output = b }))
          ≡ result_dict redact_text lower (record r { sensitive_output = b })
    go true = refl
    go false = refl

result_values-blanked :
    (redact_text lower : String → String) (rs : List ActionResult)
    → map (result_value redact_text lower) (map blanked rs)
      ≡ map (result_value redact_text lower) rs
result_values-blanked redact_text lower [] = refl
result_values-blanked redact_text lower (r ∷ rs) =
    rw (result_dict-blanked redact_text lower r, result_values-blanked redact_text lower rs) refl

-- What a report shows does not depend on the output of the actions marked as sensitive: it is the
-- same report if that output is taken out first, whatever the text patterns do.
pub report_dict-blanked :
    (redact_text lower : String → String) (report : ExecutionReport)
    → report_dict redact_text lower (record report { results = map blanked report.results })
      ≡ report_dict redact_text lower report
unfolding report_dict
report_dict-blanked redact_text lower report =
    rw (result_values-blanked redact_text lower report.results) refl

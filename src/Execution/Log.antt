-- ===== src/Execution/Log.antt =====
-- The command log of execution.py, and the runner that writes it.
use airgapped_ai_gateway_k8s.Base.{String, Bool, List, [], ◌∷◌, ◌++◌, map, if◌then◌else◌}
use airgapped_ai_gateway_k8s.Base.Int.{ℤ}
use airgapped_ai_gateway_k8s.Base.Outcome.{Result, ok, err}
use airgapped_ai_gateway_k8s.Base.Json.{int, str, strs, Fields, end, field}
use airgapped_ai_gateway_k8s.Base.Exec.{Exec}
use airgapped_ai_gateway_k8s.Base.Runner.{Call, History, Runner}
use airgapped_ai_gateway_k8s.Models.{CommandResult}
use airgapped_ai_gateway_k8s.Redaction.{redacted}

pub record CommandLogEntry : Type 0 where
  pub action_id : String
  pub argv : List String
  pub returncode : ℤ
  pub stdout : String
  pub stderr : String
  pub sensitive_output : Bool

-- `REDACTED if sensitive_output else redact_text(text)`
abbrev pub shown : (String → String) → Bool → String → String
shown redact_text sensitive_output s = if sensitive_output then redacted else redact_text s

-- CommandLogEntry.to_dict
unfoldable pub entry_dict : (String → String) → CommandLogEntry → Fields
entry_dict redact_text e = field "action_id" (str e.action_id) (
    field "argv" (strs (map redact_text e.argv)) (
      field "returncode" (int e.returncode) (
        field "stderr" (str (shown redact_text e.sensitive_output e.stderr))
          (field "stdout" (str (shown redact_text e.sensitive_output e.stdout)) end))))

-- What an execution changes: the calls that the runner has seen, the last one first; the command
-- log, in order; and the `action_id` that the logging runner is set to.
pub record ExecState : Type 0 where
  pub calls : History
  pub log : List CommandLogEntry
  pub action_id : String

abbrev pub initial : ExecState
initial = record { calls = []; log = []; action_id = "unknown" }

abbrev pub entry_of : String → Call → CommandResult → CommandLogEntry
entry_of action_id call result = record {
  action_id = action_id;
  argv = call.argv;
  returncode = result.returncode;
  stdout = result.stdout;
  stderr = result.stderr;
  sensitive_output = call.sensitive_output;
}

-- A call that raises is not logged.
unfoldable pub noted : Call → Result CommandResult → Exec ExecState CommandResult
noted call (ok result) s = (
  ok result,
  record s { calls = call ∷ s.calls; log = s.log ++ (entry_of s.action_id call result ∷ []) },
)
noted call (err e) s = (err e, record s { calls = call ∷ s.calls })

-- _LoggingRunner.run
unfoldable pub logging_run : Runner → Call → Exec ExecState CommandResult
unfolding noted
logging_run runner call s = noted call (runner s.calls call) s

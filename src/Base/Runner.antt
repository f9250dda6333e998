-- ===== src/Base/Runner.antt =====
-- The command runner (`CommandRunner`, `ConditionRunner`, `SnapshotRunner`): whatever executes a
-- command line. It may answer each call by all the calls made so far, and it may raise, so that a
-- theorem for every runner holds whatever the cluster does.
use Prim.Native.String.{String}
use mathlib.Core.Bool.{Bool, false}
use mathlib.Core.Option.{Option, none}
use mathlib.Core.List.{List, ◌∷◌}
use airgapped_ai_gateway_k8s.Base.Outcome.{Result}
use airgapped_ai_gateway_k8s.Base.Exec.{Exec}
use airgapped_ai_gateway_k8s.Models.{CommandResult}

-- One call of `run`, with its keyword arguments.
pub record Call : Type 0 where
  pub argv : List String
  pub input_text : Option String
  pub sensitive_output : Bool

-- The calls made so far, the last one first.
abbrev pub History : Type 0
History = List Call

abbrev pub Runner : Type 0
Runner = History → Call → Result CommandResult

-- run(argv)
abbrev pub plain_call : List String → Call
plain_call argv = record { argv = argv; input_text = none; sensitive_output = false }

-- The runner itself, which notes the call.
unfoldable pub run : Runner → Call → Exec History CommandResult
run runner call calls = (runner calls call, call ∷ calls)

-- ===== src/Tests/Polls.antt =====
-- A Gateway that is programmed at the second read.
use airgapped_ai_gateway_k8s.Base.{
  ℕ, zero, suc, ◌<◌, ◌≤◌, String, List, [], ◌∷◌, some, ◌≡◌, refl, arith,
}
use airgapped_ai_gateway_k8s.Base.Int.{pos}
use airgapped_ai_gateway_k8s.Base.Outcome.{ok}
use airgapped_ai_gateway_k8s.Base.Json.{str, arr, obj, item, nil, Fields, end, field}
use airgapped_ai_gateway_k8s.Base.Exec.{◌>>=◌}
use airgapped_ai_gateway_k8s.Base.Runner.{Runner, run}
use airgapped_ai_gateway_k8s.Conditions.Checks.{
  gateway_ready, has_condition, status_conditions, conditions_of,
}
use airgapped_ai_gateway_k8s.Conditions.Poll.{Loads, get_command, poll_condition}
use airgapped_ai_gateway_k8s.Conditions.Sound.{
  Shows, NotYet, refused, repeated, poll_condition_sound, poll_condition_complete,
}

abbrev programmed : Fields
programmed =
    field "status"
      (obj (
        field "conditions"
          (arr (item (obj (field "type" (str "Programmed") (field "status" (str "True") end))) nil))
          end))
      end

abbrev loads : Loads
loads raw = some (obj programmed)

abbrev cluster : Runner
cluster [] call = ok (record { returncode = pos 1; stdout = ""; stderr = "not found" })
cluster (last ∷ calls) call = ok (record { returncode = pos 0; stdout = "{}"; stderr = "" })

abbrev command : List String
command = get_command "gateway" "gateway" "edge"

not_first : (k : ℕ) → k < 1 → NotYet loads cluster command gateway_ready (repeated command k [])
not_first zero lt = refused _ refl refl
not_first (suc k) lt = absurd (omega arith)

then_ready : Shows loads cluster command gateway_ready (repeated command 1 [])
unfolding has_condition status_conditions conditions_of
then_ready = record {
  result = record { returncode = pos 0; stdout = "{}"; stderr = "" };
  payload = programmed;
  answered = refl;
  succeeded = refl;
  loaded = refl;
  ready = refl;
}

poll_condition_complete_example :
    poll_condition loads (run cluster) command gateway_ready (pos 5) []
    ≡ (ok tt, repeated command 2 [])
poll_condition_complete_example =
    poll_condition_complete loads cluster command gateway_ready 1 5 [] not_first then_ready
      (omega arith)

polled : (poll_condition loads (run cluster) command gateway_ready (pos 5) []).0 ≡ ok tt
unfolding poll_condition run ◌>>=◌ has_condition
polled = refl

poll_condition_sound_example :
    (n : ℕ) × (suc n ≤ 5)
    × Shows loads cluster command gateway_ready (repeated command n [])
    × ((poll_condition loads (run cluster) command gateway_ready (pos 5) []).1
        ≡ repeated command (suc n) [])
poll_condition_sound_example = poll_condition_sound loads cluster command gateway_ready 5 [] polled

-- ===== src/Configuration/Expect.antt =====
-- The `_expect_…` and `_optional_…` readers of configuration.py.
use airgapped_ai_gateway_k8s.Base.{
  String, Bool, List, Option, none, some, ◌<>◌, ◌==◌, if◌then◌else◌,
}
use airgapped_ai_gateway_k8s.Base.Int.{ℤ}
use airgapped_ai_gateway_k8s.Base.Strip.{strip}
use airgapped_ai_gateway_k8s.Base.Outcome.{Result, ok, err, config_error, require_some, ◌>>=◌}
use airgapped_ai_gateway_k8s.Base.Json.{
  Value, null, Fields, as_dict, as_list, as_str, as_bool, as_int,
}

unfoldable pub expect_mapping : Value → String → Result Fields
expect_mapping value label =
    require_some (as_dict value) (config_error (label <> " must be a mapping"))

unfoldable pub expect_list : Value → String → Result (List Value)
expect_list value label = require_some (as_list value) (config_error (label <> " must be a list"))

unfoldable pub expect_string : Value → String → Result String
expect_string value label = elim (as_str value) [
  | none ↦ err (config_error (label <> " must be a non-empty string"))
  | some s ↦
      if strip s == "" then err (config_error (label <> " must be a non-empty string")) else ok s
]

unfoldable pub expect_bool : Value → String → Result Bool
expect_bool value label =
    require_some (as_bool value) (config_error (label <> " must be a boolean"))

unfoldable pub expect_int : Value → String → Result ℤ
expect_int value label = require_some (as_int value) (config_error (label <> " must be an integer"))

unfoldable pub optional_string : Value → String → Result (Option String)
unfolding expect_string
optional_string null label = ok none
optional_string value label = expect_string value label >>= λ s. ok (some s)

unfoldable pub optional_int : Value → String → Result (Option ℤ)
unfolding expect_int
optional_int null label = ok none
optional_int value label = expect_int value label >>= λ n. ok (some n)

-- ===== src/Registry.antt =====
-- src/airgap_ai_gateway/registry.py: the promotion of images by an approved plan.
pub mod Promoted
use airgapped_ai_gateway_k8s.Base.{
  String, Bool, true, false, not, List, [], ◌∷◌, Option, none, some, ◌==◌, length, map,
  if◌then◌else◌,
}
use airgapped_ai_gateway_k8s.Base.Int.{ℤ, pos, int_eq}
use airgapped_ai_gateway_k8s.Base.Outcome.{
  Result, ok, err, safety_error, bundle_error, raise_if, ◌>>=◌, ◌>>◌,
}
use airgapped_ai_gateway_k8s.Base.Json.{
  Value, null, bool, int, real, str, arr, obj, Items, nil, item, Fields, end, field, get, get_or,
  as_dict, as_list, as_strs, of_list,
}
use airgapped_ai_gateway_k8s.Base.Exec
use airgapped_ai_gateway_k8s.Base.Exec.{Exec, pure, raise, lift}
use airgapped_ai_gateway_k8s.Base.Runner.{History, Runner, plain_call, run}
use airgapped_ai_gateway_k8s.Models.{CommandResult, GatewayConfig, RegistryImage}
use airgapped_ai_gateway_k8s.Redaction.{redact_mapping}

-- bool(value); `zero_real` says of which real numbers it is false.
unfoldable pub truthy : (String → Bool) → Value → Bool
truthy zero_real null = false
truthy zero_real (bool b) = b
truthy zero_real (int n) = not (int_eq n (pos 0))
truthy zero_real (real x) = not (zero_real x)
truthy zero_real (str s) = not (s == "")
truthy zero_real (arr nil) = false
truthy zero_real (arr (item v vs)) = true
truthy zero_real (obj end) = false
truthy zero_real (obj (field k v fs)) = true

unfoldable pub mapping : Value → Result Fields
mapping value = elim (as_dict value) [
  | none ↦ err (bundle_error "must be a JSON object")
  | some fs ↦ ok fs
]

unfoldable pub string_value : Value → Result String
string_value (str s) = if s == "" then err (bundle_error "must be a non-empty string") else ok s
string_value _ = err (bundle_error "must be a non-empty string")

unfoldable pub command_value : Value → Result (List String)
command_value value = elim (as_list value) [
  | none ↦ err (bundle_error "must be a list of strings")
  | some values ↦ elim (as_strs values) [
    | none ↦ err (bundle_error "must be a list of strings")
    | some argv ↦ ok argv
  ]
]

-- What `json.loads` gives for the text of the file, if it exists.
unfoldable pub load_plan : Option Value → Result Fields
load_plan none = err (bundle_error "promotion plan does not exist")
load_plan (some (obj fs)) = elim (get fs "status") [
  | str s ↦
      if s == "planned" then ok fs else err (bundle_error "promotion plan status must be planned")
  | _ ↦ err (bundle_error "promotion plan status must be planned")
]
load_plan (some _) = err (bundle_error "promotion plan must contain a JSON object")

-- The fields of an action that the loop reads.
pub record PromotionAction : Type 0 where
  pub name : String
  pub check_existing : Bool
  pub existence_check : List String
  pub copy_command : List String

unfoldable pub read_promotion : (String → Bool) → Value → Result PromotionAction
unfolding mapping string_value command_value truthy
read_promotion zero_real value = do
  action ← mapping value
  name ← string_value (get action "name")
  existence_check ← command_value (get action "existenceCheck")
  copy_command ← command_value (get action "copyCommand")
  ok (record {
    name = name;
    check_existing = truthy zero_real (get_or action "checkExistingBeforePush" (bool false));
    existence_check = existence_check;
    copy_command = copy_command;
  })

-- One item of `results`.
pub record Promotion : Type 0 where
  pub name : String
  pub status : String

abbrev pub promotion_value : Promotion → Value
promotion_value p = obj (field "name" (str p.name) (field "status" (str p.status) end))

module _ (runner : Runner) where
  unfoldable pub copy_image : PromotionAction → Exec History Promotion
  unfolding run
  copy_image a = Exec.◌>>=◌ (run runner (plain_call a.copy_command)) λ copied.
      if not (int_eq copied.returncode (pos 0))
      then raise (bundle_error "registry promotion failed")
      else pure (record { name = a.name; status = "promoted" })

  unfoldable pub promote : PromotionAction → Exec History Promotion
  unfolding run copy_image
  promote a =
      if a.check_existing
      then (Exec.◌>>=◌ (run runner (plain_call a.existence_check)) λ check.
          if int_eq check.returncode (pos 0)
          then pure (record { name = a.name; status = "already-present" })
          else copy_image a)
      else copy_image a

  unfoldable pub promote_all : (String → Bool) → List Value → Exec History (List Promotion)
  unfolding promote read_promotion
  promote_all zero_real [] = pure []
  promote_all zero_real (value ∷ values) =
      Exec.◌>>=◌ (lift (read_promotion zero_real value)) λ action.
        Exec.◌>>=◌ (promote action)
          λ result. Exec.◌>>=◌ (promote_all zero_real values) λ results. pure (result ∷ results)

abbrev pub require_actions : Fields → Result (List Value)
require_actions plan = elim (as_list (get plan "actions")) [
  | none ↦ err (bundle_error "promotion plan must contain an actions list")
  | some actions ↦ ok actions
]

-- asdict(image)
abbrev image_value : RegistryImage → Value
image_value image = obj (
    field "name" (str image.name)
      (field "source" (str image.source) (field "target" (str image.target) end)))

unfoldable pub image_mapping : GatewayConfig → List Value
image_mapping config = map image_value config.platform.registry.images

-- The report, before it is redacted.
abbrev pub promotion_report : String → Fields → List Value → List Promotion → Value
promotion_report plan_file plan actions results = obj (
    field "actionCount" (int (pos (length actions))) (
      field "planFile" (str plan_file) (
        field "privateRegistry" (get_or plan "privateRegistry" (str "")) (
          field "results" (arr (of_list (map promotion_value results)))
            (field "status" (str "applied") end)))))

-- `redact_text` and `lower` are those of the redaction; `file` is what the plan file holds.
module _ (runner : Runner) (zero_real : String → Bool) (redact_text lower : String → String) where
  unfoldable pub apply_promotion_plan : String → Option Value → String → String → Exec History Value
  unfolding load_plan promote_all redact_mapping
  apply_promotion_plan plan_file file confirmation expected_confirmation =
      Exec.◌>>=◌
        (lift (
          raise_if (not (confirmation == expected_confirmation))
            (safety_error "confirmation token does not match configuration")))
        λ _. Exec.◌>>=◌ (lift (load_plan file)) λ plan.
          Exec.◌>>=◌ (lift (require_actions plan)) λ actions.
            Exec.◌>>=◌ (promote_all runner zero_real actions) λ results.
              pure
                (redact_mapping redact_text lower (promotion_report plan_file plan actions results))

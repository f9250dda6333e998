-- ===== src/Planning/Plan.antt =====
-- `ExecutionPlan` of planning.py: its JSON form and its identifier.
use airgapped_ai_gateway_k8s.Base.{String, Bool, true, List, Option, none, some, map}
use airgapped_ai_gateway_k8s.Base.Order.{sorted}
use airgapped_ai_gateway_k8s.Base.Outcome.{
  Result, ok, err, execution_error, ◌>>=◌, traverse, require_some,
}
use airgapped_ai_gateway_k8s.Base.Json.{
  Value, bool, str, arr, obj, nil, Fields, end, field, get_or, put, as_dict, as_list, of_list, strs,
}
use airgapped_ai_gateway_k8s.Ledger.Ref
use airgapped_ai_gateway_k8s.Ledger.Ref.{ResourceRef, ref_lt}
use airgapped_ai_gateway_k8s.Planning.Text.{first_chars}
use airgapped_ai_gateway_k8s.Planning.Action
use airgapped_ai_gateway_k8s.Planning.Action.{
  PlanAction, required_string, required_bool, required_texts,
}

pub record ExecutionPlan : Type 0 where
  pub schema_version : String
  pub plan_id : String
  pub command : String
  pub platform : String
  pub baseline : String
  pub overlay : String
  pub namespace : String
  pub apply_mode : String
  pub expected_context : String
  pub tls_verify : Bool
  pub actions : List PlanAction
  pub resources : List ResourceRef
  pub notes : List String

unfoldable pub read_action : Value → Result PlanAction
unfolding Action.from_dict
read_action v = do
  payload ← require_some (as_dict v) (execution_error "plan actions must be objects")
  Action.from_dict payload

unfoldable pub read_resource : Value → Result ResourceRef
unfolding Ref.from_dict
read_resource v = do
  payload ← require_some (as_dict v) (execution_error "plan resources must be objects")
  Ref.from_dict payload

unfoldable pub from_dict : Fields → Result ExecutionPlan
unfolding read_action read_resource required_string required_bool required_texts
from_dict payload = do
  actions_payload ←
      require_some (as_list (get_or payload "actions" (arr nil)))
        (execution_error "plan actions must be a list")
  resources_payload ←
      require_some (as_list (get_or payload "resources" (arr nil)))
        (execution_error "plan resources must be a list")
  notes ← required_texts (get_or payload "notes" (arr nil)) "plan notes must be a list of strings"
  actions ← traverse read_action actions_payload
  resources ← traverse read_resource resources_payload
  schema_version ← required_string payload "schema_version"
  plan_id ← required_string payload "plan_id"
  command ← required_string payload "command"
  platform ← required_string payload "platform"
  baseline ← required_string payload "baseline"
  overlay ← required_string payload "overlay"
  namespace ← required_string payload "namespace"
  apply_mode ← required_string payload "apply_mode"
  expected_context ← required_string payload "expected_context"
  tls_verify ← required_bool (get_or payload "tls_verify" (bool true))
  ok (record {
    schema_version = schema_version;
    plan_id = plan_id;
    command = command;
    platform = platform;
    baseline = baseline;
    overlay = overlay;
    namespace = namespace;
    apply_mode = apply_mode;
    expected_context = expected_context;
    tls_verify = tls_verify;
    actions = actions;
    resources = resources;
    notes = notes;
  })

-- What `json.load` gives for the path, if it exists.
unfoldable pub from_file : Option Value → Result ExecutionPlan
unfolding from_dict
from_file none = err (execution_error "plan file does not exist")
from_file (some payload) = do
  fs ← require_some (as_dict payload) (execution_error "plan file must contain a JSON object")
  from_dict fs

abbrev pub action_value : PlanAction → Value
action_value a = obj (Action.to_dict a)

abbrev pub ref_value : ResourceRef → Value
ref_value r = obj (Ref.to_dict r)

-- to_dict(include_plan_id=False)
unfoldable pub material : ExecutionPlan → Fields
material p = field "actions" (arr (of_list (map action_value p.actions))) (
    field "apply_mode" (str p.apply_mode) (
      field "baseline" (str p.baseline) (
        field "command" (str p.command) (
          field "expected_context" (str p.expected_context) (
            field "namespace" (str p.namespace) (
              field "notes" (strs p.notes) (
                field "overlay" (str p.overlay) (
                  field "platform" (str p.platform) (
                    field "resources" (arr (of_list (map ref_value (sorted ref_lt p.resources)))) (
                      field "schema_version" (str p.schema_version)
                        (field "tls_verify" (bool p.tls_verify) end)))))))))))

-- to_dict(), which adds the identifier to the rest
unfoldable pub to_dict : ExecutionPlan → Fields
unfolding material
to_dict p = put (material p) "plan_id" (str p.plan_id)

-- The library code that an identifier rests on: `json.dumps(value, sort_keys=True)`, and
-- `hashlib.sha256(text).hexdigest()` on the text's UTF-8.
pub record Hashing : Type 0 where
  pub dumps : Value → String
  pub sha256_hex : String → String

module _ (hashing : Hashing) where
  unfoldable pub computed_id : ExecutionPlan → String
  unfolding material first_chars
  computed_id p = first_chars 16 (hashing.sha256_hex (hashing.dumps (obj (material p))))

  unfoldable pub with_computed_id : ExecutionPlan → ExecutionPlan
  unfolding computed_id
  with_computed_id p = record p { plan_id = computed_id p }

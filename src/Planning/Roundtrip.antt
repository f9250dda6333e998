-- ===== src/Planning/Roundtrip.antt =====
-- `ExecutionPlan` of planning.py, saved and loaded.
use airgapped_ai_gateway_k8s.Base.{
  String, ◌≡◌, refl, ◌≢◌, false, true, List, [], ◌∷◌, map, Option, none, some, All, arith, eq_iff,
  ◌==◌,
}
use airgapped_ai_gateway_k8s.Base.Order.{sorted, sorted_idem, tuple_lt_asymm}
use airgapped_ai_gateway_k8s.Base.Outcome.{ok, traverse, traverse-map}
use airgapped_ai_gateway_k8s.Base.Json.{to_list-of_list, as_strs-texts, texts}
use airgapped_ai_gateway_k8s.Ledger.Ref.{ResourceRef, ref_lt}
use airgapped_ai_gateway_k8s.Ledger.Roundtrip.{ref_roundtrip}
use airgapped_ai_gateway_k8s.Planning.Action
use airgapped_ai_gateway_k8s.Planning.Action.{
  PlanAction, payload_or_empty, optional_ref, ref_or_null, required_string, required_bool,
  required_texts,
}
use airgapped_ai_gateway_k8s.Planning.Plan
use airgapped_ai_gateway_k8s.Planning.Plan.{
  ExecutionPlan, Hashing, material, computed_id, read_action, read_resource, action_value,
  ref_value,
}

-- The texts that the loader wants non-empty.
pub record IsNamed (a : PlanAction) : Type 0 where
  pub id : a.id ≢ ""
  pub kind : a.kind ≢ ""
  pub description : a.description ≢ ""

-- The action as it is loaded: without a payload it has the empty one.
abbrev pub loaded_action : PlanAction → PlanAction
loaded_action a = record a { payload = some (payload_or_empty a.payload) }

nonempty : (s : String) → s ≢ "" → (s == "") ≡ false
nonempty s h = ground (arith, eq_iff s "")

optional_ref-ref_or_null : (o : Option ResourceRef) → optional_ref (ref_or_null o) ≡ ok o
unfolding optional_ref
optional_ref-ref_or_null none = refl
optional_ref-ref_or_null (some r) = rw (ref_roundtrip r)

action_roundtrip :
    (a : PlanAction) → IsNamed a → Action.from_dict (Action.to_dict a) ≡ ok (loaded_action a)
unfolding Action.from_dict Action.to_dict
action_roundtrip a h = rw (
  optional_ref-ref_or_null a.resource,
  to_list-of_list (texts a.command),
  as_strs-texts a.command,
  nonempty a.id h.id,
  nonempty a.kind h.kind,
  nonempty a.description h.description,
)

read_actions :
    (actions : List PlanAction)
    → All IsNamed actions
    → traverse read_action (map action_value actions) ≡ ok (map loaded_action actions)
unfolding read_action
read_actions [] h = refl
read_actions (a ∷ actions) h = rw (action_roundtrip a h.0) (rw (read_actions actions h.1))

read_resources : (rs : List ResourceRef) → traverse read_resource (map ref_value rs) ≡ ok rs
unfolding read_resource
read_resources rs = traverse-map read_resource ref_value rs ref_roundtrip

-- The plan as it is loaded: resources in order, actions with their payloads.
abbrev pub loaded : ExecutionPlan → ExecutionPlan
loaded p = record p { actions = map loaded_action p.actions; resources = sorted ref_lt p.resources }

-- The texts that the loader wants non-empty.
pub record IsSavable (p : ExecutionPlan) : Type 0 where
  pub schema_version : p.schema_version ≢ ""
  pub plan_id : p.plan_id ≢ ""
  pub command : p.command ≢ ""
  pub platform : p.platform ≢ ""
  pub baseline : p.baseline ≢ ""
  pub overlay : p.overlay ≢ ""
  pub namespace : p.namespace ≢ ""
  pub apply_mode : p.apply_mode ≢ ""
  pub expected_context : p.expected_context ≢ ""
  pub actions : All IsNamed p.actions

-- A plan whose required texts, and those of its actions, are not empty is read back from its JSON
-- with every field as it was, but for the resources, which come in order, and the payloads of the
-- actions, where the empty payload stands for none.
pub plan_roundtrip :
    (p : ExecutionPlan) → IsSavable p → Plan.from_dict (Plan.to_dict p) ≡ ok (loaded p)
unfolding Plan.from_dict Plan.to_dict
plan_roundtrip p h =
    rw
      (
        to_list-of_list (map action_value p.actions),
        to_list-of_list (map ref_value (sorted ref_lt p.resources)),
        to_list-of_list (texts p.notes),
        as_strs-texts p.notes,
        read_actions p.actions h.actions,
        read_resources (sorted ref_lt p.resources),
      )
      (rw (
        nonempty p.schema_version h.schema_version,
        nonempty p.plan_id h.plan_id,
        nonempty p.command h.command,
        nonempty p.platform h.platform,
        nonempty p.baseline h.baseline,
        nonempty p.overlay h.overlay,
        nonempty p.namespace h.namespace,
        nonempty p.apply_mode h.apply_mode,
        nonempty p.expected_context h.expected_context,
      ))

action_value-loaded_action : (a : PlanAction) → action_value (loaded_action a) ≡ action_value a
unfolding Action.to_dict
action_value-loaded_action a = refl

action_values :
    (actions : List PlanAction)
    → map action_value (map loaded_action actions) ≡ map action_value actions
action_values [] = refl
action_values (a ∷ actions) = rw (action_value-loaded_action a, action_values actions)

ref_lt_asymm : (a b : ResourceRef) → ref_lt a b ≡ true → ref_lt b a ≡ false
unfolding ref_lt
ref_lt_asymm a b = tuple_lt_asymm _ _

-- Loading leaves what the identifier is computed from.
material-loaded : (p : ExecutionPlan) → material (loaded p) ≡ material p
unfolding material
material-loaded p = rw (action_values p.actions, sorted_idem ref_lt ref_lt_asymm p.resources)

-- A loaded plan has the identifier that it was approved under: what the identifier is computed
-- from survives saving and loading, whatever the hash and the JSON printer.
pub computed_id-loaded :
    (hashing : Hashing) (p : ExecutionPlan)
    → IsSavable p
    → (q : ExecutionPlan) × (Plan.from_dict (Plan.to_dict p) ≡ ok q)
      × (q.plan_id ≡ p.plan_id)
      × (computed_id hashing q ≡ computed_id hashing p)
unfolding computed_id
computed_id-loaded hashing p h = (loaded p, plan_roundtrip p h, refl, rw (material-loaded p))

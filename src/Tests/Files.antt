-- ===== src/Tests/Files.antt =====
-- Ledgers, snapshots and plans that are written and read, the confirmation gate, and redaction.
use mathlib.Core.List.{Perm}
use mathlib.Core.List.Memᴰ.{head, tail}
use airgapped_ai_gateway_k8s.Base.{
  String, false, [], ◌∷◌, none, some, ◌≡◌, refl, ◌⊎◌, inl, ◌↔◌, map, All, contains,
}
use airgapped_ai_gateway_k8s.Base.Order.{sorted}
use airgapped_ai_gateway_k8s.Base.Outcome.{ok}
use airgapped_ai_gateway_k8s.Base.Json.{Value, str, arr, obj, nil, item, Fields, end, field, get}
use airgapped_ai_gateway_k8s.Safety.{mutating_actions, ensure_mutation_is_confirmed}
use airgapped_ai_gateway_k8s.Safety.Gate.{ensure_mutation_is_confirmed_iff}
use airgapped_ai_gateway_k8s.Ledger.Entry.{LedgerEntry, updated}
use airgapped_ai_gateway_k8s.Ledger.Snapshot
use airgapped_ai_gateway_k8s.Ledger.Snapshot.{key_lt}
use airgapped_ai_gateway_k8s.Ledger.State
use airgapped_ai_gateway_k8s.Ledger.State.{StateLedger, identity_lt, ledger_from_resources}
use airgapped_ai_gateway_k8s.Ledger.Roundtrip.{snapshot_roundtrip, ledger_roundtrip}
use airgapped_ai_gateway_k8s.Ledger.Classify.{IsClassified, ledger_from_resources-IsClassified}
use airgapped_ai_gateway_k8s.Planning.Plan
use airgapped_ai_gateway_k8s.Planning.Plan.{ExecutionPlan, computed_id, with_computed_id}
use airgapped_ai_gateway_k8s.Planning.Build.{planned, verify_context_action}
use airgapped_ai_gateway_k8s.Planning.Rollback.{restore_action}
use airgapped_ai_gateway_k8s.Planning.Roundtrip.{
  IsSavable, IsNamed, loaded, plan_roundtrip, computed_id-loaded,
}
use airgapped_ai_gateway_k8s.Execution.Step.{restore_manifest}
use airgapped_ai_gateway_k8s.Execution.Restore.{restore_manifest-first}
use airgapped_ai_gateway_k8s.Redaction.{redact_mapping, dashes_to_underscores}
use airgapped_ai_gateway_k8s.Redaction.Laws.{client_key_data_is_shown}
use airgapped_ai_gateway_k8s.Redaction.Alike.{
  IsSensitive, Alike, same, lists, secrets, mappings, no_items, one_item, no_fields, hidden_field,
  shown_field, redact_mapping-Alike,
}
use airgapped_ai_gateway_k8s.Tests.Data.{config, hashing, manifest, settings, extra, snapshot}

abbrev entry : String → Fields → LedgerEntry
entry run_id before = record {
  ref = settings;
  state = updated;
  run_id = run_id;
  before = some before;
  after = none;
}

abbrev two_runs : StateLedger
two_runs = record { entries = entry "run-1" end ∷ entry "run-2" manifest ∷ [] }

abbrev plan : ExecutionPlan
plan =
    with_computed_id hashing (planned config "deploy apply" "kind-demo" "live" (settings ∷ []) [])

verify-IsNamed : IsNamed verify_context_action
unfolding verify_context_action
verify-IsNamed = record { id = λ e. cc; kind = λ e. cc; description = λ e. cc }

plan-IsSavable : IsSavable plan
unfolding with_computed_id
plan-IsSavable = record {
  schema_version = λ e. cc;
  plan_id = λ e. cc;
  command = λ e. cc;
  platform = λ e. cc;
  baseline = λ e. cc;
  overlay = λ e. cc;
  namespace = λ e. cc;
  apply_mode = λ e. cc;
  expected_context = λ e. cc;
  actions = (verify-IsNamed, tt);
}

plan_roundtrip_example : Plan.from_dict (Plan.to_dict plan) ≡ ok (loaded plan)
plan_roundtrip_example = plan_roundtrip plan plan-IsSavable

computed_id-loaded_example :
    (q : ExecutionPlan) × (Plan.from_dict (Plan.to_dict plan) ≡ ok q)
    × (q.plan_id ≡ plan.plan_id)
    × (computed_id hashing q ≡ computed_id hashing plan)
computed_id-loaded_example = computed_id-loaded hashing plan plan-IsSavable

saved_snapshot :
    Snapshot.from_dict (Snapshot.to_dict snapshot)
    ≡ ok (record snapshot { resources = sorted key_lt snapshot.resources })
saved_snapshot = snapshot_roundtrip snapshot

ledger_roundtrip_example :
    State.from_dict (State.to_dict two_runs)
    ≡ ok (record { entries = sorted identity_lt two_runs.entries })
ledger_roundtrip_example = ledger_roundtrip two_runs

ledger_from_resources-IsClassified_example :
    (l : StateLedger) × (ledger_from_resources (settings ∷ extra ∷ []) snapshot "run-1" ≡ ok l)
    × Perm (map (λ (e : LedgerEntry). e.ref) l.entries) (settings ∷ extra ∷ [])
    × All (IsClassified snapshot "run-1") l.entries
ledger_from_resources-IsClassified_example =
    ledger_from_resources-IsClassified (settings ∷ extra ∷ []) snapshot "run-1" refl

ensure_mutation_is_confirmed_iff_example :
    (ensure_mutation_is_confirmed "deploy apply" config (some "kind-demo") (some "YES") ≡ ok tt) ↔ (
      (contains mutating_actions "deploy apply" ≡ false)
      ⊎ (some "kind-demo" ≡ some config.platform.cluster.expected_context)
        × (some "YES" ≡ some config.platform.confirmation_token))
ensure_mutation_is_confirmed_iff_example =
    ensure_mutation_is_confirmed_iff "deploy apply" config (some "kind-demo") (some "YES")

-- The rollback of the second run puts back what the first run captured.
restore_manifest-first_example :
    restore_manifest (restore_action 1 (entry "run-2" manifest)) (some two_runs) ≡ ok end
restore_manifest-first_example =
    restore_manifest-first 1 (entry "run-2" manifest) (entry "run-1" end) []
      (entry "run-2" manifest ∷ []) end tt refl refl

abbrev same_text : String → String
same_text s = s

abbrev secret : Fields
secret = field "kind" (str "Secret") end

-- A list with a Secret, and with a mapping that holds a token under `spec`.
abbrev with_secrets : String → String → Value
with_secrets password token = arr (
    item
      (obj (
        field "kind" (str "Secret") (field "data" (obj (field "password" (str password) end)) end)))
      (item
        (obj (
          field "kind" (str "ConfigMap") (
            field "spec" (obj (field "access-token" (str token) (field "size" (str "2") end)))
              end)))
        nil))

token-IsSensitive : IsSensitive same_text "access-token"
unfolding dashes_to_underscores
token-IsSensitive = record {
  word = "token";
  listed = tail (tail (tail (tail (tail (tail (tail (head refl)))))));
  before = "access_";
  after = "";
  spelled = refl;
}

with_secrets-Alike : Alike same_text (with_secrets "one" "two") (with_secrets "three" "four")
with_secrets-Alike = lists (
    one_item (secrets refl refl (shown_field same (hidden_field (inl refl) no_fields))) (
      one_item
        (mappings (λ e. cc) (λ e. cc)
          (shown_field same (
            shown_field
              (mappings (λ e. cc) (λ e. cc)
                (hidden_field token-IsSensitive (shown_field same no_fields)))
              no_fields)))
        no_items))

redact_mapping-Alike_example :
    redact_mapping same_text same_text (with_secrets "one" "two")
    ≡ redact_mapping same_text same_text (with_secrets "three" "four")
redact_mapping-Alike_example =
    redact_mapping-Alike same_text same_text (with_secrets "one" "two")
      (with_secrets "three" "four") with_secrets-Alike

abbrev kubeconfig : Fields
kubeconfig = field "name" (str "user") (field "client-key-data" (str "key") end)

client_key_data_is_shown_example :
    (gs : Fields) × (redact_mapping same_text same_text (obj kubeconfig) ≡ obj gs)
    × (get gs "client-key-data"
        ≡ redact_mapping same_text same_text (get kubeconfig "client-key-data"))
client_key_data_is_shown_example = client_key_data_is_shown same_text same_text kubeconfig refl refl

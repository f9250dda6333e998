-- ===== src/Manifest/Safe/Workloads.antt =====
-- Workloads, documents and images that are reported on by nothing.
use airgapped_ai_gateway_k8s.Base.{String, true, false, ◌≡◌, refl, List, [], ◌∷◌, All, any, arith}
use airgapped_ai_gateway_k8s.Base.Strip.{has_substring}
use airgapped_ai_gateway_k8s.Base.Outcome.{
  Result, ok, err, traverse, collect, any_of, extend-eq-nil, ◌then_extend◌,
}
use airgapped_ai_gateway_k8s.Base.Json.{Value, obj, Fields, get}
use airgapped_ai_gateway_k8s.Conditions.Checks.{is_text}
use airgapped_ai_gateway_k8s.Manifest.Reads.{
  Python, report, mapping_of, string_of, spec_of, name_of, by_kind, metadata_of, hashable_name,
}
use airgapped_ai_gateway_k8s.Manifest.Shape.{secret_messages, validate_no_secret_material}
use airgapped_ai_gateway_k8s.Manifest.Images.{pod_spec_of}
use airgapped_ai_gateway_k8s.Manifest.Consumers.{is_named}
use airgapped_ai_gateway_k8s.Manifest.Workloads.{
  is_bool, container_messages, account_messages, deployment_messages,
  validate_owned_workload_controls, default_deny_messages,
}
use airgapped_ai_gateway_k8s.Manifest.Safe.{within, keyed, listed, All-collect, All-within}

-- The container has resources and must not gain privileges.
pub record IsContained (container : Value) : Type 0 where
  pub resources : keyed container "resources" ≡ true
  pub unprivileged :
      is_bool false (within container ("securityContext" ∷ "allowPrivilegeEscalation" ∷ [])) ≡ true

abbrev pub pod_spec : Fields → Value
pod_spec deployment = within (obj deployment) ("spec" ∷ "template" ∷ "spec" ∷ [])

-- The deployment runs as a user other than root, and so are all its containers contained.
pub record IsHardened (deployment : Fields) : Type 0 where
  pub non_root :
      is_bool true (within (pod_spec deployment) ("securityContext" ∷ "runAsNonRoot" ∷ [])) ≡ true
  pub containers : All IsContained (listed (within (pod_spec deployment) ("containers" ∷ [])))

container_messages-IsContained :
    (name container : Value) → container_messages name container ≡ ok [] → IsContained container
unfolding container_messages mapping_of string_of report within keyed
container_messages-IsContained name container e = record {
  resources = ground (arith, e);
  unprivileged = ground (arith, e);
}

module _ (python : Python) (budgets : List Value) where
  hardened_non_root :
      (deployment : Fields)
      → deployment_messages python budgets deployment ≡ ok []
      → is_bool true (within (pod_spec deployment) ("securityContext" ∷ "runAsNonRoot" ∷ [])) ≡ true
  unfolding deployment_messages pod_spec_of spec_of mapping_of report within
  hardened_non_root deployment e = ground (arith, e)

  hardened_containers :
      (deployment : Fields)
      → deployment_messages python budgets deployment ≡ ok []
      → All IsContained (listed (within (pod_spec deployment) ("containers" ∷ [])))
  unfolding deployment_messages pod_spec_of spec_of mapping_of within
  hardened_containers deployment e = go (name_of deployment) refl
    where
      go :
          (r : Result Value)
          → name_of deployment ≡ r
          → All IsContained (listed (within (pod_spec deployment) ("containers" ∷ [])))
      go (err x) p = ground (arith, e, p)
      go (ok name) p =
          All-within IsContained (container_messages name) "containers" (pod_spec deployment)
            (container_messages-IsContained name) (ground (arith, e, p))

  deployment_messages-IsHardened :
      (deployment : Fields)
      → deployment_messages python budgets deployment ≡ ok []
      → IsHardened deployment
  deployment_messages-IsHardened deployment e = record {
    non_root = hardened_non_root deployment e;
    containers = hardened_containers deployment e;
  }

account_messages-eq-nil :
    (account : Fields)
    → account_messages account ≡ ok []
    → is_bool false (get account "automountServiceAccountToken") ≡ true
unfolding account_messages report
account_messages-eq-nil account e = ground (arith, e)

-- Some document of the list has this name.
abbrev pub IsThere : List Fields → String → Type 0
IsThere documents name =
    any (λ (d : Fields). is_text (within (obj d) ("metadata" ∷ "name" ∷ [])) name) documents ≡ true

pub any_of-is_named :
    (name : String) (documents : List Fields)
    → any_of (is_named name) documents ≡ ok true
    → IsThere documents name
unfolding is_named metadata_of mapping_of within
any_of-is_named name [] e = cc
any_of-is_named name (d ∷ documents) e = ground (arith, e, any_of-is_named name documents)

pub any_of-is_named-false :
    (name : String) (documents : List Fields)
    → any_of (is_named name) documents ≡ ok false
    → any (λ (d : Fields). is_text (within (obj d) ("metadata" ∷ "name" ∷ [])) name) documents
      ≡ false
unfolding is_named metadata_of mapping_of within
any_of-is_named-false name [] e = refl
any_of-is_named-false name (d ∷ documents) e =
    ground (arith, e, any_of-is_named-false name documents)

-- The documents hold no Secret, and nothing that looks like its contents is written in them.
pub record HasNoSecret (python : Python) (document : Fields) : Type 0 where
  pub kind : is_text (get document "kind") "Secret" ≡ false
  pub string_data : has_substring "stringData:" (python.safe_dump document) ≡ false
  pub client_key : has_substring "client-key-data" (python.safe_dump document) ≡ false
  pub client_certificate :
      has_substring "client-certificate-data" (python.safe_dump document) ≡ false

secret_messages-HasNoSecret :
    (python : Python) (document : Fields)
    → secret_messages python document ≡ ok []
    → HasNoSecret python document
unfolding secret_messages report
secret_messages-HasNoSecret python document e = record {
  kind = ground (arith, e);
  string_data = ground (arith, e);
  client_key = ground (arith, e);
  client_certificate = ground (arith, e);
}

pub documents-HasNoSecret :
    (python : Python) (documents : List Fields)
    → validate_no_secret_material python documents ≡ ok []
    → All (HasNoSecret python) documents
unfolding validate_no_secret_material
documents-HasNoSecret python documents =
    All-collect (HasNoSecret python) (secret_messages python) (secret_messages-HasNoSecret python)
      documents

-- The deployments, the accounts and the default rule of the network.
pub record IsOwned (documents : List Fields) : Type 0 where
  pub deployments : All IsHardened (by_kind documents "Deployment")
  pub accounts :
      All
        (λ (a : Fields). is_bool false (get a "automountServiceAccountToken") ≡ true)
        (by_kind documents "ServiceAccount")
  pub denied : IsThere (by_kind documents "NetworkPolicy") "default-deny"

pub documents-IsOwned :
    (python : Python) (documents : List Fields)
    → validate_owned_workload_controls python documents ≡ ok []
    → IsOwned documents
unfolding validate_owned_workload_controls default_deny_messages report
documents-IsOwned python documents e =
    go (traverse hashable_name (by_kind documents "PodDisruptionBudget")) refl
  where
    go :
        (r : Result (List Value))
        → traverse hashable_name (by_kind documents "PodDisruptionBudget") ≡ r
        → IsOwned documents
    go (err x) p = ground (arith, e, p)
    go (ok budgets) p =
        let hardened =
          collect (deployment_messages python budgets) (by_kind documents "Deployment") in
        let closed = collect account_messages (by_kind documents "ServiceAccount") in
        let denial = default_deny_messages (by_kind documents "NetworkPolicy") in
        let three = extend-eq-nil (hardened then_extend closed) denial (ground (arith, e, p)) in
        let two = extend-eq-nil hardened closed three.0 in
        record {
          deployments =
              All-collect IsHardened (deployment_messages python budgets)
                (deployment_messages-IsHardened python budgets) _ two.0;
          accounts =
              All-collect
                (λ (a : Fields). is_bool false (get a "automountServiceAccountToken") ≡ true)
                account_messages account_messages-eq-nil _ two.1;
          denied =
              any_of-is_named "default-deny" (by_kind documents "NetworkPolicy")
                (ground (arith, three.1));
        }

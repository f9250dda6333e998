-- ===== src/Manifest/Terminates.antt =====
-- Building a kustomization ends, whatever the directories refer to.
use airgapped_ai_gateway_k8s.Base.{
  ℕ, zero, suc, String, true, false, not, ◌≡◌, ◌<◌, ◌≤◌, List, [], ◌∷◌, none, some, contains, keep,
  length, arith, eq_iff, Bool-cases, inl, inr,
}
use airgapped_ai_gateway_k8s.Base.Outcome.{Result, ok, err}
use airgapped_ai_gateway_k8s.Base.Json.{Value, arr, nil, Fields, get_or}
use airgapped_ai_gateway_k8s.Manifest.Reads.{Python, sequence_of, string_of}
use airgapped_ai_gateway_k8s.Manifest.Kustomize.{
  Tree, Build, after_build, after_result, load_single_yaml, build_resource, build_resources,
  build_directory, build_kustomization,
}

-- The build ends: it returns, or raises.
abbrev pub Ends : Build → Type 0
Ends none = ⊥
Ends (some r) = Unit

-- The directories that are not being built.
abbrev pub unseen : List String → List String → ℕ
unseen dirs seen = length (keep (λ d. not (contains seen d)) dirs)

unseen_le : (dirs seen : List String) (path : String) → unseen dirs (path ∷ seen) ≤ unseen dirs seen
unseen_le [] seen path = ground arith
unseen_le (d ∷ dirs) seen path = ground (arith, unseen_le dirs seen path)

unseen_lt :
    (dirs seen : List String) (path : String)
    → contains dirs path ≡ true
    → contains seen path ≡ false
    → unseen dirs (path ∷ seen) < unseen dirs seen
unseen_lt [] seen path h n = cc
unseen_lt (d ∷ dirs) seen path h n =
    ground (
      arith,
      h,
      n,
      eq_iff path d,
      eq_iff d path,
      unseen_le dirs seen path,
      unseen_lt dirs seen path,
    )

unseen_all : (dirs : List String) → unseen dirs [] < suc (length dirs)
unseen_all [] = ground arith
unseen_all (d ∷ dirs) = ground (arith, unseen_all dirs)

Ends-after_build :
    (b : Build) (next : List Fields → Build)
    → Ends b
    → ((ds : List Fields) → Ends (next ds))
    → Ends (after_build b next)
Ends-after_build none next h k = h
Ends-after_build (some (err e)) next h k = tt
Ends-after_build (some (ok ds)) next h k = k ds

Ends-after_result :
    {A : Type 0} (r : Result A) (next : A → Build)
    → ((a : A) → Ends (next a))
    → Ends (after_result r next)
Ends-after_result (err e) next k = tt
Ends-after_result (ok a) next k = k a

module _ (python : Python) (tree : Tree) where
  Ends-build_resource :
      (recurse : String → Build)
      → ((p : String) → tree.is_dir p ≡ true → Ends (recurse p))
      → (path : String) (value : Value) → Ends (build_resource python tree recurse path value)
  unfolding build_resource
  Ends-build_resource recurse h path value = Ends-after_result (string_of value) _ λ name.
      elim (Bool-cases (tree.is_dir (tree.child path name))) [
        | inl d ↦ rw d (h (tree.child path name) d)
        | inr n ↦ rw n tt
      ]

  Ends-build_resources :
      (recurse : String → Build)
      → ((p : String) → tree.is_dir p ≡ true → Ends (recurse p))
      → (path : String) (values : List Value)
      → Ends (build_resources python tree recurse path values)
  unfolding build_resources
  Ends-build_resources recurse h path [] = tt
  Ends-build_resources recurse h path (value ∷ values) =
      Ends-after_build (build_resource python tree recurse path value) _
        (Ends-build_resource recurse h path value)
        λ ds.
          Ends-after_build (build_resources python tree recurse path values) _
            (Ends-build_resources recurse h path values) λ more. tt

  Ends-build_directory :
      (recurse : String → Build)
      → ((p : String) → tree.is_dir p ≡ true → Ends (recurse p))
      → (path : String) → Ends (build_directory python tree recurse path)
  unfolding build_directory
  Ends-build_directory recurse h path =
      Ends-after_result (load_single_yaml tree (tree.child path "kustomization.yaml")) _
        λ kustomization.
          Ends-after_result (sequence_of (get_or kustomization "resources" (arr nil))) _ λ values.
            Ends-after_build (build_resources python tree recurse path values) _
              (Ends-build_resources recurse h path values) λ ds. tt

  bounded_build :
      (dirs : List String)
      → ((p : String) → tree.is_dir p ≡ true → contains dirs p ≡ true)
      → (fuel : ℕ) (seen : List String) (path : String) → contains dirs path ≡ true
      → unseen dirs seen < fuel
      → Ends (build_kustomization python tree fuel seen path)
  unfolding build_kustomization
  bounded_build dirs all zero seen path h l = absurd (omega arith)
  bounded_build dirs all (suc fuel) seen path h l = elim (Bool-cases (contains seen path)) [
    | inl known ↦ rw known tt
    | inr new ↦ rw new (
        Ends-build_directory (build_kustomization python tree fuel (path ∷ seen))
          (λ p d.
            bounded_build dirs all fuel (path ∷ seen) p (all p d)
              (ground (arith, l, unseen_lt dirs seen path h new)))
          path)
  ]

  -- If `dirs` holds every directory of the files, and the one that is built, then the build returns
  -- or raises with one unit of fuel more than there are directories in `dirs`: directories that
  -- refer to each other in a circle do not keep it running.
  pub build_kustomization-Ends :
      (dirs : List String)
      → ((p : String) → tree.is_dir p ≡ true → contains dirs p ≡ true)
      → (path : String) → contains dirs path ≡ true
      → Ends (build_kustomization python tree (suc (length dirs)) [] path)
  build_kustomization-Ends dirs all path h =
      bounded_build dirs all (suc (length dirs)) [] path h (unseen_all dirs)

-- ===== src/Configuration/Parts.antt =====
-- What each group of tests of `validate_config` reports.
use airgapped_ai_gateway_k8s.Base.{
  String, Bool, true, false, not, ◌≡◌, ◌↔◌, List, [], ◌∷◌, none, All, contains, keep, arith, eq_iff,
  both-eq-nil, gather-eq-nil, else-eq-nil, All-mono,
}
use airgapped_ai_gateway_k8s.Models.{
  RegistryImage, RegistrySettings, ModelConfig, ConsumerConfig, GatewayConfig,
}
use airgapped_ai_gateway_k8s.Configuration.Validate.{
  text_set, model_keys, unknown_models, unknown_errors, is_explicit, is_chat, is_agentgateway,
  model_errors, limit_errors, image_errors, duplicate_errors, rate_limit_errors,
}
use airgapped_ai_gateway_k8s.Configuration.Repeats.{duplicates-eq-nil}
use airgapped_ai_gateway_k8s.Configuration.Ports.{validate_service_port_iff, complain-eq-nil}
use airgapped_ai_gateway_k8s.Configuration.Valid.{IsUnambiguous, IsRoutable, IsPinned}

pub duplicate_errors_iff :
    (config : GatewayConfig) → (duplicate_errors config ≡ []) ↔ IsUnambiguous config
unfolding duplicate_errors model_keys
duplicate_errors_iff config =
    let shared =
      both-eq-nil
        (both-eq-nil
          (both-eq-nil (both-eq-nil (duplicates-eq-nil _ _) (duplicates-eq-nil _ _))
            (duplicates-eq-nil _ _))
          (duplicates-eq-nil _ _))
        (duplicates-eq-nil _ _) in
    (
      (λ e.
          let h = shared.0 e in
          record {
            keys = h.0.0.0.0;
            hosts = h.0.0.0.1;
            routes = h.0.0.1;
            permissions = h.0.1;
            consumers = h.1;
          }),
      (λ u. shared.1 ((((u.keys, u.hosts), u.routes), u.permissions), u.consumers)),
    )

keep-none :
    (test : String → Bool) (xs : List String) (s : String)
    → keep test xs ≡ []
    → contains xs s ≡ true
    → test s ≡ false
keep-none test [] s h c = cc
keep-none test (x ∷ xs) s h c = ground (arith, h, c, eq_iff s x, keep-none test xs s)

keep-text_set :
    (test : String → Bool) (xs : List String)
    → (keep test (text_set xs) ≡ []) ↔ All (λ x. test x ≡ false) xs
unfolding text_set
keep-text_set test [] = ground arith
keep-text_set test (x ∷ xs) = ground (arith, keep-text_set test xs, keep-none test (text_set xs) x)

pub unknown_errors_iff :
    (keys : List String) (c : ConsumerConfig)
    → (unknown_errors keys c ≡ []) ↔ All (λ k. contains keys k ≡ true) c.allowed_models
unfolding unknown_errors unknown_models
unknown_errors_iff keys c =
    let none = keep-text_set (λ key. not (contains keys key)) c.allowed_models in
    (
      (λ e.
          All-mono (λ k. not (contains keys k) ≡ false) (λ k. contains keys k ≡ true)
            (λ k h. ground (arith, h)) c.allowed_models (none.0 (ground (arith, e)))),
      (λ h. ground (
        arith,
        none.1 (
            All-mono (λ k. contains keys k ≡ true) (λ k. not (contains keys k) ≡ false)
              (λ k h. ground (arith, h)) c.allowed_models h),
      )),
    )

pub image_errors_iff :
    (registry : RegistrySettings) (image : RegistryImage)
    → (image_errors registry image ≡ []) ↔ IsPinned registry image
unfolding image_errors
image_errors_iff registry image =
    let tests =
      both-eq-nil (both-eq-nil (complain-eq-nil _ _) (complain-eq-nil _ _)) (complain-eq-nil _ _) in
    (
      (λ e.
          let h = tests.0 e in
          record {
            private_target = ground (arith, h);
            by_digest = ground (arith, h);
            no_latest = ground (arith, h);
            no_latest_digest = ground (arith, h);
          }),
      (λ p. tests.1 (
        (ground (arith, p.private_target), ground (arith, p.by_digest)),
        ground (arith, p.no_latest, p.no_latest_digest),
      )),
    )

pub model_errors_iff :
    (config : GatewayConfig) (m : ModelConfig) → (model_errors config m ≡ []) ↔ IsRoutable config m
unfolding model_errors is_explicit is_chat is_agentgateway
model_errors_iff config m =
    let tests =
      both-eq-nil
        (both-eq-nil (both-eq-nil (validate_service_port_iff m) (complain-eq-nil _ _))
          (complain-eq-nil _ _))
        (complain-eq-nil _ _) in
    let same = eq_iff m.service.namespace config.platform.gateway.namespace in
    (
      (λ e.
          let h = tests.0 e in
          record {
            selected = h.0.0.0;
            granted = ground (arith, h, same);
            backend = ground (arith, h);
          }),
      (λ r. tests.1 (
        ((r.selected, ground (arith, r.granted, same)), ground (arith, r.backend)),
        ground (arith, r.backend),
      )),
    )

limit_errors_iff : (c : ConsumerConfig) → (limit_errors c ≡ []) ↔ (c.rate_limits ≡ none)
unfolding limit_errors
limit_errors_iff c = ground arith

pub rate_limit_errors_iff :
    (config : GatewayConfig)
    → (rate_limit_errors config ≡ []) ↔ (
        (config.platform.rate_limit.enabled ≡ true
          → config.platform.rate_limit.backend_enabled ≡ true)
        × (config.platform.rate_limit.backend_enabled ≡ false
            → All (λ (c : ConsumerConfig). c.rate_limits ≡ none) config.consumers))
unfolding rate_limit_errors
rate_limit_errors_iff config =
    let tests = both-eq-nil (complain-eq-nil _ _) (
      else-eq-nil _ (
        gather-eq-nil (λ (c : ConsumerConfig). c.rate_limits ≡ none) limit_errors limit_errors_iff
          config.consumers)) in
    (
      (λ e. let h = tests.0 e in ((λ on. ground (arith, h, on)), h.1)),
      (λ h. tests.1 (ground (arith, h.0), h.1)),
    )

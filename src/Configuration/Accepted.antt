-- ===== src/Configuration/Accepted.antt =====
-- When `validate_config` accepts a configuration.
use airgapped_ai_gateway_k8s.Base.{
  String, ◌≡◌, ◌≢◌, ◌↔◌, List, [], ◌∷◌, ◌==◌, arith, eq_iff, both-eq-nil, gather-eq-nil,
  then-eq-nil,
}
use airgapped_ai_gateway_k8s.Base.Outcome.{ok}
use airgapped_ai_gateway_k8s.Models.{GatewayConfig}
use airgapped_ai_gateway_k8s.Configuration.Validate.{
  complain, model_keys, validate_strict_airgap_images, config_errors, raise_listed, validate_config,
}
use airgapped_ai_gateway_k8s.Configuration.Ports.{complain-eq-nil}
use airgapped_ai_gateway_k8s.Configuration.Valid.{IsValid}
use airgapped_ai_gateway_k8s.Configuration.Parts.{
  duplicate_errors_iff, unknown_errors_iff, image_errors_iff, model_errors_iff,
  rate_limit_errors_iff,
}

blank_iff : (s message : String) → (complain (s == "") message ≡ []) ↔ (s ≢ "")
blank_iff s message = ground (arith, eq_iff s "", complain-eq-nil (s == "") message)

raise_listed_iff : (es : List String) → (raise_listed es ≡ ok tt) ↔ (es ≡ [])
unfolding raise_listed
raise_listed_iff [] = ground arith
raise_listed_iff (e ∷ es) = ground arith

config_errors_iff : (config : GatewayConfig) → (config_errors config ≡ []) ↔ IsValid config
unfolding config_errors validate_strict_airgap_images
config_errors_iff config =
    let registry = config.platform.registry in
    let tests =
      both-eq-nil
        (both-eq-nil
          (both-eq-nil
            (both-eq-nil
              (both-eq-nil
                (both-eq-nil (duplicate_errors_iff config)
                  (gather-eq-nil _ _ (unknown_errors_iff (model_keys config)) config.consumers))
                (gather-eq-nil _ _ (model_errors_iff config) config.models))
              (rate_limit_errors_iff config))
            (then-eq-nil registry.strict_airgap
              (gather-eq-nil _ _ (image_errors_iff registry) registry.images)))
          (blank_iff _ _))
        (blank_iff _ _) in
    (
      (λ e.
          let h = tests.0 e in
          record {
            unambiguous = h.0.0.0.0.0.0;
            known = h.0.0.0.0.0.1;
            routable = h.0.0.0.0.1;
            limits_backed = h.0.0.0.1.0;
            limits_served = h.0.0.0.1.1;
            pinned = h.0.0.1;
            context = h.0.1;
            token = h.1;
          }),
      (λ v. tests.1 (
        (
          ((((v.unambiguous, v.known), v.routable), (v.limits_backed, v.limits_served)), v.pinned),
          v.context,
        ),
        v.token,
      )),
    )

-- A configuration is accepted exactly if it is valid: models do not share a key, host, route or
-- permission, consumers do not share a key and are allowed known models only, each model selects
-- one declared port, has a backend of its kind, and stays in the gateway's namespace unless
-- references are granted explicitly, rate limits have their backend, the images of a strict
-- air-gap registry are private and pinned by digest, and the context and the token are not blank.
pub validate_config_iff :
    (config : GatewayConfig) → (validate_config config ≡ ok tt) ↔ IsValid config
unfolding validate_config
validate_config_iff config =
    ground (arith, raise_listed_iff (config_errors config), config_errors_iff config)

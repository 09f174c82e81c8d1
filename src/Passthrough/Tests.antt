-- ===== src/Passthrough/Tests.antt =====
-- A provider whose policies cannot be applied.
use nebari_llm_serving_pack.Base.{◌≡◌, ◌↔◌, [], ◌∷◌, if◌then◌else◌, ◌==◌, bytes, ok}
use nebari_llm_serving_pack.Cluster.{Kind, not_found, done, refused}
use nebari_llm_serving_pack.Passthrough.{PassthroughResources, build_passthrough_resources}
use nebari_llm_serving_pack.Passthrough.Apply.{
  apply_all, provider_objects, apply_endpoint, apply_groups,
}
use nebari_llm_serving_pack.Passthrough.Ready.{AllApplied, EndpointApplied, apply_groups_iff}
use nebari_llm_serving_pack.Passthrough.Types.{Api, phase_for, ready_phase, external_endpoint_ready}
use nebari_llm_serving_pack.Samples.{provided, configured}

abbrev empty : {A : Type 0} → Kind (Unit {0}) A
empty = record {
  get = λ namespace name w. (not_found, w);
  create = λ a w. (done, w);
  update = λ a w. (done, w);
  delete = λ a w. (done, w);
}

abbrev no_policies : Api (Unit {0})
no_policies = record {
  models = empty;
  update_model_status = λ o w. (done, w);
  secrets = empty;
  list_secrets = λ namespace w. (ok [], w);
  config_maps = empty;
  customs = λ kind. record empty {
    create = λ a w.
        (if kind == bytes "SecurityPolicy" then refused (bytes "no matches for kind") else done, w);
  };
  set_owner = λ kind name. ok tt;
  set_condition = λ held c. c ∷ held;
}

abbrev resources : PassthroughResources
resources = build_passthrough_resources provided configured [] []

apply_groups_iff_example :
    (phase_for (apply_groups no_policies provided resources tt).0 ≡ ready_phase) ↔ (
      AllApplied no_policies (provider_objects no_policies provided resources) tt
      × EndpointApplied no_policies provided resources.external_route
          resources.external_security_policy
          (apply_all no_policies (provider_objects no_policies provided resources) tt).1
      × EndpointApplied no_policies provided resources.internal_route
          resources.internal_security_policy
          (apply_endpoint no_policies provided external_endpoint_ready
            (bytes "external route and apiKeyAuth policy applied")
            resources.external_route
            resources.external_security_policy
            (apply_all no_policies (provider_objects no_policies provided resources) tt).1).1)
apply_groups_iff_example = apply_groups_iff no_policies provided resources tt

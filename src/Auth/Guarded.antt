-- ===== src/Auth/Guarded.antt =====
-- Routes and the policies that guard them.
use nebari_llm_serving_pack.Base.{
  ◌≡◌, inl, inr, refl, true, none, some, Option, List, Bool-cases, Text,
}
use nebari_llm_serving_pack.Auth.{
  SecurityPolicy, build_api_key_auth_security_policy, build_external_security_policy,
  build_jwt_security_policy, build_internal_security_policy, build_auth_resources,
}
use nebari_llm_serving_pack.Config.{OperatorConfig}
use nebari_llm_serving_pack.Crd.{LlmModel}
use nebari_llm_serving_pack.Routing.{
  AiGatewayRoute, bool_or_default, build_ai_gateway_route, build_routing_resources,
}

-- There is a policy exactly where there is a route, and it targets that route in its namespace.
abbrev pub IsGuarded : Option AiGatewayRoute → Option SecurityPolicy → Type 0
IsGuarded none none = Unit
IsGuarded none (some p) = ⊥
IsGuarded (some r) none = ⊥
IsGuarded (some r) (some p) = (p.target_route ≡ r.name) × (p.namespace ≡ r.namespace)

module _ (model : LlmModel) (cfg : OperatorConfig) (ids names : List Text) where
  -- For each endpoint the two builders agree: where one builds a route the other builds a policy that
  -- targets just that route, in its namespace, and where one builds none neither does the other.
  pub build_auth_resources-IsGuarded :
      IsGuarded
        (build_routing_resources model cfg).external_route
        (build_auth_resources model cfg ids names).external_security_policy
      × IsGuarded
          (build_routing_resources model cfg).internal_route
          (build_auth_resources model cfg ids names).internal_security_policy
  unfolding build_routing_resources build_auth_resources build_ai_gateway_route
      build_external_security_policy build_api_key_auth_security_policy
      build_internal_security_policy build_jwt_security_policy
  build_auth_resources-IsGuarded = (external, internal)
    where
      external :
          IsGuarded
            (build_routing_resources model cfg).external_route
            (build_auth_resources model cfg ids names).external_security_policy
      external = elim (Bool-cases (bool_or_default model.spec.endpoints.external_enabled true)) [
        | inl on ↦ simp on (refl, refl)
        | inr off ↦ simp off tt
      ]

      internal :
          IsGuarded
            (build_routing_resources model cfg).internal_route
            (build_auth_resources model cfg ids names).internal_security_policy
      internal = elim (Bool-cases (bool_or_default model.spec.endpoints.internal_enabled true)) [
        | inl on ↦ simp on (refl, refl)
        | inr off ↦ simp off tt
      ]

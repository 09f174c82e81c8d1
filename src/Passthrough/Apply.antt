-- ===== src/Passthrough/Apply.antt =====
-- applyAll, and the groups of resources that a reconciliation applies.
use nebari_llm_serving_pack.Base.{
  Option, none, some, List, [], ◌∷◌, ◌++◌, Text, bytes, Result, ok, err, Exec,
}
use nebari_llm_serving_pack.Auth.{SecurityPolicy}
use nebari_llm_serving_pack.Cluster.{Unstructured, create_or_update, with_version}
use nebari_llm_serving_pack.Crd.{PassthroughModel}
use nebari_llm_serving_pack.Passthrough.{PassthroughRoute, PassthroughResources}
use nebari_llm_serving_pack.Passthrough.Types.{
  CondType, backend_configured, external_endpoint_ready, internal_endpoint_ready, Condition, Custom,
  backend, tls_policy, service_backend, upstream_policy, Api, condition_for, disabled_condition,
  first_error, result_of, custom, custom_route, custom_policy,
}

module _ {W : Type 0} (api : Api W) where
  unfoldable pub create_or_update_unstructured : Unstructured Custom → Exec W (Unit {0})
  create_or_update_unstructured o =
      create_or_update (api.customs o.kind) o.namespace o.name o (with_version o)

  -- One round, with the first error so far and what follows it.
  unfoldable pub apply_owned :
      Option Text
      → Unstructured Custom
      → Result (Unit {0})
      → (Option Text → Exec W (Unit {0}))
      → Exec W (Unit {0})
  apply_owned first o (err e) rest = λ w. (
    err (bytes "setting owner on " ++ (o.kind ++ (bytes "/" ++ (o.name ++ (bytes ": " ++ e))))),
    w,
  )
  apply_owned first o (ok u) rest =
      λ w. let (r, w') = create_or_update_unstructured o w in rest (first_error first r) w'

  unfoldable pub apply_from : Option Text → List (Option (Unstructured Custom)) → Exec W (Unit {0})
  apply_from first [] = λ w. (result_of first, w)
  apply_from first (none ∷ objs) = apply_from first objs
  apply_from first (some o ∷ objs) =
      apply_owned first o (api.set_owner o.kind o.name) (λ next. apply_from next objs)

  unfoldable pub apply_all : List (Option (Unstructured Custom)) → Exec W (Unit {0})
  apply_all objs = apply_from none objs

  unfoldable pub provider_objects :
      PassthroughModel → PassthroughResources → List (Option (Unstructured Custom))
  provider_objects pm r =
      custom pm (bytes "Backend") r.backend.name (backend r.backend)
      ∷ custom pm (bytes "BackendTLSPolicy") r.backend_tls_policy.name
          (tls_policy r.backend_tls_policy)
      ∷ custom pm (bytes "AIServiceBackend") r.ai_service_backend.name
          (service_backend r.ai_service_backend)
      ∷ custom pm (bytes "BackendSecurityPolicy") r.backend_security_policy.name
          (upstream_policy r.backend_security_policy)
      ∷ []

  -- The condition of an endpoint, whose route and policy are applied if it has a route.
  unfoldable pub apply_endpoint :
      PassthroughModel
      → CondType
      → Text
      → Option PassthroughRoute
      → Option SecurityPolicy
      → W
      → Condition × W
  apply_endpoint pm type ok_message none policy w = (disabled_condition type, w)
  apply_endpoint pm type ok_message (some r) policy w =
      let (e, w') = apply_all (custom_route pm (some r) ∷ custom_policy pm policy ∷ []) w in
      (condition_for type e ok_message, w')

  unfoldable pub apply_groups : PassthroughModel → PassthroughResources → W → List Condition × W
  apply_groups pm r w =
      let (e, w₁) = apply_all (provider_objects pm r) w in
      let (external, w₂) =
        apply_endpoint pm external_endpoint_ready
          (bytes "external route and apiKeyAuth policy applied") r.external_route
          r.external_security_policy w₁ in
      let (internal, w₃) =
        apply_endpoint pm internal_endpoint_ready (bytes "internal route and JWT policy applied")
          r.internal_route r.internal_security_policy w₂ in
      (
        condition_for backend_configured e (bytes "provider backend resources applied")
            ∷ external
            ∷ internal
            ∷ [],
        w₃,
      )

-- ===== src/Controller/Kept.antt =====
-- What the groups of resources that a reconciliation applies do to the Secrets with API keys.
use nebari_llm_serving_pack.Base.{inl, inr, Bool, true, false, Bool-cases, Text, ok}
use nebari_llm_serving_pack.Cluster.{
  Fetched, found, not_found, failed, written, unless_missing, unless_exists,
}
use nebari_llm_serving_pack.Cluster.Keeps.{
  Keeps, lift-Keeps, bind-Keeps, then-Keeps, wrap-Keeps, read-Keeps, writing-Keeps,
  create_or_update-Keeps,
}
use nebari_llm_serving_pack.Controller.Types.{Api, LiveDeployment}
use nebari_llm_serving_pack.Controller.Apply
use nebari_llm_serving_pack.Controller.Groups
use nebari_llm_serving_pack.Controller.Keys.{IsUnmoved, own-Keeps, custom-Keeps, monitor-Keeps}
use nebari_llm_serving_pack.Crd.{LlmModel}
use nebari_llm_serving_pack.Pool.{InferencePoolResources, ConfigMap, Role, RoleBinding}
use nebari_llm_serving_pack.Serving.{ModelServiceResources}
use nebari_llm_serving_pack.Workload.{Deployment, Service, ServiceAccount}

module _ {W : Type 0} (api : Api W) (I : W → Type 0) (kept : IsUnmoved api I)
    (sha : Text → Text) where
  account-Keeps :
      (model : LlmModel) (what : Text) (a : ServiceAccount)
      → Keeps I (Groups.apply_account api sha model what a)
  unfolding Groups.apply_account Apply.reconciling Apply.create_or_update_service_account
  account-Keeps model what a =
      then-Keeps (own-Keeps api I kept what a.name)
        (wrap-Keeps _ (create_or_update-Keeps kept.service_accounts _ _ _ _))

  service-Keeps :
      (model : LlmModel) (what : Text) (s : Service)
      → Keeps I (Groups.apply_service api sha model what s)
  unfolding Groups.apply_service Apply.reconciling Apply.create_or_update_service
  service-Keeps model what s =
      then-Keeps (own-Keeps api I kept what s.name)
        (wrap-Keeps _ (create_or_update-Keeps kept.services _ _ _ _))

  role-Keeps : (model : LlmModel) (r : Role) → Keeps I (Groups.apply_role api sha model r)
  unfolding Groups.apply_role Apply.reconciling Apply.create_or_update_role
  role-Keeps model r =
      then-Keeps (own-Keeps api I kept _ r.name)
        (wrap-Keeps _ (create_or_update-Keeps kept.roles _ _ _ _))

  role_binding-Keeps :
      (model : LlmModel) (b : RoleBinding) → Keeps I (Groups.apply_role_binding api sha model b)
  unfolding Groups.apply_role_binding Apply.reconciling Apply.create_or_update_role_binding
  role_binding-Keeps model b =
      then-Keeps (own-Keeps api I kept _ b.name)
        (wrap-Keeps _ (create_or_update-Keeps kept.role_bindings _ _ _ _))

  config_map-Keeps :
      (model : LlmModel) (c : ConfigMap) → Keeps I (Groups.apply_config_map api sha model c)
  unfolding Groups.apply_config_map Apply.reconciling Apply.create_or_update_config_map
  config_map-Keeps model c =
      then-Keeps (own-Keeps api I kept _ c.name)
        (wrap-Keeps _ (create_or_update-Keeps kept.config_maps _ _ _ _))

  epp_deployment-Keeps :
      (model : LlmModel) (d : Deployment) → Keeps I (Groups.apply_epp_deployment api sha model d)
  unfolding Groups.apply_epp_deployment Apply.reconciling Apply.create_or_update_deployment
  epp_deployment-Keeps model d =
      then-Keeps (own-Keeps api I kept _ d.name)
        (wrap-Keeps _ (create_or_update-Keeps kept.deployments _ _ _ _))

  pub pool-Keeps :
      (model : LlmModel) (pool : InferencePoolResources)
      → Keeps I (Groups.reconcile_inference_pool_resources api sha model pool)
  unfolding Groups.reconcile_inference_pool_resources
  pool-Keeps model pool = then-Keeps (custom-Keeps api I kept _ _ _ _) (
      then-Keeps (account-Keeps model _ pool.epp_service_account) (
        then-Keeps (role-Keeps model pool.epp_role) (
          then-Keeps (role_binding-Keeps model pool.epp_role_binding) (
            then-Keeps (service-Keeps model _ pool.epp_service) (
              then-Keeps (config_map-Keeps model pool.epp_config_map)
                (epp_deployment-Keeps model pool.epp_deployment))))))

  deployment_found-Keeps :
      (model : LlmModel) (desired : LiveDeployment) (r : Fetched LiveDeployment)
      → Keeps I (Groups.apply_deployment api sha model desired r)
  unfolding Groups.apply_deployment
  deployment_found-Keeps model desired (failed e) = lift-Keeps _
  deployment_found-Keeps model desired not_found =
      then-Keeps (wrap-Keeps _ (writing-Keeps unless_exists (kept.deployments.creates desired)))
        (lift-Keeps (ok true))
  deployment_found-Keeps model desired (found old) =
      elim (Bool-cases (Groups.hash_changed api sha model old)) [
        | inl changed ↦ simp changed (
            then-Keeps (wrap-Keeps _ (writing-Keeps unless_missing (kept.deployments.deletes old)))
              (lift-Keeps (ok false)))
        | inr same ↦ simp same (
            then-Keeps (wrap-Keeps _ (writing-Keeps written (kept.deployments.updates _)))
              (lift-Keeps (ok true)))
      ]

  then_monitor-Keeps :
      (model : LlmModel) (r : ModelServiceResources) (goes_on : Bool)
      → Keeps I (Groups.then_monitor api sha model r goes_on)
  unfolding Groups.then_monitor
  then_monitor-Keeps model r true = monitor-Keeps api I kept model r.pod_monitor
  then_monitor-Keeps model r false = lift-Keeps (ok tt)

  pub service_resources-Keeps :
      (model : LlmModel) (r : ModelServiceResources)
      → Keeps I (Groups.reconcile_model_service_resources api sha model r)
  unfolding Groups.reconcile_model_service_resources Groups.reconcile_deployment
  service_resources-Keeps model r = then-Keeps (account-Keeps model _ r.service_account) (
      then-Keeps (service-Keeps model _ r.service) (
        then-Keeps (own-Keeps api I kept _ r.deployment.name) (
          bind-Keeps
            (read-Keeps (kept.deployments.gets model.namespace r.deployment.name)
              (deployment_found-Keeps model _))
            (then_monitor-Keeps model r))))

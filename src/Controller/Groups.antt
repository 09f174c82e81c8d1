-- ===== src/Controller/Groups.antt =====
-- The resources that serve a model and those of its inference pool, as one reconciliation applies
-- them.
use nebari_llm_serving_pack.Base.{
  Bool, true, false, ◌&&◌, not, [], if◌then◌else◌, Text, ◌==◌, bytes, Map, insert, err, Exec, pure,
  wrap, ◌>>=◌, ◌>>◌, ◌++◌,
}
use nebari_llm_serving_pack.Cluster.{
  Fetched, found, not_found, failed, written, unless_missing, unless_exists, writing,
}
use nebari_llm_serving_pack.Controller.Types.{Api, LiveDeployment, inference_pool, new_object}
use nebari_llm_serving_pack.Controller.Apply.{
  model_config_hash_anno, hashed_text, value_at, own, reconciling, apply_custom, apply_monitor,
  create_or_update_service_account, create_or_update_service, create_or_update_deployment,
  create_or_update_role, create_or_update_role_binding, create_or_update_config_map,
}
use nebari_llm_serving_pack.Crd.{LlmModel}
use nebari_llm_serving_pack.Pool.{InferencePoolResources, ConfigMap, Role, RoleBinding}
use nebari_llm_serving_pack.Serving.{ModelServiceResources}
use nebari_llm_serving_pack.Workload.{Deployment, Service, ServiceAccount}

unfoldable pub new_deployment : LlmModel → Map Text → Deployment → LiveDeployment
new_deployment model annotations d = record {
  object = record (new_object model d.name d.labels true d.spec) { annotations = annotations };
  ready_replicas = 0;
}

-- The spec and the hash of a Deployment that exists.
unfoldable pub updated_deployment : LiveDeployment → Text → LiveDeployment → LiveDeployment
updated_deployment desired hash existing = record existing {
  object = record existing.object {
    spec = desired.object.spec;
    annotations = insert model_config_hash_anno hash existing.object.annotations;
  };
}

-- The first 8 bytes of a SHA-256 hash, in hexadecimal, is a parameter.
module _ {W : Type 0} (api : Api W) (short_sha256 : Text → Text) where
  unfoldable pub model_config_hash : LlmModel → Text
  model_config_hash model = short_sha256 (hashed_text model)

  unfoldable pub hash_changed : LlmModel → LiveDeployment → Bool
  hash_changed model existing =
      not (value_at model_config_hash_anno existing.object.annotations == [])
      && not
          (value_at model_config_hash_anno existing.object.annotations == model_config_hash model)

  -- What is done with the Deployment; the answer is whether the reconciliation of this group goes on.
  unfoldable pub apply_deployment : LlmModel → LiveDeployment → Fetched LiveDeployment → Exec W Bool
  apply_deployment model desired (failed e) =
      λ w. (err (bytes "getting existing Deployment: " ++ e), w)
  apply_deployment model desired not_found =
      wrap (λ e. bytes "creating Deployment: " ++ e)
        (writing unless_exists (api.deployments.create desired))
      >> pure true
  apply_deployment model desired (found existing) =
      if hash_changed model existing
      then wrap (λ e. bytes "deleting stale Deployment: " ++ e)
          (writing unless_missing (api.deployments.delete existing))
        >> pure false
      else wrap (λ e. bytes "updating Deployment: " ++ e)
          (writing written (
            api.deployments.update (updated_deployment desired (model_config_hash model) existing)))
        >> pure true

  unfoldable pub reconcile_deployment : LlmModel → Deployment → Exec W Bool
  reconcile_deployment model d w =
      let (r, w') = api.deployments.get model.namespace d.name w in
      apply_deployment model
        (new_deployment model (insert model_config_hash_anno (model_config_hash model) []) d) r w'

  unfoldable pub then_monitor : LlmModel → ModelServiceResources → Bool → Exec W (Unit {0})
  then_monitor model r goes_on = if goes_on then apply_monitor api model r.pod_monitor else pure tt

  unfoldable pub apply_account : LlmModel → Text → ServiceAccount → Exec W (Unit {0})
  apply_account model what a =
      own api what a.name
      >> reconciling api what
          (create_or_update_service_account api (new_object model a.name a.labels true tt))

  unfoldable pub apply_service : LlmModel → Text → Service → Exec W (Unit {0})
  apply_service model what s =
      own api what s.name
      >> reconciling api what
          (create_or_update_service api (new_object model s.name s.labels true s.spec))

  unfoldable pub reconcile_model_service_resources :
      LlmModel → ModelServiceResources → Exec W (Unit {0})
  reconcile_model_service_resources model r =
      apply_account model (bytes "ServiceAccount") r.service_account
      >> (apply_service model (bytes "Service") r.service
          >> (own api (bytes "Deployment") r.deployment.name
              >> (reconcile_deployment model r.deployment >>= then_monitor model r)))

  unfoldable pub apply_role : LlmModel → Role → Exec W (Unit {0})
  apply_role model r =
      own api (bytes "EPP Role") r.name
      >> reconciling api (bytes "EPP Role")
          (create_or_update_role api (new_object model r.name r.labels true r.rules))

  unfoldable pub apply_role_binding : LlmModel → RoleBinding → Exec W (Unit {0})
  apply_role_binding model b =
      own api (bytes "EPP RoleBinding") b.name
      >> reconciling api (bytes "EPP RoleBinding") (
          create_or_update_role_binding api
            (new_object model b.name b.labels true (b.role, b.subject)))

  unfoldable pub apply_config_map : LlmModel → ConfigMap → Exec W (Unit {0})
  apply_config_map model c =
      own api (bytes "EPP ConfigMap") c.name
      >> reconciling api (bytes "EPP ConfigMap")
          (create_or_update_config_map api (new_object model c.name c.labels true c.entries))

  unfoldable pub apply_epp_deployment : LlmModel → Deployment → Exec W (Unit {0})
  apply_epp_deployment model d =
      own api (bytes "EPP Deployment") d.name
      >> reconciling api (bytes "EPP Deployment")
          (create_or_update_deployment api (new_deployment model [] d))

  unfoldable pub reconcile_inference_pool_resources :
      LlmModel → InferencePoolResources → Exec W (Unit {0})
  reconcile_inference_pool_resources model pool =
      apply_custom api (bytes "InferencePool") pool.inference_pool.name model.namespace
        (inference_pool pool.inference_pool)
      >> (apply_account model (bytes "EPP ServiceAccount") pool.epp_service_account
          >> (apply_role model pool.epp_role
              >> (apply_role_binding model pool.epp_role_binding
                  >> (apply_service model (bytes "EPP Service") pool.epp_service
                      >> (apply_config_map model pool.epp_config_map
                          >> apply_epp_deployment model pool.epp_deployment)))))

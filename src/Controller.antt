-- ===== src/Controller.antt =====
-- operator/internal/controller/llmmodel_controller.go: one reconciliation of a model. The operator's
-- configuration is there, as the program's entry sets it. A time is in milliseconds; logs are left
-- out.
pub mod Types
pub mod Apply
pub mod Groups
pub mod Status
pub mod Observed
pub mod Keys
pub mod Kept
pub mod Unmoved
pub mod Phases
mod Tests
use nebari_llm_serving_pack.Base.{
  Bool, true, false, ◌&&◌, not, Option, some, none, List, [], ◌∷◌, ◌++◌, if◌then◌else◌, Text, ◌==◌,
  bytes, member, Result, ok, err, Exec, pure, lift, wrap, wrap_result, ◌>>=◌, ◌>>◌,
}
use nebari_llm_serving_pack.Auth.{DataObject, AuthResources, build_auth_resources}
use nebari_llm_serving_pack.Auth.Secrets.{api_key_client_ids, api_key_secret_names_with}
use nebari_llm_serving_pack.Cluster.{
  Fetched, found, not_found, failed, Kind, Written, Held, written, unless_missing, writing, logged,
}
use nebari_llm_serving_pack.Config.{Environment, OperatorConfig}
use nebari_llm_serving_pack.Controller.Types.{
  Api, Phase, pending, downloading, starting, ready, degraded, error, LlmModelObject, Requeue,
  never, after_ms, finalizer_name, new_object,
}
use nebari_llm_serving_pack.Controller.Apply.{
  own, reconciling, create_or_update_pvc, create_or_update_network_policy,
  reconcile_auth_secret_and_config_map, reconcile_routing_resources, reconcile_security_policies,
}
use nebari_llm_serving_pack.Controller.Groups.{
  reconcile_model_service_resources, reconcile_inference_pool_resources,
}
use nebari_llm_serving_pack.Controller.Status.{determine_phase, update_status}
use nebari_llm_serving_pack.Crd.{LlmModel}
use nebari_llm_serving_pack.Naming.{api_key_secret_name, api_key_metadata_config_map_name}
use nebari_llm_serving_pack.Network.{NetworkPolicy, build_network_policy}
use nebari_llm_serving_pack.Pool.{build_inference_pool_resources}
use nebari_llm_serving_pack.Routing.{build_routing_resources}
use nebari_llm_serving_pack.Serving.{build_model_service_resources}
use nebari_llm_serving_pack.Storage.{Pvc, StorageResult, build_storage_spec}

unfoldable pub without_finalizer : List Text → List Text
without_finalizer [] = []
without_finalizer (f ∷ finalizers) =
    let later = without_finalizer finalizers in if f == finalizer_name then later else f ∷ later

unfoldable pub as_secret : Fetched (Held (List (Text × Text))) → Fetched DataObject
as_secret (found o) =
    found (record { name = o.name; namespace = o.namespace; labels = o.labels; entries = o.spec })
as_secret not_found = not_found
as_secret (failed e) = failed e

unfoldable pub waits : Phase → Bool
waits pending = false
waits downloading = true
waits starting = true
waits ready = false
waits degraded = false
waits error = false

module _ {W : Type 0} where
  -- An object that is there is deleted; that it is gone already is no error, nor is a failed read.
  unfoldable pub delete_found : {A : Type 0} → Kind W A → Fetched A → Exec W (Unit {0})
  delete_found kind (found a) = writing unless_missing (kind.delete a)
  delete_found kind not_found = pure tt
  delete_found kind (failed e) = pure tt

  unfoldable pub delete_if_there : {A : Type 0} → Kind W A → Text → Text → Exec W (Unit {0})
  delete_if_there kind namespace name w =
      let (r, w') = kind.get namespace name w in delete_found kind r w'

module _ {W : Type 0} (api : Api W) (cfg : OperatorConfig) where
  unfoldable pub delete_legacy_grant : LlmModel → Exec W (Unit {0})
  delete_legacy_grant model =
      if not (cfg.api_keys_namespace == []) && not (cfg.api_keys_namespace == model.namespace)
      then logged (
          delete_if_there api.reference_grants cfg.api_keys_namespace
            (model.name ++ (bytes "-" ++ (model.namespace ++ bytes "-ref-grant"))))
      else pure tt

  unfoldable pub reconcile_delete : LlmModelObject → Exec W Requeue
  reconcile_delete o =
      if not (member finalizer_name o.finalizers)
      then pure never
      else wrap (λ e. bytes "deleting api key secret: " ++ e)
          (delete_if_there api.secrets o.model.namespace (api_key_secret_name o.model.name))
        >> (wrap (λ e. bytes "deleting api key metadata configmap: " ++ e)
              (delete_if_there api.config_maps o.model.namespace
                (api_key_metadata_config_map_name o.model.name))
            >> (delete_legacy_grant o.model
                >> (wrap (λ e. bytes "removing finalizer: " ++ e)
                      (writing written (
                        api.models.update
                          (record o { finalizers = without_finalizer o.finalizers })))
                    >> pure never)))

  unfoldable pub apply_pvc : LlmModel → Option Pvc → Exec W (Unit {0})
  apply_pvc model none = pure tt
  apply_pvc model (some pvc) =
      own api (bytes "PVC") pvc.name
      >> reconciling api (bytes "PVC")
          (create_or_update_pvc api (new_object model pvc.name [] true pvc))

  unfoldable pub read_client_ids : LlmModel → Exec W (List Text)
  read_client_ids model w =
      let (r, w') = api.secrets.get model.namespace (api_key_secret_name model.name) w in
      (
        wrap_result (λ e. bytes "reading api key client ids: " ++ e)
            (api_key_client_ids (as_secret r)),
        w',
      )

  unfoldable pub read_secret_names : LlmModel → Exec W (List Text)
  read_secret_names model w =
      let (r, w') = api.list_secrets model.namespace w in
      (
        wrap_result (λ e. bytes "listing api key secrets: " ++ e)
            (api_key_secret_names_with r (api_key_secret_name model.name)),
        w',
      )

  unfoldable pub reconcile_auth : LlmModel → Exec W AuthResources
  reconcile_auth model = read_client_ids model >>= λ ids. read_secret_names model >>= λ names.
      let auth = build_auth_resources model cfg ids names in
      reconcile_auth_secret_and_config_map api auth >> pure auth

  unfoldable pub apply_network_policy : LlmModel → NetworkPolicy → Exec W (Unit {0})
  apply_network_policy model np =
      own api (bytes "NetworkPolicy") np.name
      >> reconciling api (bytes "NetworkPolicy") (
          create_or_update_network_policy api
            (new_object model np.name np.labels true (np.pod_selector, np.ingress)))

  -- What follows a phase in which the model does not serve yet.
  unfoldable pub wait : LlmModel → Phase → Exec W Requeue
  wait model phase w =
      let (_, w') = update_status api cfg model phase w in (ok (after_ms 15000), w')

module _ {W : Type 0} (api : Api W) (cfg : OperatorConfig) (env : Environment)
    (parse_quantity json_to_yaml : Text → Result Text) (short_sha256 : Text → Text) where
  unfoldable pub serve : LlmModel → AuthResources → Phase → Exec W Requeue
  serve model auth phase =
      lift (
        wrap_result (λ e. bytes "building inference pool resources: " ++ e)
          (build_inference_pool_resources json_to_yaml model cfg))
      >>= λ pool.
          reconcile_inference_pool_resources api short_sha256 model pool
          >> (reconcile_routing_resources api model (build_routing_resources model cfg)
              >> (reconcile_security_policies api auth
                  >> (update_status api cfg model phase >> pure never)))

  unfoldable pub by_phase : LlmModel → AuthResources → Phase → Exec W Requeue
  by_phase model auth phase =
      if waits phase then wait api cfg model phase else serve model auth phase

  unfoldable pub serve_by_phase : LlmModel → AuthResources → Exec W Requeue
  serve_by_phase model auth w =
      let (phase, w') = determine_phase api model w in by_phase model auth phase w'

  unfoldable pub provision : LlmModel → Exec W Requeue
  provision model =
      lift (
        wrap_result (λ e. bytes "building storage spec: " ++ e)
          (build_storage_spec parse_quantity env model cfg.default_storage_class_name))
      >>= λ (s : StorageResult).
          apply_pvc api cfg model s.pvc
          >> (reconcile_auth api cfg model >>= λ auth.
              apply_network_policy api cfg model
                (build_network_policy model cfg.external_gateway_ns cfg.internal_gateway_ns)
              >> (reconcile_model_service_resources api short_sha256 model
                    (build_model_service_resources model s cfg)
                  >> serve_by_phase model auth))

  -- The write of the first phase; a failure is only logged, and tried again soon.
  unfoldable pub after_pending : LlmModel → Result (Unit {0}) → Exec W Requeue
  after_pending model (ok u) = provision model
  after_pending model (err e) = pure (after_ms 100)

  unfoldable pub with_phase : LlmModelObject → Option Phase → Exec W Requeue
  with_phase o (some phase) = provision o.model
  with_phase o none = λ w.
      let (r, w') =
        api.update_model_status (record o { status = record o.status { phase = some pending } })
          w in
      after_pending o.model (written r) w'

  unfoldable pub reconcile_found : LlmModelObject → Exec W Requeue
  reconcile_found o =
      if o.deleting
      then reconcile_delete api cfg o
      else (if member finalizer_name o.finalizers
          then with_phase o o.status.phase
          else wrap (λ e. bytes "adding finalizer: " ++ e)
              (writing written
                (api.models.update (record o { finalizers = o.finalizers ++ finalizer_name ∷ [] })))
            >> pure (after_ms 100))

  unfoldable pub reconcile_fetched : Fetched LlmModelObject → Exec W Requeue
  reconcile_fetched (found o) = reconcile_found o
  reconcile_fetched not_found = pure never
  reconcile_fetched (failed e) = λ w. (err e, w)

  unfoldable pub reconcile : Text → Text → Exec W Requeue
  reconcile namespace name w =
      let (r, w') = api.models.get namespace name w in reconcile_fetched r w'

-- ===== src/Passthrough/Controller.antt =====
-- operator/internal/controller/passthroughmodel_controller.go: one reconciliation of a
-- PassthroughModel. The builder of its resources cannot fail, so the branch for its error is left
-- out, and so are logs. A time is in milliseconds.
use nebari_llm_serving_pack.Base.{
  ℕ, true, not, some, List, [], ◌∷◌, ◌++◌, if◌then◌else◌, Text, bytes, Map, member, err, Exec, pure,
  wrap, wrap_result, ◌>>=◌, ◌>>◌,
}
use nebari_llm_serving_pack.Auth.Secrets.{api_key_client_ids, api_key_secret_names_with}
use nebari_llm_serving_pack.Cluster.{
  Fetched, found, not_found, failed, Held, written, writing, create_or_update, relabel,
}
use nebari_llm_serving_pack.Config.{OperatorConfig}
use nebari_llm_serving_pack.Controller.{as_secret, delete_if_there, without_finalizer}
use nebari_llm_serving_pack.Controller.Types.{Requeue, never, after_ms, finalizer_name, data_object}
use nebari_llm_serving_pack.Crd.{PassthroughModel}
use nebari_llm_serving_pack.Naming.{
  api_key_secret_name, api_key_metadata_config_map_name, shared_external_hostname,
  shared_internal_hostname,
}
use nebari_llm_serving_pack.Passthrough.{PassthroughResources, build_passthrough_resources}
use nebari_llm_serving_pack.Routing.{bool_or_default}
use nebari_llm_serving_pack.Passthrough.Types.{
  PassthroughPhase, ready_phase, error_phase, Condition, PassthroughModelStatus, PassthroughObject,
  Api, phase_for,
}
use nebari_llm_serving_pack.Passthrough.Apply.{apply_groups}

module _ {W : Type 0} (api : Api W) where
  unfoldable pub create_or_update_secret : Held (Map Text) → Exec W (Unit {0})
  create_or_update_secret o = create_or_update api.secrets o.namespace o.name o (relabel o)

  unfoldable pub create_or_update_config_map : Held (Map Text) → Exec W (Unit {0})
  create_or_update_config_map o = create_or_update api.config_maps o.namespace o.name o (relabel o)

  unfoldable pub set_conditions : ℕ → List Condition → List Condition → List Condition
  set_conditions generation held [] = held
  set_conditions generation held (c ∷ conditions) =
      set_conditions generation
        (api.set_condition held (record c { observed_generation = generation })) conditions

  unfoldable pub with_endpoints :
      OperatorConfig → PassthroughModel → PassthroughModelStatus → PassthroughModelStatus
  with_endpoints cfg pm s = record s {
    external_endpoint =
        if bool_or_default pm.spec.endpoints.external_enabled true
        then bytes "https://" ++ shared_external_hostname cfg.base_domain
        else s.external_endpoint;
    internal_endpoint =
        if bool_or_default pm.spec.endpoints.internal_enabled true
        then bytes "https://" ++ shared_internal_hostname cfg.base_domain
        else s.internal_endpoint;
  }

  unfoldable pub write_status :
      OperatorConfig
      → PassthroughPhase
      → List Condition
      → Fetched PassthroughObject
      → Exec W (Unit {0})
  write_status cfg phase conditions not_found = pure tt
  write_status cfg phase conditions (failed e) = λ w. (err e, w)
  write_status cfg phase conditions (found fresh) = writing written (
      api.update_model_status (record fresh {
        status = with_endpoints cfg fresh.model (record fresh.status {
          phase = some phase;
          observed_generation = fresh.generation;
          conditions = set_conditions fresh.generation fresh.status.conditions conditions;
        });
      }))

  unfoldable pub update_status :
      OperatorConfig → PassthroughModel → PassthroughPhase → List Condition → Exec W (Unit {0})
  update_status cfg pm phase conditions w =
      let (r, w') = api.models.get pm.namespace pm.name w in write_status cfg phase conditions r w'

  unfoldable pub requeue_for : PassthroughPhase → Requeue
  requeue_for ready_phase = never
  requeue_for error_phase = after_ms 60000

  unfoldable pub apply_and_report :
      OperatorConfig → PassthroughModel → PassthroughResources → Exec W Requeue
  apply_and_report cfg pm r w =
      let (conditions, w') = apply_groups api pm r w in
      (update_status cfg pm (phase_for conditions) conditions
          >> pure (requeue_for (phase_for conditions)))
        w'

  unfoldable pub read_client_ids : PassthroughModel → Exec W (List Text)
  read_client_ids pm w =
      let (r, w') = api.secrets.get pm.namespace (api_key_secret_name pm.name) w in
      (
        wrap_result (λ e. bytes "reading api key client ids: " ++ e)
            (api_key_client_ids (as_secret r)),
        w',
      )

  unfoldable pub read_secret_names : PassthroughModel → Exec W (List Text)
  read_secret_names pm w =
      let (r, w') = api.list_secrets pm.namespace w in
      (
        wrap_result (λ e. bytes "listing api key secrets: " ++ e)
            (api_key_secret_names_with r (api_key_secret_name pm.name)),
        w',
      )

  unfoldable pub provision : OperatorConfig → PassthroughModel → Exec W Requeue
  provision cfg pm = read_client_ids pm >>= λ ids. read_secret_names pm >>= λ names.
      let r = build_passthrough_resources pm cfg ids names in
      wrap (λ e. bytes "reconciling api key secret: " ++ e)
        (create_or_update_secret (data_object r.api_key_secret))
      >> (wrap (λ e. bytes "reconciling api key metadata configmap: " ++ e)
            (create_or_update_config_map (data_object r.api_key_metadata_cm))
          >> apply_and_report cfg pm r)

  unfoldable pub reconcile_delete : PassthroughObject → Exec W Requeue
  reconcile_delete o =
      if not (member finalizer_name o.finalizers)
      then pure never
      else wrap (λ e. bytes "deleting api key secret: " ++ e)
          (delete_if_there api.secrets o.model.namespace (api_key_secret_name o.model.name))
        >> (wrap (λ e. bytes "deleting api key metadata configmap: " ++ e)
              (delete_if_there api.config_maps o.model.namespace
                (api_key_metadata_config_map_name o.model.name))
            >> (wrap (λ e. bytes "removing finalizer: " ++ e)
                  (writing written
                    (api.models.update (record o { finalizers = without_finalizer o.finalizers })))
                >> pure never))

  -- Unlike a served model, one without the finalizer goes on at once.
  unfoldable pub reconcile_found : OperatorConfig → PassthroughObject → Exec W Requeue
  reconcile_found cfg o =
      if o.deleting
      then reconcile_delete o
      else (if member finalizer_name o.finalizers
          then provision cfg o.model
          else wrap (λ e. bytes "adding finalizer: " ++ e)
              (writing written
                (api.models.update (record o { finalizers = o.finalizers ++ finalizer_name ∷ [] })))
            >> provision cfg o.model)

  unfoldable pub reconcile_fetched : OperatorConfig → Fetched PassthroughObject → Exec W Requeue
  reconcile_fetched cfg (found o) = reconcile_found cfg o
  reconcile_fetched cfg not_found = pure never
  reconcile_fetched cfg (failed e) = λ w. (err e, w)

  unfoldable pub reconcile : OperatorConfig → Text → Text → Exec W Requeue
  reconcile cfg namespace name w =
      let (r, w') = api.models.get namespace name w in reconcile_fetched cfg r w'

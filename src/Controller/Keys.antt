-- ===== src/Controller/Keys.antt =====
-- What a reconciliation does to the Secrets with API keys.
use nebari_llm_serving_pack.Base.{◌≡◌, refl, Option, some, none, [], Text, Map, ok}
use nebari_llm_serving_pack.Auth.{SecurityPolicy, AuthResources}
use nebari_llm_serving_pack.Cluster.{
  Fetched, found, not_found, failed, Held, writing, update_or_create, create_or_update, relabel,
}
use nebari_llm_serving_pack.Cluster.Keeps.{
  Keeps, KindKeeps, lift-Keeps, then-Keeps, wrap-Keeps, logged-Keeps, create_or_update-Keeps,
}
use nebari_llm_serving_pack.Controller.Types.{Api, Custom, LlmModelObject, data_object}
use nebari_llm_serving_pack.Controller.Apply
use nebari_llm_serving_pack.Crd.{LlmModel}
use nebari_llm_serving_pack.Routing.{AiGatewayRoute}
use nebari_llm_serving_pack.Serving.{PodMonitor}

-- What an invariant about Secrets stands: reads, and all calls on other kinds; of writes to a Secret
-- only that of a Secret that was just read with other labels, and the creation of an empty one.
pub record IsUnmoved {W : Type 0} (api : Api W) (I : W → Type 0) : Type 0 where
  pub models : KindKeeps I api.models
  pub statuses : (o : LlmModelObject) → Keeps I (api.update_model_status o)
  pub secret_gets : (namespace name : Text) → Keeps I (api.secrets.get namespace name)
  pub secret_lists : (namespace : Text) → Keeps I (api.list_secrets namespace)
  pub relabels :
      (namespace name : Text) (labels : Map Text) (o : Held (Map Text)) (w w' : W)
      → I w
      → api.secrets.get namespace name w ≡ (found o, w')
      → I (api.secrets.update (record o { labels = labels }) w').1
  pub creates_empty : (o : Held (Map Text)) → o.spec ≡ [] → Keeps I (api.secrets.create o)
  pub config_maps : KindKeeps I api.config_maps
  pub claims : KindKeeps I api.claims
  pub network_policies : KindKeeps I api.network_policies
  pub service_accounts : KindKeeps I api.service_accounts
  pub services : KindKeeps I api.services
  pub deployments : KindKeeps I api.deployments
  pub pods : (namespace : Text) (labels : Map Text) → Keeps I (api.list_pods namespace labels)
  pub roles : KindKeeps I api.roles
  pub role_bindings : KindKeeps I api.role_bindings
  pub customs : (kind : Text) → KindKeeps I (api.customs kind)

module _ {W : Type 0} (api : Api W) (I : W → Type 0) (kept : IsUnmoved api I) where
  secret_step :
      (o : Held (Map Text))
      → o.spec ≡ []
      → (w w' : W) (r : Fetched (Held (Map Text))) → I w
      → I w'
      → api.secrets.get o.namespace o.name w ≡ (r, w')
      → I (update_or_create api.secrets o (relabel o) r w').1
  unfolding update_or_create writing relabel
  secret_step o empty w w' (found old) i j e =
      kept.relabels o.namespace o.name o.labels old w w' i e
  secret_step o empty w w' not_found i j e = (kept.creates_empty o empty).run w' j
  secret_step o empty w w' (failed m) i j e = j

  secret-Keeps : (o : Held (Map Text)) → o.spec ≡ [] → Keeps I (Apply.create_or_update_secret api o)
  unfolding Apply.create_or_update_secret create_or_update
  secret-Keeps o empty = record {
    run = λ w i. secret_step o empty w _ _ i ((kept.secret_gets o.namespace o.name).run w i) refl;
  }

  pub own-Keeps : (kind name : Text) → Keeps I (Apply.own api kind name)
  unfolding Apply.own
  own-Keeps kind name = lift-Keeps _

  pub custom-Keeps :
      (kind name namespace : Text) (c : Custom)
      → Keeps I (Apply.apply_custom api kind name namespace c)
  unfolding Apply.apply_custom Apply.create_or_update_unstructured
  custom-Keeps kind name namespace c =
      logged-Keeps (create_or_update-Keeps (kept.customs kind) namespace name _ _)

  pub monitor-Keeps :
      (model : LlmModel) (m : Option PodMonitor) → Keeps I (Apply.apply_monitor api model m)
  unfolding Apply.apply_monitor
  monitor-Keeps model none = lift-Keeps (ok tt)
  monitor-Keeps model (some m) = custom-Keeps _ m.name model.namespace _

  pub route-Keeps :
      (model : LlmModel) (r : Option AiGatewayRoute) → Keeps I (Apply.apply_route api model r)
  unfolding Apply.apply_route
  route-Keeps model none = lift-Keeps (ok tt)
  route-Keeps model (some r) = custom-Keeps _ r.name model.namespace _

  pub policy-Keeps : (p : Option SecurityPolicy) → Keeps I (Apply.apply_policy api p)
  unfolding Apply.apply_policy
  policy-Keeps none = lift-Keeps (ok tt)
  policy-Keeps (some p) = custom-Keeps _ p.name p.namespace _

  pub auth-Keeps :
      (auth : AuthResources)
      → auth.api_key_secret.entries ≡ []
      → Keeps I (Apply.reconcile_auth_secret_and_config_map api auth)
  unfolding Apply.reconcile_auth_secret_and_config_map Apply.reconciling
      Apply.create_or_update_config_map_preserve_data data_object
  auth-Keeps auth empty =
      then-Keeps (wrap-Keeps _ (secret-Keeps (data_object auth.api_key_secret) empty))
        (wrap-Keeps _ (create_or_update-Keeps kept.config_maps _ _ _ _))

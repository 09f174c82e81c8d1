-- ===== src/Controller/Unmoved.antt =====
-- A reconciliation of a model that is not being deleted leaves the keys in the Secrets alone.
use nebari_llm_serving_pack.Base.{
  ◌≡◌, refl, inl, inr, false, Option, some, none, List, [], Bool-cases, Text, member, Result, ok,
  err,
}
use nebari_llm_serving_pack.Auth.{AuthResources, build_api_key_secret, build_auth_resources}
use nebari_llm_serving_pack.Cluster.{Fetched, found, not_found, failed, written}
use nebari_llm_serving_pack.Cluster.Keeps.{
  Keeps, lift-Keeps, bind-Keeps, then-Keeps, wrap-Keeps, read-Keeps, writing-Keeps,
  create_or_update-Keeps,
}
use nebari_llm_serving_pack.Config.{Environment, OperatorConfig}
use nebari_llm_serving_pack.Controller
use nebari_llm_serving_pack.Controller.Types.{Api, Phase, LlmModelObject, finalizer_name}
use nebari_llm_serving_pack.Controller.Apply
use nebari_llm_serving_pack.Controller.Keys.{
  IsUnmoved, own-Keeps, route-Keeps, policy-Keeps, auth-Keeps,
}
use nebari_llm_serving_pack.Controller.Kept.{pool-Keeps, service_resources-Keeps}
use nebari_llm_serving_pack.Controller.Observed.{IsObserved, status-Keeps, phase-Keeps}
use nebari_llm_serving_pack.Crd.{LlmModel}
use nebari_llm_serving_pack.Naming.{api_key_secret_name}
use nebari_llm_serving_pack.Network.{NetworkPolicy}
use nebari_llm_serving_pack.Storage.{Pvc}

module _ {W : Type 0} (api : Api W) (I : W → Type 0) (kept : IsUnmoved api I)
    (cfg : OperatorConfig) where
  pvc-Keeps :
      (model : LlmModel) (pvc : Option Pvc) → Keeps I (Controller.apply_pvc api cfg model pvc)
  unfolding Controller.apply_pvc Apply.reconciling Apply.create_or_update_pvc
  pvc-Keeps model none = lift-Keeps (ok tt)
  pvc-Keeps model (some pvc) =
      then-Keeps (own-Keeps api I kept _ pvc.name)
        (wrap-Keeps _ (create_or_update-Keeps kept.claims _ _ _ _))

  network_policy-Keeps :
      (model : LlmModel) (np : NetworkPolicy)
      → Keeps I (Controller.apply_network_policy api cfg model np)
  unfolding Controller.apply_network_policy Apply.reconciling Apply.create_or_update_network_policy
  network_policy-Keeps model np =
      then-Keeps (own-Keeps api I kept _ np.name)
        (wrap-Keeps _ (create_or_update-Keeps kept.network_policies _ _ _ _))

  no_entries :
      (model : LlmModel) (ids names : List Text)
      → (build_auth_resources model cfg ids names).api_key_secret.entries ≡ []
  unfolding build_auth_resources build_api_key_secret
  no_entries model ids names = refl

  client_ids-Keeps : (model : LlmModel) → Keeps I (Controller.read_client_ids api cfg model)
  unfolding Controller.read_client_ids
  client_ids-Keeps model = record {
    run = λ w i. (kept.secret_gets model.namespace (api_key_secret_name model.name)).run w i;
  }

  secret_names-Keeps : (model : LlmModel) → Keeps I (Controller.read_secret_names api cfg model)
  unfolding Controller.read_secret_names
  secret_names-Keeps model = record { run = λ w i. (kept.secret_lists model.namespace).run w i }

  reconcile_auth-Keeps : (model : LlmModel) → Keeps I (Controller.reconcile_auth api cfg model)
  unfolding Controller.reconcile_auth
  reconcile_auth-Keeps model = bind-Keeps (client_ids-Keeps model) (λ ids.
      bind-Keeps (secret_names-Keeps model) (λ names.
        then-Keeps
          (auth-Keeps api I kept (build_auth_resources model cfg ids names)
            (no_entries model ids names))
          (lift-Keeps (ok (build_auth_resources model cfg ids names)))))

observed : {W : Type 0} (api : Api W) (I : W → Type 0) → IsUnmoved api I → IsObserved api I
observed api I kept = record {
  model_gets = kept.models.gets;
  statuses = kept.statuses;
  deployment_gets = kept.deployments.gets;
  pods = kept.pods;
}

-- The model that is read is not being deleted, if there is one.
abbrev pub IsLive : Fetched LlmModelObject → Type 0
IsLive (found o) = o.deleting ≡ false
IsLive not_found = Unit
IsLive (failed e) = Unit

module _ {W : Type 0} (api : Api W) (I : W → Type 0) (kept : IsUnmoved api I) (cfg : OperatorConfig)
    (env : Environment) (parse_quantity json_to_yaml : Text → Result Text)
    (short_sha256 : Text → Text) where
  serve-Keeps :
      (model : LlmModel) (auth : AuthResources) (phase : Phase)
      → Keeps I
          (Controller.serve api cfg env parse_quantity json_to_yaml short_sha256 model auth phase)
  unfolding Controller.serve Apply.reconcile_routing_resources Apply.reconcile_security_policies
  serve-Keeps model auth phase = bind-Keeps (lift-Keeps _) (λ pool.
      then-Keeps (pool-Keeps api I kept short_sha256 model pool) (
        then-Keeps (then-Keeps (route-Keeps api I kept model _) (route-Keeps api I kept model _)) (
          then-Keeps
            (then-Keeps (policy-Keeps api I kept auth.external_security_policy)
              (policy-Keeps api I kept auth.internal_security_policy))
            (then-Keeps (status-Keeps api I (observed api I kept) cfg model phase)
              (lift-Keeps _)))))

  by_phase-Keeps :
      (model : LlmModel) (auth : AuthResources) (phase : Phase)
      → Keeps I (
          Controller.by_phase api cfg env parse_quantity json_to_yaml short_sha256 model auth phase)
  unfolding Controller.by_phase Controller.wait
  by_phase-Keeps model auth phase = elim (Bool-cases (Controller.waits phase)) [
    | inl waiting ↦
        rw waiting (record {
          run = λ w i. (status-Keeps api I (observed api I kept) cfg model phase).run w i;
        })
    | inr serving ↦ rw serving (serve-Keeps model auth phase)
  ]

  provision-Keeps :
      (model : LlmModel)
      → Keeps I (Controller.provision api cfg env parse_quantity json_to_yaml short_sha256 model)
  unfolding Controller.provision Controller.serve_by_phase
  provision-Keeps model = bind-Keeps (lift-Keeps _) (λ s.
      then-Keeps (pvc-Keeps api I kept cfg model s.pvc) (
        bind-Keeps (reconcile_auth-Keeps api I kept cfg model) (λ auth.
          then-Keeps (network_policy-Keeps api I kept cfg model _) (
            then-Keeps (service_resources-Keeps api I kept short_sha256 model _) (
              read-Keeps (phase-Keeps api I (observed api I kept) cfg model)
                (by_phase-Keeps model auth))))))

  after_pending-Keeps :
      (model : LlmModel) (r : Result (Unit {0}))
      → Keeps I
          (Controller.after_pending api cfg env parse_quantity json_to_yaml short_sha256 model r)
  unfolding Controller.after_pending
  after_pending-Keeps model (ok u) = provision-Keeps model
  after_pending-Keeps model (err e) = lift-Keeps _

  with_phase-Keeps :
      (o : LlmModelObject) (phase : Option Phase)
      → Keeps I (Controller.with_phase api cfg env parse_quantity json_to_yaml short_sha256 o phase)
  unfolding Controller.with_phase
  with_phase-Keeps o (some phase) = provision-Keeps o.model
  with_phase-Keeps o none = record {
    run = λ w i. (after_pending-Keeps o.model _).run _ ((kept.statuses _).run w i);
  }

  found-Keeps :
      (o : LlmModelObject)
      → o.deleting ≡ false
      → Keeps I (Controller.reconcile_found api cfg env parse_quantity json_to_yaml short_sha256 o)
  unfolding Controller.reconcile_found
  found-Keeps o live = elim (Bool-cases (member finalizer_name o.finalizers)) [
    | inl final ↦ simp (live, final) (with_phase-Keeps o o.status.phase)
    | inr bare ↦
        simp (live, bare)
          (then-Keeps (wrap-Keeps _ (writing-Keeps written (kept.models.updates _))) (lift-Keeps _))
  ]

  fetched-Keeps :
      (r : Fetched LlmModelObject)
      → IsLive r
      → Keeps I
          (Controller.reconcile_fetched api cfg env parse_quantity json_to_yaml short_sha256 r)
  unfolding Controller.reconcile_fetched
  fetched-Keeps (found o) live = found-Keeps o live
  fetched-Keeps not_found live = lift-Keeps _
  fetched-Keeps (failed e) live = lift-Keeps _

  -- Whatever the API server answers, and whether it succeeds or fails on the way, a reconciliation of
  -- a model that it does not read as being deleted keeps every invariant that stands the calls on
  -- other kinds, reads, other labels on a Secret that was just read, and an empty Secret that is
  -- created. So it neither adds, changes nor removes a key, and deletes no Secret.
  pub reconcile-Keeps :
      (namespace name : Text) (w : W)
      → IsLive (api.models.get namespace name w).0
      → I w
      → I
          (Controller.reconcile api cfg env parse_quantity json_to_yaml short_sha256 namespace name
            w).1
  unfolding Controller.reconcile
  reconcile-Keeps namespace name w live i =
      (fetched-Keeps (api.models.get namespace name w).0 live).run _
        ((kept.models.gets namespace name).run w i)

-- ===== src/Controller/Observed.antt =====
-- Invariants that reading a model, its Deployment and its pods and writing the model's status keep.
use nebari_llm_serving_pack.Base.{Text, Map, ok, err}
use nebari_llm_serving_pack.Cluster.{Fetched, found, not_found, failed, writing}
use nebari_llm_serving_pack.Cluster.Keeps.{Keeps, lift-Keeps, read-Keeps}
use nebari_llm_serving_pack.Config.{OperatorConfig}
use nebari_llm_serving_pack.Controller.Types.{Api, Phase, LlmModelObject, LiveDeployment}
use nebari_llm_serving_pack.Controller.Status
use nebari_llm_serving_pack.Crd.{LlmModel}
use nebari_llm_serving_pack.Serving.{instance_selector}

-- What an invariant stands: these calls, whatever they answer, and no others.
pub record IsObserved {W : Type 0} (api : Api W) (I : W → Type 0) : Type 0 where
  pub model_gets : (namespace name : Text) → Keeps I (api.models.get namespace name)
  pub statuses : (o : LlmModelObject) → Keeps I (api.update_model_status o)
  pub deployment_gets : (namespace name : Text) → Keeps I (api.deployments.get namespace name)
  pub pods : (namespace : Text) (labels : Map Text) → Keeps I (api.list_pods namespace labels)

module _ {W : Type 0} (api : Api W) (I : W → Type 0) (kept : IsObserved api I)
    (cfg : OperatorConfig) where
  fresh-Keeps :
      (model : LlmModel) (phase : Phase) (r : Fetched LlmModelObject)
      → Keeps I (Status.write_status api cfg model phase r)
  unfolding Status.write_status writing
  fresh-Keeps model phase not_found = lift-Keeps (ok tt)
  fresh-Keeps model phase (failed e) = lift-Keeps (err e)
  fresh-Keeps model phase (found fresh) = record {
    run =
        λ w i. (kept.statuses _).run _ ((kept.deployment_gets model.namespace model.name).run w i);
  }

  pub status-Keeps :
      (model : LlmModel) (phase : Phase) → Keeps I (Status.update_status api cfg model phase)
  unfolding Status.update_status
  status-Keeps model phase =
      read-Keeps (kept.model_gets model.namespace model.name) (fresh-Keeps model phase)

  fetched_phase-Keeps :
      (model : LlmModel) (r : Fetched LiveDeployment) → Keeps I (Status.phase_from api model r)
  unfolding Status.phase_from
  fetched_phase-Keeps model not_found = record { run = λ w i. i }
  fetched_phase-Keeps model (failed e) = record { run = λ w i. i }
  fetched_phase-Keeps model (found d) = record {
    run = λ w i. (kept.pods model.namespace (instance_selector model)).run w i;
  }

  pub phase-Keeps : (model : LlmModel) → Keeps I (Status.determine_phase api model)
  unfolding Status.determine_phase
  phase-Keeps model =
      read-Keeps (kept.deployment_gets model.namespace model.name) (fetched_phase-Keeps model)

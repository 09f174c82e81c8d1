-- ===== src/Controller/Status.antt =====
-- determinePhase and updateStatus.
use nebari_llm_serving_pack.Base.{
  ℕ, Bool, some, List, [], ◌++◌, any, leb, nat_eq, if◌then◌else◌, ◌==◌, bytes, Result, ok, err,
  Exec,
}
use nebari_llm_serving_pack.Cluster.{Fetched, found, not_found, failed, written, writing}
use nebari_llm_serving_pack.Config.{OperatorConfig}
use nebari_llm_serving_pack.Controller.Types.{
  Api, Phase, pending, downloading, starting, ready, degraded, error, LlmModelStatus,
  LlmModelObject, LiveDeployment, Pod,
}
use nebari_llm_serving_pack.Crd.{LlmModel}
use nebari_llm_serving_pack.Naming.{shared_external_hostname, shared_internal_hostname}
use nebari_llm_serving_pack.Serving.{instance_selector, or_default}

unfoldable pub is_running : Bool → Bool
is_running b = b

unfoldable pub is_downloading : List Pod → Bool
is_downloading pods = any (λ (p : Pod). any is_running p.init_running) pods

unfoldable pub desired_replicas : LiveDeployment → ℕ
desired_replicas d = or_default d.object.spec.replicas 1

unfoldable pub replica_phase : ℕ → ℕ → Phase
replica_phase desired ready_now =
    if nat_eq ready_now 0 then starting else (if leb desired ready_now then ready else degraded)

unfoldable pub phase_of : LiveDeployment → Result (List Pod) → Phase
phase_of d (err e) = error
phase_of d (ok pods) =
    if is_downloading pods then downloading else replica_phase (desired_replicas d) d.ready_replicas

-- The status fields that are set, whatever was held before.
unfoldable pub with_replicas : Fetched LiveDeployment → LlmModelStatus → LlmModelStatus
with_replicas (found d) s = record s {
  ready_replicas = d.ready_replicas;
  desired_replicas = desired_replicas d;
}
with_replicas not_found s = s
with_replicas (failed e) s = s

unfoldable pub with_endpoints : OperatorConfig → LlmModelStatus → LlmModelStatus
with_endpoints cfg s = record s {
  external_endpoint =
      if cfg.external_gateway_name == []
      then s.external_endpoint
      else bytes "https://" ++ shared_external_hostname cfg.base_domain;
  internal_endpoint =
      if cfg.internal_gateway_name == []
      then s.internal_endpoint
      else bytes "https://" ++ shared_internal_hostname cfg.base_domain;
}

module _ {W : Type 0} (api : Api W) where
  unfoldable pub phase_from : LlmModel → Fetched LiveDeployment → W → Phase × W
  phase_from model not_found w = (pending, w)
  phase_from model (failed e) w = (error, w)
  phase_from model (found d) w =
      let (pods, w') = api.list_pods model.namespace (instance_selector model) w in
      (phase_of d pods, w')

  unfoldable pub determine_phase : LlmModel → W → Phase × W
  determine_phase model w =
      let (r, w') = api.deployments.get model.namespace model.name w in phase_from model r w'

  unfoldable pub write_status :
      OperatorConfig → LlmModel → Phase → Fetched LlmModelObject → Exec W (Unit {0})
  write_status cfg model phase not_found w = (ok tt, w)
  write_status cfg model phase (failed e) w = (err e, w)
  write_status cfg model phase (found fresh) w =
      let (d, w') = api.deployments.get model.namespace model.name w in
      writing written
        (api.update_model_status (record fresh {
          status = with_endpoints cfg (
              with_replicas d (record fresh.status {
                phase = some phase;
                observed_generation = fresh.generation;
              }));
        }))
        w'

  unfoldable pub update_status : OperatorConfig → LlmModel → Phase → Exec W (Unit {0})
  update_status cfg model phase w =
      let (r, w') = api.models.get model.namespace model.name w in write_status cfg model phase r w'

-- ===== src/Controller/Phases.antt =====
-- What the phase of a model says of its Deployment and its pods, and what waits for it.
use nebari_llm_serving_pack.Base.{◌≤◌, ◌<◌, ◌≡◌, true, false, List, Text, Result, ok, err}
use nebari_llm_serving_pack.Auth.{AuthResources}
use nebari_llm_serving_pack.Cluster.{Fetched, found, not_found, failed}
use nebari_llm_serving_pack.Config.{Environment, OperatorConfig}
use nebari_llm_serving_pack.Controller
use nebari_llm_serving_pack.Controller.Observed.{IsObserved}
use nebari_llm_serving_pack.Controller.Types.{
  Api, Phase, pending, downloading, starting, ready, degraded, error, LiveDeployment, Pod, after_ms,
}
use nebari_llm_serving_pack.Controller.Status.{is_downloading, desired_replicas}
use nebari_llm_serving_pack.Crd.{LlmModel}
use nebari_llm_serving_pack.Serving.{instance_selector}

-- What a phase says of a Deployment and its pods that were both read.
abbrev pub Fits : Phase → LiveDeployment → List Pod → Type 0
Fits pending d pods = ⊥
Fits error d pods = ⊥
Fits downloading d pods = is_downloading pods ≡ true
Fits starting d pods = (is_downloading pods ≡ false) × (d.ready_replicas ≡ 0)
Fits ready d pods =
    (is_downloading pods ≡ false) × (0 < d.ready_replicas) × (desired_replicas d ≤ d.ready_replicas)
Fits degraded d pods =
    (is_downloading pods ≡ false) × (0 < d.ready_replicas) × (d.ready_replicas < desired_replicas d)

-- What a phase says of the two reads. Of any two reads, it holds for one phase only.
abbrev pub Means : Phase → Fetched LiveDeployment → Result (List Pod) → Type 0
Means phase not_found pods = phase ≡ pending
Means phase (failed e) pods = phase ≡ error
Means phase (found d) (err e) = phase ≡ error
Means phase (found d) (ok pods) = Fits phase d pods

module _ {W : Type 0} (api : Api W) (model : LlmModel) where
  -- The two reads of determinePhase, the second from the world that the first leaves.
  abbrev pub deployment_read : W → Fetched LiveDeployment × W
  deployment_read w = api.deployments.get model.namespace model.name w

  abbrev pub pods_read : W → Result (List Pod)
  pods_read w = (api.list_pods model.namespace (instance_selector model) (deployment_read w).1).0

module _ {W : Type 0} (api : Api W) (I : W → Type 0) (observed : IsObserved api I)
    (cfg : OperatorConfig) (env : Environment) (parse_quantity json_to_yaml : Text → Result Text)
    (short_sha256 : Text → Text) where
  -- Nothing but the status is written, and the request is tried again in 15 seconds.
  abbrev pub Waits : LlmModel → AuthResources → W → Type 0
  Waits model auth w =
      ((Controller.serve_by_phase api cfg env parse_quantity json_to_yaml short_sha256 model auth
          w).0
        ≡ ok (after_ms 15000))
      × I
          (Controller.serve_by_phase api cfg env parse_quantity json_to_yaml short_sha256 model auth
            w).1

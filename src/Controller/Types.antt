-- ===== src/Controller/Types.antt =====
-- The objects that the controller of models reads and writes, and its calls.
use nebari_llm_serving_pack.Base.{ℕ, Bool, false, Option, List, [], Text, bytes, Map, Result}
use nebari_llm_serving_pack.Auth.{DataObject, SecurityPolicy}
use nebari_llm_serving_pack.Cluster.{Kind, Written, Held, Unstructured}
use nebari_llm_serving_pack.Crd.{LlmModel}
use nebari_llm_serving_pack.Network.{IngressRule}
use nebari_llm_serving_pack.Pool.{InferencePool, PolicyRule}
use nebari_llm_serving_pack.Routing.{AiGatewayRoute}
use nebari_llm_serving_pack.Serving.{PodMonitor}
use nebari_llm_serving_pack.Storage.{Pvc}
use nebari_llm_serving_pack.Workload.{DeploymentSpec, ServiceSpec}

pub data Phase : Type 0 where
  pending downloading starting ready degraded error : Phase

pub record LlmModelStatus : Type 0 where
  pub phase : Option Phase
  pub observed_generation : ℕ
  pub ready_replicas : ℕ
  pub desired_replicas : ℕ
  pub external_endpoint : Text
  pub internal_endpoint : Text

-- A model as the API server holds it.
pub record LlmModelObject : Type 0 where
  pub model : LlmModel
  pub deleting : Bool
  pub finalizers : List Text
  pub generation : ℕ
  pub status : LlmModelStatus

pub record LiveDeployment : Type 0 where
  pub object : Held DeploymentSpec
  pub ready_replicas : ℕ

-- For each init container, whether its state is running.
pub record Pod : Type 0 where
  pub init_running : List Bool

-- What the controller applies without a type of its own.
pub data Custom : Type 0 where
  pod_monitor : PodMonitor → Custom
  inference_pool : InferencePool → Custom
  route : AiGatewayRoute → Custom
  security_policy : SecurityPolicy → Custom

-- A ReferenceGrant is only read to be deleted; `set_owner` takes a kind and a name.
pub record Api (W : Type 0) : Type 0 where
  pub models : Kind W LlmModelObject
  pub update_model_status : LlmModelObject → W → Written × W
  pub secrets : Kind W (Held (Map Text))
  pub list_secrets : Text → W → Result (List DataObject) × W
  pub config_maps : Kind W (Held (Map Text))
  pub claims : Kind W (Held Pvc)
  pub network_policies : Kind W (Held (Map Text × List IngressRule))
  pub service_accounts : Kind W (Held (Unit {0}))
  pub services : Kind W (Held ServiceSpec)
  pub deployments : Kind W LiveDeployment
  pub list_pods : Text → Map Text → W → Result (List Pod) × W
  pub roles : Kind W (Held (List PolicyRule))
  pub role_bindings : Kind W (Held (Text × Text))
  pub customs : Text → Kind W (Unstructured Custom)
  pub reference_grants : Kind W (Unstructured (Unit {0}))
  pub set_owner : Text → Text → Result (Unit {0})

-- When the request is to be handled again.
pub data Requeue : Type 0 where
  never : Requeue
  after_ms : ℕ → Requeue

abbrev pub finalizer_name : Text
finalizer_name = bytes "llm.nebari.dev/cleanup"

module _ {S : Type 0} where
  -- An object in the model's namespace, before it is written.
  unfoldable pub new_object : LlmModel → Text → Map Text → Bool → S → Held S
  new_object model name labels owned spec = record {
    name = name;
    namespace = model.namespace;
    labels = labels;
    annotations = [];
    version = [];
    owned = owned;
    spec = spec;
  }

unfoldable pub data_object : DataObject → Held (Map Text)
data_object o = record {
  name = o.name;
  namespace = o.namespace;
  labels = o.labels;
  annotations = [];
  version = [];
  owned = false;
  spec = o.entries;
}

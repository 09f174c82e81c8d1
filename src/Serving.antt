-- ===== src/Serving.antt =====
-- operator/internal/controller/reconcilers/modelservice.go: the Deployment, Service, ServiceAccount
-- and PodMonitor that serve a model. A nil map is the empty one.
pub mod Gpu
pub mod Mounts
mod Tests
use nebari_llm_serving_pack.Base.{
  ℕ, Bool, true, false, ◌&&◌, ◌||◌, not, Option, none, some, List, [], ◌∷◌, ◌++◌, ltb,
  if◌then◌else◌, Text, ◌==◌, bytes, Map, lookup, insert, any, decimal,
}
use nebari_llm_serving_pack.Config.{OperatorConfig}
use nebari_llm_serving_pack.Crd.{Toleration, LlmModel}
use nebari_llm_serving_pack.Naming.{standard_labels}
use nebari_llm_serving_pack.Storage.{StorageResult}
use nebari_llm_serving_pack.Workload.{
  Volume, empty_dir, http_get, Container, Deployment, Service, ServiceAccount,
}

abbrev pub nvidia_gpu_key : Text
nvidia_gpu_key = bytes "nvidia.com/gpu"

abbrev pub model_downloader_user_gid : ℕ
model_downloader_user_gid = 65532

abbrev pub shm_volume_name : Text
shm_volume_name = bytes "shm"

-- The endpoint is the port `http` at `/metrics`, read every 30 seconds.
pub record PodMonitor : Type 0 where
  pub name : Text
  pub labels : Map Text
  pub match_labels : Map Text
  pub port : Text
  pub path : Text
  pub interval : Text

pub record ModelServiceResources : Type 0 where
  pub deployment : Deployment
  pub service : Service
  pub service_account : ServiceAccount
  pub pod_monitor : Option PodMonitor

-- `*p`, or the given value where the pointer is nil.
unfoldable pub or_default {ℓ} : {A : Type ℓ} → Option A → A → A
or_default none value = value
or_default (some a) value = a

unfoldable pub build_shm_volume : LlmModel → Volume
build_shm_volume model = record {
  name = shm_volume_name;
  source = empty_dir (bytes "Memory") (lookup (bytes "memory") model.spec.resources.limits);
}

unfoldable pub build_vllm_args : LlmModel → StorageResult → List Text
build_vllm_args model storage =
    (bytes "--model"
      ∷ storage.model_path
      ∷ bytes "--served-model-name"
      ∷ model.spec.model.name
      ∷ bytes "--tensor-parallel-size"
      ∷ decimal (or_default model.spec.serving.tensor_parallelism model.spec.resources.gpu.count)
      ∷ bytes "--data-parallel-size"
      ∷ decimal (or_default model.spec.serving.data_parallelism 1)
      ∷ [])
    ++ (model.spec.serving.vllm_args ++ model.spec.vllm.extra_args)

unfoldable pub build_resource_limits : LlmModel → Map Text
build_resource_limits model =
    if ltb 0 model.spec.resources.gpu.count
    then insert nvidia_gpu_key (decimal model.spec.resources.gpu.count) model.spec.resources.limits
    else model.spec.resources.limits

unfoldable pub covers_gpu : Toleration → Bool
covers_gpu t = t.key == nvidia_gpu_key || (t.key == [] && t.operator == bytes "Exists")

unfoldable pub tolerations_gpu_taint : List Toleration → Bool
tolerations_gpu_taint tolerations = any covers_gpu tolerations

abbrev pub gpu_toleration : Toleration
gpu_toleration = record {
  key = nvidia_gpu_key;
  operator = bytes "Exists";
  effect = bytes "NoSchedule";
}

unfoldable pub build_tolerations : LlmModel → List Toleration
build_tolerations model =
    if ltb 0 model.spec.resources.gpu.count
      && not (tolerations_gpu_taint model.spec.vllm.tolerations)
    then model.spec.vllm.tolerations ++ gpu_toleration ∷ []
    else model.spec.vllm.tolerations

-- The command of the model, or the one for images that have none.
unfoldable pub chosen_command : List Text → List Text
chosen_command [] = bytes "python3" ∷ bytes "-m" ∷ bytes "vllm.entrypoints.openai.api_server" ∷ []
chosen_command (c ∷ command) = c ∷ command

unfoldable pub build_vllm_container : LlmModel → StorageResult → OperatorConfig → Container
build_vllm_container model storage cfg = record {
  name = bytes "vllm";
  image =
      if model.spec.serving.image == []
      then cfg.default_serving_image
      else model.spec.serving.image;
  command = chosen_command model.spec.serving.command;
  args = build_vllm_args model storage;
  env = model.spec.vllm.extra_env;
  ports = record { name = bytes "http"; port = 8000 } ∷ [];
  limits = build_resource_limits model;
  requests = model.spec.resources.requests;
  volume_mounts =
      storage.volume_mounts
      ++ record { name = shm_volume_name; mount_path = bytes "/dev/shm" } ∷ [];
  startup_probe = some (record {
    handler = http_get (bytes "/v1/models");
    initial_delay_seconds = 15;
    period_seconds = 30;
    failure_threshold = 120;
  });
  liveness_probe = some (record {
    handler = http_get (bytes "/health");
    initial_delay_seconds = 0;
    period_seconds = 10;
    failure_threshold = 3;
  });
  readiness_probe = some (record {
    handler = http_get (bytes "/v1/models");
    initial_delay_seconds = 0;
    period_seconds = 5;
    failure_threshold = 3;
  });
}

unfoldable pub instance_selector : LlmModel → Map Text
instance_selector model = (bytes "app.kubernetes.io/instance", model.name) ∷ []

unfoldable pub init_containers_of : Option Container → List Container
init_containers_of none = []
init_containers_of (some c) = c ∷ []

unfoldable pub service_account_name_of : LlmModel → Text
service_account_name_of model = model.name ++ bytes "-sa"

unfoldable pub build_deployment : LlmModel → StorageResult → OperatorConfig → Deployment
build_deployment model storage cfg = record {
  name = model.name;
  labels = standard_labels model;
  spec = record {
    replicas = some (or_default model.spec.serving.replicas 1);
    strategy =
        if model.spec.serving.update_strategy == bytes "RollingUpdate"
        then bytes "RollingUpdate"
        else bytes "Recreate";
    selector = instance_selector model;
    template_labels = standard_labels model;
    pod = record {
      service_account_name = service_account_name_of model;
      init_containers = init_containers_of storage.init_container;
      containers = build_vllm_container model storage cfg ∷ [];
      volumes = storage.volumes ++ build_shm_volume model ∷ [];
      tolerations = build_tolerations model;
      node_selector = model.spec.vllm.node_selector;
      affinity = model.spec.vllm.affinity;
      fs_group = some model_downloader_user_gid;
    };
  };
}

unfoldable pub build_service : LlmModel → Service
build_service model = record {
  name = model.name;
  labels = standard_labels model;
  spec = record {
    selector = instance_selector model;
    ports = record { name = bytes "http"; port = 8000 } ∷ [];
    cluster_ip = [];
  };
}

unfoldable pub build_service_account : LlmModel → ServiceAccount
build_service_account model = record {
  name = service_account_name_of model;
  labels = standard_labels model;
}

unfoldable pub build_pod_monitor : LlmModel → Option PodMonitor
build_pod_monitor model =
    if or_default model.spec.serving.monitoring_enabled false
    then some (record {
      name = model.name;
      labels = standard_labels model;
      match_labels = instance_selector model;
      port = bytes "http";
      path = bytes "/metrics";
      interval = bytes "30s";
    })
    else none

unfoldable pub build_model_service_resources :
    LlmModel → StorageResult → OperatorConfig → ModelServiceResources
build_model_service_resources model storage cfg = record {
  deployment = build_deployment model storage cfg;
  service = build_service model;
  service_account = build_service_account model;
  pod_monitor = build_pod_monitor model;
}

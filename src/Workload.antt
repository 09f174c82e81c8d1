-- ===== src/Workload.antt =====
-- The parts of the objects of k8s.io/api that the operator builds for a pod, with the fields that
-- its code sets (operator/internal/controller/reconcilers/storage.go and modelservice.go). A
-- quantity is held as it is printed.
use nebari_llm_serving_pack.Base.{ℕ, Option, List, [], ◌∷◌, Text, Map}
use nebari_llm_serving_pack.Crd.{EnvVar, Toleration}

-- An emptyDir has a medium and a limit of its size; a claim and a ConfigMap have a name.
pub data VolumeSource : Type 0 where
  empty_dir : Text → Option Text → VolumeSource
  claim config_map : Text → VolumeSource

pub record Volume : Type 0 where
  pub name : Text
  pub source : VolumeSource

pub record VolumeMount : Type 0 where
  pub name : Text
  pub mount_path : Text

-- A GET request to the port `http`, or a call of a service by gRPC.
pub data ProbeHandler : Type 0 where
  http_get : Text → ProbeHandler
  grpc : ℕ → Text → ProbeHandler

-- A number of 0 is a field that is not set.
pub record Probe : Type 0 where
  pub handler : ProbeHandler
  pub initial_delay_seconds : ℕ
  pub period_seconds : ℕ
  pub failure_threshold : ℕ

pub record ContainerPort : Type 0 where
  pub name : Text
  pub port : ℕ

pub record Container : Type 0 where
  pub name : Text
  pub image : Text
  pub command : List Text
  pub args : List Text
  pub env : List EnvVar
  pub ports : List ContainerPort
  pub limits : Map Text
  pub requests : Map Text
  pub volume_mounts : List VolumeMount
  pub startup_probe : Option Probe
  pub liveness_probe : Option Probe
  pub readiness_probe : Option Probe

pub record PodSpec : Type 0 where
  pub service_account_name : Text
  pub init_containers : List Container
  pub containers : List Container
  pub volumes : List Volume
  pub tolerations : List Toleration
  pub node_selector : Map Text
  pub affinity : Option Text
  pub fs_group : Option ℕ

pub record DeploymentSpec : Type 0 where
  pub replicas : Option ℕ
  pub strategy : Text
  pub selector : Map Text
  pub template_labels : Map Text
  pub pod : PodSpec

pub record Deployment : Type 0 where
  pub name : Text
  pub labels : Map Text
  pub spec : DeploymentSpec

pub record ServicePort : Type 0 where
  pub name : Text
  pub port : ℕ

-- The API server gives a Service its cluster IP.
pub record ServiceSpec : Type 0 where
  pub selector : Map Text
  pub ports : List ServicePort
  pub cluster_ip : Text

pub record Service : Type 0 where
  pub name : Text
  pub labels : Map Text
  pub spec : ServiceSpec

pub record ServiceAccount : Type 0 where
  pub name : Text
  pub labels : Map Text

-- The names of a pod's volumes.
unfoldable pub volume_names : List Volume → List Text
volume_names [] = []
volume_names (v ∷ volumes) = v.name ∷ volume_names volumes

-- ===== src/Pool.antt =====
-- operator/internal/controller/reconcilers/inferencepool.go: the InferencePool of a model and its
-- endpoint picker (EPP). The conversion of JSON to YAML is an argument.
pub mod Selection
mod Tests
use nebari_llm_serving_pack.Base.{
  ℕ, Option, none, some, List, [], ◌∷◌, ◌++◌, if◌then◌else◌, Text, ◌==◌, bytes, Map, insert, Result,
  ok, err, wrap_result,
}
use nebari_llm_serving_pack.Config.{OperatorConfig}
use nebari_llm_serving_pack.Crd.{LlmModel}
use nebari_llm_serving_pack.Naming.{standard_labels}
use nebari_llm_serving_pack.Workload.{
  ProbeHandler, Probe, Container, config_map, grpc, Deployment, Service, ServiceAccount,
}

-- The picker is the Service `endpoint_picker` at a port.
pub record InferencePool : Type 0 where
  pub name : Text
  pub labels : Map Text
  pub target_port : ℕ
  pub match_labels : Map Text
  pub endpoint_picker : Text
  pub endpoint_picker_port : ℕ

pub record ConfigMap : Type 0 where
  pub name : Text
  pub labels : Map Text
  pub entries : Map Text

pub record PolicyRule : Type 0 where
  pub api_group : Text
  pub resources : List Text
  pub verbs : List Text

pub record Role : Type 0 where
  pub name : Text
  pub labels : Map Text
  pub rules : List PolicyRule

-- The subject is a ServiceAccount, the role a Role of the namespace.
pub record RoleBinding : Type 0 where
  pub name : Text
  pub labels : Map Text
  pub role : Text
  pub subject : Text

pub record InferencePoolResources : Type 0 where
  pub inference_pool : InferencePool
  pub epp_config_map : ConfigMap
  pub epp_deployment : Deployment
  pub epp_service : Service
  pub epp_service_account : ServiceAccount
  pub epp_role : Role
  pub epp_role_binding : RoleBinding

unfoldable pub epp_config_map_name : Text → Text
epp_config_map_name epp_name = epp_name ++ bytes "-config"

unfoldable pub epp_name_of : LlmModel → Text
epp_name_of model = model.name ++ bytes "-epp"

unfoldable pub build_inference_pool : LlmModel → Map Text → InferencePool
build_inference_pool model labels = record {
  name = model.name;
  labels = labels;
  target_port = 8000;
  match_labels =
      (bytes "app.kubernetes.io/instance", model.name)
      ∷ (bytes "app.kubernetes.io/name", bytes "llmmodel")
      ∷ [];
  endpoint_picker = model.name ++ bytes "-epp";
  endpoint_picker_port = 9002;
}

unfoldable pub epp_selector : LlmModel → Map Text
epp_selector model =
    (bytes "app.kubernetes.io/instance", model.name)
    ∷ (bytes "app.kubernetes.io/name", bytes "epp")
    ∷ []

abbrev pub grpc_health_probe : Probe
grpc_health_probe = record {
  handler = grpc 9003 (bytes "envoy.service.ext_proc.v3.ExternalProcessor");
  initial_delay_seconds = 5;
  period_seconds = 10;
  failure_threshold = 0;
}

unfoldable pub epp_container : LlmModel → OperatorConfig → Container
epp_container model cfg = record {
  name = bytes "epp";
  image = cfg.default_epp_image;
  command = [];
  args =
      bytes "--pool-name"
      ∷ model.name
      ∷ bytes "--pool-namespace"
      ∷ model.namespace
      ∷ bytes "--grpc-port"
      ∷ bytes "9002"
      ∷ bytes "--grpc-health-port"
      ∷ bytes "9003"
      ∷ bytes "--metrics-port"
      ∷ bytes "9090"
      ∷ bytes "--config-file"
      ∷ bytes "/etc/epp/epp-config.yaml"
      ∷ bytes "--zap-encoder"
      ∷ bytes "json"
      ∷ bytes "--v"
      ∷ bytes "4"
      ∷ [];
  env = [];
  ports =
      record { name = bytes "grpc"; port = 9002 }
      ∷ record { name = bytes "grpc-health"; port = 9003 }
      ∷ record { name = bytes "metrics"; port = 9090 }
      ∷ [];
  limits = (bytes "cpu", bytes "500m") ∷ (bytes "memory", bytes "512Mi") ∷ [];
  requests = (bytes "cpu", bytes "100m") ∷ (bytes "memory", bytes "256Mi") ∷ [];
  volume_mounts = record { name = bytes "epp-config"; mount_path = bytes "/etc/epp" } ∷ [];
  startup_probe = none;
  liveness_probe = some grpc_health_probe;
  readiness_probe = some grpc_health_probe;
}

unfoldable pub build_epp_deployment : LlmModel → Text → Map Text → OperatorConfig → Deployment
build_epp_deployment model epp_name labels cfg = record {
  name = epp_name;
  labels = insert (bytes "app.kubernetes.io/name") (bytes "epp") labels;
  spec = record {
    replicas = some 1;
    strategy = [];
    selector = epp_selector model;
    template_labels = insert (bytes "app.kubernetes.io/name") (bytes "epp") labels;
    pod = record {
      service_account_name = epp_name;
      init_containers = [];
      containers = epp_container model cfg ∷ [];
      volumes =
          record { name = bytes "epp-config"; source = config_map (epp_config_map_name epp_name) }
          ∷ [];
      tolerations = [];
      node_selector = [];
      affinity = none;
      fs_group = none;
    };
  };
}

unfoldable pub build_epp_service : LlmModel → Text → Map Text → Service
build_epp_service model epp_name labels = record {
  name = epp_name;
  labels = labels;
  spec = record {
    selector = epp_selector model;
    ports =
        record { name = bytes "grpc"; port = 9002 }
        ∷ record { name = bytes "metrics"; port = 9090 }
        ∷ [];
    cluster_ip = [];
  };
}

abbrev pub read_verbs : List Text
read_verbs = bytes "get" ∷ bytes "list" ∷ bytes "watch" ∷ []

abbrev pub read_rule : Text → List Text → PolicyRule
read_rule group resources = record { api_group = group; resources = resources; verbs = read_verbs }

unfoldable pub build_epp_role : Text → Map Text → Role
build_epp_role epp_name labels = record {
  name = epp_name;
  labels = labels;
  rules =
      read_rule (bytes "inference.networking.k8s.io") (bytes "inferencepools" ∷ [])
      ∷ read_rule (bytes "inference.networking.x-k8s.io") (
          bytes "inferenceobjectives"
          ∷ bytes "inferencemodelrewrites"
          ∷ bytes "inferencepools"
          ∷ bytes "inferencepoolimports"
          ∷ [])
      ∷ read_rule [] (bytes "pods" ∷ [])
      ∷ read_rule [] (bytes "endpoints" ∷ bytes "services" ∷ [])
      ∷ [];
}

abbrev pub epp_default_config : Text
epp_default_config =
    bytes "apiVersion: inference.networking.x-k8s.io/v1alpha1\nkind: EndpointPickerConfig\n"
    ++ (bytes "plugins:\n- type: max-score-picker\n- type: single-profile-handler\n"
        ++ bytes
            "schedulingProfiles:\n- name: default\n  plugins:\n  - pluginRef: max-score-picker\n")

unfoldable pub config_map_of : Text → Map Text → Result Text → Result ConfigMap
config_map_of epp_name labels (err e) = err e
config_map_of epp_name labels (ok yaml) = ok (record {
  name = epp_config_map_name epp_name;
  labels = labels;
  entries = (bytes "epp-config.yaml", yaml) ∷ [];
})

unfoldable pub resources_of :
    LlmModel → OperatorConfig → Result ConfigMap → Result InferencePoolResources
resources_of model cfg (err e) = err (bytes "building EPP ConfigMap: " ++ e)
resources_of model cfg (ok cm) = ok (record {
  inference_pool = build_inference_pool model (standard_labels model);
  epp_config_map = cm;
  epp_deployment = build_epp_deployment model (epp_name_of model) (standard_labels model) cfg;
  epp_service = build_epp_service model (epp_name_of model) (standard_labels model);
  epp_service_account = record { name = epp_name_of model; labels = standard_labels model };
  epp_role = build_epp_role (epp_name_of model) (standard_labels model);
  epp_role_binding = record {
    name = epp_name_of model;
    labels = standard_labels model;
    role = epp_name_of model;
    subject = epp_name_of model;
  };
})

module _ (json_to_yaml : Text → Result Text) where
  unfoldable pub render_epp_config : Option Text → Result Text
  render_epp_config none = ok epp_default_config
  render_epp_config (some raw) =
      if raw == []
      then ok epp_default_config
      else wrap_result (λ e. bytes "converting schedulerConfig JSON to YAML: " ++ e)
          (json_to_yaml raw)

  unfoldable pub build_epp_config_map : LlmModel → Text → Map Text → Result ConfigMap
  build_epp_config_map model epp_name labels =
      config_map_of epp_name labels (render_epp_config model.spec.scheduler_config)

  unfoldable pub build_inference_pool_resources :
      LlmModel → OperatorConfig → Result InferencePoolResources
  build_inference_pool_resources model cfg =
      resources_of model cfg
        (build_epp_config_map model (epp_name_of model) (standard_labels model))

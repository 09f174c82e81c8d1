-- ===== src/Samples.antt =====
-- A model of each kind and a configuration, for the tests.
use nebari_llm_serving_pack.Base.{none, some, true, false, [], ◌∷◌, bytes}
use nebari_llm_serving_pack.Config.{OperatorConfig}
use nebari_llm_serving_pack.Crd.{LlmModel, PassthroughModel}

abbrev pub served : LlmModel
served = record {
  name = bytes "phi";
  namespace = bytes "llm";
  spec = record {
    model = record {
      name = bytes "ms/phi";
      source = bytes "huggingface";
      revision = [];
      auth_secret_name = [];
      image = [];
      storage = record { type = bytes "pvc"; size = bytes "9Gi"; storage_class_name = [] };
      preload = none;
    };
    resources = record {
      gpu = record { count = 1; type = bytes "nvidia" };
      requests = [];
      limits = [];
    };
    serving = record {
      image = [];
      command = [];
      replicas = none;
      tensor_parallelism = none;
      data_parallelism = none;
      vllm_args = [];
      update_strategy = [];
      monitoring_enabled = none;
    };
    access = record { public = none; groups = bytes "llm" ∷ [] };
    endpoints = record {
      external_enabled = none;
      external_subdomain = [];
      internal_enabled = none;
      request_timeout = [];
    };
    vllm = record {
      extra_args = [];
      extra_env = [];
      node_selector = [];
      affinity = none;
      tolerations = [];
    };
    scheduler_config = none;
  };
}

abbrev pub provided : PassthroughModel
provided = record {
  name = bytes "phi";
  namespace = bytes "llm";
  spec = record {
    provider = record {
      hostname = bytes "openrouter.ai";
      port = 443;
      schema_version = bytes "v1";
      credential_secret_name = bytes "key";
    };
    models = record { catch_all = false; declared = bytes "a" ∷ [] };
    access = record { public = some true; groups = [] };
    endpoints = record { external_enabled = none; internal_enabled = none };
  };
}

abbrev pub configured : OperatorConfig
configured = record {
  base_domain = bytes "x.org";
  external_gateway_name = bytes "ext";
  external_gateway_ns = bytes "envoy";
  internal_gateway_name = bytes "int";
  internal_gateway_ns = bytes "envoy";
  oidc_issuer_url = bytes "https://sso";
  oidc_groups_claim = bytes "groups";
  oidc_audience = [];
  default_serving_image = bytes "vllm";
  default_epp_image = bytes "epp";
  default_storage_class_name = bytes "fast";
  api_keys_namespace = [];
  operator_namespace = bytes "llm";
  cluster_issuer_name = bytes "le";
  tls_secret_name = [];
  manage_shared_listeners = true;
}

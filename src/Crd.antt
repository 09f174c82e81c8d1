-- ===== src/Crd.antt =====
-- The custom resources: operator/api/v1alpha1/llmmodel_types.go and passthroughmodel_types.go.
-- A pointer field is an `Option`. The metadata fields that the code reads stand in each object.
-- The affinity, which the code only copies, is held as it is printed; fields that no code reads are
-- left out.
use nebari_llm_serving_pack.Base.{ℕ, Bool, Option, List, Text, Map}

pub record AccessSpec : Type 0 where
  pub public : Option Bool
  pub groups : List Text

pub record StorageSpec : Type 0 where
  pub type : Text
  pub size : Text
  pub storage_class_name : Text

pub record ModelSpec : Type 0 where
  pub name : Text
  pub source : Text
  pub revision : Text
  pub auth_secret_name : Text
  pub image : Text
  pub storage : StorageSpec
  pub preload : Option Bool

pub record GpuSpec : Type 0 where
  pub count : ℕ
  pub type : Text

pub record ResourceSpec : Type 0 where
  pub gpu : GpuSpec
  pub requests : Map Text
  pub limits : Map Text

pub record ServingSpec : Type 0 where
  pub image : Text
  pub command : List Text
  pub replicas : Option ℕ
  pub tensor_parallelism : Option ℕ
  pub data_parallelism : Option ℕ
  pub vllm_args : List Text
  pub update_strategy : Text
  pub monitoring_enabled : Option Bool

pub record EndpointSpec : Type 0 where
  pub external_enabled : Option Bool
  pub external_subdomain : Text
  pub internal_enabled : Option Bool
  pub request_timeout : Text

pub record Toleration : Type 0 where
  pub key : Text
  pub operator : Text
  pub effect : Text

-- A variable of a container: its value, or the Secret and the key that it is read from.
pub record EnvVar : Type 0 where
  pub name : Text
  pub value : Text
  pub secret_key_ref : Option (Text × Text)

pub record VllmAdvancedSpec : Type 0 where
  pub extra_args : List Text
  pub extra_env : List EnvVar
  pub node_selector : Map Text
  pub affinity : Option Text
  pub tolerations : List Toleration

pub record LlmModelSpec : Type 0 where
  pub model : ModelSpec
  pub resources : ResourceSpec
  pub serving : ServingSpec
  pub access : AccessSpec
  pub endpoints : EndpointSpec
  pub vllm : VllmAdvancedSpec
  pub scheduler_config : Option Text

pub record LlmModel : Type 0 where
  pub name : Text
  pub namespace : Text
  pub spec : LlmModelSpec

pub record ProviderSpec : Type 0 where
  pub hostname : Text
  pub port : ℕ
  pub schema_version : Text
  pub credential_secret_name : Text

pub record PassthroughModels : Type 0 where
  pub catch_all : Bool
  pub declared : List Text

pub record PassthroughEndpoints : Type 0 where
  pub external_enabled : Option Bool
  pub internal_enabled : Option Bool

pub record PassthroughModelSpec : Type 0 where
  pub provider : ProviderSpec
  pub models : PassthroughModels
  pub access : AccessSpec
  pub endpoints : PassthroughEndpoints

pub record PassthroughModel : Type 0 where
  pub name : Text
  pub namespace : Text
  pub spec : PassthroughModelSpec

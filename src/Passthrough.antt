-- ===== src/Passthrough.antt =====
-- operator/internal/controller/reconcilers/passthrough.go: the resources that route to an external
-- provider.
pub mod Types
pub mod Apply
pub mod Controller
pub mod Ready
mod Tests
use nebari_llm_serving_pack.Base.{
  ℕ, Bool, true, false, Option, none, some, List, [], ◌∷◌, ◌++◌, nat_eq, if◌then◌else◌, Text, ◌==◌,
  bytes, Map, insert,
}
use nebari_llm_serving_pack.Auth.{
  SecurityPolicy, DataObject, build_api_key_auth_security_policy, build_jwt_security_policy,
  is_public_access,
}
use nebari_llm_serving_pack.Config.{OperatorConfig}
use nebari_llm_serving_pack.Crd.{PassthroughModel}
use nebari_llm_serving_pack.Naming.{
  api_key_secret_name, api_key_metadata_config_map_name, shared_external_hostname,
  shared_internal_hostname,
}
use nebari_llm_serving_pack.Routing.{
  bool_or_default, external_https_listener_name, internal_https_listener_name,
}

pub record Backend : Type 0 where
  pub name : Text
  pub labels : Map Text
  pub hostname : Text
  pub port : ℕ

-- The system's certificates validate the host.
pub record BackendTlsPolicy : Type 0 where
  pub name : Text
  pub labels : Map Text
  pub target_backend : Text
  pub hostname : Text

pub record AiServiceBackend : Type 0 where
  pub name : Text
  pub labels : Map Text
  pub schema_name : Text
  pub schema_version : Text
  pub backend : Text

pub record BackendSecurityPolicy : Type 0 where
  pub name : Text
  pub labels : Map Text
  pub target_service_backend : Text
  pub type : Text
  pub secret_name : Text

-- A header that is compared exactly, with its value.
pub record RouteRule : Type 0 where
  pub matches : List (Text × Text)
  pub backend_refs : List Text
  pub request_timeout : Text
  pub models_owned_by : Option Text

pub record PassthroughRoute : Type 0 where
  pub name : Text
  pub labels : Map Text
  pub gateway_name : Text
  pub gateway_namespace : Text
  pub section_name : Text
  pub rules : List RouteRule

pub record PassthroughResources : Type 0 where
  pub backend : Backend
  pub backend_tls_policy : BackendTlsPolicy
  pub ai_service_backend : AiServiceBackend
  pub backend_security_policy : BackendSecurityPolicy
  pub api_key_secret : DataObject
  pub api_key_metadata_cm : DataObject
  pub external_route : Option PassthroughRoute
  pub internal_route : Option PassthroughRoute
  pub external_security_policy : Option SecurityPolicy
  pub internal_security_policy : Option SecurityPolicy

unfoldable pub passthrough_standard_labels : PassthroughModel → Map Text
passthrough_standard_labels pm =
    (bytes "app.kubernetes.io/managed-by", bytes "nebari-llm-operator")
    ∷ (bytes "app.kubernetes.io/instance", pm.name)
    ∷ (bytes "app.kubernetes.io/name", bytes "passthroughmodel")
    ∷ (bytes "llm.nebari.dev/model", pm.name)
    ∷ []

unfoldable pub provider_backend_name : PassthroughModel → Text
provider_backend_name pm = pm.name ++ bytes "-backend"

unfoldable pub build_provider_backend : PassthroughModel → Backend
build_provider_backend pm = record {
  name = provider_backend_name pm;
  labels = passthrough_standard_labels pm;
  hostname = pm.spec.provider.hostname;
  port = if nat_eq pm.spec.provider.port 0 then 443 else pm.spec.provider.port;
}

unfoldable pub build_provider_backend_tls_policy : PassthroughModel → BackendTlsPolicy
build_provider_backend_tls_policy pm = record {
  name = pm.name ++ bytes "-backend-tls";
  labels = passthrough_standard_labels pm;
  target_backend = provider_backend_name pm;
  hostname = pm.spec.provider.hostname;
}

unfoldable pub build_provider_ai_service_backend : PassthroughModel → AiServiceBackend
build_provider_ai_service_backend pm = record {
  name = pm.name;
  labels = passthrough_standard_labels pm;
  schema_name = bytes "OpenAI";
  schema_version =
      if pm.spec.provider.schema_version == [] then bytes "v1" else pm.spec.provider.schema_version;
  backend = provider_backend_name pm;
}

unfoldable pub build_provider_backend_security_policy : PassthroughModel → BackendSecurityPolicy
build_provider_backend_security_policy pm = record {
  name = pm.name ++ bytes "-upstream-auth";
  labels = passthrough_standard_labels pm;
  target_service_backend = pm.name;
  type = bytes "APIKey";
  secret_name = pm.spec.provider.credential_secret_name;
}

unfoldable pub declared_matches : List Text → List (Text × Text)
declared_matches [] = []
declared_matches (id ∷ ids) = (bytes "x-ai-eg-model", id) ∷ declared_matches ids

unfoldable pub passthrough_backend_refs : PassthroughModel → List Text
passthrough_backend_refs pm = pm.name ∷ []

unfoldable pub declared_rules : PassthroughModel → Bool → List Text → List RouteRule
declared_rules pm declare_models [] = []
declared_rules pm declare_models (id ∷ ids) =
    record {
      matches = declared_matches (id ∷ ids);
      backend_refs = passthrough_backend_refs pm;
      request_timeout = bytes "120s";
      models_owned_by = if declare_models then some pm.name else none;
    }
    ∷ []

unfoldable pub catch_all_rules : PassthroughModel → Text → List RouteRule
catch_all_rules pm hostname =
    if pm.spec.models.catch_all
    then record {
      matches = (bytes "Host", hostname) ∷ [];
      backend_refs = passthrough_backend_refs pm;
      request_timeout = bytes "120s";
      models_owned_by = none;
    }
      ∷ []
    else []

unfoldable pub build_passthrough_route :
    Text → PassthroughModel → Text → Text → Text → Text → Bool → PassthroughRoute
build_passthrough_route name pm gateway_name gateway_ns listener hostname declare_models = record {
  name = name;
  labels = passthrough_standard_labels pm;
  gateway_name = gateway_name;
  gateway_namespace = gateway_ns;
  section_name = listener;
  rules = declared_rules pm declare_models pm.spec.models.declared ++ catch_all_rules pm hostname;
}

-- The Secret, or the ConfigMap, under its name.
unfoldable pub keys_object : PassthroughModel → Text → DataObject
keys_object pm name = record {
  name = name;
  namespace = pm.namespace;
  labels = insert (bytes "llm.nebari.dev/model-name") pm.name (passthrough_standard_labels pm);
  entries = [];
}

module _ (pm : PassthroughModel) (cfg : OperatorConfig) where
  unfoldable pub external_route_of : PassthroughRoute
  external_route_of =
      build_passthrough_route (pm.name ++ bytes "-external") pm cfg.external_gateway_name
        cfg.external_gateway_ns external_https_listener_name
        (shared_external_hostname cfg.base_domain) true

  unfoldable pub internal_route_of : PassthroughRoute
  internal_route_of =
      build_passthrough_route (pm.name ++ bytes "-internal") pm cfg.internal_gateway_name
        cfg.internal_gateway_ns internal_https_listener_name
        (shared_internal_hostname cfg.base_domain) false

  unfoldable pub build_passthrough_resources : List Text → List Text → PassthroughResources
  build_passthrough_resources ids secret_names = record {
    backend = build_provider_backend pm;
    backend_tls_policy = build_provider_backend_tls_policy pm;
    ai_service_backend = build_provider_ai_service_backend pm;
    backend_security_policy = build_provider_backend_security_policy pm;
    api_key_secret = keys_object pm (api_key_secret_name pm.name);
    api_key_metadata_cm = keys_object pm (api_key_metadata_config_map_name pm.name);
    external_route =
        if bool_or_default pm.spec.endpoints.external_enabled true
        then some external_route_of
        else none;
    internal_route =
        if bool_or_default pm.spec.endpoints.internal_enabled true
        then some internal_route_of
        else none;
    external_security_policy =
        if bool_or_default pm.spec.endpoints.external_enabled true
        then some (
            build_api_key_auth_security_policy (pm.name ++ bytes "-external-auth") pm.namespace
              (passthrough_standard_labels pm) (pm.name ++ bytes "-external") secret_names ids)
        else none;
    internal_security_policy =
        if bool_or_default pm.spec.endpoints.internal_enabled true
        then some (
            build_jwt_security_policy (pm.name ++ bytes "-internal-auth") pm.namespace
              (passthrough_standard_labels pm) (pm.name ++ bytes "-internal") cfg
              (is_public_access pm.spec.access) pm.spec.access.groups)
        else none;
  }

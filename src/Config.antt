-- ===== src/Config.antt =====
-- operator/internal/config/config.go. The environment is a function of a variable's name, with an
-- empty text where the variable is not set; letters are ASCII.
pub mod Required
mod Tests
use nebari_llm_serving_pack.Base.{
  Bool, true, false, ◌||◌, List, [], ◌∷◌, ◌++◌, if◌then◌else◌, Text, ◌==◌, bytes, Result, ok, err,
}
use nebari_llm_serving_pack.Naming.{to_lower}

abbrev pub Environment : Type 0
Environment = Text → Text

pub record OperatorConfig : Type 0 where
  pub base_domain : Text
  pub external_gateway_name : Text
  pub external_gateway_ns : Text
  pub internal_gateway_name : Text
  pub internal_gateway_ns : Text
  pub oidc_issuer_url : Text
  pub oidc_groups_claim : Text
  pub oidc_audience : Text
  pub default_serving_image : Text
  pub default_epp_image : Text
  pub default_storage_class_name : Text
  pub api_keys_namespace : Text
  pub operator_namespace : Text
  pub cluster_issuer_name : Text
  pub tls_secret_name : Text
  pub manage_shared_listeners : Bool

unfoldable pub get_env_or_default : Environment → Text → Text → Text
get_env_or_default env key default_value = if env key == [] then default_value else env key

unfoldable pub is_yes : Text → Bool
is_yes v = v == bytes "true" || (v == bytes "1" || (v == bytes "yes" || v == bytes "on"))

unfoldable pub get_env_bool : Environment → Text → Bool → Bool
get_env_bool env key default_value =
    if to_lower (env key) == [] then default_value else is_yes (to_lower (env key))

-- The variables that are required, in the order in which they are read.
abbrev pub required_keys : List Text
required_keys =
    bytes "LLM_BASE_DOMAIN"
    ∷ bytes "LLM_EXTERNAL_GATEWAY_NAME"
    ∷ bytes "LLM_INTERNAL_GATEWAY_NAME"
    ∷ bytes "LLM_OIDC_ISSUER_URL"
    ∷ []

unfoldable pub missing : Environment → List Text → List Text
missing env [] = []
missing env (key ∷ keys) = let rest = missing env keys in if env key == [] then key ∷ rest else rest

-- strings.Join(keys, ", ")
unfoldable pub joined : List Text → Text
joined [] = []
joined (key ∷ []) = key
joined (key ∷ next ∷ keys) = key ++ (bytes ", " ++ joined (next ∷ keys))

unfoldable pub config_from : Environment → OperatorConfig
config_from env = record {
  base_domain = env (bytes "LLM_BASE_DOMAIN");
  external_gateway_name = env (bytes "LLM_EXTERNAL_GATEWAY_NAME");
  external_gateway_ns =
      get_env_or_default env (bytes "LLM_EXTERNAL_GATEWAY_NAMESPACE")
        (bytes "envoy-gateway-system");
  internal_gateway_name = env (bytes "LLM_INTERNAL_GATEWAY_NAME");
  internal_gateway_ns =
      get_env_or_default env (bytes "LLM_INTERNAL_GATEWAY_NAMESPACE")
        (bytes "envoy-gateway-system");
  oidc_issuer_url = env (bytes "LLM_OIDC_ISSUER_URL");
  oidc_groups_claim = get_env_or_default env (bytes "LLM_OIDC_GROUPS_CLAIM") (bytes "groups");
  oidc_audience = env (bytes "LLM_OIDC_AUDIENCE");
  default_serving_image =
      get_env_or_default env (bytes "LLM_DEFAULT_SERVING_IMAGE")
        (bytes "ghcr.io/llm-d/llm-d-cuda:v0.7.0");
  default_epp_image =
      get_env_or_default env (bytes "LLM_DEFAULT_EPP_IMAGE")
        (bytes "ghcr.io/llm-d/llm-d-inference-scheduler:v0.8.0");
  default_storage_class_name = env (bytes "LLM_DEFAULT_STORAGE_CLASS_NAME");
  api_keys_namespace = env (bytes "LLM_API_KEYS_NAMESPACE");
  operator_namespace = env (bytes "POD_NAMESPACE");
  cluster_issuer_name =
      get_env_or_default env (bytes "LLM_CLUSTER_ISSUER_NAME") (bytes "letsencrypt-production");
  tls_secret_name = env (bytes "LLM_TLS_SECRET_NAME");
  manage_shared_listeners = get_env_bool env (bytes "LLM_MANAGE_SHARED_LISTENERS") true;
}

unfoldable pub unless_missing : OperatorConfig → List Text → Result OperatorConfig
unless_missing cfg [] = ok cfg
unless_missing cfg (key ∷ keys) =
    err (bytes "missing required environment variables: " ++ joined (key ∷ keys))

unfoldable pub load_from_env : Environment → Result OperatorConfig
load_from_env env = unless_missing (config_from env) (missing env required_keys)

-- ===== src/Auth.antt =====
-- operator/internal/controller/reconcilers/auth.go and operator/internal/controller/apikeys.go: who
-- may use a model's endpoints. A SecurityPolicy is held by the fields that the code sets; what Envoy
-- Gateway documents of a block `authorization` is in Auth/Admits.antt.
pub mod Admits
pub mod Guarded
pub mod Secrets
mod Tests
use nebari_llm_serving_pack.Base.{
  Bool, true, false, Option, none, some, List, [], ◌∷◌, ◌++◌, if◌then◌else◌, Text, ◌==◌, bytes, Map,
  insert, Result, ok, err, has_suffix, sort_texts, sorted_set,
}
use nebari_llm_serving_pack.Config.{OperatorConfig}
use nebari_llm_serving_pack.Crd.{AccessSpec, LlmModel}
use nebari_llm_serving_pack.Naming.{
  standard_labels, api_key_secret_suffix, api_key_secret_name, api_key_metadata_config_map_name,
}
use nebari_llm_serving_pack.Routing.{bool_or_default}

abbrev pub api_key_client_id_header : Text
api_key_client_id_header = bytes "x-llm-client-id"

pub data Action : Type 0 where
  allow deny : Action

-- A principal is a header with its values, or a claim of a provider's token with its values.
pub data Principal : Type 0 where
  header : Text → List Text → Principal
  jwt_claim : Text → Text → List Text → Principal

pub record Rule : Type 0 where
  pub name : Text
  pub action : Action
  pub principal : Principal

pub record Authorization : Type 0 where
  pub default_action : Action
  pub rules : List Rule

pub record ApiKeyAuth : Type 0 where
  pub credential_refs : List Text
  pub extract_from : Text
  pub forward_client_id_header : Text
  pub sanitize : Bool

pub record JwtProvider : Type 0 where
  pub name : Text
  pub issuer : Text
  pub remote_jwks : Text
  pub claim_to_headers : Map Text
  pub audiences : List Text

pub data Authentication : Type 0 where
  api_key_auth : ApiKeyAuth → Authentication
  jwt : JwtProvider → Authentication

pub record SecurityPolicy : Type 0 where
  pub name : Text
  pub namespace : Text
  pub labels : Map Text
  pub target_route : Text
  pub authentication : Authentication
  pub authorization : Option Authorization

-- A Secret or a ConfigMap as the operator reads and builds it.
pub record DataObject : Type 0 where
  pub name : Text
  pub namespace : Text
  pub labels : Map Text
  pub entries : Map Text

pub record AuthResources : Type 0 where
  pub api_key_secret : DataObject
  pub api_key_metadata_cm : DataObject
  pub external_security_policy : Option SecurityPolicy
  pub internal_security_policy : Option SecurityPolicy

unfoldable pub keys_of {ℓ} : {V : Type ℓ} → Map V → List Text
keys_of [] = []
keys_of ((k, v) ∷ entries) = k ∷ keys_of entries

unfoldable pub client_ids_from_secret : Option DataObject → List Text
client_ids_from_secret none = []
client_ids_from_secret (some secret) = sort_texts (keys_of secret.entries)

unfoldable pub auth_resource_labels : LlmModel → Map Text
auth_resource_labels model =
    insert (bytes "llm.nebari.dev/model-name") model.name (standard_labels model)

unfoldable pub build_api_key_secret : LlmModel → Map Text → DataObject
build_api_key_secret model labels = record {
  name = api_key_secret_name model.name;
  namespace = model.namespace;
  labels = labels;
  entries = [];
}

unfoldable pub build_api_key_metadata_config_map : LlmModel → Map Text → DataObject
build_api_key_metadata_config_map model labels = record {
  name = api_key_metadata_config_map_name model.name;
  namespace = model.namespace;
  labels = labels;
  entries = [];
}

unfoldable pub build_api_key_authorization : List Text → Authorization
build_api_key_authorization [] = record { default_action = deny; rules = [] }
build_api_key_authorization (id ∷ ids) = record {
  default_action = deny;
  rules =
      record {
        name = bytes "allow-model-clients";
        action = allow;
        principal = header api_key_client_id_header (id ∷ ids);
      }
      ∷ [];
}

unfoldable pub build_api_key_auth_security_policy :
    Text → Text → Map Text → Text → List Text → List Text → SecurityPolicy
build_api_key_auth_security_policy name namespace labels route_name secret_names ids = record {
  name = name;
  namespace = namespace;
  labels = labels;
  target_route = route_name;
  authentication = api_key_auth (record {
    credential_refs = secret_names;
    extract_from = bytes "Authorization";
    forward_client_id_header = api_key_client_id_header;
    sanitize = true;
  });
  authorization = some (build_api_key_authorization ids);
}

unfoldable pub build_external_security_policy : LlmModel → List Text → List Text → SecurityPolicy
build_external_security_policy model ids secret_names =
    build_api_key_auth_security_policy (model.name ++ bytes "-external-auth") model.namespace
      (standard_labels model) (model.name ++ bytes "-external") secret_names ids

unfoldable pub build_group_authorization : List Text → Text → Authorization
build_group_authorization groups groups_claim = record {
  default_action = deny;
  rules =
      record {
        name = bytes "allow-groups";
        action = allow;
        principal = jwt_claim (bytes "oidc") groups_claim groups;
      }
      ∷ [];
}

unfoldable pub jwt_provider : OperatorConfig → JwtProvider
jwt_provider cfg = record {
  name = bytes "oidc";
  issuer = cfg.oidc_issuer_url;
  remote_jwks = cfg.oidc_issuer_url ++ bytes "/protocol/openid-connect/certs";
  claim_to_headers =
      (bytes "X-Auth-Groups", cfg.oidc_groups_claim)
      ∷ (bytes "X-Auth-User", bytes "preferred_username")
      ∷ [];
  audiences = if cfg.oidc_audience == [] then [] else cfg.oidc_audience ∷ [];
}

unfoldable pub build_jwt_security_policy :
    Text → Text → Map Text → Text → OperatorConfig → Bool → List Text → SecurityPolicy
build_jwt_security_policy name namespace labels route_name cfg public groups = record {
  name = name;
  namespace = namespace;
  labels = labels;
  target_route = route_name;
  authentication = jwt (jwt_provider cfg);
  authorization =
      if public then none else some (build_group_authorization groups cfg.oidc_groups_claim);
}

-- `Public` is set and true.
unfoldable pub is_public_access : AccessSpec → Bool
is_public_access access = bool_or_default access.public false

unfoldable pub build_internal_security_policy : LlmModel → OperatorConfig → SecurityPolicy
build_internal_security_policy model cfg =
    build_jwt_security_policy (model.name ++ bytes "-internal-auth") model.namespace
      (standard_labels model) (model.name ++ bytes "-internal") cfg
      (is_public_access model.spec.access) model.spec.access.groups

unfoldable pub build_auth_resources :
    LlmModel → OperatorConfig → List Text → List Text → AuthResources
build_auth_resources model cfg ids secret_names = record {
  api_key_secret = build_api_key_secret model (auth_resource_labels model);
  api_key_metadata_cm = build_api_key_metadata_config_map model (auth_resource_labels model);
  external_security_policy =
      if bool_or_default model.spec.endpoints.external_enabled true
      then some (build_external_security_policy model ids secret_names)
      else none;
  internal_security_policy =
      if bool_or_default model.spec.endpoints.internal_enabled true
      then some (build_internal_security_policy model cfg)
      else none;
}

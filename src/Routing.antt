-- ===== src/Routing.antt =====
-- operator/internal/controller/reconcilers/routing.go: the routes of a model. An AIGatewayRoute is
-- held by the fields that the code sets; the matched header is `x-ai-eg-model`, compared exactly.
use nebari_llm_serving_pack.Base.{
  Bool, true, Option, none, some, ◌++◌, [], if◌then◌else◌, Text, ◌==◌, bytes, Map,
}
use nebari_llm_serving_pack.Config.{OperatorConfig}
use nebari_llm_serving_pack.Crd.{LlmModel}
use nebari_llm_serving_pack.Naming.{standard_labels}

abbrev pub default_request_timeout : Text
default_request_timeout = bytes "600s"

abbrev pub external_https_listener_name : Text
external_https_listener_name = bytes "llm-https"

abbrev pub internal_https_listener_name : Text
internal_https_listener_name = bytes "llm-internal-https"

pub record AiGatewayRoute : Type 0 where
  pub name : Text
  pub namespace : Text
  pub labels : Map Text
  pub gateway_name : Text
  pub gateway_namespace : Text
  pub section_name : Text
  pub matched_model : Text
  pub pool_name : Text
  pub request_timeout : Text

pub record RoutingResources : Type 0 where
  pub external_route : Option AiGatewayRoute
  pub internal_route : Option AiGatewayRoute

unfoldable pub bool_or_default : Option Bool → Bool → Bool
bool_or_default none def = def
bool_or_default (some b) def = b

unfoldable pub build_ai_gateway_route :
    Text → Text → Map Text → Text → Text → Text → Text → Text → Text → AiGatewayRoute
build_ai_gateway_route name namespace labels gateway_name gateway_ns listener pool_name model_name
      request_timeout =
    record {
      name = name;
      namespace = namespace;
      labels = labels;
      gateway_name = gateway_name;
      gateway_namespace = gateway_ns;
      section_name = listener;
      matched_model = model_name;
      pool_name = pool_name;
      request_timeout = request_timeout;
    }

unfoldable pub request_timeout_of : LlmModel → Text
request_timeout_of model =
    if model.spec.endpoints.request_timeout == []
    then default_request_timeout
    else model.spec.endpoints.request_timeout

unfoldable pub build_routing_resources : LlmModel → OperatorConfig → RoutingResources
build_routing_resources model cfg = record {
  external_route =
      if bool_or_default model.spec.endpoints.external_enabled true
      then some (
          build_ai_gateway_route (model.name ++ bytes "-external") model.namespace
            (standard_labels model) cfg.external_gateway_name cfg.external_gateway_ns
            external_https_listener_name model.name model.spec.model.name
            (request_timeout_of model))
      else none;
  internal_route =
      if bool_or_default model.spec.endpoints.internal_enabled true
      then some (
          build_ai_gateway_route (model.name ++ bytes "-internal") model.namespace
            (standard_labels model) cfg.internal_gateway_name cfg.internal_gateway_ns
            internal_https_listener_name model.name model.spec.model.name
            (request_timeout_of model))
      else none;
}

-- ===== src/Controller/Apply.antt =====
-- The createOrUpdate helpers and the groups of resources that one reconciliation applies.
use nebari_llm_serving_pack.Base.{
  false, Option, some, none, List, [], ◌++◌, Text, bytes, Map, lookup, Exec, pure, lift, wrap,
  wrap_result, ◌>>◌,
}
use nebari_llm_serving_pack.Auth.{SecurityPolicy, AuthResources}
use nebari_llm_serving_pack.Cluster.{
  Held, Unstructured, logged, create_or_update, relabel, replace_spec, with_version,
}
use nebari_llm_serving_pack.Controller.Types.{
  Api, Custom, LiveDeployment, pod_monitor, route, security_policy, data_object,
}
use nebari_llm_serving_pack.Crd.{LlmModel}
use nebari_llm_serving_pack.Network.{IngressRule}
use nebari_llm_serving_pack.Pool.{PolicyRule}
use nebari_llm_serving_pack.Routing.{AiGatewayRoute, RoutingResources}
use nebari_llm_serving_pack.Serving.{PodMonitor}
use nebari_llm_serving_pack.Storage.{Pvc}
use nebari_llm_serving_pack.Workload.{ServiceSpec}

abbrev pub model_config_hash_anno : Text
model_config_hash_anno = bytes "llm.nebari.dev/model-config-hash"

unfoldable pub hashed_text : LlmModel → Text
hashed_text model =
    model.name
    ++ (model.spec.model.source
        ++ (model.spec.model.storage.type
            ++ (model.spec.model.image ++ (model.spec.model.revision ++ model.spec.model.name))))

-- The value under a key, empty where there is none.
unfoldable pub value_at : Text → Map Text → Text
value_at key entries = text_of (lookup key entries)
  where
    text_of : Option Text → Text
    text_of none = []
    text_of (some t) = t

unfoldable pub keep_cluster_ip : Held ServiceSpec → Held ServiceSpec → Held ServiceSpec
keep_cluster_ip desired existing = record existing {
  spec = record desired.spec { cluster_ip = existing.spec.cluster_ip };
  labels = desired.labels;
}

unfoldable pub replace_deployment : LiveDeployment → LiveDeployment → LiveDeployment
replace_deployment desired existing = record existing {
  object = record existing.object { spec = desired.object.spec; labels = desired.object.labels };
}

module _ {W : Type 0} (api : Api W) where
  unfoldable pub create_or_update_pvc : Held Pvc → Exec W (Unit {0})
  create_or_update_pvc o = create_or_update api.claims o.namespace o.name o (relabel o)

  unfoldable pub create_or_update_secret : Held (Map Text) → Exec W (Unit {0})
  create_or_update_secret o = create_or_update api.secrets o.namespace o.name o (relabel o)

  unfoldable pub create_or_update_config_map : Held (Map Text) → Exec W (Unit {0})
  create_or_update_config_map o =
      create_or_update api.config_maps o.namespace o.name o (replace_spec o)

  unfoldable pub create_or_update_config_map_preserve_data : Held (Map Text) → Exec W (Unit {0})
  create_or_update_config_map_preserve_data o =
      create_or_update api.config_maps o.namespace o.name o (relabel o)

  unfoldable pub create_or_update_network_policy :
      Held (Map Text × List IngressRule) → Exec W (Unit {0})
  create_or_update_network_policy o =
      create_or_update api.network_policies o.namespace o.name o (replace_spec o)

  unfoldable pub create_or_update_service_account : Held (Unit {0}) → Exec W (Unit {0})
  create_or_update_service_account o =
      create_or_update api.service_accounts o.namespace o.name o (relabel o)

  unfoldable pub create_or_update_service : Held ServiceSpec → Exec W (Unit {0})
  create_or_update_service o =
      create_or_update api.services o.namespace o.name o (keep_cluster_ip o)

  unfoldable pub create_or_update_deployment : LiveDeployment → Exec W (Unit {0})
  create_or_update_deployment o =
      create_or_update api.deployments o.object.namespace o.object.name o (replace_deployment o)

  unfoldable pub create_or_update_role : Held (List PolicyRule) → Exec W (Unit {0})
  create_or_update_role o = create_or_update api.roles o.namespace o.name o (replace_spec o)

  unfoldable pub create_or_update_role_binding : Held (Text × Text) → Exec W (Unit {0})
  create_or_update_role_binding o =
      create_or_update api.role_bindings o.namespace o.name o (replace_spec o)

  unfoldable pub create_or_update_unstructured : Unstructured Custom → Exec W (Unit {0})
  create_or_update_unstructured o =
      create_or_update (api.customs o.kind) o.namespace o.name o (with_version o)

  -- SetOwnerReference, with the message of its error.
  unfoldable pub own : Text → Text → Exec W (Unit {0})
  own kind name = lift (
      wrap_result (λ e. bytes "setting owner on " ++ (kind ++ (bytes ": " ++ e)))
        (api.set_owner kind name))

  unfoldable pub reconciling : Text → Exec W (Unit {0}) → Exec W (Unit {0})
  reconciling what m = wrap (λ e. bytes "reconciling " ++ (what ++ (bytes ": " ++ e))) m

  unfoldable pub reconcile_auth_secret_and_config_map : AuthResources → Exec W (Unit {0})
  reconcile_auth_secret_and_config_map auth =
      reconciling (bytes "api key secret")
        (create_or_update_secret (data_object auth.api_key_secret))
      >> reconciling (bytes "api key metadata configmap")
          (create_or_update_config_map_preserve_data (data_object auth.api_key_metadata_cm))

  unfoldable pub apply_custom : Text → Text → Text → Custom → Exec W (Unit {0})
  apply_custom kind name namespace content = logged (
      create_or_update_unstructured (record {
        kind = kind;
        name = name;
        namespace = namespace;
        version = [];
        owned = false;
        content = content;
      }))

  unfoldable pub apply_monitor : LlmModel → Option PodMonitor → Exec W (Unit {0})
  apply_monitor model none = pure tt
  apply_monitor model (some m) =
      apply_custom (bytes "PodMonitor") m.name model.namespace (pod_monitor m)

  unfoldable pub apply_route : LlmModel → Option AiGatewayRoute → Exec W (Unit {0})
  apply_route model none = pure tt
  apply_route model (some r) =
      apply_custom (bytes "AIGatewayRoute") r.name model.namespace (route r)

  unfoldable pub apply_policy : Option SecurityPolicy → Exec W (Unit {0})
  apply_policy none = pure tt
  apply_policy (some p) =
      apply_custom (bytes "SecurityPolicy") p.name p.namespace (security_policy p)

  unfoldable pub reconcile_routing_resources : LlmModel → RoutingResources → Exec W (Unit {0})
  reconcile_routing_resources model routing =
      apply_route model routing.external_route >> apply_route model routing.internal_route

  unfoldable pub reconcile_security_policies : AuthResources → Exec W (Unit {0})
  reconcile_security_policies auth =
      apply_policy auth.external_security_policy >> apply_policy auth.internal_security_policy

-- ===== src/Tls.antt =====
-- operator/internal/controller/clustertls_singleton.go: one pass of the shared TLS
-- reconciliation. What `%v` prints of a value is an argument.
pub mod Json
pub mod Build
pub mod Steady
mod Tests
use nebari_llm_serving_pack.Base.{
  Bool, Option, none, some, List, [], ◌∷◌, ◌++◌, if◌then◌else◌, Text, ◌==◌, bytes, Result, ok, err,
  Exec, pure, fail, lift, wrap, wrap_result, ◌>>=◌, ◌>>◌,
}
use nebari_llm_serving_pack.Cluster.{
  Fetched, found, not_found, failed, Kind, Written, written, writing,
}
use nebari_llm_serving_pack.Config.{OperatorConfig}
use nebari_llm_serving_pack.Gateway.{Item, merge_https_listener}
use nebari_llm_serving_pack.Naming.{shared_external_hostname, shared_internal_hostname}
use nebari_llm_serving_pack.Routing.{external_https_listener_name, internal_https_listener_name}
use nebari_llm_serving_pack.Tls.Build.{
  Resource, shared_tls_certificate_name, shared_tls_secret_name, build_shared_certificate,
  build_secret_reference_grant,
}
use nebari_llm_serving_pack.Tls.Json.{Value, nested_specs_equal}

-- `listeners` is what NestedSlice reads of the spec.
pub record GatewayObject : Type 0 where
  pub name : Text
  pub namespace : Text
  pub version : Text
  pub listeners : Result (Option (List Item))

-- What the deletion of the Certificate gives: `absent` where IsNotFound or IsNoMatchError holds.
pub data Deletion : Type 0 where
  deleted absent : Deletion
  undeleted : Text → Deletion

-- The Secret of a user is read for its type alone.
pub record Api (W : Type 0) : Type 0 where
  pub resources : Text → Kind W Resource
  pub delete_certificate : Text → Text → W → Deletion × W
  pub secret_type : Text → Text → W → Fetched Text × W
  pub gateways : Kind W GatewayObject

unfoldable pub shared_secret_name : OperatorConfig → Text
shared_secret_name cfg =
    if cfg.tls_secret_name == [] then shared_tls_secret_name else cfg.tls_secret_name

unfoldable pub distinct_gateway_namespaces : OperatorConfig → List Text
distinct_gateway_namespaces cfg =
    if cfg.external_gateway_ns == cfg.internal_gateway_ns
    then cfg.external_gateway_ns ∷ []
    else cfg.external_gateway_ns ∷ cfg.internal_gateway_ns ∷ []

unfoldable pub deletion_result : Deletion → Result (Unit {0})
deletion_result deleted = ok tt
deletion_result absent = ok tt
deletion_result (undeleted e) = err e

-- A NamespacedName, as it is printed.
unfoldable pub key_text : Text → Text → Text
key_text namespace name = namespace ++ (bytes "/" ++ name)

unfoldable pub named : Resource → Text
named r = r.kind ++ (bytes " " ++ key_text r.namespace r.name)

module _ {W : Type 0} (api : Api W) (print : Value → Text) where
  unfoldable pub apply_resource : Resource → Fetched Resource → Exec W (Unit {0})
  apply_resource desired not_found =
      wrap (λ e. bytes "creating " ++ (named desired ++ (bytes ": " ++ e)))
        (writing written ((api.resources desired.kind).create desired))
  apply_resource desired (failed e) =
      λ w. (err (bytes "getting " ++ (named desired ++ (bytes ": " ++ e))), w)
  apply_resource desired (found current) =
      if nested_specs_equal print desired.spec current.spec
      then pure tt
      else wrap (λ e. bytes "updating " ++ (named desired ++ (bytes ": " ++ e)))
          (writing written
            ((api.resources desired.kind).update (record current { spec = desired.spec })))

  unfoldable pub create_or_update_unstructured : Resource → Exec W (Unit {0})
  create_or_update_unstructured desired w =
      let (r, w') = (api.resources desired.kind).get desired.namespace desired.name w in
      apply_resource desired r w'

  -- The Gateway with the merged listeners, unless nothing changed.
  unfoldable pub write_gateway :
      Text → GatewayObject → Result (Bool × List Item) → Exec W (Unit {0})
  write_gateway key gw (err e) = λ w. (err (bytes "merging listener: " ++ e), w)
  write_gateway key gw (ok (changed, items)) =
      if changed
      then wrap (λ e. bytes "updating Gateway " ++ (key ++ (bytes ": " ++ e)))
          (writing written (api.gateways.update (record gw { listeners = ok (some items) })))
      else pure tt

  unfoldable pub patch_found :
      OperatorConfig → Text → Text → Text → Fetched GatewayObject → Exec W (Unit {0})
  patch_found cfg key listener_name hostname not_found = pure tt
  patch_found cfg key listener_name hostname (failed e) =
      λ w. (err (bytes "getting Gateway " ++ (key ++ (bytes ": " ++ e))), w)
  patch_found cfg key listener_name hostname (found gw) = write_gateway key gw (
      merge_https_listener listener_name hostname (shared_secret_name cfg) cfg.operator_namespace
        gw.listeners)

  unfoldable pub patch_gateway_listener :
      OperatorConfig → Text → Text → Text → Text → Exec W (Unit {0})
  patch_gateway_listener cfg name namespace listener_name hostname w =
      let (r, w') = api.gateways.get namespace name w in
      patch_found cfg (key_text namespace name) listener_name hostname r w'

  unfoldable pub ensure_certificate : OperatorConfig → Exec W (Unit {0})
  ensure_certificate cfg =
      lift (build_shared_certificate cfg.base_domain cfg.operator_namespace cfg.cluster_issuer_name)
      >>= create_or_update_unstructured

  unfoldable pub ensure_reference_grant : OperatorConfig → Text → Exec W (Unit {0})
  ensure_reference_grant cfg from_namespace =
      create_or_update_unstructured (
        build_secret_reference_grant from_namespace cfg.operator_namespace (shared_secret_name cfg))

  unfoldable pub delete_managed_certificate : OperatorConfig → Exec W (Unit {0})
  delete_managed_certificate cfg w =
      let (r, w') = api.delete_certificate cfg.operator_namespace shared_tls_certificate_name w in
      (deletion_result r, w')

  -- What it finds is only logged.
  unfoldable pub check_user_secret : OperatorConfig → Exec W (Unit {0})
  check_user_secret cfg w =
      let (_, w') = api.secret_type cfg.operator_namespace cfg.tls_secret_name w in (ok tt, w')

  unfoldable pub ensure_tls_source : OperatorConfig → Exec W (Unit {0})
  ensure_tls_source cfg =
      if cfg.tls_secret_name == []
      then wrap (λ e. bytes "ensuring Certificate: " ++ e) (ensure_certificate cfg)
      else wrap
          (λ e.
            bytes "deleting managed Certificate after switch to user-provided TLS secret: " ++ e)
          (delete_managed_certificate cfg)
        >> check_user_secret cfg

  -- The Secret's own namespace needs no grant.
  unfoldable pub ensure_grants : OperatorConfig → List Text → Exec W (Unit {0})
  ensure_grants cfg [] = pure tt
  ensure_grants cfg (ns ∷ namespaces) =
      let rest = ensure_grants cfg namespaces in
      if ns == cfg.operator_namespace
      then rest
      else wrap (λ e. bytes "ensuring ReferenceGrant from " ++ (ns ++ (bytes ": " ++ e)))
          (ensure_reference_grant cfg ns)
        >> rest

  unfoldable pub patch_listeners : OperatorConfig → Exec W (Unit {0})
  patch_listeners cfg =
      wrap (λ e. bytes "patching external Gateway listener: " ++ e)
        (patch_gateway_listener cfg cfg.external_gateway_name cfg.external_gateway_ns
          external_https_listener_name (shared_external_hostname cfg.base_domain))
      >> wrap (λ e. bytes "patching internal Gateway listener: " ++ e)
          (patch_gateway_listener cfg cfg.internal_gateway_name cfg.internal_gateway_ns
            internal_https_listener_name (shared_internal_hostname cfg.base_domain))

  unfoldable pub reconcile_with : OperatorConfig → Exec W (Unit {0})
  reconcile_with cfg =
      if cfg.base_domain == []
      then pure tt
      else (if cfg.operator_namespace == []
          then pure tt
          else ensure_tls_source cfg
            >> (ensure_grants cfg (distinct_gateway_namespaces cfg)
                >> (if cfg.manage_shared_listeners then patch_listeners cfg else pure tt)))

  unfoldable pub reconcile : Option OperatorConfig → Exec W (Unit {0})
  reconcile none = fail (bytes "operator config is nil")
  reconcile (some cfg) = reconcile_with cfg

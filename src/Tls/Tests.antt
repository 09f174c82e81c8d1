-- ===== src/Tls/Tests.antt =====
-- A settled cluster.
use nebari_llm_serving_pack.Base.{
  ◌≡◌, inl, inr, refl, some, List, [], ◌∷◌, if◌then◌else◌, Text, ◌==◌, bytes, Result, ok,
}
use nebari_llm_serving_pack.Cluster.{found, not_found, done}
use nebari_llm_serving_pack.Gateway.{
  Item, listener, build_https_listener, merge_https_listener, merge_listeners, listeners_equal,
  refs_equal, keep_item,
}
use nebari_llm_serving_pack.Naming.{shared_external_hostname, shared_internal_hostname}
use nebari_llm_serving_pack.Samples.{configured}
use nebari_llm_serving_pack.Tls
use nebari_llm_serving_pack.Tls.{
  Api, GatewayObject, absent, shared_secret_name, distinct_gateway_namespaces,
}
use nebari_llm_serving_pack.Tls.Build.{
  Resource, shared_tls_certificate_name, shared_tls_labels, shared_tls_secret_name,
  certificate_spec, build_shared_certificate, build_secret_reference_grant,
}
use nebari_llm_serving_pack.Tls.Json.{Value}
use nebari_llm_serving_pack.Tls.Steady.{IsSettled, reconcile_steady}

abbrev certificate : Resource
certificate = record {
  kind = bytes "Certificate";
  name = shared_tls_certificate_name;
  namespace = bytes "llm";
  labels = shared_tls_labels;
  version = [];
  spec = certificate_spec (bytes "x.org") (bytes "le");
}

abbrev grant : Resource
grant = build_secret_reference_grant (bytes "envoy") (bytes "llm") shared_tls_secret_name

abbrev items : List Item
items =
    listener (
      build_https_listener (bytes "llm-https") (shared_external_hostname (bytes "x.org"))
        shared_tls_secret_name (bytes "llm"))
    ∷ listener (
        build_https_listener (bytes "llm-internal-https") (shared_internal_hostname (bytes "x.org"))
          shared_tls_secret_name (bytes "llm"))
    ∷ []

abbrev gateway : GatewayObject
gateway = record {
  name = bytes "ext";
  namespace = bytes "envoy";
  version = [];
  listeners = ok (some items);
}

abbrev settled_api : Api (Unit {0})
settled_api = record {
  resources = λ kind. record {
    get =
        λ namespace name w. (found (if kind == bytes "Certificate" then certificate else grant), w);
    create = λ r w. (done, w);
    update = λ r w. (done, w);
    delete = λ r w. (done, w);
  };
  delete_certificate = λ namespace name w. (absent, w);
  secret_type = λ namespace name w. (not_found, w);
  gateways = record {
    get = λ namespace name w. (found gateway, w);
    create = λ r w. (done, w);
    update = λ r w. (done, w);
    delete = λ r w. (done, w);
  };
}

abbrev printed : Value → Text
printed v = []

settled : IsSettled settled_api printed configured tt
unfolding bytes ◌==◌ build_shared_certificate distinct_gateway_namespaces
    build_secret_reference_grant shared_secret_name merge_https_listener merge_listeners
    listeners_equal refs_equal keep_item build_https_listener shared_external_hostname
    shared_internal_hostname
settled = record {
  source = inl (refl, (certificate, refl, (certificate, refl, refl)));
  grants = (inr (grant, refl, refl), tt);
  external = (gateway, items, refl, refl);
  internal = (gateway, items, refl, refl);
}

reconcile_steady_example :
    ◌≡◌ {A = Result (Unit {0}) × Unit {0}}
      (Tls.reconcile settled_api printed (some configured) tt)
      (ok tt, tt)
reconcile_steady_example = reconcile_steady settled_api printed configured tt settled

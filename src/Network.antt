-- ===== src/Network.antt =====
-- operator/internal/controller/reconcilers/networkpolicy.go: who may send to a model's pods. A rule
-- is a peer and the ports it may use, all if there are none.
pub mod Peers
mod Tests
use nebari_llm_serving_pack.Base.{
  ℕ, Bool, true, false, ◌&&◌, not, List, [], ◌∷◌, ◌++◌, if◌then◌else◌, Text, ◌==◌, bytes, Map,
  member,
}
use nebari_llm_serving_pack.Crd.{LlmModel}
use nebari_llm_serving_pack.Naming.{standard_labels}

-- A peer is selected by the labels of its namespace, or by its own in the policy's namespace.
pub data Peer : Type 0 where
  namespace_selector pod_selector : Map Text → Peer

pub record IngressRule : Type 0 where
  pub peer : Peer
  pub tcp_ports : List ℕ

pub record NetworkPolicy : Type 0 where
  pub name : Text
  pub namespace : Text
  pub labels : Map Text
  pub pod_selector : Map Text
  pub ingress : List IngressRule

-- The loop with the values that were seen.
unfoldable pub unique_from : List Text → List Text → List Text
unique_from seen [] = []
unique_from seen (v ∷ values) =
    let kept = unique_from (v ∷ seen) values in
    let skipped = unique_from seen values in
    if not (v == []) && not (member v seen) then v ∷ kept else skipped

unfoldable pub unique_strings : List Text → List Text
unique_strings values = unique_from [] values

unfoldable pub gateway_rule : Text → IngressRule
gateway_rule namespace = record {
  peer = namespace_selector ((bytes "kubernetes.io/metadata.name", namespace) ∷ []);
  tcp_ports = [];
}

unfoldable pub epp_rule : IngressRule
epp_rule = record {
  peer = pod_selector ((bytes "app.kubernetes.io/name", bytes "epp") ∷ []);
  tcp_ports = [];
}

unfoldable pub monitoring_rule : IngressRule
monitoring_rule = record {
  peer = namespace_selector ((bytes "kubernetes.io/metadata.name", bytes "monitoring") ∷ []);
  tcp_ports = 8000 ∷ [];
}

unfoldable pub gateway_rules : List Text → List IngressRule
gateway_rules [] = []
gateway_rules (ns ∷ namespaces) = gateway_rule ns ∷ gateway_rules namespaces

-- The namespaces of the two Gateways are all that is read of the configuration.
unfoldable pub build_network_policy_ingress_rules : Text → Text → List IngressRule
build_network_policy_ingress_rules external_gateway_ns internal_gateway_ns =
    gateway_rules (unique_strings (external_gateway_ns ∷ internal_gateway_ns ∷ []))
    ++ epp_rule ∷ monitoring_rule ∷ []

unfoldable pub build_network_policy : LlmModel → Text → Text → NetworkPolicy
build_network_policy model external_gateway_ns internal_gateway_ns = record {
  name = model.name ++ bytes "-deny-direct";
  namespace = model.namespace;
  labels = standard_labels model;
  pod_selector =
      (bytes "app.kubernetes.io/instance", model.name)
      ∷ (bytes "llm.nebari.dev/model", model.name)
      ∷ [];
  ingress = build_network_policy_ingress_rules external_gateway_ns internal_gateway_ns;
}

-- ===== src/Tls/Build.antt =====
-- BuildSharedCertificate and BuildSecretReferenceGrant of
-- operator/internal/controller/reconcilers/clustertls.go.
use nebari_llm_serving_pack.Base.{
  [], ◌∷◌, ◌++◌, if◌then◌else◌, Text, ◌==◌, bytes, Map, Result, ok, err,
}
use nebari_llm_serving_pack.Naming.{shared_external_hostname, shared_internal_hostname}
use nebari_llm_serving_pack.Tls.Json.{
  scalar, array, object, no_value, value, Fields, no_field, field,
}

abbrev pub shared_tls_certificate_name : Text
shared_tls_certificate_name = bytes "nebari-llm-shared-tls"

abbrev pub shared_tls_secret_name : Text
shared_tls_secret_name = bytes "nebari-llm-shared-tls"

pub record Resource : Type 0 where
  pub kind : Text
  pub name : Text
  pub namespace : Text
  pub labels : Map Text
  pub version : Text
  pub spec : Fields

unfoldable pub shared_tls_labels : Map Text
shared_tls_labels =
    (bytes "app.kubernetes.io/managed-by", bytes "nebari-llm-operator")
    ∷ (bytes "app.kubernetes.io/name", bytes "shared-tls")
    ∷ (bytes "app.kubernetes.io/component", bytes "routing")
    ∷ []

unfoldable pub certificate_spec : Text → Text → Fields
certificate_spec base_domain issuer = field (bytes "secretName") (scalar shared_tls_secret_name) (
    field (bytes "dnsNames")
      (array (
        value (scalar (shared_external_hostname base_domain))
          (value (scalar (shared_internal_hostname base_domain)) no_value)))
      (field (bytes "issuerRef")
        (object (
          field (bytes "kind") (scalar (bytes "ClusterIssuer")) (
            field (bytes "name") (scalar issuer)
              (field (bytes "group") (scalar (bytes "cert-manager.io")) no_field))))
        no_field))

unfoldable pub build_shared_certificate : Text → Text → Text → Result Resource
build_shared_certificate base_domain namespace issuer =
    if base_domain == []
    then err (bytes "baseDomain must be non-empty to build the shared TLS Certificate")
    else (if namespace == []
        then err (bytes "namespace must be non-empty")
        else (if issuer == []
            then err (bytes "clusterIssuerName must be non-empty")
            else ok (record {
              kind = bytes "Certificate";
              name = shared_tls_certificate_name;
              namespace = namespace;
              labels = shared_tls_labels;
              version = [];
              spec = certificate_spec base_domain issuer;
            })))

unfoldable pub grant_spec : Text → Text → Fields
grant_spec from_namespace secret_name =
    field (bytes "from")
      (array (
        value
          (object (
            field (bytes "group") (scalar (bytes "gateway.networking.k8s.io")) (
              field (bytes "kind") (scalar (bytes "Gateway"))
                (field (bytes "namespace") (scalar from_namespace) no_field))))
          no_value))
      (field (bytes "to")
        (array (
          value
            (object (
              field (bytes "group") (scalar []) (
                field (bytes "kind") (scalar (bytes "Secret"))
                  (field (bytes "name") (scalar secret_name) no_field))))
            no_value))
        no_field)

unfoldable pub build_secret_reference_grant : Text → Text → Text → Resource
build_secret_reference_grant from_namespace secret_namespace secret_name = record {
  kind = bytes "ReferenceGrant";
  name = bytes "nebari-llm-shared-tls-from-" ++ from_namespace;
  namespace = secret_namespace;
  labels = shared_tls_labels;
  version = [];
  spec = grant_spec from_namespace secret_name;
}

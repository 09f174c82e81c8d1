-- ===== src/Webhook.antt =====
-- operator/internal/webhook/v1alpha1: the validating webhooks of both kinds. What they read from the
-- API server is a `Reader`, a snapshot of it. Names are ASCII, so that %q only adds the quotes.
pub mod Admission
pub mod Passthrough
pub mod Unique
mod Tests
use nebari_llm_serving_pack.Base.{
  leb, ℕ, zero, suc, Bool, true, false, ◌&&◌, ◌||◌, not, Option, none, some, List, [], ◌∷◌, ◌++◌,
  nat_eq, if◌then◌else◌, any, length, Text, ◌==◌, bytes, contains_text, decimal, Map, lookup,
  Result, ok, err, ◌&>◌,
}
use nebari_llm_serving_pack.Crd.{AccessSpec, LlmModel, PassthroughModel}
use nebari_llm_serving_pack.Naming.{api_key_secret_name, effective_subdomain}

-- What a read gives; `no_match` is a kind that is not installed.
pub data Found (A : Type 0) : Type 0 where
  found : A → Found A
  not_found no_match : Found A
  unread : Text → Found A

-- Reads of a Namespace's labels, and of an object by name and namespace.
pub record Reader : Type 0 where
  pub namespace_labels : Text → Result (Map Text)
  pub get_llm_model : Text → Text → Found LlmModel
  pub get_passthrough_model : Text → Text → Found PassthroughModel

pub record CustomValidator : Type 0 where
  pub reader : Reader
  pub operator_namespace : Text

-- The verb %q of fmt, on text with nothing to escape.
unfoldable pub quoted : Text → Text
quoted s = bytes "\"" ++ (s ++ bytes "\"")

unfoldable pub true_or : Bool → Option Bool → Bool
true_or b none = b
true_or b (some c) = c

-- The checks that the two kinds word alike, `kind` being the kind's name.
unfoldable pub validate_operator_namespace : Text → CustomValidator → Text → Result (Unit {0})
validate_operator_namespace kind v namespace =
    if v.operator_namespace == []
    then ok tt
    else if namespace == v.operator_namespace
    then ok tt
    else err (
        kind
        ++ (bytes " must be created in the operator's namespace "
            ++ (quoted v.operator_namespace
                ++ (bytes " (got "
                    ++ (quoted namespace
                        ++ bytes
                            "); the API-key Secret needs to be co-located with its SecurityPolicy because Envoy Gateway's APIKeyAuth rejects cross-namespace credentialRefs")))))

-- A missing label reads as "".
unfoldable pub text_or_empty : Option Text → Text
text_or_empty none = []
text_or_empty (some value) = value

unfoldable pub check_label : Text → Text → Result (Map Text) → Result (Unit {0})
check_label kind namespace (err e) =
    err (bytes "failed to get namespace " ++ (quoted namespace ++ (bytes ": " ++ e)))
check_label kind namespace (ok labels) =
    if text_or_empty (lookup (bytes "nebari.dev/managed") labels) == bytes "true"
    then ok tt
    else err (
        bytes "namespace "
        ++ (quoted namespace
            ++ (bytes " does not have the required label nebari.dev/managed=true; "
                ++ (kind
                    ++ bytes " resources can only be created in namespaces managed by Nebari"))))

unfoldable pub validate_namespace_label : Text → CustomValidator → Text → Result (Unit {0})
validate_namespace_label kind v namespace =
    check_label kind namespace (v.reader.namespace_labels namespace)

-- `noun` is what the message calls the object.
unfoldable pub validate_access : Text → AccessSpec → Result (Unit {0})
validate_access noun access =
    if true_or false access.public
    then ok tt
    else if nat_eq (length access.groups) 0
    then err (
        bytes "spec.access must declare either public=true or at least one group in groups; a "
        ++ (noun ++ bytes " with neither cannot be accessed by any user"))
    else ok tt

-- A name must be free in the other kind.
unfoldable pub check_collision :
    {A : Type 0} → Text → Text → Text → Text → Found A → Result (Unit {0})
check_collision kind other name namespace (found _) = err (
    bytes "name "
    ++ (quoted name
        ++ (bytes " is already used by "
            ++ (other
                ++ (bytes " in namespace "
                    ++ (quoted namespace
                        ++ (bytes "; "
                            ++ (kind
                                ++ (bytes " and "
                                    ++ (other
                                        ++ (bytes
                                              " names must be unique across both kinds because they share the api-keys Secret "
                                            ++ quoted (api_key_secret_name name))))))))))))
check_collision kind other name namespace not_found = ok tt
check_collision kind other name namespace no_match = ok tt
check_collision kind other name namespace (unread e) = err (
    bytes "checking for name collision with "
    ++ (other ++ (bytes " " ++ (quoted name ++ (bytes ": " ++ e)))))

unfoldable pub empty_dir_preload_warnings : LlmModel → List Text
empty_dir_preload_warnings model =
    if model.spec.model.storage.type == bytes "emptyDir" && true_or false model.spec.model.preload
    then bytes
        "storage type is emptyDir with preload=true: every pod restart triggers a re-download of the model, which may cause significant delays and bandwidth usage; consider using a PVC for persistent storage"
      ∷ []
    else []

unfoldable pub ignore_value {ℓ} : {A : Type ℓ} → Result A → Result (Unit {0})
ignore_value (ok _) = ok tt
ignore_value (err e) = err e

-- ValidateCreate and ValidateUpdate of LLMModel are the same calls.
unfoldable pub validate_llm_model : (Text → Text) → CustomValidator → LlmModel → Result (List Text)
validate_llm_model sha256 v model =
    validate_operator_namespace (bytes "LLMModel") v model.namespace
    &> validate_namespace_label (bytes "LLMModel") v model.namespace
    &> validate_access (bytes "model") model.spec.access
    &> check_collision (bytes "LLMModel") (bytes "PassthroughModel") model.name model.namespace
        (v.reader.get_passthrough_model model.name model.namespace)
    &> ignore_value (effective_subdomain sha256 model)
    &> ok (empty_dir_preload_warnings model)

-- unicode.IsSpace on the bytes of UTF-8: the code points that one, two or three bytes write.
unfoldable pub is_space : ℕ → Bool
is_space c =
    nat_eq c 32 || (nat_eq c 9 || (nat_eq c 10 || (nat_eq c 11 || (nat_eq c 12 || nat_eq c 13))))

-- U+0085 and U+00A0.
unfoldable pub is_space_2 : ℕ → ℕ → Bool
is_space_2 a b = nat_eq a 194 && (nat_eq b 133 || nat_eq b 160)

-- U+1680; U+2000 to U+200A, U+2028, U+2029 and U+202F; U+205F; U+3000.
unfoldable pub is_space_3 : ℕ → ℕ → ℕ → Bool
is_space_3 a b c =
    (nat_eq a 225 && (nat_eq b 154 && nat_eq c 128))
    || ((nat_eq a 226
          && ((nat_eq b 128
                && ((leb 128 c && leb c 138) || (nat_eq c 168 || (nat_eq c 169 || nat_eq c 175))))
              || (nat_eq b 129 && nat_eq c 159)))
        || (nat_eq a 227 && (nat_eq b 128 && nat_eq c 128)))

-- strings.TrimSpace(s) == ""
unfoldable pub is_blank : Text → Bool
is_blank [] = true
is_blank (a ∷ []) = is_space a
is_blank (a ∷ b ∷ []) = (is_space a && is_blank (b ∷ [])) || is_space_2 a b
is_blank (a ∷ b ∷ c ∷ s) =
    let after_1 = is_blank (b ∷ c ∷ s) in
    let after_2 = is_blank (c ∷ s) in
    let after_3 = is_blank s in
    (is_space a && after_1) || ((is_space_2 a b && after_2) || (is_space_3 a b c && after_3))

-- strings.ContainsAny
unfoldable pub contains_any : Text → Text → Bool
contains_any s chars = any (λ c. any (λ d. nat_eq c d) chars) s

unfoldable pub validate_provider : PassthroughModel → Result (Unit {0})
validate_provider pm =
    if is_blank pm.spec.provider.hostname
    then err (bytes "spec.provider.hostname must not be empty")
    else if contains_text pm.spec.provider.hostname (bytes "://")
    then err (
        bytes "spec.provider.hostname must be a bare hostname (got "
        ++ (quoted pm.spec.provider.hostname ++ bytes "); drop the URL scheme"))
    else if contains_any pm.spec.provider.hostname (bytes "/:")
        || contains_any pm.spec.provider.hostname (32 ∷ 9 ∷ 10 ∷ 13 ∷ [])
    then err (
        bytes "spec.provider.hostname must be a bare hostname (got "
        ++ (quoted pm.spec.provider.hostname
            ++ bytes "); drop any port, path, or whitespace (use spec.provider.port for the port)"))
    else if is_blank pm.spec.provider.credential_secret_name
    then err (bytes "spec.provider.credentialSecretName must not be empty")
    else ok tt

-- The loop over the declared ids, the first of which has the index `i`.
unfoldable pub check_declared : ℕ → List Text → Result (Unit {0})
check_declared i [] = ok tt
check_declared i (id ∷ ids) =
    let rest = check_declared (suc i) ids in
    if is_blank id
    then err (bytes "spec.models.declared[" ++ (decimal i ++ bytes "] must not be empty"))
    else rest

unfoldable pub validate_models : PassthroughModel → Result (Unit {0})
validate_models pm =
    if not pm.spec.models.catch_all && nat_eq (length pm.spec.models.declared) 0
    then err (
        bytes
          "spec.models must enable catchAll or declare at least one model id; a passthrough that routes nothing is never reachable")
    else check_declared 0 pm.spec.models.declared

unfoldable pub validate_endpoints : PassthroughModel → Result (Unit {0})
validate_endpoints pm =
    if not (true_or true pm.spec.endpoints.external_enabled)
      && not (true_or true pm.spec.endpoints.internal_enabled)
    then err (
        bytes
          "spec.endpoints cannot disable both external and internal; a passthrough with neither endpoint enabled is never reachable")
    else ok tt

unfoldable pub validate_passthrough_model : CustomValidator → PassthroughModel → Result (Unit {0})
validate_passthrough_model v pm =
    validate_operator_namespace (bytes "PassthroughModel") v pm.namespace
    &> validate_namespace_label (bytes "PassthroughModel") v pm.namespace
    &> validate_access (bytes "passthrough") pm.spec.access
    &> validate_provider pm
    &> validate_models pm
    &> validate_endpoints pm
    &> check_collision (bytes "PassthroughModel") (bytes "LLMModel") pm.name pm.namespace
        (v.reader.get_llm_model pm.name pm.namespace)

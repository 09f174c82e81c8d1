-- ===== src/Auth/Tests.antt =====
-- The properties of the authorization resources at a model whose Secret holds two keys.
use nebari_llm_serving_pack.Base.{
  ◌≡◌, ◌↔◌, true, some, [], ◌∷◌, Text, ◌==◌, bytes, ok, List, In, IsStrict, if◌then◌else◌,
}
use nebari_llm_serving_pack.Auth.{
  DataObject, keys_of, client_ids_from_secret, build_external_security_policy,
  build_internal_security_policy, build_auth_resources,
}
use nebari_llm_serving_pack.Auth.Admits.{passes, entries_of, IsOpenTo, security_policies-admit}
use nebari_llm_serving_pack.Auth.Guarded.{IsGuarded, build_auth_resources-IsGuarded}
use nebari_llm_serving_pack.Auth.Secrets.{
  IsPooled, api_key_secret_names_with, api_key_secret_names_with-IsPooled,
}
use nebari_llm_serving_pack.Routing.{build_routing_resources}
use nebari_llm_serving_pack.Samples.{served, configured}

abbrev secret : DataObject
secret = record {
  name = bytes "phi-api-keys";
  namespace = bytes "llm";
  labels = [];
  entries = (bytes "bo-2", bytes "sk-b") ∷ (bytes "al-1", bytes "sk-a") ∷ [];
}

abbrev other : DataObject
other = record secret { name = bytes "qwen-api-keys" }

abbrev claims : Text → List Text
claims name = if name == bytes "groups" then bytes "llm" ∷ [] else []

security_policies-admit_example :
    ((passes
          (bytes "al-1")
          claims
          (build_external_security_policy served
            (client_ids_from_secret (some secret))
            (other.name ∷ secret.name ∷ [])).authorization
        ≡ true)
      ↔ In (bytes "al-1") (keys_of (entries_of (some secret))))
    × ((passes
            (bytes "al-1")
            claims
            (build_internal_security_policy served configured).authorization
          ≡ true)
        ↔ IsOpenTo served configured claims)
security_policies-admit_example =
    security_policies-admit served configured (some secret) (other.name ∷ secret.name ∷ [])
      (bytes "al-1") claims

build_auth_resources-IsGuarded_example :
    IsGuarded
      (build_routing_resources served configured).external_route
      (build_auth_resources served configured [] []).external_security_policy
    × IsGuarded
        (build_routing_resources served configured).internal_route
        (build_auth_resources served configured [] []).internal_security_policy
build_auth_resources-IsGuarded_example = build_auth_resources-IsGuarded served configured [] []

api_key_secret_names_with-IsPooled_example :
    (names : List Text) × (api_key_secret_names_with (ok (secret ∷ other ∷ [])) secret.name
      ≡ ok names)
    × IsStrict names
    × (In other.name names ↔ IsPooled (secret ∷ other ∷ []) secret.name other.name)
api_key_secret_names_with-IsPooled_example =
    api_key_secret_names_with-IsPooled (secret ∷ other ∷ []) secret.name other.name

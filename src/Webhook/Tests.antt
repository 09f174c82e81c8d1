-- ===== src/Webhook/Tests.antt =====
-- The webhooks on one model of each kind.
use nebari_llm_serving_pack.Base.{
  ◌≤◌, ◌≡◌, ◌↔◌, refl, [], ◌∷◌, length, Text, bytes, ◌==◌, lookup, ok, ◌⊎◌, ◌≢◌, All, true, false,
}
use nebari_llm_serving_pack.Samples.{served, provided}
use nebari_llm_serving_pack.Naming.{
  subdomain_of, effective_subdomain, slugify, slug, to_lower, lower_byte, replace_others,
  collapse_dashes, trim_left, trim_right, is_slug_byte,
}
use nebari_llm_serving_pack.Webhook.{
  is_blank, is_space, is_space_2, is_space_3, validate_passthrough_model, not_found,
  CustomValidator, validate_operator_namespace, check_label, text_or_empty,
  validate_namespace_label, validate_access, true_or, check_collision, ignore_value,
  empty_dir_preload_warnings, validate_llm_model,
}
use nebari_llm_serving_pack.Webhook.Admission.{
  IsPlaced, IsManaged, IsAccessible, IsFree, validate_llm_model_iff,
}
use nebari_llm_serving_pack.Webhook.Passthrough.{IsBareByte, validate_passthrough_model_iff}
use nebari_llm_serving_pack.Webhook.Unique.{
  Objects, IsSound, start, after, write_llm_model, Reachable-IsSound,
}

abbrev no_hash : Text → Text
no_hash s = []

abbrev validator : CustomValidator
validator = record {
  reader = record {
    namespace_labels = λ namespace. ok ((bytes "nebari.dev/managed", bytes "true") ∷ []);
    get_llm_model = λ name namespace. not_found;
    get_passthrough_model = λ name namespace. not_found;
  };
  operator_namespace = bytes "llm";
}

validate_llm_model_iff_example :
    (validate_llm_model no_hash validator served ≡ ok (empty_dir_preload_warnings served)) ↔ (
      IsPlaced validator served.namespace
      × IsManaged validator served.namespace
      × IsAccessible served.spec.access
      × IsFree (validator.reader.get_passthrough_model served.name served.namespace)
      × (length (subdomain_of no_hash served) ≤ 63))
validate_llm_model_iff_example = validate_llm_model_iff no_hash validator served

admitted : validate_llm_model no_hash validator served ≡ ok []
unfolding validate_llm_model validate_operator_namespace check_label text_or_empty
    validate_namespace_label validate_access true_or check_collision ignore_value
    empty_dir_preload_warnings effective_subdomain subdomain_of slugify slug to_lower lower_byte
    replace_others collapse_dashes trim_left trim_right is_slug_byte lookup bytes ◌==◌
admitted = refl

abbrev one : Objects
one = record { llm_models = served ∷ []; passthrough_models = [] }

Reachable-IsSound_example : IsSound one
Reachable-IsSound_example = Reachable-IsSound no_hash one (
    after start (
      write_llm_model validator served [] [] ((λ m i. elim i [ ]), (λ pm i. elim i [ ])) admitted
        (λ n i. elim i [ ])))

validate_passthrough_model_iff_example : (validate_passthrough_model validator provided ≡ ok tt) ↔ (
    IsPlaced validator provided.namespace
    × IsManaged validator provided.namespace
    × IsAccessible provided.spec.access
    × ((is_blank provided.spec.provider.hostname ≡ false)
        × All IsBareByte provided.spec.provider.hostname
        × (is_blank provided.spec.provider.credential_secret_name ≡ false))
    × (((provided.spec.models.catch_all ≡ true) ⊎ (provided.spec.models.declared ≢ []))
        × All (λ id. is_blank id ≡ false) provided.spec.models.declared)
    × ((true_or true provided.spec.endpoints.external_enabled ≡ true)
        ⊎ (true_or true provided.spec.endpoints.internal_enabled ≡ true))
    × IsFree (validator.reader.get_llm_model provided.name provided.namespace))
validate_passthrough_model_iff_example = validate_passthrough_model_iff validator provided

-- U+00A0, U+3000 and a blank are trimmed to nothing; the lone byte 160 is no blank.
unicode_blank : is_blank (194 ∷ 160 ∷ 227 ∷ 128 ∷ 128 ∷ 32 ∷ []) ≡ true
unfolding is_blank is_space is_space_2 is_space_3
unicode_blank = refl

lone_byte : is_blank (160 ∷ []) ≡ false
unfolding is_blank is_space
lone_byte = refl

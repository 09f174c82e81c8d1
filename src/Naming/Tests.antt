-- ===== src/Naming/Tests.antt =====
-- Names of a model whose subdomain is too long.
use nebari_llm_serving_pack.Base.{
  ◌≤◌, ◌≡◌, refl, [], ◌∷◌, ◌++◌, length, Text, ◌==◌, bytes, decimal, err,
}
use nebari_llm_serving_pack.Crd.{LlmModel}
use nebari_llm_serving_pack.Samples.{served}
use nebari_llm_serving_pack.Naming.{
  subdomain_of, slugify, slug, to_lower, lower_byte, replace_others, collapse_dashes, trim_left,
  trim_right, is_slug_byte, effective_subdomain,
}
use nebari_llm_serving_pack.Naming.Slugs.{IsSlug, slugify-IsSlug}

abbrev no_hash : Text → Text
no_hash s = 171 ∷ 205 ∷ 239 ∷ 1 ∷ []

slugify-IsSlug_example :
    IsSlug (slugify no_hash (bytes "Qwen/Qwen3.5 32B"))
    × (length (slugify no_hash (bytes "Qwen/Qwen3.5 32B")) ≤ 57)
slugify-IsSlug_example = slugify-IsSlug no_hash (bytes "Qwen/Qwen3.5 32B")

slug_of_model : slugify no_hash (bytes "Qwen/Qwen3.5 32B-") ≡ bytes "qwen-qwen3-5-32b"
unfolding slugify slug to_lower lower_byte replace_others collapse_dashes trim_left trim_right
    is_slug_byte bytes ◌==◌
slug_of_model = refl

abbrev long : Text
long = bytes "aaaaaaaaaaaaaaaaaaaaaaaaaaaaaaaaaaaaaaaaaaaaaaaaaaaaaaaaaaaaaaaa"

abbrev too_wide : LlmModel
too_wide = record served {
  spec = record served.spec {
    endpoints = record served.spec.endpoints { external_subdomain = long };
  };
}

abbrev message : Text
message =
    bytes "effective subdomain \""
    ++ (long
        ++ (bytes "\" is "
            ++ (decimal 64 ++ bytes " characters long; subdomains must be 63 characters or fewer")))

refused : effective_subdomain no_hash too_wide ≡ err message
unfolding effective_subdomain subdomain_of bytes ◌==◌
refused = refl

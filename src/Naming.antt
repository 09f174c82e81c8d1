-- ===== src/Naming.antt =====
-- operator/internal/controller/reconcilers/common.go: names that the operator derives. SHA-256 is a
-- parameter. Names of objects are ASCII; the case is changed for ASCII letters only.
pub mod Slugs
mod Tests
use nebari_llm_serving_pack.Base.{
  ℕ, ◌+◌, ◌≤◌, Bool, true, false, ◌&&◌, ◌||◌, not, Option, List, [], ◌∷◌, ◌++◌, ltb, leb, nat_eq,
  if◌then◌else◌, take, length, Text, ◌==◌, bytes, decimal, Map, Result, ok, err,
}
use mathlib.Core.List.{reverse}
use nebari_llm_serving_pack.Keys.Names.{hex_encode}
use nebari_llm_serving_pack.Crd.{LlmModel}

unfoldable pub lower_byte : ℕ → ℕ
lower_byte c = if leb b'A' c && leb c b'Z' then c + 32 else c

unfoldable pub to_lower : Text → Text
to_lower [] = []
to_lower (c ∷ s) = lower_byte c ∷ to_lower s

-- `[a-z0-9-]`
unfoldable pub is_slug_byte : ℕ → Bool
is_slug_byte c = (leb b'a' c && leb c b'z') || ((leb b'0' c && leb c b'9') || nat_eq c b'-')

-- Each run of other bytes becomes a dash; `in_run` tells whether one is going on.
unfoldable pub replace_others : Bool → Text → Text
replace_others in_run [] = []
replace_others in_run (c ∷ s) =
    let go_on = replace_others true s in
    let next = replace_others false s in
    if is_slug_byte c then c ∷ next else if in_run then go_on else b'-' ∷ go_on

-- Each run of dashes becomes one.
unfoldable pub collapse_dashes : Bool → Text → Text
collapse_dashes in_run [] = []
collapse_dashes in_run (c ∷ s) =
    let go_on = collapse_dashes true s in
    let next = collapse_dashes false s in
    if nat_eq c b'-' then (if in_run then go_on else c ∷ go_on) else c ∷ next

unfoldable pub trim_left : Text → Text
trim_left [] = []
trim_left (c ∷ s) = let rest = trim_left s in if nat_eq c b'-' then rest else c ∷ s

-- strings.TrimRight: a dash is dropped where only dashes follow.
unfoldable pub trim_right : Text → Text
trim_right [] = []
trim_right (c ∷ s) = let rest = trim_right s in if nat_eq c b'-' && rest == [] then [] else c ∷ rest

-- The name, made a slug of any length.
unfoldable pub slug : Text → Text
slug name = trim_right (trim_left (collapse_dashes false (replace_others false (to_lower name))))

module _ (sha256 : Text → Text) where
  unfoldable pub slugify : Text → Text
  slugify name =
      if leb (length (slug name)) 48
      then slug name
      else trim_right (take 48 (slug name)) ++ b'-' ∷ take 8 (hex_encode (sha256 name))

  unfoldable pub subdomain_of : LlmModel → Text
  subdomain_of model =
      if model.spec.endpoints.external_subdomain == []
      then slugify model.name
      else model.spec.endpoints.external_subdomain

  unfoldable pub effective_subdomain : LlmModel → Result Text
  effective_subdomain model =
      if ltb 63 (length (subdomain_of model))
      then err (
          bytes "effective subdomain \""
          ++ (subdomain_of model
              ++ (bytes "\" is "
                  ++ (decimal (length (subdomain_of model))
                      ++ bytes " characters long; subdomains must be 63 characters or fewer"))))
      else ok (subdomain_of model)

unfoldable pub standard_labels : LlmModel → Map Text
standard_labels model =
    (bytes "app.kubernetes.io/managed-by", bytes "nebari-llm-operator")
    ∷ (bytes "app.kubernetes.io/instance", model.name)
    ∷ (bytes "app.kubernetes.io/name", bytes "llmmodel")
    ∷ (bytes "llm.nebari.dev/model", model.name)
    ∷ []

abbrev pub api_key_secret_suffix : Text
api_key_secret_suffix = bytes "-api-keys"

unfoldable pub api_key_secret_name : Text → Text
api_key_secret_name model_name = model_name ++ api_key_secret_suffix

unfoldable pub api_key_metadata_config_map_name : Text → Text
api_key_metadata_config_map_name model_name = model_name ++ bytes "-api-key-metadata"

unfoldable pub shared_external_hostname : Text → Text
shared_external_hostname base_domain = bytes "llm." ++ base_domain

unfoldable pub shared_internal_hostname : Text → Text
shared_internal_hostname base_domain = bytes "llm-internal." ++ base_domain

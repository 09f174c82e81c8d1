-- ===== src/Api/Middleware.antt =====
-- key-manager/internal/api/middleware.go. The validator is an argument: a function of the token.
use nebari_llm_serving_pack.Base.{
  ℕ, Bool, Option, none, some, List, [], ◌∷◌, ◌++◌, if◌then◌else◌, Text, ◌==◌, bytes, has_prefix,
  lookup, Result, ok, err,
}
use nebari_llm_serving_pack.Api.Types.{
  UserInfo, Item, text_item, other_item, Claim, text, array, texts, other, Claims, Validation,
  valid, not_ready, invalid, message, Response, HandlerFunc,
}

-- The text after as many bytes as a prefix has: strings.TrimPrefix where the prefix is there.
unfoldable pub after_prefix : Text → Text → Text
after_prefix s [] = s
after_prefix [] (p ∷ ps) = []
after_prefix (c ∷ s) (p ∷ ps) = after_prefix s ps

unfoldable pub trim_prefix : Text → Text → Text
trim_prefix s p = if has_prefix s p then after_prefix s p else s

unfoldable pub extract_bearer_token : Text → Result Text
extract_bearer_token auth_header =
    if auth_header == []
    then err (bytes "no Authorization header")
    else if has_prefix auth_header (bytes "Bearer ")
    then (let token = trim_prefix auth_header (bytes "Bearer ") in
        if token == [] then err (bytes "bearer token is empty") else ok token)
    else err (bytes "authorization header must use Bearer scheme")

-- `s, _ := claims[name].(string)`
unfoldable pub text_claim : Text → Claims → Text
text_claim name claims = elim (lookup name claims) [
  | none ↦ []
  | some c ↦ elim c [ text s ↦ s | _ ↦ [] ]
]

unfoldable pub text_items : List Item → List Text
text_items [] = []
text_items (text_item s ∷ items) = s ∷ text_items items
text_items (other_item ∷ items) = text_items items

unfoldable pub groups_of : Claim → List Text
groups_of (array items) = text_items items
groups_of (texts gs) = gs
groups_of (text s) = s ∷ []
groups_of other = []

unfoldable pub extract_groups : Claims → Text → List Text
extract_groups claims claim_name = elim (lookup claim_name claims) [
  | none ↦ []
  | some raw ↦ groups_of raw
]

unfoldable pub user_info_from_claims : Claims → Text → UserInfo
user_info_from_claims claims groups_claim =
    let preferred = text_claim (bytes "preferred_username") claims in
    record {
      username = if preferred == [] then text_claim (bytes "sub") claims else preferred;
      name = text_claim (bytes "name") claims;
      email = text_claim (bytes "email") claims;
      groups = extract_groups claims groups_claim;
    }

-- ErrNotReady of jwt_validator.go, as it prints.
abbrev err_not_ready : Text
err_not_ready = bytes "jwt validator: initial JWKS fetch not yet complete"

pub record AuthConfig (W : Type 0) : Type 0 where
  pub groups_claim : Text
  pub validator : Option (Text → W → Validation × W)
  pub dev_mode : Bool
  pub dev_identity : UserInfo

-- http.Error
unfoldable pub http_error : ℕ → Text → Response
http_error status s = record { status = status; retry_after = none; body = message s }

unfoldable pub groups_claim_or_default : {W : Type 0} → AuthConfig W → Text
groups_claim_or_default cfg = if cfg.groups_claim == [] then bytes "groups" else cfg.groups_claim

module _ {W : Type 0} (cfg : AuthConfig W) (next : HandlerFunc W) where
  -- What follows a validation.
  unfoldable pub after_validation : Validation → W → Response × W
  after_validation (valid claims) w =
      next (some (user_info_from_claims claims (groups_claim_or_default cfg))) w
  after_validation not_ready w = (
    record (http_error 503 (bytes "auth not ready: " ++ err_not_ready)) { retry_after = some 5 },
    w,
  )
  after_validation (invalid e) w = (http_error 401 (bytes "unauthorized: " ++ e), w)

  unfoldable pub check_token : (Text → W → Validation × W) → Result Text → W → Response × W
  check_token validate (err e) w = (http_error 401 (bytes "unauthorized: " ++ e), w)
  check_token validate (ok token) w = let (v, w') = validate token w in after_validation v w'

  unfoldable pub auth_middleware : Text → W → Response × W
  auth_middleware authorization w =
      if cfg.dev_mode then next (some cfg.dev_identity) w else elim cfg.validator [
        | none ↦ (http_error 500 (bytes "auth not configured"), w)
        | some validate ↦ check_token validate (extract_bearer_token authorization) w
      ]

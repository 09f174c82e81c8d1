-- ===== src/Api/Authentication.antt =====
-- Who gets past the middleware of middleware.go.
use nebari_llm_serving_pack.Base.{
  ◌≡◌, ◌⊎◌, ◌↔◌, inl, inr, refl, sym, ap, ◌∙◌, true, false, some, [], ◌∷◌, ◌++◌, ◌≢◌, arith,
  Bool-cases, and-true, nat_eq, nat_eq_iff, Text, ◌==◌, eq_iff, bytes, has_prefix, Result, ok, err,
}
use mathlib.Core.Bool.{false≢true}
use nebari_llm_serving_pack.Api.Types.{Claims, Validation, valid, not_ready, invalid, HandlerFunc}
use nebari_llm_serving_pack.Api.Middleware.{
  AuthConfig, after_prefix, trim_prefix, extract_bearer_token, user_info_from_claims, http_error,
  groups_claim_or_default, after_validation, check_token, auth_middleware,
}

has_prefix-append : (p t : Text) → has_prefix (p ++ t) p ≡ true
unfolding has_prefix
has_prefix-append [] t = refl
has_prefix-append (c ∷ p) t = ground (arith, has_prefix-append p t)

after_prefix-append : (p t : Text) → after_prefix (p ++ t) p ≡ t
unfolding after_prefix
after_prefix-append [] [] = refl
after_prefix-append [] (c ∷ t) = refl
after_prefix-append (c ∷ p) t = after_prefix-append p t

append-after_prefix : (s p : Text) → has_prefix s p ≡ true → s ≡ p ++ after_prefix s p
unfolding has_prefix after_prefix
append-after_prefix [] [] h = refl
append-after_prefix (c ∷ s) [] h = refl
append-after_prefix [] (d ∷ p) h = cc
append-after_prefix (c ∷ s) (d ∷ p) h =
    let (e, k) = and-true (nat_eq c d) (has_prefix s p) h in
    cc ((nat_eq_iff c d).0 e, append-after_prefix s p k)

not_empty : (t : Text) → t ≢ [] → (t == []) ≡ false
unfolding ◌==◌
not_empty [] h = absurd (h refl)
not_empty (c ∷ t) h = refl

bearer_started : (t : Text) → (bytes "Bearer " ++ t == []) ≡ false
unfolding bytes ◌==◌
bearer_started t = refl

-- A header yields a token exactly when it is `Bearer ` and the token, and the token is not empty.
pub extract_bearer_token_iff :
    (header token : Text)
    → (extract_bearer_token header ≡ ok token)
      ↔ ((header ≡ bytes "Bearer " ++ token) × (token ≢ []))
unfolding extract_bearer_token trim_prefix
extract_bearer_token_iff header token = (to, from)
  where
    to : extract_bearer_token header ≡ ok token → (header ≡ bytes "Bearer " ++ token) × (token ≢ [])
    to h = elim (Bool-cases (header == [])) [
      | inl empty ↦ cc (rw empty at h)
      | inr started ↦ elim (Bool-cases (has_prefix header (bytes "Bearer "))) [
        | inr other ↦ cc (rw (started, other) at h)
        | inl scheme ↦ elim (Bool-cases (after_prefix header (bytes "Bearer ") == [])) [
          | inl nothing ↦ cc (rw (started, scheme, nothing) at h)
          | inr some_token ↦
              let same : after_prefix header (bytes "Bearer ") ≡ token =
                cc (rw (started, scheme, some_token) at h) in
              (
                append-after_prefix header (bytes "Bearer ") scheme
                    ∙ ap (λ t. bytes "Bearer " ++ t) same,
                (λ e. false≢true (sym some_token ∙ (eq_iff _ []).1 (same ∙ e))),
              )
        ]
      ]
    ]

    from :
        (header ≡ bytes "Bearer " ++ token) × (token ≢ []) → extract_bearer_token header ≡ ok token
    from (e, h) = rw e (is_ok)
      where
        is_ok : extract_bearer_token (bytes "Bearer " ++ token) ≡ ok token
        is_ok = rw (
          bearer_started token,
          has_prefix-append (bytes "Bearer ") token,
          after_prefix-append (bytes "Bearer ") token,
          not_empty token h,
        )

-- The answer to a request that the middleware stops: 401 or 503, and the next handler is not run.
abbrev pub IsRejected : {W : Type 0} → AuthConfig W → Text → W → Type 0
IsRejected {W} cfg authorization w =
    (((next : HandlerFunc W) → (auth_middleware cfg next authorization w).0.status ≡ 401)
      ⊎ ((next : HandlerFunc W) → (auth_middleware cfg next authorization w).0.status ≡ 503))
    × ((next other : HandlerFunc W)
        → auth_middleware cfg next authorization w ≡ auth_middleware cfg other authorization w)

module _ {W : Type 0} (cfg : AuthConfig W) (validate : Text → W → Validation × W) where
  -- What the middleware does with a token whose validation gives `v`.
  by_validation :
      (next : HandlerFunc W) (authorization token : Text) (w : W)
      → cfg.dev_mode ≡ false
      → cfg.validator ≡ some validate
      → extract_bearer_token authorization ≡ ok token
      → auth_middleware cfg next authorization w
        ≡ after_validation cfg next (validate token w).0 (validate token w).1
  unfolding auth_middleware check_token
  by_validation next authorization token w dev has h = simp (dev, has, h)

  without_token :
      (next : HandlerFunc W) (authorization e : Text) (w : W)
      → cfg.dev_mode ≡ false
      → cfg.validator ≡ some validate
      → extract_bearer_token authorization ≡ err e
      → auth_middleware cfg next authorization w ≡ (http_error 401 (bytes "unauthorized: " ++ e), w)
  unfolding auth_middleware check_token
  without_token next authorization e w dev has h = simp (dev, has, h)

  -- The token of the header is valid, and the next handler runs with the identity of its claims.
  abbrev pub IsPassed : Text → W → Type 0
  IsPassed authorization w =
      (token : Text) × (claims : Claims) × (w' : W) × (extract_bearer_token authorization
        ≡ ok token)
      × (validate token w ≡ (valid claims, w'))
      × ((next : HandlerFunc W)
          → auth_middleware cfg next authorization w
            ≡ next (some (user_info_from_claims claims (groups_claim_or_default cfg))) w')

  without_token-IsRejected :
      (authorization e : Text) (w : W)
      → ((next : HandlerFunc W)
          → auth_middleware cfg next authorization w
            ≡ (http_error 401 (bytes "unauthorized: " ++ e), w))
      → IsRejected cfg authorization w
  unfolding http_error
  without_token-IsRejected authorization e w h =
      (inl (λ next. ap (λ r. r.0.status) (h next)), λ next other. h next ∙ sym (h other))

  by_outcome :
      (authorization token : Text) (w : W) (v : Validation) (w' : W)
      → extract_bearer_token authorization ≡ ok token
      → validate token w ≡ (v, w')
      → ((next : HandlerFunc W)
          → auth_middleware cfg next authorization w ≡ after_validation cfg next v w')
      → IsPassed authorization w ⊎ IsRejected cfg authorization w
  unfolding after_validation http_error
  by_outcome authorization token w (valid claims) w' t e h = inl (token, claims, w', t, e, h)
  by_outcome authorization token w not_ready w' t e h =
      inr (inr (λ next. ap (λ r. r.0.status) (h next)), λ next other. h next ∙ sym (h other))
  by_outcome authorization token w (invalid m) w' t e h =
      inr (inl (λ next. ap (λ r. r.0.status) (h next)), λ next other. h next ∙ sym (h other))

  by_header :
      (authorization : Text) (w : W)
      → cfg.dev_mode ≡ false
      → cfg.validator ≡ some validate
      → (r : Result Text) → extract_bearer_token authorization ≡ r
      → IsPassed authorization w ⊎ IsRejected cfg authorization w
  by_header authorization w dev has (err e) h = inr (
      without_token-IsRejected authorization e w
        (λ next. without_token next authorization e w dev has h))
  by_header authorization w dev has (ok token) h =
      by_outcome authorization token w (validate token w).0 (validate token w).1 h refl
        (λ next. by_validation next authorization token w dev has h)

  -- Outside development mode, with a validator: either the header holds a token that the validator
  -- accepts, and the next handler runs with the identity of its claims; or the answer is 401 or 503
  -- and is the same whatever the next handler is.
  pub auth_middleware-guards :
      (authorization : Text) (w : W)
      → cfg.dev_mode ≡ false
      → cfg.validator ≡ some validate
      → IsPassed authorization w ⊎ IsRejected cfg authorization w
  auth_middleware-guards authorization w dev has =
      by_header authorization w dev has (extract_bearer_token authorization) refl

-- ===== src/Jwt/Sound.antt =====
-- What a token that ValidateToken accepts has been checked for.
use nebari_llm_serving_pack.Base.{
  ℕ, ◌≡◌, ◌⊎◌, inl, inr, refl, ap, ◌∙◌, Bool, true, false, Option, none, some, [], Bool-cases, Text,
  ◌==◌, ==-sound, bytes, lookup, Result, ok, err, Exec,
}
use nebari_llm_serving_pack.Api.Types.{Claims, Validation, valid}
use nebari_llm_serving_pack.Api.Middleware.{text_claim}
use nebari_llm_serving_pack.Jwt.{
  PublicKey, JwtValidator, Http, Header, State, ParseWithClaims, expected_issuer, check_claims,
  check_parsed, refresh_for_unknown_kid, key_after_refresh, cached_or_refreshed, key_for_kid,
  key_func, validate_token,
}

-- The claims are of the issuer's realm and, where a client is pinned, of that client.
abbrev pub IsIssuedFor : JwtValidator → Claims → Type 0
IsIssuedFor v claims =
    (text_claim (bytes "iss") claims ≡ expected_issuer v)
    × ((v.expected_client_id ≡ []) ⊎ (text_claim (bytes "azp") claims ≡ v.expected_client_id))

check_claims-IsIssuedFor :
    (v : JwtValidator) (claims : Claims) (token_valid : Bool) {found : Claims}
    → check_claims v claims token_valid ≡ valid found
    → (token_valid ≡ true) × (claims ≡ found) × IsIssuedFor v claims
unfolding check_claims
check_claims-IsIssuedFor v claims false h = cc h
check_claims-IsIssuedFor v claims true {found} h =
    elim (Bool-cases (text_claim (bytes "iss") claims == expected_issuer v)) [
      | inr other ↦ cc (rw other at h)
      | inl issuer ↦ elim (Bool-cases (v.expected_client_id == [])) [
        | inl any ↦
            (refl, cc (simp (issuer, any) at h), (==-sound _ _ issuer, inl (==-sound _ _ any)))
        | inr pinned ↦ elim (Bool-cases (text_claim (bytes "azp") claims == v.expected_client_id)) [
          | inl azp ↦ (
            refl,
            cc (simp (issuer, pinned, azp) at h),
            (==-sound _ _ issuer, inr (==-sound _ _ azp)),
          )
          | inr stranger ↦ cc (simp (issuer, pinned, stranger) at h)
        ]
      ]
    ]

key_after_refresh-ok :
    (kid : Text) (o : Option PublicKey) {key : PublicKey}
    → key_after_refresh kid o ≡ ok key
    → o ≡ some key
unfolding key_after_refresh
key_after_refresh-ok kid none h = cc h
key_after_refresh-ok kid (some k) h = cc h

module _ {W : Type 0} (http : Http W) (now : ℕ) where
  -- A cached key under the token's key ID.
  abbrev pub IsCached : Header → PublicKey → State W → Type 0
  IsCached header key s =
      (header.is_rsa ≡ true)
      × ((kid : Text) × (header.kid ≡ some kid) × (lookup kid s.0.public_keys ≡ some key))

  refreshed-IsCached :
      (kid : Text) (o : Option PublicKey) (s : State W) {key : PublicKey} {s' : State W}
      → lookup kid s.0.public_keys ≡ o
      → cached_or_refreshed http now kid o s ≡ (ok key, s')
      → lookup kid s'.0.public_keys ≡ some key
  unfolding cached_or_refreshed
  refreshed-IsCached kid (some k) s {key} {s'} e h = rw (← state) (e ∙ cc (ap (λ r. r.0) h))
    where
      state : s ≡ s'
      state = ap (λ r. r.1) h
  refreshed-IsCached kid none s {key} {s'} e h =
      rw (← state) (key_after_refresh-ok kid _ (ap (λ r. r.0) h))
    where
      state : (refresh_for_unknown_kid http now s).1 ≡ s'
      state = ap (λ r. r.1) h

  for_kid-IsCached :
      (o : Option Text) (s : State W) {key : PublicKey} {s' : State W}
      → key_for_kid http now o s ≡ (ok key, s')
      → (kid : Text) × (o ≡ some kid) × (lookup kid s'.0.public_keys ≡ some key)
  unfolding key_for_kid
  for_kid-IsCached none s h = cc (ap (λ r. r.0) h)
  for_kid-IsCached (some kid) s h = (kid, refl, refreshed-IsCached kid _ s refl h)

  key_func-IsCached :
      (header : Header) (s : State W) {key : PublicKey} {s' : State W}
      → key_func http now header s ≡ (ok key, s')
      → IsCached header key s'
  unfolding key_func
  key_func-IsCached header s h = elim (Bool-cases header.is_rsa) [
    | inl rsa ↦ (rsa, for_kid-IsCached header.kid s (simp rsa at h))
    | inr other ↦ cc (simp other at h)
  ]

  -- `header_of` is what the JWT library decodes as the header of a token.
  module _ (parse : ParseWithClaims W) (header_of : Text → Option Header)
      (IsSigned : Text → PublicKey → Claims → Type 0) where
    -- What the JWT library documents: a token is valid only when it has a header, the key function
    -- gives a key for this header, and the key verifies its signature over the claims (and the times
    -- hold).
    abbrev pub Verifies : Type 0
    Verifies =
        (key_of : Header → Exec (State W) PublicKey) (token : Text) (s s' : State W)
        (claims : Claims)
        → parse key_of token s ≡ (ok (claims, true), s')
        → (header : Header) × (key : PublicKey) × (header_of token ≡ some header)
          × (key_of header s ≡ (ok key, s'))
          × IsSigned token key claims

    -- The token's own header names an RSA method and a key ID, under which a key is cached that
    -- verifies the token.
    abbrev pub IsVerified : Text → Claims → State W → Type 0
    IsVerified token claims s =
        (header : Header) × (key : PublicKey) × (header_of token ≡ some header)
        × IsCached header key s
        × IsSigned token key claims

    parsed-IsIssuedFor :
        (r : Result (Claims × Bool)) (v : JwtValidator) {claims : Claims}
        → check_parsed r v ≡ valid claims
        → (r ≡ ok (claims, true)) × IsIssuedFor v claims
    unfolding check_parsed
    parsed-IsIssuedFor (err m) v h = cc h
    parsed-IsIssuedFor (ok (found, token_valid)) v h =
        let (is_valid, same, issued) = check_claims-IsIssuedFor v found token_valid h in
        (cc (is_valid, same), rw (← same) issued)

    accepted_is_sound :
        Verifies
        → (token : Text) (s : State W) (claims : Claims) (s' : State W)
        → ◌≡◌ {A = Validation × State W}
            (
              check_parsed
                  (parse (key_func http now) token s).0
                  (parse (key_func http now) token s).1.0,
              (parse (key_func http now) token s).1,
            )
            (valid claims, s')
        → IsVerified token claims s' × IsIssuedFor s'.0 claims
    accepted_is_sound verifies token s claims s' h =
        let (is_ok, issued) = parsed-IsIssuedFor _ _ (ap (λ r. r.0) h) in
        let state : (parse (key_func http now) token s).1 ≡ s' = ap (λ r. r.1) h in
        let (header, key, of_token, got, signed) =
          verifies (key_func http now) token s s' claims (λ i. (is_ok i, state i)) in
        ((header, key, of_token, key_func-IsCached header s got, signed), rw (← state) issued)

    -- Where the JWT library does what it documents, a token is accepted only by a validator that is
    -- ready, when the token's own header names an RSA method and a key ID, the key that is cached under
    -- this ID verifies the signature over the claims, and the claims are of the expected issuer and,
    -- if a client is pinned, obtained by that client.
    pub validate_token_sound :
        Verifies
        → (token : Text) (s : State W) (claims : Claims) (s' : State W)
        → validate_token http parse now token s ≡ (valid claims, s')
        → (s.0.ready ≡ true) × IsVerified token claims s' × IsIssuedFor s'.0 claims
    unfolding validate_token
    validate_token_sound verifies token s claims s' h = elim (Bool-cases s.0.ready) [
      | inr waiting ↦ cc (simp waiting at h)
      | inl ready ↦
          let (cached, issued) = accepted_is_sound verifies token s claims s' (simp ready at h) in
          (ready, cached, issued)
    ]

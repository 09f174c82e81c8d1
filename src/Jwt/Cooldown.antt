-- ===== src/Jwt/Cooldown.antt =====
-- How often tokens can make the validator call the identity provider: refreshForUnknownKID.
use nebari_llm_serving_pack.Base.{
  ℕ, suc, ◌+◌, ◌≤◌, ◌≡◌, ◌⊎◌, inl, inr, refl, false, ◌&&◌, not, Option, none, some, List, [], ◌∷◌,
  arith, Bool-cases, nat_eq, ltb, Text, Map, Result, ok, err, Exec,
}
use nebari_llm_serving_pack.Jwt.{
  unknown_kid_cooldown, PublicKey, JwtValidator, HttpResponse, Http, Jwk, Header, State, store_keys,
  read_set, collect, ParseWithClaims, read_response, send_request, fetch_public_keys, in_cooldown,
  refresh_for_unknown_kid, cached_or_refreshed, key_for_kid, key_func, validate_token,
}
use nebari_llm_serving_pack.Jwt.Fetched.{IsFetched, failed, replaced, fetch_public_keys-IsFetched}

store_keys-world :
    {W : Type 0} (keys : Map PublicKey) (v : JwtValidator) (w : W)
    → (store_keys keys (v, w)).1.1 ≡ w
unfolding store_keys
store_keys-world [] v w = refl
store_keys-world (entry ∷ keys) v w = refl

read_set-world :
    {W : Type 0} (http : Http W) (r : Result (List Jwk)) (v : JwtValidator) (w : W)
    → (read_set http r (v, w)).1.1 ≡ w
unfolding read_set
read_set-world http (err m) v w = refl
read_set-world http (ok ks) v w = store_keys-world (collect http [] ks) v w

read_response-world :
    {W : Type 0} (http : Http W) (r : Result HttpResponse) (v : JwtValidator) (w : W)
    → (read_response http r (v, w)).1.1 ≡ w
unfolding read_response
read_response-world http (err m) v w = refl
read_response-world http (ok resp) v w = elim (Bool-cases (nat_eq resp.status 200)) [
  | inl fine ↦ simp fine (read_set-world http resp.set v w)
  | inr other ↦ simp other
]

IsFetched-stamp :
    {W : Type 0} {http : Http W} {v : JwtValidator} {w : W} {x : Result (Unit {0}) × State W}
    → IsFetched http v w x
    → x.1.0.last_kid_refresh ≡ v.last_kid_refresh
IsFetched-stamp (failed _) = refl
IsFetched-stamp (replaced _ _ _ _ _) = refl

open_window :
    (now last : ℕ)
    → (not (nat_eq last 0) && ltb now (last + unknown_kid_cooldown)) ≡ false
    → (last ≡ 0) ⊎ (last + unknown_kid_cooldown ≤ now)
open_window now last h = ground arith

-- `calls w` counts the requests sent in `w`; sending one adds at most one.
module _ {W : Type 0} (http : Http W) (calls : W → ℕ) where
  abbrev pub Counts : Type 0
  Counts = (url : Text) (w : W) → calls (http.send url w).1 ≤ suc (calls w)

  -- A step at `now` that either sends nothing and leaves the stamp, or sends at most one request,
  -- is not in the cooldown of the former stamp, and leaves `now` as the stamp.
  pub data IsStep (now : ℕ) (s s' : State W) : Type 0 where
    idle : calls s'.1 ≤ calls s.1 → s'.0.last_kid_refresh ≡ s.0.last_kid_refresh → IsStep now s s'
    fetched :
        calls s'.1 ≤ suc (calls s.1)
        → s'.0.last_kid_refresh ≡ now
        → (s.0.last_kid_refresh ≡ 0) ⊎ (s.0.last_kid_refresh + unknown_kid_cooldown ≤ now)
        → IsStep now s s'

  module _ (counts : Counts) where
    send_request-calls :
        (url : Text) (r : Result (Unit {0})) (v : JwtValidator) (w : W)
        → calls (send_request http url r (v, w)).1.1 ≤ suc (calls w)
    unfolding send_request
    send_request-calls url (err m) v w = omega arith
    send_request-calls url (ok _) v w =
        rw (read_response-world http (http.send url w).0 v (http.send url w).1) (counts url w)

    fetch-calls :
        (v : JwtValidator) (w : W) → calls (fetch_public_keys http (v, w)).1.1 ≤ suc (calls w)
    unfolding fetch_public_keys
    fetch-calls v w = send_request-calls _ _ v w

    refresh-IsStep :
        (now : ℕ) (v : JwtValidator) (w : W)
        → IsStep now (v, w) (refresh_for_unknown_kid http now (v, w)).1
    unfolding refresh_for_unknown_kid in_cooldown
    refresh-IsStep now v w = elim (Bool-cases (in_cooldown now v)) [
      | inl closed ↦ simp closed (idle (omega arith) refl)
      | inr open_now ↦ simp open_now (
          fetched (fetch-calls (record v { last_kid_refresh = now }) w)
            (IsFetched-stamp
              (fetch_public_keys-IsFetched http (record v { last_kid_refresh = now }) w))
            (open_window now v.last_kid_refresh open_now))
    ]

    cached-IsStep :
        (now : ℕ) (kid : Text) (o : Option PublicKey) (s : State W)
        → IsStep now s (cached_or_refreshed http now kid o s).1
    unfolding cached_or_refreshed
    cached-IsStep now kid (some key) s = idle (omega arith) refl
    cached-IsStep now kid none (v, w) = refresh-IsStep now v w

    for_kid-IsStep :
        (now : ℕ) (o : Option Text) (s : State W) → IsStep now s (key_for_kid http now o s).1
    unfolding key_for_kid
    for_kid-IsStep now none s = idle (omega arith) refl
    for_kid-IsStep now (some kid) s = cached-IsStep now kid _ s

    key_func-IsStep :
        (now : ℕ) (header : Header) (s : State W) → IsStep now s (key_func http now header s).1
    unfolding key_func
    key_func-IsStep now header s = elim (Bool-cases header.is_rsa) [
      | inl rsa ↦ simp rsa (for_kid-IsStep now header.kid s)
      | inr other ↦ simp other (idle (omega arith) refl)
    ]

    module _ (parse : ParseWithClaims W) where
      -- What the JWT library documents: it calls the key function at most once for a token.
      abbrev pub CallsOnce : Type 0
      CallsOnce =
          (key_of : Header → Exec (State W) PublicKey) (token : Text) (s : State W)
          → ((parse key_of token s).1 ≡ s)
            ⊎ ((header : Header) × ((parse key_of token s).1 ≡ (key_of header s).1))

      parsed-IsStep :
          (now : ℕ) (s s' : State W)
          → (s' ≡ s) ⊎ ((header : Header) × (s' ≡ (key_func http now header s).1))
          → IsStep now s s'
      parsed-IsStep now s s' (inl same) = rw same (idle (omega arith) refl)
      parsed-IsStep now s s' (inr (header, e)) = rw e (key_func-IsStep now header s)

      pub validate_token-IsStep :
          CallsOnce
          → (now : ℕ) (token : Text) (s : State W)
          → IsStep now s (validate_token http parse now token s).1
      unfolding validate_token
      validate_token-IsStep once now token s = elim (Bool-cases s.0.ready) [
        | inl ready ↦ simp ready (parsed-IsStep now s _ (once (key_func http now) token s))
        | inr waiting ↦ simp waiting (idle (omega arith) refl)
      ]

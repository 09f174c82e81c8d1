-- ===== src/Jwt/Fetched.antt =====
-- What a fetch of the key set leaves: fetchPublicKeys and its callers.
use nebari_llm_serving_pack.Base.{
  ℕ, zero, suc, ◌≡◌, ◌≢◌, ◌⊎◌, inl, inr, refl, sym, ◌∙◌, Bool, true, false, ◌&&◌, Option, none,
  some, List, [], ◌∷◌, ◌++◌, arith, Bool-cases, nat_eq, nat_eq_iff, if◌then◌else◌, Text, ◌==◌,
  bytes, Map, lookup, insert, lookup-insert, Result, ok, err,
}
use nebari_llm_serving_pack.Jwt.{
  PublicKey, JwtValidator, HttpResponse, Jwk, Http, State, store_keys, read_set, read_response,
  send_request, fetch_public_keys, collect, attempted, initial_fetch, parse_rsa_public_key,
}

or_older : Option PublicKey → Option PublicKey → Option PublicKey
or_older none older = older
or_older (some key) older = some key

usable : Result PublicKey → Option PublicKey
usable (err m) = none
usable (ok key) = some key

or_older_assoc : (a b c : Option PublicKey) → or_older (or_older a b) c ≡ or_older a (or_older b c)
unfolding or_older
or_older_assoc none b c = refl
or_older_assoc (some key) b c = refl

or_older-none : (a : Option PublicKey) → or_older a none ≡ a
unfolding or_older
or_older-none none = refl
or_older-none (some key) = refl

-- Where the identity provider publishes the keys of a realm.
abbrev pub certs_url : JwtValidator → Text
certs_url v =
    v.keycloak_url ++ (bytes "/realms/" ++ (v.realm ++ bytes "/protocol/openid-connect/certs"))

module _ {W : Type 0} (http : Http W) where
  -- The key that a set publishes under a key ID: that of the last RSA entry with this ID that can be
  -- read.
  pub newest : Text → List Jwk → Option PublicKey
  newest kid [] = none
  newest kid (k ∷ ks) =
      or_older (newest kid ks) (
        if k.kty == bytes "RSA" && k.kid == kid then usable (parse_rsa_public_key http k) else none)

  -- Why a fetch from `w` gave no keys.
  pub data IsUnusable (v : JwtValidator) (w : W) : Type 0 where
    no_request : {m : Text} → http.new_request (certs_url v) ≡ err m → IsUnusable v w
    no_response : {m : Text} → (http.send (certs_url v) w).0 ≡ err m → IsUnusable v w
    bad_status :
        {resp : HttpResponse}
        → (http.send (certs_url v) w).0 ≡ ok resp
        → resp.status ≢ 200
        → IsUnusable v w
    no_set :
        {resp : HttpResponse} {m : Text}
        → (http.send (certs_url v) w).0 ≡ ok resp
        → resp.set ≡ err m
        → IsUnusable v w
    no_key :
        {resp : HttpResponse} {ks : List Jwk}
        → (http.send (certs_url v) w).0 ≡ ok resp
        → resp.set ≡ ok ks
        → ((kid : Text) → newest kid ks ≡ none)
        → IsUnusable v w

  -- With an error the validator stays as it was, and the provider gave no keys. Without, the provider
  -- answered 200 with a key set, and the validator's keys are those of the set and no others, at
  -- least one; nothing else of the validator changes.
  pub data IsFetched (v : JwtValidator) (w : W) : Result (Unit {0}) × State W → Type 0 where
    failed : {m : Text} {w' : W} → IsUnusable v w → IsFetched v w (err m, (v, w'))
    replaced :
        {resp : HttpResponse} {ks : List Jwk} {keys : Map PublicKey} {w' : W}
        → (http.send (certs_url v) w).0 ≡ ok resp
        → resp.status ≡ 200
        → resp.set ≡ ok ks
        → keys ≢ []
        → ((kid : Text) → lookup kid keys ≡ newest kid ks)
        → IsFetched v w (ok tt, (record v { public_keys = keys }, w'))

  result_cases :
      (r : Result PublicKey) → ((key : PublicKey) × (r ≡ ok key)) ⊎ ((m : Text) × (r ≡ err m))
  result_cases (ok key) = inl (key, refl)
  result_cases (err m) = inr (m, refl)

  -- One more entry, before the others.
  collect-step :
      (kid : Text) (keys : Map PublicKey) (k : Jwk) (ks : List Jwk)
      → ((held : Map PublicKey)
          → lookup kid (collect http held ks) ≡ or_older (newest kid ks) (lookup kid held))
      → lookup kid (collect http keys (k ∷ ks)) ≡ or_older (newest kid (k ∷ ks)) (lookup kid keys)
  unfolding collect newest or_older usable
  collect-step kid keys k ks rest = elim (Bool-cases (k.kty == bytes "RSA")) [
    | inr other ↦ rw (other, rest keys, or_older-none (newest kid ks))
    | inl rsa ↦ elim (result_cases (parse_rsa_public_key http k)) [
      | inr (m, unread) ↦ elim (Bool-cases (k.kid == kid)) [
        | inl hit ↦ rw (rsa, unread, hit, rest keys, or_older-none (newest kid ks))
        | inr miss ↦ rw (rsa, unread, miss, rest keys, or_older-none (newest kid ks))
      ]
      | inl (key, read) ↦ elim (Bool-cases (k.kid == kid)) [
        | inl hit ↦
            rw (rsa, read, hit, rest (insert k.kid key keys), lookup-insert k.kid kid key keys, hit)
              (sym (or_older_assoc (newest kid ks) (some key) (lookup kid keys)))
        | inr miss ↦ rw (
          rsa,
          read,
          miss,
          rest (insert k.kid key keys),
          lookup-insert k.kid kid key keys,
          miss,
          or_older-none (newest kid ks),
        )
      ]
    ]
  ]

  lookup-collect :
      (kid : Text) (keys : Map PublicKey) (ks : List Jwk)
      → lookup kid (collect http keys ks) ≡ or_older (newest kid ks) (lookup kid keys)
  lookup-collect kid keys [] = unfold collect in unfold newest in unfold or_older in refl
  lookup-collect kid keys (k ∷ ks) = collect-step kid keys k ks (λ held. lookup-collect kid held ks)

  collected : (kid : Text) (ks : List Jwk) → lookup kid (collect http [] ks) ≡ newest kid ks
  unfolding lookup newest
  collected kid ks = lookup-collect kid [] ks ∙ or_older-none (newest kid ks)

  module _ (v : JwtValidator) (w : W) where
    store_keys-IsFetched :
        (resp : HttpResponse) (ks : List Jwk) (keys : Map PublicKey) (w' : W)
        → (http.send (certs_url v) w).0 ≡ ok resp
        → resp.status ≡ 200
        → resp.set ≡ ok ks
        → ((kid : Text) → lookup kid keys ≡ newest kid ks)
        → IsFetched v w (store_keys keys (v, w'))
    unfolding store_keys lookup
    store_keys-IsFetched resp ks [] w' sent fine decoded held =
        failed (no_key sent decoded (λ kid. sym (held kid)))
    store_keys-IsFetched resp ks (entry ∷ keys) w' sent fine decoded held =
        replaced sent fine decoded (λ e. cc e) held

    read_set-IsFetched :
        (resp : HttpResponse) (r : Result (List Jwk)) (w' : W)
        → (http.send (certs_url v) w).0 ≡ ok resp
        → resp.status ≡ 200
        → resp.set ≡ r
        → IsFetched v w (read_set http r (v, w'))
    unfolding read_set
    read_set-IsFetched resp (err m) w' sent fine decoded = failed (no_set sent decoded)
    read_set-IsFetched resp (ok ks) w' sent fine decoded =
        store_keys-IsFetched resp ks (collect http [] ks) w' sent fine decoded
          (λ kid. collected kid ks)

    read_response-IsFetched :
        (r : Result HttpResponse) (w' : W)
        → (http.send (certs_url v) w).0 ≡ r
        → IsFetched v w (read_response http r (v, w'))
    unfolding read_response
    read_response-IsFetched (err m) w' sent = failed (no_response sent)
    read_response-IsFetched (ok resp) w' sent = elim (Bool-cases (nat_eq resp.status 200)) [
      | inl fine ↦
          simp fine (read_set-IsFetched resp resp.set w' sent ((nat_eq_iff _ _).0 fine) refl)
      | inr other ↦ simp other (failed (bad_status sent (λ e. other_status e other)))
    ]
      where
        other_status : {n : ℕ} → n ≡ 200 → nat_eq n 200 ≡ false → ⊥
        other_status e h = ground arith

    send_request-IsFetched :
        (r : Result (Unit {0}))
        → http.new_request (certs_url v) ≡ r
        → IsFetched v w (send_request http (certs_url v) r (v, w))
    unfolding send_request
    send_request-IsFetched (err m) made = failed (no_request made)
    send_request-IsFetched (ok _) made = read_response-IsFetched _ _ refl

    -- A fetch fails only when the provider gives no keys (no request, no answer, another status than
    -- 200, no key set, or none with a readable RSA key), and then the cached keys stay in use. A fetch
    -- that succeeds had the answer 200 with a key set, and the keys of that set replace all the cached
    -- ones, of two with one key ID the later one; at least one is there, and nothing else changes.
    pub fetch_public_keys-IsFetched : IsFetched v w (fetch_public_keys http (v, w))
    unfolding fetch_public_keys
    fetch_public_keys-IsFetched = send_request-IsFetched _ refl

-- Either the validator is ready and has a key, or it is as it was.
abbrev pub IsStarted : {W : Type 0} → JwtValidator → Bool × State W → Type 0
IsStarted v r =
    ((r.0 ≡ true) × (r.1.0.ready ≡ true) × (r.1.0.public_keys ≢ [])) ⊎ ((r.0 ≡ false) × (r.1.0 ≡ v))

attempted-IsStarted :
    {W : Type 0} (v : JwtValidator) (next : State W → Bool × State W)
    → ((w : W) → IsStarted v (next (v, w)))
    → (http : Http W) (w : W) {x : Result (Unit {0}) × State W} → IsFetched http v w x
    → IsStarted v (attempted next x.0 x.1)
unfolding attempted
attempted-IsStarted v next h http w (failed {w'} _) = h w'
attempted-IsStarted v next h http w (replaced sent fine decoded some_key held) =
    inl (refl, refl, some_key)

-- The attempts at a first fetch, until one succeeds or Stop comes, tell what they did: with true the
-- validator is ready and has at least one key, with false it is as it was before them, whatever the
-- number of attempts that Stop leaves time for, in the retries and in the slow poll.
pub initial_fetch-IsStarted :
    {W : Type 0} (http : Http W) (n : ℕ) (v : JwtValidator) (w : W)
    → IsStarted v (initial_fetch http n (v, w))
unfolding initial_fetch
initial_fetch-IsStarted http zero v w = inr (refl, refl)
initial_fetch-IsStarted http (suc n) v w =
    attempted-IsStarted v (initial_fetch http n) (λ w'. initial_fetch-IsStarted http n v w') http w
      (fetch_public_keys-IsFetched http v w)

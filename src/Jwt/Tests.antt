-- ===== src/Jwt/Tests.antt =====
-- The validator with an identity provider that answers every request with one key. The world counts
-- the requests.
use nebari_llm_serving_pack.Base.{
  ℕ, suc, ◌+◌, ◌*◌, ◌≤◌, ◌≡◌, inl, inr, refl, ap, Bool, true, Option, some, List, [], ◌∷◌, arith,
  Text, bytes, ◌==◌, lookup, insert, Result, ok, err, In, In-cons,
}
use nebari_llm_serving_pack.Api.Types.{Claims, text, valid}
use nebari_llm_serving_pack.Api.Middleware.{text_claim}
use nebari_llm_serving_pack.Jwt.{
  initial_fetch, unknown_kid_cooldown, PublicKey, JwtValidator, Http, Header, State,
  ParseWithClaims, key_func, key_for_kid, cached_or_refreshed, key_after_refresh,
  refresh_for_unknown_kid, in_cooldown, fetch_public_keys, send_request, read_response, read_set,
  collect, store_keys, parse_rsa_public_key, rsa_public_key, validate_token, check_parsed,
  check_claims, expected_issuer,
}
use nebari_llm_serving_pack.Jwt.Cooldown.{Counts, CallsOnce}
use nebari_llm_serving_pack.Jwt.Rate.{validate_all, validate_all-rate}
use nebari_llm_serving_pack.Jwt.Fetched.{
  IsFetched, IsStarted, fetch_public_keys-IsFetched, initial_fetch-IsStarted,
}
use nebari_llm_serving_pack.Jwt.Sound.{IsIssuedFor, IsVerified, Verifies, validate_token_sound}

abbrev http : Http ℕ
http = record {
  new_request = λ url. ok tt;
  send = λ url w. (
    ok (record {
      status = 200;
      set = ok (record { kty = bytes "RSA"; kid = bytes "k"; n = bytes "n"; e = bytes "e" } ∷ []);
    }),
    suc w,
  );
  base64_url_decode = λ s. ok s;
}

abbrev claims : Claims
claims = (bytes "iss", text (bytes "kc/realms/nebari")) ∷ []

abbrev header_of : Text → Header
header_of token = record { alg = bytes "RS256"; is_rsa = true; kid = some token }

-- A token is its key ID.
unfoldable claims_with : Result PublicKey → Result (Claims × Bool)
claims_with (ok key) = ok (claims, true)
claims_with (err m) = err m

abbrev parse : ParseWithClaims ℕ
parse key_of token s = let (r, s') = key_of (header_of token) s in (claims_with r, s')

abbrev validator : JwtValidator
validator = record {
  keycloak_url = bytes "kc";
  issuer_url = bytes "kc";
  realm = bytes "nebari";
  expected_client_id = [];
  public_keys = [];
  last_kid_refresh = 0;
  ready = true;
}

abbrev IsSigned : Text → PublicKey → Claims → Type 0
IsSigned token key c = c ≡ claims

fetch_public_keys-IsFetched_example :
    IsFetched http validator 5 (fetch_public_keys http (validator, 5))
fetch_public_keys-IsFetched_example = fetch_public_keys-IsFetched http validator 5

claims_with-ok :
    (r : Result PublicKey) {c : Claims}
    → claims_with r ≡ ok (c, true)
    → (key : PublicKey) × (r ≡ ok key) × (c ≡ claims)
unfolding claims_with
claims_with-ok (ok key) h = (key, refl, cc h)
claims_with-ok (err m) h = cc h

read_header : Text → Option Header
read_header token = some (header_of token)

parse-Verifies : Verifies http 7 parse read_header IsSigned
unfolding read_header
parse-Verifies key_of token s s' c h =
    let (key, is_ok, e) = claims_with-ok (key_of (header_of token) s).0 (ap (λ r. r.0) h) in
    let state : (key_of (header_of token) s).1 ≡ s' = ap (λ r. r.1) h in
    (header_of token, key, refl, (λ i. (is_ok i, state i)), e)

abbrev after : State ℕ
after = (validate_token http parse 7 (bytes "k") (validator, 5)).1

accepted : validate_token http parse 7 (bytes "k") (validator, 5) ≡ (valid claims, after)
unfolding validate_token key_func key_for_kid cached_or_refreshed key_after_refresh
    refresh_for_unknown_kid in_cooldown fetch_public_keys send_request read_response read_set
    collect store_keys parse_rsa_public_key rsa_public_key claims_with check_parsed check_claims
    expected_issuer text_claim lookup insert bytes ◌==◌
accepted = refl

validate_token_sound_example :
    (true ≡ true)
    × IsVerified http 7 parse read_header IsSigned (bytes "k") claims after
    × IsIssuedFor after.0 claims
validate_token_sound_example =
    validate_token_sound http 7 parse read_header IsSigned parse-Verifies (bytes "k") (validator, 5)
      claims after accepted

abbrev calls : ℕ → ℕ
calls w = w

send-Counts : Counts http calls
send-Counts url w = omega arith

parse-CallsOnce : CallsOnce http calls send-Counts parse
parse-CallsOnce key_of token s = inr (header_of token, refl)

-- Two forged tokens, a second apart.
abbrev forged : List (ℕ × Text)
forged = (1000000000, bytes "x") ∷ (2000000000, bytes "y") ∷ []

forged_times : (r : ℕ × Text) → In r forged → (1000000000 ≤ r.0) × (r.0 ≤ 2000000000)
forged_times r i = elim (In-cons i) [
  | inl e ↦ rw e (omega arith, omega arith)
  | inr j ↦ elim (In-cons j) [ inl e ↦ rw e (omega arith, omega arith) | inr k ↦ elim k [ ] ]
]

validate_all-rate_example :
    (validate_all http parse forged (validator, 5)).1 * unknown_kid_cooldown + 1000000000
    ≤ 5 * unknown_kid_cooldown + unknown_kid_cooldown + 2000000000
validate_all-rate_example =
    validate_all-rate http calls parse send-Counts parse-CallsOnce 1000000000 2000000000 forged
      (validator, 5) (omega arith) (omega arith) forged_times

initial_fetch-IsStarted_example : IsStarted validator (initial_fetch http 5 (validator, 0))
initial_fetch-IsStarted_example = initial_fetch-IsStarted http 5 validator 0

-- ===== src/Jwt.antt =====
-- key-manager/internal/api/jwt_validator.go. Outside of the repository, and so parameters: the HTTP
-- client with the JSON decoder (`Http`), base64url, and the JWT library (`Jwt`). A call reads the
-- clock once: the reading is its argument `now`, in nanoseconds. Each call is one step: the lock,
-- the sharing of a fetch by concurrent callers and a caller that gives up waiting are not modelled.
pub mod Fetched
pub mod Cooldown
pub mod Rate
pub mod Sound
mod Tests
use nebari_llm_serving_pack.Base.{
  ℕ, zero, suc, ◌+◌, ◌*◌, ◌%◌, ◌^◌, Bool, true, false, ◌&&◌, not, Option, none, some, List, [], ◌∷◌,
  ◌++◌, if◌then◌else◌, ltb, nat_eq, Text, ◌==◌, bytes, has_suffix, take, length, ◌-◌, decimal, Map,
  lookup, insert, Result, ok, err, Exec, wrap_result,
}
use nebari_llm_serving_pack.Api.Types.{Claims, Validation, valid, not_ready, invalid}
use nebari_llm_serving_pack.Api.Middleware.{text_claim}

-- 30 seconds.
abbrev pub unknown_kid_cooldown : ℕ
unknown_kid_cooldown = 30000000000

pub record Jwk : Type 0 where
  pub kty : Text
  pub kid : Text
  pub n : Text
  pub e : Text

-- rsa.PublicKey: the exponent is a Go int, here the 64-bit word that holds it.
pub record PublicKey : Type 0 where
  pub n : ℕ
  pub e : ℕ

pub record JwtValidator : Type 0 where
  pub keycloak_url : Text
  pub issuer_url : Text
  pub realm : Text
  pub expected_client_id : Text
  pub public_keys : Map PublicKey
  pub last_kid_refresh : ℕ
  pub ready : Bool

-- A response, with its body decoded as a key set.
pub record HttpResponse : Type 0 where
  pub status : ℕ
  pub set : Result (List Jwk)

pub record Http (W : Type 0) : Type 0 where
  pub new_request : Text → Result (Unit {0})
  pub send : Text → Exec W HttpResponse
  pub base64_url_decode : Text → Result Text

-- A token's header, as far as it is looked at.
pub record Header : Type 0 where
  pub alg : Text
  pub is_rsa : Bool
  pub kid : Option Text

-- The validator, and the world behind it.
abbrev pub State : Type 0 → Type 0
State W = JwtValidator × W

-- jwt.ParseWithClaims with a key function: the claims, and whether the token is valid.
abbrev pub ParseWithClaims : Type 0 → Type 0
ParseWithClaims W = (Header → Exec (State W) PublicKey) → Text → Exec (State W) (Claims × Bool)

-- strings.TrimSuffix(url, "/")
unfoldable pub trim_slash : Text → Text
trim_slash url = if has_suffix url (bytes "/") then take (length url - 1) url else url

unfoldable pub new_jwt_validator : Text → Text → JwtValidator
new_jwt_validator keycloak_url realm = record {
  keycloak_url = trim_slash keycloak_url;
  issuer_url = trim_slash keycloak_url;
  realm = realm;
  expected_client_id = [];
  public_keys = [];
  last_kid_refresh = 0;
  ready = false;
}

unfoldable pub set_issuer_url : Text → JwtValidator → JwtValidator
set_issuer_url url v = if url == [] then v else record v { issuer_url = trim_slash url }

unfoldable pub set_expected_client_id : Text → JwtValidator → JwtValidator
set_expected_client_id client_id v = record v { expected_client_id = client_id }

-- big.Int.SetBytes
unfoldable pub big_endian : ℕ → Text → ℕ
big_endian n [] = n
big_endian n (b ∷ bs) = big_endian (n * 256 + b) bs

-- The loop over the exponent's bytes, on 64 bits.
unfoldable pub exponent : ℕ → Text → ℕ
exponent e [] = e
exponent e (b ∷ bs) = exponent ((e * 256 + b) % 2 ^ 64) bs

unfoldable pub rsa_public_key : Result Text → Result Text → Result PublicKey
rsa_public_key (err m) e = err (bytes "failed to decode N: " ++ m)
rsa_public_key (ok n_bytes) (err m) = err (bytes "failed to decode E: " ++ m)
rsa_public_key (ok n_bytes) (ok e_bytes) =
    ok (record { n = big_endian 0 n_bytes; e = exponent 0 e_bytes })

unfoldable pub expected_issuer : JwtValidator → Text
expected_issuer v = v.issuer_url ++ (bytes "/realms/" ++ v.realm)

-- The checks of ValidateToken on the claims of a parsed token.
unfoldable pub check_claims : JwtValidator → Claims → Bool → Validation
check_claims v claims token_valid =
    if token_valid
    then if text_claim (bytes "iss") claims == expected_issuer v
      then if v.expected_client_id == []
        then valid claims
        else if text_claim (bytes "azp") claims == v.expected_client_id
        then valid claims
        else invalid (
            bytes "invalid azp: expected "
            ++ (v.expected_client_id ++ (bytes ", got " ++ text_claim (bytes "azp") claims)))
      else invalid (
          bytes "invalid issuer: expected "
          ++ (expected_issuer v ++ (bytes ", got " ++ text_claim (bytes "iss") claims)))
    else invalid (bytes "invalid token")

unfoldable pub check_parsed : Result (Claims × Bool) → JwtValidator → Validation
check_parsed (err m) v = invalid (bytes "token validation failed: " ++ m)
check_parsed (ok (claims, token_valid)) v = check_claims v claims token_valid

unfoldable pub store_keys : {W : Type 0} → Map PublicKey → Exec (State W) (Unit {0})
store_keys [] s = (err (bytes "no valid RSA keys found"), s)
store_keys (entry ∷ keys) (v, w) = (ok tt, (record v { public_keys = entry ∷ keys }, w))

-- Another refresh was started less than the cooldown ago.
unfoldable pub in_cooldown : ℕ → JwtValidator → Bool
in_cooldown now v =
    not (nat_eq v.last_kid_refresh 0) && ltb now (v.last_kid_refresh + unknown_kid_cooldown)

unfoldable pub key_after_refresh : Text → Option PublicKey → Result PublicKey
key_after_refresh kid none =
    err (bytes "unknown key ID: " ++ (kid ++ bytes " (not found after key refresh)"))
key_after_refresh kid (some key) = ok key

unfoldable pub attempted :
    {W : Type 0} → (State W → Bool × State W) → Result (Unit {0}) → State W → Bool × State W
attempted next (ok _) (v, w) = (true, (record v { ready = true }, w))
attempted next (err m) s = next s

module _ {W : Type 0} (http : Http W) where
  unfoldable pub parse_rsa_public_key : Jwk → Result PublicKey
  parse_rsa_public_key k = rsa_public_key (http.base64_url_decode k.n) (http.base64_url_decode k.e)

  -- The loop over the keys of the set: of two keys with one `kid` the later one counts.
  unfoldable pub collect : Map PublicKey → List Jwk → Map PublicKey
  collect keys [] = keys
  collect keys (k ∷ ks) =
      if k.kty == bytes "RSA"
      then elim (parse_rsa_public_key k) [
        | err m ↦ collect keys ks
        | ok key ↦ collect (insert k.kid key keys) ks
      ]
      else collect keys ks

  unfoldable pub read_set : Result (List Jwk) → Exec (State W) (Unit {0})
  read_set (err m) s = (err (bytes "failed to decode JWKS: " ++ m), s)
  read_set (ok ks) s = store_keys (collect [] ks) s

  unfoldable pub read_response : Result HttpResponse → Exec (State W) (Unit {0})
  read_response (err m) s = (err (bytes "failed to fetch keys: " ++ m), s)
  read_response (ok resp) s =
      if nat_eq resp.status 200
      then read_set resp.set s
      else (err (bytes "failed to fetch keys: status " ++ decimal resp.status), s)

  unfoldable pub send_request : Text → Result (Unit {0}) → Exec (State W) (Unit {0})
  send_request url (err m) s = (err (bytes "failed to create request: " ++ m), s)
  send_request url (ok _) (v, w) = let (r, w') = http.send url w in read_response r (v, w')

  unfoldable pub fetch_public_keys : Exec (State W) (Unit {0})
  fetch_public_keys (v, w) =
      let certs_url =
        v.keycloak_url
        ++ (bytes "/realms/" ++ (v.realm ++ bytes "/protocol/openid-connect/certs")) in
      send_request certs_url (http.new_request certs_url) (v, w)

  unfoldable pub refresh_for_unknown_kid : ℕ → Exec (State W) (Unit {0})
  refresh_for_unknown_kid now (v, w) =
      if in_cooldown now v
      then (err (bytes "unknown-kid JWKS refresh suppressed by cooldown"), (v, w))
      else fetch_public_keys (record v { last_kid_refresh = now }, w)

  unfoldable pub cached_or_refreshed : ℕ → Text → Option PublicKey → Exec (State W) PublicKey
  cached_or_refreshed now kid (some key) s = (ok key, s)
  cached_or_refreshed now kid none s =
      let (r, s') = refresh_for_unknown_kid now s in
      (key_after_refresh kid (lookup kid s'.0.public_keys), s')

  unfoldable pub key_for_kid : ℕ → Option Text → Exec (State W) PublicKey
  key_for_kid now none s = (err (bytes "missing kid in token header"), s)
  key_for_kid now (some kid) s = cached_or_refreshed now kid (lookup kid s.0.public_keys) s

  -- The function that ValidateToken gives to the parser.
  unfoldable pub key_func : ℕ → Header → Exec (State W) PublicKey
  key_func now header s =
      if header.is_rsa
      then key_for_kid now header.kid s
      else (err (bytes "unexpected signing method: " ++ header.alg), s)

  unfoldable pub validate_token : ParseWithClaims W → ℕ → Text → State W → Validation × State W
  validate_token parse now token s =
      if s.0.ready
      then (let (r, s') = parse (key_func now) token s in (check_parsed r s'.0, s'))
      else (not_ready, s)

  -- Both loops of initialFetch, the retries and the slow poll, which does not end by itself: `n` is
  -- the number of attempts that may be made before Stop. The result is false when Stop came before
  -- one of them succeeded. The delays between attempts are left out.
  unfoldable pub initial_fetch : ℕ → State W → Bool × State W
  initial_fetch zero s = (false, s)
  initial_fetch (suc n) s = let (r, s') = fetch_public_keys s in attempted (initial_fetch n) r s'

-- ===== src/Api/Handler.antt =====
-- key-manager/internal/api/handler.go, and the choice of the handler in cmd/main.go. The routes of
-- net/http's ServeMux are matched before: a `Route` is a match with its path values and its body,
-- decoded (`none` where the body is no JSON). `no_route` carries the answer that the ServeMux gives
-- itself where no pattern matches: 404, 405 for another method, or a redirect to the clean path.
use nebari_llm_serving_pack.Base.{
  ℕ, Bool, true, false, ◌&&◌, Option, none, some, List, [], ◌∷◌, if◌then◌else◌, Text, ◌==◌, bytes,
  has_prefix, Result, ok, err,
}
use nebari_llm_serving_pack.Keys.Store.{KeyInfo, CreateKeyResult}
use nebari_llm_serving_pack.Models.{ModelInfo}
use nebari_llm_serving_pack.Api.Types.{
  UserInfo, nothing, message, identity, models, keys, created, Body, Response, HandlerFunc,
  ModelLister, KeyManager,
}
use nebari_llm_serving_pack.Api.Middleware.{http_error, AuthConfig, auth_middleware}

pub record CreateKeyRequest : Type 0 where
  pub model_name : Text
  pub description : Text

pub data Route : Type 0 where
  healthz_route me_route models_route keys_route : Route
  create_route : Option CreateKeyRequest → Route
  delete_route : Text → Text → Text → Route
  no_route : Response → Route

unfoldable pub healthz : Response
healthz = record { status = 200; retry_after = none; body = message (bytes "ok\n") }

unfoldable pub write_json : ℕ → Body → Response
write_json status body = record { status = status; retry_after = none; body = body }

unfoldable pub unauthorized : Response
unauthorized = http_error 401 (bytes "unauthorized")

unfoldable pub internal_error : Response
internal_error = http_error 500 (bytes "internal server error")

unfoldable pub any_named : Text → List ModelInfo → Bool
any_named name [] = false
any_named name (m ∷ ms) = let rest = any_named name ms in if m.name == name then true else rest

-- The first key with the client ID and the namespace.
unfoldable pub find_key : Text → Text → List KeyInfo → Option KeyInfo
find_key namespace client_id [] = none
find_key namespace client_id (k ∷ ks) =
    let rest = find_key namespace client_id ks in
    if k.client_id == client_id && k.namespace == namespace then some k else rest

module _ {W : Type 0} (lister : ModelLister W) (manager : KeyManager W) where
  unfoldable pub get_me : HandlerFunc W
  get_me none w = (unauthorized, w)
  get_me (some user) w = (write_json 200 (identity user), w)

  unfoldable pub get_models : HandlerFunc W
  get_models none w = (unauthorized, w)
  get_models (some user) w = (write_json 200 (models (lister user.groups w)), w)

  unfoldable pub listed_keys : Result (List KeyInfo) → Response
  listed_keys (ok ks) = write_json 200 (keys ks)
  listed_keys (err e) = internal_error

  unfoldable pub get_keys : HandlerFunc W
  get_keys none w = (unauthorized, w)
  get_keys (some user) w =
      let (r, w') = manager.list_keys_for_user user.username w in (listed_keys r, w')

  unfoldable pub created_key : Result CreateKeyResult → Response
  created_key (ok r) = write_json 201 (created r)
  created_key (err e) = internal_error

  unfoldable pub create_key : Option CreateKeyRequest → HandlerFunc W
  create_key body none w = (unauthorized, w)
  create_key none (some user) w = (http_error 400 (bytes "bad request: invalid JSON body"), w)
  create_key (some req) (some user) w =
      if any_named req.model_name (lister user.groups w)
      then (let (r, w') = manager.create_key req.model_name user.username req.description w in
          (created_key r, w'))
      else (http_error 403 (bytes "forbidden: no access to model"), w)

  unfoldable pub revoked_key : Result (Unit {0}) → Response
  revoked_key (ok _) = record { status = 204; retry_after = none; body = nothing }
  revoked_key (err e) = internal_error

  -- deleteKey from the search among the listed keys on.
  unfoldable pub delete_found : UserInfo → Text → Text → Option KeyInfo → W → Response × W
  delete_found user model_name client_id none w = (http_error 404 (bytes "not found"), w)
  delete_found user model_name client_id (some found) w =
      if found.creator == user.username
      then (let (r, w') = manager.revoke_key model_name client_id w in (revoked_key r, w'))
      else (http_error 403 (bytes "forbidden: key belongs to another user"), w)

  unfoldable pub delete_listed :
      UserInfo → Text → Text → Text → Result (List KeyInfo) → W → Response × W
  delete_listed user namespace model_name client_id (err e) w = (internal_error, w)
  delete_listed user namespace model_name client_id (ok ks) w =
      delete_found user model_name client_id (find_key namespace client_id ks) w

  unfoldable pub delete_key : Text → Text → Text → HandlerFunc W
  delete_key namespace model_name client_id none w = (unauthorized, w)
  delete_key namespace model_name client_id (some user) w =
      let (r, w') = manager.list_keys model_name w in
      delete_listed user namespace model_name client_id r w'

  -- The mux: RegisterRoutes.
  unfoldable pub serve_route : Route → HandlerFunc W
  serve_route healthz_route user w = (healthz, w)
  serve_route me_route user w = get_me user w
  serve_route models_route user w = get_models user w
  serve_route keys_route user w = get_keys user w
  serve_route (create_route body) user w = create_key body user w
  serve_route (delete_route namespace model_name client_id) user w =
      delete_key namespace model_name client_id user w
  serve_route (no_route answer) user w = (answer, w)

  -- finalHandler of main: only paths below /api/ pass the middleware, and no other request has an
  -- identity.
  unfoldable pub serve : AuthConfig W → Text → Text → Route → W → Response × W
  serve cfg path authorization route w =
      if has_prefix path (bytes "/api/")
      then auth_middleware cfg (serve_route route) authorization w
      else serve_route route none w

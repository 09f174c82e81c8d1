-- ===== src/Keys/Manager.antt =====
-- The Manager of key-manager/internal/secrets/manager.go over an abstract client.
use nebari_llm_serving_pack.Base.{
  ℕ, zero, suc, Bool, true, false, ◌||◌, ◌&&◌, none, some, List, [], ◌∷◌, ◌++◌, if◌then◌else◌, Text,
  ◌==◌, bytes, has_suffix, contains_text, Map, insert, delete, has_key, Result, ok, err, Exec, pure,
  fail, lift, wrap, ◌>>=◌, ◌>>◌, base64_url,
}
use nebari_llm_serving_pack.Keys.Names.{client_id}
use nebari_llm_serving_pack.Keys.Probe.{mint_sequence}
use nebari_llm_serving_pack.Keys.Store.{KeyInfo, CreateKeyResult, Object, Client, Env}

unfoldable pub secret_name : Text → Text
secret_name model_name = model_name ++ bytes "-api-keys"

unfoldable pub config_map_name : Text → Text
config_map_name model_name = model_name ++ bytes "-api-key-metadata"

-- A conflict is known by the words of the error's message.
unfoldable pub is_conflict : Text → Bool
is_conflict e = contains_text e (bytes "conflict") || contains_text e (bytes "409")

-- The loops of CreateKey and RevokeKey: `n` attempts, another one after a conflict.
module _ {W A : Type 0} (once : Exec W A) (too_many : Text) where
  unfoldable pub after_attempt : Exec W A → Result A → Exec W A
  after_attempt next (ok a) w = (ok a, w)
  after_attempt next (err e) w = elim (is_conflict e) [ true ↦ next w | false ↦ (err e, w) ]

  unfoldable pub retry : ℕ → Exec W A
  unfolding after_attempt
  retry zero w = (err too_many, w)
  retry (suc n) w = let (r, w') = once w in after_attempt (retry n) r w'

abbrev pub max_retries : ℕ
max_retries = 3

module _ {V W : Type 0} (api : Client V W) (env : Env W) (namespace : Text) where
  -- "sk-" and 24 random bytes in base64url.
  unfoldable pub generate_api_key : Exec W Text
  generate_api_key = do
    b ← wrap (λ e. bytes "generating random bytes: " ++ e) (env.random 24)
    pure (bytes "sk-" ++ base64_url b)

  unfoldable pub get_secret : Text → Exec W (Object V)
  get_secret model_name =
      wrap
        (λ e.
          bytes "API key secret not found for model "
          ++ (model_name ++ (bytes " - has the operator created it?: " ++ e)))
        (api.get_secret namespace (secret_name model_name))

  unfoldable pub get_config_map : Text → Exec W (Object V)
  get_config_map model_name =
      wrap
        (λ e.
          bytes "API key metadata ConfigMap not found for model "
          ++ (model_name ++ (bytes " - has the operator created it?: " ++ e)))
        (api.get_config_map namespace (config_map_name model_name))

  -- The two updates, with their wrapped errors.
  unfoldable pub update_secret : Text → Object V → Exec W (Unit {0})
  update_secret model_name secret =
      wrap (λ e. bytes "updating Secret for model " ++ (model_name ++ (bytes ": " ++ e)))
        (api.update_secret secret)

  unfoldable pub update_config_map : Text → Object V → Exec W (Unit {0})
  update_config_map model_name cm =
      wrap (λ e. bytes "updating ConfigMap for model " ++ (model_name ++ (bytes ": " ++ e)))
        (api.update_config_map cm)

  -- The metadata that createKeyOnce records, as JSON.
  unfoldable pub key_metadata : Text → Text → Text → Text → Exec W Text
  key_metadata model_name username description id w =
      wrap (λ e. bytes "marshaling key metadata: " ++ e)
        (lift (
          env.marshal (record {
            client_id = id;
            creator = username;
            description = description;
            created_at = env.now w;
            model_name = model_name;
            namespace = namespace;
          })))
        w

  -- createKeyOnce from the metadata on: the second write, and the result.
  unfoldable pub record_key : Text → Text → Text → Object V → Text → Text → Exec W CreateKeyResult
  record_key model_name username description cm id api_key = do
    info ← key_metadata model_name username description id
    update_config_map model_name (record cm { entries = insert id info cm.entries })
    pure (record { client_id = id; api_key = api_key })

  -- createKeyOnce once the client ID is found.
  unfoldable pub store_key :
      Text → Text → Text → Object V → Object V → Text → Exec W CreateKeyResult
  store_key model_name username description secret cm id = do
    api_key ← wrap (λ e. bytes "generating API key: " ++ e) generate_api_key
    update_secret model_name (record secret { entries = insert id api_key secret.entries })
    record_key model_name username description cm id api_key

  unfoldable pub create_key_once : Text → Text → Text → Exec W CreateKeyResult
  create_key_once model_name username description = do
    secret ← get_secret model_name
    cm ← get_config_map model_name
    store_key model_name username description secret cm (
        client_id env.sha256 username model_name
          (mint_sequence env.sha256 username model_name secret.entries cm.entries))

  unfoldable pub create_key : Text → Text → Text → Exec W CreateKeyResult
  create_key model_name username description =
      if username == []
      then fail (bytes "username is required")
      else retry (create_key_once model_name username description)
          (bytes "creating key for model " ++ (model_name ++ bytes ": too many conflicts"))
          max_retries

  -- revokeKeyOnce once both objects are read.
  unfoldable pub remove_key : Text → Object V → Object V → Text → Exec W (Unit {0})
  remove_key model_name secret cm id =
      if has_key id secret.entries
      then (do
        update_secret model_name (record secret { entries = delete id secret.entries })
        update_config_map model_name (record cm { entries = delete id cm.entries }))
      else fail (bytes "key " ++ (env.quote id ++ (bytes " not found for model " ++ model_name)))

  unfoldable pub revoke_key_once : Text → Text → Exec W (Unit {0})
  revoke_key_once model_name id = do
    secret ← get_secret model_name
    cm ← get_config_map model_name
    remove_key model_name secret cm id

  unfoldable pub revoke_key : Text → Text → Exec W (Unit {0})
  revoke_key model_name id =
      retry (revoke_key_once model_name id)
        (bytes "revoking key "
          ++ (id ++ (bytes " for model " ++ (model_name ++ bytes ": too many conflicts"))))
        max_retries

  -- Entries that are no KeyInfo are skipped.
  unfoldable pub parse_config_map_keys : Map Text → List KeyInfo
  parse_config_map_keys [] = []
  parse_config_map_keys ((k, v) ∷ m) = elim (env.unmarshal v) [
    | none ↦ parse_config_map_keys m
    | some info ↦ info ∷ parse_config_map_keys m
  ]

  unfoldable pub list_keys : Text → Exec W (List KeyInfo)
  list_keys model_name = do cm ← get_config_map model_name; pure (parse_config_map_keys cm.entries)

  unfoldable pub created_by : Text → List KeyInfo → List KeyInfo
  created_by username [] = []
  created_by username (info ∷ infos) =
      let rest = created_by username infos in if info.creator == username then info ∷ rest else rest

  -- A ConfigMap with the label and the name of API-key metadata.
  unfoldable pub is_key_metadata : Object V → Bool
  is_key_metadata cm =
      has_key (bytes "llm.nebari.dev/model-name") cm.labels
      && has_suffix cm.name (bytes "-api-key-metadata")

  unfoldable pub keys_for_user : Text → List (Object V) → List KeyInfo
  keys_for_user username [] = []
  keys_for_user username (cm ∷ cms) =
      let rest = keys_for_user username cms in
      if is_key_metadata cm
      then created_by username (parse_config_map_keys cm.entries) ++ rest
      else rest

  unfoldable pub list_keys_for_user : Text → Exec W (List KeyInfo)
  list_keys_for_user username = do
    cms ← wrap (λ e. bytes "listing ConfigMaps: " ++ e) (api.list_config_maps namespace)
    pure (keys_for_user username cms)

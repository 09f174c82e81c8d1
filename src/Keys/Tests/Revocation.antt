-- ===== src/Keys/Tests/Revocation.antt =====
-- Revocations on the store of the parent's tests.
use nebari_llm_serving_pack.Base.{
  ◌≡◌, refl, Option, [], ◌∷◌, ◌++◌, Text, ◌==◌, bytes, Map, lookup, has_key, insert, delete, Result,
  ok, err, contains_text,
}
use nebari_llm_serving_pack.Keys.Names.{client_id}
use nebari_llm_serving_pack.Keys.Revoked.{IsRevoked, revoke_key-Deleted}
use nebari_llm_serving_pack.Keys.Manager
use nebari_llm_serving_pack.Keys.Manager.{
  secret_name, config_map_name, is_conflict, after_attempt, retry, generate_api_key, get_secret,
  get_config_map, key_metadata, record_key, store_key, create_key_once, create_key, remove_key,
  revoke_key_once, revoke_key,
}
use nebari_llm_serving_pack.Keys.Tests.{
  Server, Held, server, env, start, in_secrets, in_metadata, secrets_IsVersioned,
  metadata_IsVersioned, update_secret, update_metadata, read, fits, same_map, bytes_of, model, left,
}

abbrev old_id : Text
old_id = client_id bytes_of (bytes "al") model 1

abbrev revoked : Result (Unit {0}) × Server
revoked = revoke_key server env (bytes "ns") model old_id start

revoked_ok : revoked ≡ (ok tt, revoked.1)
unfolding revoke_key retry after_attempt revoke_key_once remove_key get_secret get_config_map
    update_secret update_metadata read fits same_map Manager.update_secret Manager.update_config_map
    bytes lookup insert delete has_key ◌==◌ client_id bytes_of secret_name config_map_name
revoked_ok = refl

revoke_key-Deleted_example :
    IsRevoked server env
      (bytes "ns")
      in_secrets
      in_metadata
      (λ n v. v)
      (λ n v. v)
      secrets_IsVersioned
      metadata_IsVersioned
      model
      old_id
      start
      revoked.1
revoke_key-Deleted_example =
    revoke_key-Deleted server env (bytes "ns") in_secrets in_metadata (λ n v. v) (λ n v. v)
      secrets_IsVersioned metadata_IsVersioned model old_id start revoked.1 revoked_ok

-- The first update of the ConfigMap meets a conflict.
abbrev contended : Server
contended = record start {
  metadata = (bytes "phi-api-key-metadata", (old_id, bytes "al") ∷ []) ∷ [];
  busy = tt ∷ [];
}

-- The key is revoked, but its metadata stays and the call fails: the second attempt finds no key.
revoked_halfway : revoke_key server env (bytes "ns") model old_id contended ≡ (
  err (bytes "key " ++ (env.quote old_id ++ (bytes " not found for model " ++ model))),
  record {
    secrets = (bytes "phi-api-keys", left.entries) ∷ [];
    metadata = contended.metadata;
    busy = [];
  },
)
unfolding revoke_key retry after_attempt is_conflict contains_text revoke_key_once remove_key
    get_secret get_config_map update_secret update_metadata read fits same_map Manager.update_secret
    Manager.update_config_map bytes lookup insert delete has_key ◌==◌ client_id bytes_of secret_name
    config_map_name
revoked_halfway = refl

abbrev stored_in : Map Held → Text → Option (Map Text)
stored_in m n = lookup n m

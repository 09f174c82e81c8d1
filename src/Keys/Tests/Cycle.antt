-- ===== src/Keys/Tests/Cycle.antt =====
-- A key that is minted and then revoked, on the store of the parent's tests.
use nebari_llm_serving_pack.Base.{
  ◌≡◌, refl, true, false, some, [], Text, bytes, List, lookup, has_key, insert, delete, Result, ok,
  ◌==◌, base64_url,
}
use nebari_llm_serving_pack.Auth.Admits.{passes}
use nebari_llm_serving_pack.Keys.Fresh.{Minted}
use nebari_llm_serving_pack.Keys.Lifecycle.{policy_for, create_key-revoke_key-passes}
use nebari_llm_serving_pack.Keys.Manager
use nebari_llm_serving_pack.Keys.Manager.{
  secret_name, config_map_name, after_attempt, retry, get_secret, get_config_map, remove_key,
  revoke_key_once, revoke_key, create_key, create_key_once, store_key, record_key, key_metadata,
  generate_api_key,
}
use nebari_llm_serving_pack.Keys.Names.{client_id}
use nebari_llm_serving_pack.Keys.Probe.{mint_sequence}
use nebari_llm_serving_pack.Keys.Revoked.{Deleted}
use nebari_llm_serving_pack.Keys.Tests.{
  Server, server, env, start, minted, minted_id, new_key, in_secrets, in_metadata,
  secrets_IsVersioned, metadata_IsVersioned, update_secret, update_metadata, read, fits, same_map,
  bytes_of,
}
use nebari_llm_serving_pack.Naming.{api_key_secret_name}
use nebari_llm_serving_pack.Samples.{served}

abbrev taken_back : Result (Unit {0}) × Server
taken_back = revoke_key server env (bytes "ns") served.name new_key.client_id minted.1

taken_back_ok : taken_back ≡ (ok tt, taken_back.1)
unfolding revoke_key retry after_attempt revoke_key_once remove_key get_secret get_config_map
    update_secret update_metadata read fits same_map Manager.update_secret Manager.update_config_map
    bytes lookup insert delete has_key ◌==◌ client_id bytes_of secret_name config_map_name
    create_key create_key_once store_key record_key key_metadata generate_api_key mint_sequence
    base64_url
taken_back_ok = refl

abbrev no_claims : Text → List Text
no_claims name = []

create_key-revoke_key-passes_example :
    (new : Minted server env
      (bytes "ns")
      in_secrets
      (λ n v. v)
      secrets_IsVersioned
      served.name
      (bytes "al")
      new_key)
    × (old : Deleted in_secrets (api_key_secret_name served.name) new_key.client_id) × (passes
          new_key.client_id no_claims
          (policy_for served new.held []).authorization
        ≡ false)
    × (in_secrets new.after (api_key_secret_name served.name)
        ≡ some (insert new_key.client_id new_key.api_key new.held))
    × (passes new_key.client_id no_claims
          (policy_for served (insert new_key.client_id new_key.api_key new.held) []).authorization
        ≡ true)
    × (passes new_key.client_id no_claims
          (policy_for served (delete new_key.client_id old.held) []).authorization
        ≡ false)
create_key-revoke_key-passes_example =
    create_key-revoke_key-passes server env (bytes "ns") in_secrets in_metadata (λ n v. v)
      (λ n v. v) secrets_IsVersioned metadata_IsVersioned served (bytes "al") (bytes "test") start
      minted.1 minted.1 taken_back.1 new_key [] no_claims minted_id taken_back_ok

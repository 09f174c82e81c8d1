-- ===== src/Api/Tests.antt =====
-- The API on concrete requests; the world counts the calls that change the store.
use nebari_llm_serving_pack.Base.{
  ℕ, suc, ◌≡◌, ◌≢◌, ◌⊎◌, ◌↔◌, refl, sym, ◌∙◌, ◌==◌, member, false, some, List, [], ◌∷◌, ◌++◌, arith,
  Text, bytes, ok, In,
}
use nebari_llm_serving_pack.Keys.Store.{KeyInfo}
use nebari_llm_serving_pack.Models.{
  ModelInfo, Watcher, values, accessible, shares_group, list_models, filter_models_for_user,
}
use nebari_llm_serving_pack.Models.Access.{MayUse}
use nebari_llm_serving_pack.Api.Types.{
  UserInfo, array, text_item, Validation, valid, ModelLister, KeyManager,
}
use nebari_llm_serving_pack.Api.Middleware.{AuthConfig, extract_bearer_token}
use nebari_llm_serving_pack.Api.Handler.{
  CreateKeyRequest, any_named, find_key, create_key, delete_found, delete_listed, delete_key,
}
use nebari_llm_serving_pack.Api.Authentication.{
  IsRejected, IsPassed, extract_bearer_token_iff, auth_middleware-guards,
}
use nebari_llm_serving_pack.Api.Ownership.{IsListed, create_key-MayUse, delete_key-own}

extract_bearer_token_iff_example :
    (extract_bearer_token (bytes "Bearer abc") ≡ ok (bytes "abc"))
    ↔ ((bytes "Bearer abc" ≡ bytes "Bearer " ++ bytes "abc") × (bytes "abc" ≢ []))
extract_bearer_token_iff_example = extract_bearer_token_iff (bytes "Bearer abc") (bytes "abc")

abbrev al : UserInfo
al = record { username = bytes "al"; name = []; email = []; groups = bytes "llm" ∷ [] }

abbrev al_key : KeyInfo
al_key = record {
  client_id = bytes "al-phi-1";
  model_name = bytes "phi";
  namespace = bytes "ns";
  creator = bytes "al";
  created_at = 0;
  description = [];
}

abbrev counted : KeyManager ℕ
counted = record {
  create_key = λ model_name username description w.
      (ok (record { client_id = bytes "al-phi-2"; api_key = bytes "sk" }), suc w);
  list_keys = λ model_name w. (ok (al_key ∷ []), w);
  list_keys_for_user = λ username w. (ok (al_key ∷ []), w);
  revoke_key = λ model_name client_id w. (ok tt, suc w);
}

abbrev phi : ModelInfo
phi = record {
  name = bytes "phi";
  namespace = bytes "ns";
  model_name = bytes "ms/phi";
  public = false;
  groups = bytes "llm" ∷ [];
  passthrough = false;
  provider = [];
}

abbrev cache : ℕ → Watcher
cache w = record { models = (bytes "k", phi) ∷ [] }

abbrev lister : ModelLister ℕ
lister groups w = filter_models_for_user (cache w) groups

abbrev accepted : Text → ℕ → Validation × ℕ
accepted token w = (valid ((bytes "groups", array (text_item (bytes "llm") ∷ [])) ∷ []), w)

abbrev config : AuthConfig ℕ
config = record {
  groups_claim = [];
  validator = some accepted;
  dev_mode = false;
  dev_identity = al;
}

auth_middleware-guards_example :
    IsPassed config accepted (bytes "Bearer t") 7 ⊎ IsRejected config (bytes "Bearer t") 7
auth_middleware-guards_example =
    auth_middleware-guards config accepted (bytes "Bearer t") 7 refl refl

abbrev request : CreateKeyRequest
request = record { model_name = bytes "phi"; description = [] }

changed : ◌≢◌ {A = ℕ} 8 7
changed e = ground arith

created_one : (create_key lister counted (some request) (some al) 7).1 ≡ 8
unfolding create_key any_named filter_models_for_user accessible shares_group values member bytes
    ◌==◌
created_one = refl

create_key-MayUse_example :
    (m : ModelInfo) × In m (list_models (cache 7))
    × (m.name ≡ bytes "phi")
    × MayUse (bytes "llm" ∷ []) m
create_key-MayUse_example =
    create_key-MayUse cache counted request al 7 (λ e. changed (sym created_one ∙ e))

deleted_one :
    (delete_key lister counted (bytes "ns") (bytes "phi") (bytes "al-phi-1") (some al) 7).1 ≡ 8
unfolding delete_key delete_listed delete_found find_key bytes ◌==◌
deleted_one = refl

delete_key-own_example :
    (ks : List KeyInfo) × (k : KeyInfo) × (ok (al_key ∷ []) ≡ ok ks)
    × IsListed ks (bytes "ns") (bytes "al-phi-1") k
    × (k.creator ≡ bytes "al")
    × ((delete_key lister counted (bytes "ns") (bytes "phi") (bytes "al-phi-1") (some al) 7).1 ≡ 8)
delete_key-own_example =
    delete_key-own lister counted (bytes "ns") (bytes "phi") (bytes "al-phi-1") al 7
      (λ e. changed (sym deleted_one ∙ e))

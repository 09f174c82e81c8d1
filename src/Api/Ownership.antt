-- ===== src/Api/Ownership.antt =====
-- Which requests of a user reach the store of keys: createKey and deleteKey of handler.go.
use nebari_llm_serving_pack.Base.{
  ◌≡◌, ◌≢◌, inl, inr, refl, true, ◌&&◌, Option, none, some, List, [], ◌∷◌, Bool-cases, and-true,
  Text, ◌==◌, ==-sound, Result, ok, err, In, here, there,
}
use nebari_llm_serving_pack.Keys.Store.{KeyInfo}
use nebari_llm_serving_pack.Models.{ModelInfo, Watcher, list_models, filter_models_for_user}
use nebari_llm_serving_pack.Models.Access.{MayUse, filter_models_for_user_iff}
use nebari_llm_serving_pack.Api.Types.{UserInfo, ModelLister, KeyManager}
use nebari_llm_serving_pack.Api.Handler.{
  CreateKeyRequest, any_named, find_key, create_key, delete_found, delete_listed, delete_key,
}

any_named-In :
    (name : Text) (ms : List ModelInfo)
    → any_named name ms ≡ true
    → (m : ModelInfo) × In m ms × (m.name ≡ name)
unfolding any_named
any_named-In name [] h = cc
any_named-In name (m ∷ ms) h = elim (Bool-cases (m.name == name)) [
  | inl hit ↦ (m, here, ==-sound m.name name hit)
  | inr miss ↦ let (n, i, e) = any_named-In name ms (rw miss at h) in (n, there i, e)
]

-- A key of the list, of the namespace and the client ID that were asked for.
abbrev pub IsListed : List KeyInfo → Text → Text → KeyInfo → Type 0
IsListed ks namespace client_id k = In k ks × (k.client_id ≡ client_id) × (k.namespace ≡ namespace)

find_key-IsListed :
    (namespace client_id : Text) (ks : List KeyInfo) {k : KeyInfo}
    → find_key namespace client_id ks ≡ some k
    → IsListed ks namespace client_id k
unfolding find_key
find_key-IsListed namespace client_id [] h = cc
find_key-IsListed namespace client_id (j ∷ ks) {k} h =
    elim (Bool-cases (j.client_id == client_id && j.namespace == namespace)) [
      | inl hit ↦
          let (c, n) = and-true (j.client_id == client_id) (j.namespace == namespace) hit in
          let same : j ≡ k = cc (rw hit at h) in rw (← same) (here, ==-sound _ _ c, ==-sound _ _ n)
      | inr miss ↦
          let (i, c, n) = find_key-IsListed namespace client_id ks (rw miss at h) in (there i, c, n)
    ]

module _ {W : Type 0} (cache : W → Watcher) (manager : KeyManager W) where
  -- A request to create a key that changes anything names a cached model that is public or shares a
  -- group with the user.
  pub create_key-MayUse :
      (req : CreateKeyRequest) (user : UserInfo) (w : W)
      → (create_key
          (λ groups w. filter_models_for_user (cache w) groups)
          manager
          (some req)
          (some user)
          w).1
        ≢ w
      → (m : ModelInfo) × In m (list_models (cache w))
        × (m.name ≡ req.model_name)
        × MayUse user.groups m
  unfolding create_key
  create_key-MayUse req user w changed =
      elim (Bool-cases (any_named req.model_name (filter_models_for_user (cache w) user.groups))) [
        | inr miss ↦ absurd (changed (rw miss))
        | inl hit ↦
            let (m, i, e) = any_named-In req.model_name _ hit in
            let (j, may) = (filter_models_for_user_iff (cache w) user.groups m).0 i in
            (m, j, e, may)
      ]

module _ {W : Type 0} (lister : ModelLister W) (manager : KeyManager W) where
  delete_found-own :
      (user : UserInfo) (model_name client_id : Text) (found : Option KeyInfo) (w : W)
      → (delete_found lister manager user model_name client_id found w).1 ≢ w
      → (k : KeyInfo) × (found ≡ some k)
        × (k.creator ≡ user.username)
        × ((delete_found lister manager user model_name client_id found w).1
            ≡ (manager.revoke_key model_name client_id w).1)
  unfolding delete_found
  delete_found-own user model_name client_id none w changed = absurd (changed refl)
  delete_found-own user model_name client_id (some k) w changed =
      elim (Bool-cases (k.creator == user.username)) [
        | inl own ↦ (k, refl, ==-sound _ _ own, rw own)
        | inr other ↦ absurd (changed (rw other))
      ]

  delete_listed-own :
      (user : UserInfo) (namespace model_name client_id : Text) (r : Result (List KeyInfo)) (w : W)
      → (delete_listed lister manager user namespace model_name client_id r w).1 ≢ w
      → (ks : List KeyInfo) × (k : KeyInfo) × (r ≡ ok ks)
        × IsListed ks namespace client_id k
        × (k.creator ≡ user.username)
        × ((delete_listed lister manager user namespace model_name client_id r w).1
            ≡ (manager.revoke_key model_name client_id w).1)
  unfolding delete_listed
  delete_listed-own user namespace model_name client_id (err e) w changed = absurd (changed refl)
  delete_listed-own user namespace model_name client_id (ok ks) w changed =
      let (k, e, own, same) = delete_found-own user model_name client_id _ w changed in
      (ks, k, refl, find_key-IsListed namespace client_id ks e, own, same)

  -- A request to delete a key that changes anything after the listing revokes the named key of the
  -- model, and that key is listed for the model with the named namespace and the user as creator.
  pub delete_key-own :
      (namespace model_name client_id : Text) (user : UserInfo) (w : W)
      → (delete_key lister manager namespace model_name client_id (some user) w).1
        ≢ (manager.list_keys model_name w).1
      → (ks : List KeyInfo) × (k : KeyInfo) × ((manager.list_keys model_name w).0 ≡ ok ks)
        × IsListed ks namespace client_id k
        × (k.creator ≡ user.username)
        × ((delete_key lister manager namespace model_name client_id (some user) w).1
            ≡ (manager.revoke_key model_name client_id (manager.list_keys model_name w).1).1)
  unfolding delete_key
  delete_key-own namespace model_name client_id user w =
      delete_listed-own user namespace model_name client_id (manager.list_keys model_name w).0
        (manager.list_keys model_name w).1

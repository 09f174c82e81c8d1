-- ===== src/Keys/Lifecycle.antt =====
-- The two programs together: a key that the key-manager mints or revokes, and the policy that the
-- operator renders from the Secret.
use nebari_llm_serving_pack.Base.{
  ◌≡◌, ◌↔◌, refl, ◌∙◌, inl, inr, Bool, true, false, Option, some, List, [], ◌∷◌, Bool-cases, Text,
  ◌==◌, eq_iff, ==-refl, Map, lookup, insert, delete, has_key, lookup-insert, lookup-delete, ok, In,
  here, there, In-cons,
}
use nebari_llm_serving_pack.Auth.{
  SecurityPolicy, keys_of, client_ids_from_secret, build_external_security_policy,
}
use nebari_llm_serving_pack.Auth.Admits.{passes, entries_of, external_policy_iff}
use nebari_llm_serving_pack.Crd.{LlmModel}
use nebari_llm_serving_pack.Keys.Fresh.{Minted, create_key-Minted}
use nebari_llm_serving_pack.Keys.Manager.{secret_name, create_key, revoke_key}
use nebari_llm_serving_pack.Keys.Revoked.{Deleted, revoke_key-Deleted}
use nebari_llm_serving_pack.Keys.Store.{CreateKeyResult, Client, Env, IsVersioned}
use nebari_llm_serving_pack.Naming.{api_key_secret_name}

module _ {V : Type 0} where
  In-keys_of : (k : Text) (m : Map V) → has_key k m ≡ true → In k (keys_of m)
  unfolding has_key lookup keys_of
  In-keys_of k [] h = cc h
  In-keys_of k ((x, v) ∷ m) h = elim (Bool-cases (x == k)) [
    | inl same ↦ rw ((eq_iff x k).0 same) here
    | inr other ↦ there (In-keys_of k m (rw other at h))
  ]

  keys_of-In : {k : Text} (m : Map V) → In k (keys_of m) → has_key k m ≡ true
  unfolding has_key lookup keys_of
  keys_of-In [] i = elim i [ ]
  keys_of-In {k} ((x, v) ∷ m) i = elim (Bool-cases (x == k)) [
    | inl same ↦ rw same
    | inr other ↦ elim (In-cons i) [
      | inl e ↦ cc (other, ==-refl k, e)
      | inr later ↦ rw other (keys_of-In m later)
    ]
  ]

  has_key-insert : (k : Text) (v : V) (m : Map V) → has_key k (insert k v m) ≡ true
  unfolding has_key
  has_key-insert k v m = rw (lookup-insert k k v m, ==-refl k)

  pub has_key-delete : (k : Text) (m : Map V) → has_key k (delete k m) ≡ false
  unfolding has_key
  has_key-delete k m = rw (lookup-delete k k m, ==-refl k)

-- The policy that the operator renders for the model from a Secret with these entries.
abbrev pub policy_for : LlmModel → Map Text → List Text → SecurityPolicy
policy_for model entries pooled =
    build_external_security_policy model
      (client_ids_from_secret (
        some (record {
          name = api_key_secret_name model.name;
          namespace = model.namespace;
          labels = [];
          entries = entries;
        })))
      pooled

policy_for_iff :
    (model : LlmModel) (entries : Map Text) (pooled : List Text) (client : Text)
    (claims : Text → List Text)
    → passes client claims (policy_for model entries pooled).authorization ≡ has_key client entries
unfolding entries_of
policy_for_iff model entries pooled client claims =
    same (passes client claims (policy_for model entries pooled).authorization)
      (has_key client entries) (λ h. keys_of-In entries (both.0 h))
      (λ h. both.1 (In-keys_of client entries h))
  where
    both :
        (passes client claims (policy_for model entries pooled).authorization ≡ true)
        ↔ In client (keys_of entries)
    both = external_policy_iff model _ pooled client claims

    same : (a b : Bool) → (a ≡ true → b ≡ true) → (b ≡ true → a ≡ true) → a ≡ b
    same true true f g = refl
    same true false f g = cc (f refl)
    same false true f g = cc (g refl)
    same false false f g = refl

-- The Secret of the model that the operator names is the one that the key-manager writes.
same_secret : (model_name : Text) → secret_name model_name ≡ api_key_secret_name model_name
unfolding secret_name api_key_secret_name
same_secret model_name = refl

module _ {V W : Type 0} (api : Client V W) (env : Env W) (namespace : Text)
    (secrets metadata : W → Text → Option (Map Text)) (secret_at metadata_at : Text → V → Map Text)
    (versioned_secrets : IsVersioned (api.get_secret namespace) api.update_secret secrets secret_at)
    (versioned_metadata : IsVersioned
      (api.get_config_map namespace)
      api.update_config_map
      metadata
      metadata_at) where
  -- A key that CreateKey returned and RevokeKey took back: the policy rendered from the Secret as it
  -- was before the key was written denies the key's client, that from the Secret as it was written
  -- admits it, and that from the Secret as the revocation wrote it denies it again; and the Secret is
  -- the one that the operator reads. Updates are versioned; other writers may act in between.
  pub create_key-revoke_key-passes :
      (model : LlmModel) (username description : Text) (w w' v v' : W) (r : CreateKeyResult)
      (pooled : List Text) (claims : Text → List Text)
      → create_key api env namespace model.name username description w ≡ (ok r, w')
      → revoke_key api env namespace model.name r.client_id v ≡ (ok tt, v')
      → (minted : Minted api env namespace secrets secret_at versioned_secrets model.name username
          r)
        × (revoked : Deleted secrets (api_key_secret_name model.name) r.client_id) × (passes
              r.client_id claims
              (policy_for model minted.held pooled).authorization
            ≡ false)
        × (secrets minted.after (api_key_secret_name model.name)
            ≡ some (insert r.client_id r.api_key minted.held))
        × (passes r.client_id claims
              (policy_for model (insert r.client_id r.api_key minted.held) pooled).authorization
            ≡ true)
        × (passes r.client_id claims
              (policy_for model (delete r.client_id revoked.held) pooled).authorization
            ≡ false)
  create_key-revoke_key-passes model username description w w' v v' r pooled claims h k =
      let minted =
        create_key-Minted api env namespace secrets secret_at versioned_secrets model.name username
          description w w' r h in
      let revocation =
        revoke_key-Deleted api env namespace secrets metadata secret_at metadata_at
          versioned_secrets versioned_metadata model.name r.client_id v v' k in
      (
        minted,
        rw (← same_secret model.name) revocation.secret,
        policy_for_iff model minted.held pooled r.client_id claims ∙ minted.free,
        rw (← same_secret model.name) minted.wrote,
        policy_for_iff model _ pooled r.client_id claims
            ∙ has_key-insert r.client_id r.api_key minted.held,
        policy_for_iff model _ pooled r.client_id claims ∙ has_key-delete r.client_id _,
      )

-- ===== src/Keys/Revoked.antt =====
-- What RevokeKey changes, when it succeeds.
use mathlib.Core.Path.{fst_path}
use nebari_llm_serving_pack.Base.{
  ◌≡◌, refl, true, Option, some, Text, ==-refl, Map, has_key, delete, ok, Exec, bind-ok, wrap-ok,
  Bool-cases, inl, inr,
}
use nebari_llm_serving_pack.Keys.Fresh.{Attempts, retry-ok, err-ne-ok}
use nebari_llm_serving_pack.Keys.Store.{Object, Client, Env, IsVersioned}
use nebari_llm_serving_pack.Keys.Manager.{
  secret_name, config_map_name, get_secret, get_config_map, update_secret, update_config_map,
  remove_key, revoke_key_once, revoke_key, max_retries,
}

-- One write that takes the entry `id` from an object.
pub record Deleted {W : Type 0} (stored : W → Text → Option (Map Text)) (name id : Text)
    : Type 0 where
  pub before : W
  pub after : W
  pub held : Map Text
  pub was : stored before name ≡ some held
  pub wrote : stored after name ≡ some (delete id held)

module _ {V W : Type 0} (get : Text → Exec W (Object V)) (update : Object V → Exec W (Unit {0}))
    (stored : W → Text → Option (Map Text)) (at_version : Text → V → Map Text)
    (versioned : IsVersioned get update stored at_version) where
  deletes :
      (name id : Text) (o : Object V) (w w' before after : W)
      → get name w ≡ (ok o, w')
      → update (record o { entries = delete id o.entries }) before ≡ (ok tt, after)
      → (d : Deleted stored name id) × (d.held ≡ o.entries)
        × (d.before ≡ before)
        × (d.after ≡ after)
  deletes name id o w w' before after got done =
      let changed : Object V = record o { entries = delete id o.entries } in
      let (named, held) = versioned.read name w o w' got in
      let found = versioned.found changed before after done in
      let written = versioned.written changed before after done in
      (
        record {
          before = before;
          after = after;
          held = o.entries;
          was = cc (named, held, found);
          wrote = cc (written name, named, ==-refl name);
        },
        refl,
        refl,
        refl,
      )

module _ {V W : Type 0} (api : Client V W) (env : Env W) (namespace : Text)
    (secrets metadata : W → Text → Option (Map Text)) (secret_at metadata_at : Text → V → Map Text)
    (versioned_secrets : IsVersioned (api.get_secret namespace) api.update_secret secrets secret_at)
    (versioned_metadata : IsVersioned
      (api.get_config_map namespace)
      api.update_config_map
      metadata
      metadata_at) where
  -- What a successful call did, from the world `w` to `w'`. An attempt, before which others may have
  -- met a conflict, read both objects, took the ID from the Secret, which held it, and right after
  -- that from the metadata; then the call was over.
  pub record IsRevoked (model_name id : Text) (w w' : W) : Type 0 where
    pub start : W
    pub attempts : Attempts (revoke_key_once api env namespace model_name id) max_retries w start
    pub secret : Deleted secrets (secret_name model_name) id
    pub config_map : Deleted metadata (config_map_name model_name) id
    pub live : has_key id secret.held ≡ true
    pub read :
        (api.get_config_map namespace
          (config_map_name model_name)
          (api.get_secret namespace (secret_name model_name) start).1).1
        ≡ secret.before
    pub next : secret.after ≡ config_map.before
    pub last : config_map.after ≡ w'

  -- What the two writes of one attempt did, from `w` to `w'`.
  abbrev AreDeleted : Text → Text → W → W → Type 0
  AreDeleted model_name id w w' =
      (secret : Deleted secrets (secret_name model_name) id) × (config_map : Deleted metadata
        (config_map_name model_name) id)
      × (has_key id secret.held ≡ true)
      × (w ≡ secret.before)
      × (secret.after ≡ config_map.before)
      × (config_map.after ≡ w')

  remove_key-AreDeleted :
      (model_name id : Text) (secret cm : Object V) (v v' u u' w w' : W)
      → api.get_secret namespace (secret_name model_name) v ≡ (ok secret, v')
      → api.get_config_map namespace (config_map_name model_name) u ≡ (ok cm, u')
      → remove_key api env namespace model_name secret cm id w ≡ (ok tt, w')
      → AreDeleted model_name id w w'
  unfolding remove_key update_secret update_config_map
  remove_key-AreDeleted model_name id secret cm v v' u u' w w' got got_cm h =
      elim (Bool-cases (has_key id secret.entries)) [
        | inl held ↦
            let (_, w₁, done, rest) =
              bind-ok
                (update_secret api env namespace model_name
                  (record secret { entries = delete id secret.entries }))
                _ w (rw held at h) in
            let (first, found, from, to) =
              deletes (api.get_secret namespace) api.update_secret secrets secret_at
                versioned_secrets (secret_name model_name) id secret v v' w w₁ got
                (wrap-ok _
                  (api.update_secret (record secret { entries = delete id secret.entries })) w
                  done) in
            let (second, _, next, last) =
              deletes (api.get_config_map namespace) api.update_config_map metadata metadata_at
                versioned_metadata (config_map_name model_name) id cm u u' w₁ w' got_cm
                (wrap-ok _ (api.update_config_map (record cm { entries = delete id cm.entries })) w₁
                  rest) in
            (first, second, cc (held, found), cc from, cc (to, next), last)
        | inr missing ↦ absurd (err-ne-ok (fst_path (rw missing at h)))
      ]

  revoke_key_once-AreDeleted :
      (model_name id : Text) (w w' : W)
      → revoke_key_once api env namespace model_name id w ≡ (ok tt, w')
      → AreDeleted model_name id
          (api.get_config_map namespace
            (config_map_name model_name)
            (api.get_secret namespace (secret_name model_name) w).1).1
          w'
  unfolding revoke_key_once get_secret get_config_map
  revoke_key_once-AreDeleted model_name id w w' h =
      let (secret, w₁, got, h₁) = bind-ok (get_secret api env namespace model_name) _ w h in
      let (cm, w₂, got_cm, h₂) = bind-ok (get_config_map api env namespace model_name) _ w₁ h₁ in
      let read = wrap-ok _ (api.get_secret namespace (secret_name model_name)) w got in
      let read_cm =
        wrap-ok _ (api.get_config_map namespace (config_map_name model_name)) w₁ got_cm in
      rw (read, read_cm)
        (remove_key-AreDeleted model_name id secret cm w w₁ w₁ w₂ w₂ w' read read_cm h₂)

  -- A revocation that succeeds found the client ID in the model's Secret and took it out of the
  -- Secret and then out of the metadata ConfigMap, each by one write that leaves the other entries as
  -- they were; the second one starts where the first ends and is the last thing the call does. The
  -- writes are those of one attempt, before which at most two others met a conflict. Updates are
  -- versioned; other writers may act at any read.
  pub revoke_key-Deleted :
      (model_name id : Text) (w w' : W)
      → revoke_key api env namespace model_name id w ≡ (ok tt, w')
      → IsRevoked model_name id w w'
  unfolding revoke_key
  revoke_key-Deleted model_name id w w' h =
      let (start, attempts, once) =
        retry-ok (revoke_key_once api env namespace model_name id) _ 3 w h in
      let (secret, config_map, live, read, next, last) =
        revoke_key_once-AreDeleted model_name id start w' once in
      record {
        start = start;
        attempts = attempts;
        secret = secret;
        config_map = config_map;
        live = live;
        read = read;
        next = next;
        last = last;
      }

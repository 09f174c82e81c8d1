-- ===== src/Keys/Fresh.antt =====
-- What CreateKey writes, when it succeeds.
use nebari_llm_serving_pack.Base.{
  ℕ, ◌≡◌, Bool, refl, ap, sym, true, false, Option, some, [], arith, Text, ◌==◌, ==-refl, Map,
  has_key, insert, Result, ok, err, ok-injective, Exec, wrap, bind-ok, wrap-ok, Bool-cases, inl,
  inr, ◌⊎◌, zero, suc, ◌||◌,
}
use mathlib.Core.Path.{fst_path}
use nebari_llm_serving_pack.Keys.Names.{client_id}
use nebari_llm_serving_pack.Keys.Probe.{is_taken, mint_sequence}
use nebari_llm_serving_pack.Keys.Free.{mint_sequence-free}
use nebari_llm_serving_pack.Keys.Store.{CreateKeyResult, Object, Client, Env, IsVersioned}
use nebari_llm_serving_pack.Keys.Manager.{
  secret_name, is_conflict, after_attempt, retry, generate_api_key, get_secret, get_config_map,
  update_secret, update_config_map, key_metadata, record_key, store_key, create_key_once,
  create_key,
}

module _ {W A : Type 0} (once : Exec W A) where
  -- The attempt that starts at the last world comes after fewer than `n` attempts from the first
  -- world, each of which met a conflict.
  pub data Attempts : ℕ → W → W → Type 0 where
    first : {n : ℕ} {w : W} → Attempts (suc n) w w
    again :
        {n : ℕ} {w w₁ w₂ : W} {e : Text}
        → once w ≡ (err e, w₁)
        → is_conflict e ≡ true
        → Attempts n w₁ w₂
        → Attempts (suc n) w w₂

module _ {W A : Type 0} (once : Exec W A) (too_many : Text) where
  attempt-ok :
      (next : Exec W A) (r : Result A) (w : W) {a : A} {w' : W}
      → after_attempt once too_many next r w ≡ (ok a, w')
      → (◌≡◌ {A = Result A × W} (r, w) (ok a, w'))
        ⊎ ((e : Text) × (r ≡ err e) × (is_conflict e ≡ true) × (next w ≡ (ok a, w')))
  unfolding after_attempt
  attempt-ok next (ok b) w h = inl h
  attempt-ok next (err e) w h = elim (Bool-cases (is_conflict e)) [
    | inl conflict ↦ inr (e, refl, conflict, rw (conflict, after_attempt) at h)
    | inr other ↦ inl (rw (other, after_attempt) at h)
  ]

  -- The first attempt that succeeds is the result.
  pub retry-ok :
      (n : ℕ) (w : W) {a : A} {w' : W}
      → retry once too_many n w ≡ (ok a, w')
      → (w₀ : W) × Attempts once n w w₀ × (once w₀ ≡ (ok a, w'))
  unfolding retry
  retry-ok zero w h = absurd (err-ne-ok (ap (λ (p : Result A × W). p.0) h))
    where
      err-ne-ok : {e : Text} {b : A} → err e ≡ ok b → ⊥
      err-ne-ok p = cc
  retry-ok (suc n) w h = elim (attempt-ok (retry once too_many n) (once w).0 (once w).1 h) [
    | inl this ↦ (w, first, this)
    | inr (e, failed, conflict, later) ↦
        let (w₀, attempts, this) = retry-ok n (once w).1 later in
        (w₀, again (λ i. (failed i, (once w).1)) conflict attempts, this)
  ]

pub err-ne-ok : {A : Type 0} {e : Text} {b : A} → err e ≡ ok b → ⊥
err-ne-ok p = cc

module _ {V W : Type 0} (api : Client V W) (env : Env W) (namespace : Text)
    (stored : W → Text → Option (Map Text)) (at_version : Text → V → Map Text)
    (secrets : IsVersioned (api.get_secret namespace) api.update_secret stored at_version) where
  -- One write of one new entry to an object that held no such entry.
  pub record Minted (model_name username : Text) (r : CreateKeyResult) : Type 0 where
    pub before : W
    pub after : W
    pub held : Map Text
    pub metadata : Map Text
    pub was : stored before (secret_name model_name) ≡ some held
    pub free : has_key r.client_id held ≡ false
    pub free_metadata : has_key r.client_id metadata ≡ false
    pub named :
        r.client_id
        ≡ client_id env.sha256 username model_name
            (mint_sequence env.sha256 username model_name held metadata)
    pub wrote : stored after (secret_name model_name) ≡ some (insert r.client_id r.api_key held)
    pub others :
        (n : Text) → (secret_name model_name == n) ≡ false → stored after n ≡ stored before n

  record_key-result :
      (model_name username description id api_key : Text) (cm : Object V) (w w' : W)
      (r : CreateKeyResult)
      → record_key api env namespace model_name username description cm id api_key w ≡ (ok r, w')
      → r ≡ record { client_id = id; api_key = api_key }
  unfolding record_key
  record_key-result model_name username description id api_key cm w w' r h =
      let (info, w₁, _, h₁) =
        bind-ok (key_metadata api env namespace model_name username description id) _ w h in
      let (_, w₂, _, h₂) = bind-ok (update_config_map api env namespace model_name _) _ w₁ h₁ in
      sym (ok-injective (fst_path h₂))

  store_key-writes :
      (model_name username description id : Text) (secret cm : Object V) (w w' : W)
      (r : CreateKeyResult)
      → store_key api env namespace model_name username description secret cm id w ≡ (ok r, w')
      → (api_key : Text) × (before : W) × (after : W) × (api.update_secret
            (record secret { entries = insert id api_key secret.entries })
            before
          ≡ (ok tt, after))
        × (r ≡ record { client_id = id; api_key = api_key })
  unfolding store_key update_secret
  store_key-writes model_name username description id secret cm w w' r h =
      let (key, w₁, _, h₁) = bind-ok (wrap _ (generate_api_key api env namespace)) _ w h in
      let changed : Object V = record secret { entries = insert id key secret.entries } in
      let (_, w₂, done, h₂) =
        bind-ok (update_secret api env namespace model_name changed) _ w₁ h₁ in
      (
        key,
        w₁,
        w₂,
        wrap-ok _ (api.update_secret changed) w₁ done,
        record_key-result model_name username description id key cm w₂ w' r h₂,
      )

  not-taken :
      (id : ℕ → Text) (secret cm : Map Text) (n : ℕ)
      → is_taken id secret cm n ≡ false
      → (has_key (id n) secret ≡ false) × (has_key (id n) cm ≡ false)
  unfolding is_taken
  not-taken id secret cm n h = or-false (has_key (id n) secret) (has_key (id n) cm) h
    where
      or-false : (a b : Bool) → (a || b) ≡ false → (a ≡ false) × (b ≡ false)
      or-false a b k = ground arith

  minted :
      (model_name username api_key : Text) (secret cm : Object V) (w w' before after : W)
      (id : Text)
      → api.get_secret namespace (secret_name model_name) w ≡ (ok secret, w')
      → id
        ≡ client_id env.sha256 username model_name
            (mint_sequence env.sha256 username model_name secret.entries cm.entries)
      → api.update_secret (record secret { entries = insert id api_key secret.entries }) before
        ≡ (ok tt, after)
      → Minted model_name username (record { client_id = id; api_key = api_key })
  minted model_name username api_key secret cm w w' before after id got e done =
      let changed : Object V = record secret { entries = insert id api_key secret.entries } in
      let (named, held) = secrets.read (secret_name model_name) w secret w' got in
      let found = secrets.found changed before after done in
      let written = secrets.written changed before after done in
      let (free, free_metadata) =
        not-taken (client_id env.sha256 username model_name) secret.entries cm.entries _
          (mint_sequence-free env.sha256 username model_name secret.entries cm.entries).0 in
      record {
        before = before;
        after = after;
        held = secret.entries;
        metadata = cm.entries;
        was = cc (named, held, found);
        free = rw e free;
        free_metadata = rw e free_metadata;
        named = e;
        wrote = cc (written (secret_name model_name), named, ==-refl (secret_name model_name));
        others = λ n h. cc (written n, named, h);
      }

  create_key_once-Minted :
      (model_name username description : Text) (w w' : W) (r : CreateKeyResult)
      → create_key_once api env namespace model_name username description w ≡ (ok r, w')
      → Minted model_name username r
  unfolding create_key_once get_secret
  create_key_once-Minted model_name username description w w' r h =
      let (secret, w₁, got, h₁) = bind-ok (get_secret api env namespace model_name) _ w h in
      let (cm, w₂, _, h₂) = bind-ok (get_config_map api env namespace model_name) _ w₁ h₁ in
      let (api_key, before, after, done, result) =
        store_key-writes model_name username description _ secret cm w₂ w' r h₂ in
      rw result (
        minted model_name username api_key secret cm w w₁ before after _
          (wrap-ok _ (api.get_secret namespace (secret_name model_name)) w got) refl done)

  pub create_key-Minted :
      (model_name username description : Text) (w w' : W) (r : CreateKeyResult)
      → create_key api env namespace model_name username description w ≡ (ok r, w')
      → Minted model_name username r
  unfolding create_key
  create_key-Minted model_name username description w w' r h = elim (Bool-cases (username == [])) [
    | inl empty ↦ absurd (err-ne-ok (fst_path (rw empty at h)))
    | inr given ↦
        let (w₀, _, once) =
          retry-ok (create_key_once api env namespace model_name username description) _ 3 w
            (rw given at h) in
        create_key_once-Minted model_name username description w₀ w' r once
  ]

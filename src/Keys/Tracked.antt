-- ===== src/Keys/Tracked.antt =====
-- The order of RevokeKey's writes: a live key keeps its metadata, whatever fails.
use nebari_llm_serving_pack.Base.{
  ℕ, zero, suc, ◌≡◌, ◌⊎◌, inl, inr, Bool-cases, true, Option, some, Text, ◌==◌, if◌then◌else◌, Map,
  has_key, Result, ok, err, Exec,
}
use nebari_llm_serving_pack.Cluster.Keeps.{Keeps}
use nebari_llm_serving_pack.Keys.Manager.{
  secret_name, config_map_name, is_conflict, after_attempt, retry, get_secret, get_config_map,
  update_secret, update_config_map,
}
use nebari_llm_serving_pack.Keys.Store.{Object, Client, Env}

module _ {W A : Type 0} {I : W → Type 0} (once : Exec W A) (too_many : Text) where
  attempt-keeps :
      (next : Exec W A) (r : Result A) (w : W)
      → Keeps I next
      → I w
      → I (after_attempt once too_many next r w).1
  unfolding after_attempt
  attempt-keeps next (ok a) w h i = i
  attempt-keeps next (err e) w h i = elim (Bool-cases (is_conflict e)) [
    | inl conflict ↦ rw (conflict, after_attempt) (h.run w i)
    | inr other ↦ rw (other, after_attempt) i
  ]

  -- What every attempt keeps, the whole loop keeps.
  pub retry-Keeps : (n : ℕ) → Keeps I once → Keeps I (retry once too_many n)
  unfolding retry
  retry-Keeps zero h = record { run = λ w i. i }
  retry-Keeps (suc n) h = record {
    run = λ w i.
        attempt-keeps (retry once too_many n) (once w).0 (once w).1 (retry-Keeps n h) (h.run w i);
  }

module _ {V W : Type 0} (api : Client V W) (env : Env W) (namespace : Text)
    (secrets metadata : W → Text → Option (Map Text)) (secret_at : Text → V → Map Text) where
  -- What the server does while no one else writes: a read leaves both kinds of objects alone, an
  -- update leaves the other kind alone, and an update of a Secret that reports an error did either
  -- nothing or all of its work.
  pub record IsAlone : Type 0 where
    pub reads_secret :
        (n : Text) (w : W)
        → (secrets (api.get_secret namespace n w).1 ≡ secrets w)
          × (metadata (api.get_secret namespace n w).1 ≡ metadata w)
    pub reads_config_map :
        (n : Text) (w : W)
        → (secrets (api.get_config_map namespace n w).1 ≡ secrets w)
          × (metadata (api.get_config_map namespace n w).1 ≡ metadata w)
    pub writes_secret : (o : Object V) (w : W) → metadata (api.update_secret o w).1 ≡ metadata w
    pub writes_config_map :
        (o : Object V) (w : W) → secrets (api.update_config_map o w).1 ≡ secrets w
    pub fails :
        (o : Object V) (e : Text) (w w' : W)
        → api.update_secret o w ≡ (err e, w')
        → (secrets w' ≡ secrets w)
          ⊎ ((n : Text) → secrets w' n ≡ (if o.name == n then some o.entries else secrets w n))

  module _ (model_name id : Text) where
    -- The client ID is in the object of this name.
    abbrev pub IsIn : (Text → Option (Map Text)) → Text → Type 0
    IsIn stored name = (held : Map Text) × (stored name ≡ some held) × (has_key id held ≡ true)

    -- A live key has its metadata, by which it can be listed and revoked.
    abbrev pub IsTracked : W → Type 0
    IsTracked w =
        IsIn (secrets w) (secret_name model_name) → IsIn (metadata w) (config_map_name model_name)

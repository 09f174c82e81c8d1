-- ===== src/Keys/Store.antt =====
-- The objects and the API calls of key-manager/internal/secrets/manager.go. The controller-runtime
-- client is not of the repository: it is a parameter, a record of the calls that the Manager makes,
-- each over a world `W`.
use nebari_llm_serving_pack.Base.{
  ℕ, ◌≡◌, Option, some, List, Text, Map, Result, ok, Exec, if◌then◌else◌, ◌==◌,
}

pub record KeyInfo : Type 0 where
  pub client_id : Text
  pub creator : Text
  pub description : Text
  pub created_at : ℕ
  pub model_name : Text
  pub namespace : Text

pub record CreateKeyResult : Type 0 where
  pub client_id : Text
  pub api_key : Text

-- A Secret or a ConfigMap as the Manager uses it: `version` is its resourceVersion.
pub record Object (V : Type 0) : Type 0 where
  pub name : Text
  pub labels : Map Text
  pub version : V
  pub entries : Map Text

pub record Client (V W : Type 0) : Type 0 where
  pub get_secret : Text → Text → Exec W (Object V)
  pub get_config_map : Text → Text → Exec W (Object V)
  pub update_secret : Object V → Exec W (Unit {0})
  pub update_config_map : Object V → Exec W (Unit {0})
  pub list_config_maps : Text → Exec W (List (Object V))

-- What else createKeyOnce takes from outside: random bytes, the clock, JSON,
-- SHA-256 and quoting.
pub record Env (W : Type 0) : Type 0 where
  pub random : ℕ → Exec W Text
  pub now : W → ℕ
  pub marshal : KeyInfo → Result Text
  pub unmarshal : Text → Option KeyInfo
  pub sha256 : Text → Text
  -- The verb %q of fmt on a string.
  pub quote : Text → Text

-- Optimistic concurrency, as Kubernetes documents it, of one kind of object: `stored` is what the
-- server holds, `at_version` what an object held at a version. A read returns the entries of the
-- version that it names; an update that succeeds found the version that it carries, and it
-- replaces that object and no other. Other writers may act during any call but a write.
pub record IsVersioned {V W : Type 0} (get : Text → Exec W (Object V))
    (update : Object V → Exec W (Unit {0})) (stored : W → Text → Option (Map Text))
    (at_version : Text → V → Map Text) : Type 0 where
  pub read :
      (n : Text) (w : W) (o : Object V) (w' : W)
      → get n w ≡ (ok o, w')
      → (o.name ≡ n) × (o.entries ≡ at_version n o.version)
  pub found :
      (o : Object V) (w w' : W)
      → update o w ≡ (ok tt, w')
      → stored w o.name ≡ some (at_version o.name o.version)
  pub written :
      (o : Object V) (w w' : W)
      → update o w ≡ (ok tt, w')
      → (n : Text) → stored w' n ≡ (if o.name == n then some o.entries else stored w n)

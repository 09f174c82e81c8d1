-- ===== src/Cluster.antt =====
-- What the operator's controllers share of a Kubernetes client, which is not of the repository: a
-- record of calls for each kind of object, over a world `W` that any call may change. An error is
-- its message; the errors that the code tells apart are cases of their own.
pub mod Keeps
use nebari_llm_serving_pack.Base.{Bool, Text, Map, Result, ok, err, Exec}

pub data Fetched {ℓ} (A : Type ℓ) : Type ℓ where
  found : A → Fetched A
  not_found : Fetched A
  failed : Text → Fetched A

-- The outcome of a write: `missing` where IsNotFound holds, `exists` where IsAlreadyExists does.
pub data Written : Type 0 where
  done : Written
  missing exists refused : Text → Written

pub record Kind (W A : Type 0) : Type 0 where
  pub get : Text → Text → W → Fetched A × W
  pub create : A → W → Written × W
  pub update : A → W → Written × W
  pub delete : A → W → Written × W

-- An object of the API server: its metadata, and what else it holds.
pub record Held (S : Type 0) : Type 0 where
  pub name : Text
  pub namespace : Text
  pub labels : Map Text
  pub annotations : Map Text
  pub version : Text
  pub owned : Bool
  pub spec : S

-- An object without a type of its own in the program.
pub record Unstructured (C : Type 0) : Type 0 where
  pub kind : Text
  pub name : Text
  pub namespace : Text
  pub version : Text
  pub owned : Bool
  pub content : C

unfoldable pub written : Written → Result (Unit {0})
written done = ok tt
written (missing e) = err e
written (exists e) = err e
written (refused e) = err e

-- `err != nil && !apierrors.IsNotFound(err)`
unfoldable pub unless_missing : Written → Result (Unit {0})
unless_missing done = ok tt
unless_missing (missing e) = ok tt
unless_missing (exists e) = err e
unless_missing (refused e) = err e

-- `err != nil && !apierrors.IsAlreadyExists(err)`
unfoldable pub unless_exists : Written → Result (Unit {0})
unless_exists done = ok tt
unless_exists (missing e) = err e
unless_exists (exists e) = ok tt
unless_exists (refused e) = err e

module _ {W : Type 0} where
  unfoldable pub writing : (Written → Result (Unit {0})) → (W → Written × W) → Exec W (Unit {0})
  writing result write w = let (r, w') = write w in (result r, w')

  -- The error is only logged.
  unfoldable pub logged : Exec W (Unit {0}) → Exec W (Unit {0})
  logged m w = let (r, w') = m w in (ok tt, w')

module _ {W A : Type 0} (kind : Kind W A) where
  unfoldable pub update_or_create : A → (A → A) → Fetched A → Exec W (Unit {0})
  update_or_create desired merge (found existing) = writing written (kind.update (merge existing))
  update_or_create desired merge not_found = writing written (kind.create desired)
  update_or_create desired merge (failed e) = λ w. (err e, w)

  -- The shape of every createOrUpdate: `merge` is what becomes of an object that exists.
  unfoldable pub create_or_update : Text → Text → A → (A → A) → Exec W (Unit {0})
  create_or_update namespace name desired merge w =
      let (r, w') = kind.get namespace name w in update_or_create desired merge r w'

module _ {S : Type 0} where
  -- `existing.Labels = desired.Labels`
  unfoldable pub relabel : Held S → Held S → Held S
  relabel desired existing = record existing { labels = desired.labels }

  unfoldable pub replace_spec : Held S → Held S → Held S
  replace_spec desired existing = record existing { spec = desired.spec; labels = desired.labels }

-- `obj.SetResourceVersion(existing.GetResourceVersion())`
unfoldable pub with_version : {C : Type 0} → Unstructured C → Unstructured C → Unstructured C
with_version desired existing = record desired { version = existing.version }

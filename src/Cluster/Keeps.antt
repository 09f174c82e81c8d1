-- ===== src/Cluster/Keeps.antt =====
-- Invariants of the world that calls keep.
use nebari_llm_serving_pack.Base.{Text, Result, ok, err, Exec, continue, wrap, ◌>>=◌, ◌>>◌}
use nebari_llm_serving_pack.Cluster.{
  Fetched, found, not_found, failed, Written, Kind, writing, logged, update_or_create,
  create_or_update,
}

pub record Keeps {W A : Type 0} (I : W → Type 0) (m : W → A × W) : Type 0 where
  pub run : (w : W) → I w → I (m w).1

-- Every call on the objects of a kind keeps the invariant.
pub record KindKeeps {W A : Type 0} (I : W → Type 0) (kind : Kind W A) : Type 0 where
  pub gets : (namespace name : Text) → Keeps I (kind.get namespace name)
  pub creates : (a : A) → Keeps I (kind.create a)
  pub updates : (a : A) → Keeps I (kind.update a)
  pub deletes : (a : A) → Keeps I (kind.delete a)

module _ {W : Type 0} {I : W → Type 0} where
  -- What leaves the world alone.
  pub lift-Keeps : {A : Type 0} (r : Result A) → Keeps I (λ (w : W). (r, w))
  lift-Keeps r = record { run = λ w i. i }

  pub continue-Keeps :
      {A B : Type 0} (r : Result A) {f : A → Exec W B}
      → ((a : A) → Keeps I (f a))
      → Keeps I (continue r f)
  continue-Keeps (ok a) h = h a
  continue-Keeps (err e) h = record { run = λ w i. i }

  pub bind-Keeps :
      {A B : Type 0} {m : Exec W A} {f : A → Exec W B}
      → Keeps I m
      → ((a : A) → Keeps I (f a))
      → Keeps I (m >>= f)
  bind-Keeps {m} {f} h k = record {
    run = λ w i. (continue-Keeps (m w).0 k).run (m w).1 (h.run w i);
  }

  pub then-Keeps :
      {A B : Type 0} {m : Exec W A} {n : Exec W B} → Keeps I m → Keeps I n → Keeps I (m >> n)
  then-Keeps h k = bind-Keeps h (λ _. k)

  pub wrap-Keeps : {A : Type 0} (f : Text → Text) {m : Exec W A} → Keeps I m → Keeps I (wrap f m)
  wrap-Keeps f h = record { run = λ w i. h.run w i }

  pub writing-Keeps :
      (result : Written → Result (Unit {0})) {write : W → Written × W}
      → Keeps I write
      → Keeps I (writing result write)
  unfolding writing
  writing-Keeps result h = record { run = λ w i. h.run w i }

  pub logged-Keeps : {m : Exec W (Unit {0})} → Keeps I m → Keeps I (logged m)
  unfolding logged
  logged-Keeps h = record { run = λ w i. h.run w i }

  -- A read, and what is done with what it gave.
  pub read-Keeps :
      {A B : Type 0} {get : W → A × W} {f : A → W → B × W}
      → Keeps I get
      → ((a : A) → Keeps I (f a))
      → Keeps I (λ (w : W). f (get w).0 (get w).1)
  read-Keeps {get} h k = record { run = λ w i. (k (get w).0).run (get w).1 (h.run w i) }

  update_or_create-Keeps :
      {A : Type 0} {kind : Kind W A}
      → KindKeeps I kind
      → (desired : A) (merge : A → A) (r : Fetched A)
      → Keeps I (update_or_create kind desired merge r)
  unfolding update_or_create
  update_or_create-Keeps k desired merge (found a) = writing-Keeps _ (k.updates (merge a))
  update_or_create-Keeps k desired merge not_found = writing-Keeps _ (k.creates desired)
  update_or_create-Keeps k desired merge (failed e) = lift-Keeps (err e)

  pub create_or_update-Keeps :
      {A : Type 0} {kind : Kind W A}
      → KindKeeps I kind
      → (namespace name : Text) (desired : A) (merge : A → A)
      → Keeps I (create_or_update kind namespace name desired merge)
  unfolding create_or_update
  create_or_update-Keeps k namespace name desired merge =
      read-Keeps (k.gets namespace name) (update_or_create-Keeps k desired merge)

-- ===== src/Base/Maps.antt =====
-- A Go map with string keys, as an association list; Go iterates in any order, here it is the
-- list's.
use mathlib.Core.Path.{◌≡◌, refl}
use mathlib.Core.Bool.{Bool}
use mathlib.Core.Option.{Option, none, some}
use mathlib.Core.List.{List, [], ◌∷◌}
use native.Mathlib.Omega.{arith}
use nebari_llm_serving_pack.Base.Tests.{if◌then◌else◌, is_some}
use nebari_llm_serving_pack.Base.Texts.{Text, ◌==◌, eq_iff}

abbrev pub Map {ℓ} : Type ℓ → Type ℓ
Map V = List (Text × V)

module _ {ℓ} {V : Type ℓ} where
  unfoldable pub lookup : Text → Map V → Option V
  lookup key [] = none
  lookup key ((held, value) ∷ entries) = if held == key then some value else lookup key entries

  -- The entry of the key is replaced where it stands, or a new one is put last.
  unfoldable pub insert : Text → V → Map V → Map V
  insert key new [] = (key, new) ∷ []
  insert key new ((held, value) ∷ entries) =
      let later = insert key new entries in
      if held == key then (key, new) ∷ entries else (held, value) ∷ later

  unfoldable pub delete : Text → Map V → Map V
  delete key [] = []
  delete key ((held, value) ∷ entries) =
      let rest = delete key entries in if held == key then rest else (held, value) ∷ rest

  unfoldable pub has_key : Text → Map V → Bool
  unfolding lookup
  has_key key entries = is_some (lookup key entries)

  pub lookup-insert :
      (key asked : Text) (new : V) (entries : Map V)
      → lookup asked (insert key new entries)
        ≡ (if key == asked then some new else lookup asked entries)
  unfolding lookup insert
  lookup-insert key asked new [] = refl
  lookup-insert key asked new ((held, value) ∷ entries) =
      let rest = lookup-insert key asked new entries in
      ground (arith, rest, eq_iff held key, eq_iff held asked, eq_iff key asked)

  pub lookup-delete :
      (key asked : Text) (entries : Map V)
      → lookup asked (delete key entries) ≡ (if key == asked then none else lookup asked entries)
  unfolding lookup delete
  lookup-delete key asked [] = ground arith
  lookup-delete key asked ((held, value) ∷ entries) =
      let rest = lookup-delete key asked entries in
      ground (arith, rest, eq_iff held key, eq_iff held asked, eq_iff key asked)

pub ruleset map_laws = (lookup-insert, lookup-delete)

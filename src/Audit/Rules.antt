-- ===== src/Audit/Rules.antt =====
-- What a pass of the auditor may do: RunOnce and hasOverlap of auditor.go.
use nebari_llm_serving_pack.Base.{
  ◌≡◌, ◌↔◌, inl, inr, refl, sym, ◌∙◌, true, false, List, [], ◌∷◌, arith, Bool-cases, Text, Result,
  ok, err, In, here, there, member, member-In, In-member,
}
use nebari_llm_serving_pack.Keys.Store.{KeyInfo}
use nebari_llm_serving_pack.Models.{ModelInfo}
use nebari_llm_serving_pack.Models.Access.{MayUse}
use nebari_llm_serving_pack.Audit.{
  Auditor, has_overlap, judge_key, audit_key, audit_keys, audit_listed, audit_model, audit_models,
  run_once,
}
use mathlib.Core.Bool.{false≢true}

overlap-In :
    (user_groups set : List Text)
    → has_overlap user_groups set ≡ true
    → (g : Text) × In g set × In g user_groups
unfolding has_overlap
overlap-In [] set h = cc
overlap-In (g ∷ gs) set h = elim (Bool-cases (member g set)) [
  | inl mine ↦ (g, member-In g set mine, here)
  | inr other ↦ let (k, i, j) = overlap-In gs set (rw other at h) in (k, i, there j)
]

In-overlap :
    {g : Text} {user_groups : List Text} (set : List Text)
    → In g set
    → In g user_groups
    → has_overlap user_groups set ≡ true
unfolding has_overlap
In-overlap set i here = rw (In-member i)
In-overlap set i (there {x} j) = ground (arith, In-overlap set i j)

-- On a model that is not public the auditor's test agrees with the API's rule for showing it.
pub has_overlap_iff :
    (user_groups : List Text) (m : ModelInfo)
    → m.public ≡ false
    → (has_overlap user_groups m.groups ≡ true) ↔ MayUse user_groups m
has_overlap_iff user_groups m private = (
  (λ h. inr (overlap-In user_groups m.groups h)),
  (λ h. elim h [
    | inl anyone ↦ absurd (false≢true (sym private ∙ anyone))
    | inr (g, i, j) ↦ In-overlap m.groups i j
  ]),
)

-- A pass that starts in `start`, and a property of worlds.
module _ {W : Type 0} (auditor : Auditor W) (Good : W → Type 0) (start : W) where
  abbrev pub Listing : Type 0
  Listing = (name : Text) (w : W) → Good w → Good (auditor.keys.list_keys name w).1

  abbrev pub LookingUp : Type 0
  LookingUp = (user : Text) (w : W) → Good w → Good (auditor.lookup user w).1

  -- Revoking a key that was listed for a cached model which is not public and which its creator, by
  -- the groups that were looked up, may not use.
  abbrev pub Revoking : Type 0
  Revoking =
      (m : ModelInfo) (keys : List KeyInfo) (key : KeyInfo) (groups : List Text)
      (listed_in looked_up_in w : W)
      → Good w
      → In m (auditor.models start)
      → m.public ≡ false
      → (auditor.keys.list_keys m.name listed_in).0 ≡ ok keys
      → In key keys
      → (auditor.lookup key.creator looked_up_in).0 ≡ ok groups
      → (MayUse groups m → ⊥)
      → Good (auditor.keys.revoke_key m.name key.client_id w).1

  module _ (listing : Listing) (looking_up : LookingUp) (revoking : Revoking) where
    module _ (m : ModelInfo) (cached : In m (auditor.models start))
        (private : m.public ≡ false) where
      module _ (keys : List KeyInfo) (listed_in : W)
          (listed : (auditor.keys.list_keys m.name listed_in).0 ≡ ok keys) where
        judge_key-keeps :
            (key : KeyInfo) (r : Result (List Text)) (looked_up_in w : W)
            → In key keys
            → (auditor.lookup key.creator looked_up_in).0 ≡ r
            → Good w
            → Good (judge_key auditor m key r w).1
        unfolding judge_key
        judge_key-keeps key (err e) looked_up_in w i looked good = good
        judge_key-keeps key (ok groups) looked_up_in w i looked good =
            elim (Bool-cases (has_overlap groups m.groups)) [
              | inl kept ↦ rw kept good
              | inr lost ↦ rw lost (
                  revoking m keys key groups listed_in looked_up_in w good cached private listed i
                    looked
                    (λ may. false≢true (sym lost ∙ (has_overlap_iff groups m private).1 may)))
            ]

        audit_keys-keeps :
            (rest : List KeyInfo) (w : W)
            → ((key : KeyInfo) → In key rest → In key keys)
            → Good w
            → Good (audit_keys auditor m rest w).1
        unfolding audit_keys audit_key
        audit_keys-keeps [] w sub good = good
        audit_keys-keeps (key ∷ rest) w sub good =
            audit_keys-keeps rest _ (λ k i. sub k (there i))
              (judge_key-keeps key _ w _ (sub key here) refl (looking_up key.creator w good))

      audit_listed-keeps :
          (r : Result (List KeyInfo)) (listed_in w : W)
          → (auditor.keys.list_keys m.name listed_in).0 ≡ r
          → Good w
          → Good (audit_listed auditor m r w).1
      unfolding audit_listed
      audit_listed-keeps (err e) listed_in w listed good = good
      audit_listed-keeps (ok keys) listed_in w listed good =
          audit_keys-keeps keys listed_in listed keys w (λ k i. i) good

    audit_model-keeps :
        (m : ModelInfo) (w : W)
        → In m (auditor.models start)
        → Good w
        → Good (audit_model auditor m w).1
    unfolding audit_model
    audit_model-keeps m w cached good = elim (Bool-cases m.public) [
      | inl anyone ↦ rw anyone good
      | inr private ↦
          simp private (audit_listed-keeps m cached private _ w _ refl (listing m.name w good))
    ]

    audit_models-keeps :
        (ms : List ModelInfo) (w : W)
        → ((m : ModelInfo) → In m ms → In m (auditor.models start))
        → Good w
        → Good (audit_models auditor ms w).1
    unfolding audit_models
    audit_models-keeps [] w sub good = good
    audit_models-keeps (m ∷ ms) w sub good =
        audit_models-keeps ms _ (λ n i. sub n (there i)) (audit_model-keeps m w (sub m here) good)

  -- What holds at the start of a pass and is kept by listing, by looking users up, and by revoking a
  -- key that was listed for a cached model which is not public and which the key's creator, by the
  -- groups looked up, may not use, holds after the pass.
  pub run_once-keeps : Listing → LookingUp → Revoking → Good start → Good (run_once auditor start).1
  unfolding run_once
  run_once-keeps listing looking_up revoking good =
      audit_models-keeps listing looking_up revoking (auditor.models start) start (λ m i. i) good

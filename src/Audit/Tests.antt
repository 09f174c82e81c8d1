-- ===== src/Audit/Tests.antt =====
-- A pass over one model with the keys of two users, of whom one has left the model's group. The
-- world is the list of the revoked client IDs.
use nebari_llm_serving_pack.Base.{
  ◌≡◌, ◌≢◌, ◌↔◌, inl, inr, refl, ap, ◌∙◌, true, false, List, [], ◌∷◌, Text, bytes, ◌==◌, eq_iff,
  if◌then◌else◌, Result, ok, err, In, here, there, In-cons, member,
}
use mathlib.Core.Bool.{false≢true}
use nebari_llm_serving_pack.Keys.Store.{KeyInfo}
use nebari_llm_serving_pack.Models.{ModelInfo}
use nebari_llm_serving_pack.Models.Access.{MayUse}
use nebari_llm_serving_pack.Audit.{
  Auditor, has_overlap, errors_of, judge_key, audit_key, audit_keys, audit_listed, audit_model,
  run_once,
}
use nebari_llm_serving_pack.Audit.Rules.{has_overlap_iff, Revoking, run_once-keeps}
use nebari_llm_serving_pack.Audit.Complete.{audit_model-revokes}

abbrev key_of : Text → Text → KeyInfo
key_of client_id creator = record {
  client_id = client_id;
  creator = creator;
  description = [];
  created_at = 0;
  model_name = bytes "phi";
  namespace = bytes "ns";
}

abbrev al_key : KeyInfo
al_key = key_of (bytes "al-phi-1") (bytes "al")

abbrev bo_key : KeyInfo
bo_key = key_of (bytes "bo-phi-1") (bytes "bo")

abbrev phi : ModelInfo
phi = record {
  name = bytes "phi";
  namespace = bytes "ns";
  model_name = bytes "ms/phi";
  public = false;
  groups = bytes "llm" ∷ [];
  passthrough = false;
  provider = [];
}

abbrev groups_of : Text → Result (List Text)
groups_of user =
    if user == bytes "al"
    then ok (bytes "llm" ∷ [])
    else if user == bytes "bo"
    then ok (bytes "x" ∷ [])
    else err (bytes "no such user")

abbrev auditor : Auditor (List Text)
auditor = record {
  models = λ w. phi ∷ [];
  keys = record {
    list_keys = λ name w. (ok (al_key ∷ bo_key ∷ []), w);
    revoke_key = λ name client_id w. (ok tt, client_id ∷ w);
  };
  lookup = λ user w. (groups_of user, w);
}

has_overlap_iff_example :
    (has_overlap (bytes "x" ∷ []) phi.groups ≡ true) ↔ MayUse (bytes "x" ∷ []) phi
has_overlap_iff_example = has_overlap_iff (bytes "x" ∷ []) phi refl

abbrev AlKept : List Text → Type 0
AlKept w = In (bytes "al-phi-1") w → ⊥

al_may : (groups : List Text) → groups_of (bytes "al") ≡ ok groups → MayUse groups phi
unfolding bytes ◌==◌
al_may groups h = inr (bytes "llm", here, in_groups)
  where
    same : (bytes "llm" ∷ []) ≡ groups
    same = cc h

    in_groups : In (bytes "llm") groups
    in_groups = rw (← same) here

keys_differ : bytes "al-phi-1" ≢ bytes "bo-phi-1"
unfolding bytes ◌==◌
keys_differ h = absurd (false≢true ((eq_iff (bytes "al-phi-1") (bytes "bo-phi-1")).1 h))

In-both :
    {key : KeyInfo} {keys : List KeyInfo}
    → In key keys
    → keys ≡ (al_key ∷ bo_key ∷ [])
    → In key (al_key ∷ bo_key ∷ [])
In-both i e = rw (← e) i

al_revoking : Revoking auditor AlKept []
al_revoking m keys key groups listed_in looked_in w kept cached private listed i looked lost j =
    elim (In-cons cached) [
      | inr k ↦ elim k [ ]
      | inl is_phi ↦ elim (In-cons (In-both i keys_are)) [
        | inl is_al ↦ lost (rw is_phi (al_may groups (rw is_al at looked)))
        | inr k ↦ elim (In-cons k) [
          | inr none ↦ elim none [ ]
          | inl is_bo ↦ elim (In-cons j) [
            | inl e ↦ keys_differ (e ∙ ap (λ k. k.client_id) is_bo)
            | inr earlier ↦ kept earlier
          ]
        ]
      ]
    ]
  where
    keys_are : keys ≡ (al_key ∷ bo_key ∷ [])
    keys_are = cc listed

run_once-keeps_example : In (bytes "al-phi-1") (run_once auditor []).1 → ⊥
run_once-keeps_example =
    run_once-keeps auditor AlKept [] (λ name w good. good) (λ user w good. good) al_revoking
      (λ i. elim i [ ])

abbrev Gone : List Text → Text → Text → Type 0
Gone w name client_id = In client_id w

no_errors : (audit_model auditor phi []).0 ≡ []
unfolding audit_model audit_listed audit_keys audit_key judge_key has_overlap errors_of member bytes
    ◌==◌
no_errors = refl

bo_groups : groups_of (bytes "bo") ≡ ok (bytes "x" ∷ [])
unfolding bytes ◌==◌
bo_groups = refl

bo_may_not : MayUse (bytes "x" ∷ []) phi → ⊥
unfolding has_overlap member bytes ◌==◌
bo_may_not may = absurd (false≢true ((has_overlap_iff (bytes "x" ∷ []) phi refl).1 may))

audit_model-revokes_example : In (bytes "bo-phi-1") (audit_model auditor phi []).1
audit_model-revokes_example =
    audit_model-revokes auditor Gone (λ name client_id w h. here)
      (λ name client_id w gone. ((λ user. gone), (λ other_name other. there gone))) groups_of
      (λ user w. refl) phi (al_key ∷ bo_key ∷ []) bo_key (bytes "x" ∷ []) [] refl refl (there here)
      bo_groups bo_may_not no_errors

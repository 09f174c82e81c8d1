-- ===== src/Audit/Complete.antt =====
-- What a pass of the auditor must do: the loop of RunOnce over the keys of one model.
use nebari_llm_serving_pack.Base.{
  ◌≡◌, inl, inr, refl, sym, ap, ◌∙◌, false, List, [], ◌∷◌, ◌++◌, Bool-cases, Text, Result, ok, err,
  In, In-cons,
}
use nebari_llm_serving_pack.Keys.Store.{KeyInfo}
use nebari_llm_serving_pack.Models.{ModelInfo}
use nebari_llm_serving_pack.Models.Access.{MayUse}
use nebari_llm_serving_pack.Audit.{
  Auditor, has_overlap, errors_of, judge_key, audit_key, audit_keys, audit_listed, audit_model,
}
use nebari_llm_serving_pack.Audit.Rules.{has_overlap_iff}

left-empty : (es fs : List Text) → es ++ fs ≡ [] → es ≡ []
left-empty [] fs h = refl
left-empty (e ∷ es) fs h = cc

right-empty : (es fs : List Text) → es ++ fs ≡ [] → fs ≡ []
right-empty [] fs h = h
right-empty (e ∷ es) fs h = cc

errors_of-ok :
    (client_id name : Text) (r : Result (Unit {0})) → errors_of client_id name r ≡ [] → r ≡ ok tt
unfolding errors_of
errors_of-ok client_id name (ok tt) h = refl
errors_of-ok client_id name (err e) h = cc

-- `Gone w name client_id`: the key is revoked in `w`. A successful revocation makes it so, and
-- neither a lookup nor another revocation undoes it.
module _ {W : Type 0} (auditor : Auditor W) (Gone : W → Text → Text → Type 0) where
  abbrev pub IsRevoking : Type 0
  IsRevoking =
      (name client_id : Text) (w : W)
      → (auditor.keys.revoke_key name client_id w).0 ≡ ok tt
      → Gone (auditor.keys.revoke_key name client_id w).1 name client_id

  abbrev pub IsFinal : Type 0
  IsFinal =
      (name client_id : Text) (w : W)
      → Gone w name client_id
      → ((user : Text) → Gone (auditor.lookup user w).1 name client_id)
        × ((other_name other : Text)
            → Gone (auditor.keys.revoke_key other_name other w).1 name client_id)

  -- The identity provider answers a user's groups alike during the pass.
  abbrev pub IsSteady : (Text → Result (List Text)) → Type 0
  IsSteady groups_of = (user : Text) (w : W) → (auditor.lookup user w).0 ≡ groups_of user

  module _ (is_revoking : IsRevoking) (is_final : IsFinal) (groups_of : Text → Result (List Text))
      (is_steady : IsSteady groups_of) where
    judge_key-final :
        (m : ModelInfo) (key : KeyInfo) (r : Result (List Text)) (w : W) {name client_id : Text}
        → Gone w name client_id
        → Gone (judge_key auditor m key r w).1 name client_id
    unfolding judge_key
    judge_key-final m key (err e) w gone = gone
    judge_key-final m key (ok groups) w gone = elim (Bool-cases (has_overlap groups m.groups)) [
      | inl kept ↦ rw kept gone
      | inr lost ↦ rw lost ((is_final _ _ w gone).1 m.name key.client_id)
    ]

    audit_keys-final :
        (m : ModelInfo) (keys : List KeyInfo) (w : W) {name client_id : Text}
        → Gone w name client_id
        → Gone (audit_keys auditor m keys w).1 name client_id
    unfolding audit_keys audit_key
    audit_keys-final m [] w gone = gone
    audit_keys-final m (key ∷ keys) w gone =
        audit_keys-final m keys _ (judge_key-final m key _ _ ((is_final _ _ w gone).0 key.creator))

    judge_key-revokes :
        (m : ModelInfo) (key : KeyInfo) (groups : List Text) (w : W)
        → has_overlap groups m.groups ≡ false
        → (judge_key auditor m key (ok groups) w).0 ≡ []
        → Gone (judge_key auditor m key (ok groups) w).1 m.name key.client_id
    unfolding judge_key
    judge_key-revokes m key groups w lost clean =
        rw lost (is_revoking m.name key.client_id w (errors_of-ok _ _ _ (rw lost at clean)))

    audit_key-revokes :
        (m : ModelInfo) (key : KeyInfo) (groups : List Text) (w : W)
        → has_overlap groups m.groups ≡ false
        → groups_of key.creator ≡ ok groups
        → (audit_key auditor m key w).0 ≡ []
        → Gone (audit_key auditor m key w).1 m.name key.client_id
    unfolding audit_key
    audit_key-revokes m key groups w lost looked =
        rw (is_steady key.creator w, looked)
          (judge_key-revokes m key groups (auditor.lookup key.creator w).1 lost)

    audit_keys-revokes :
        (m : ModelInfo) (keys : List KeyInfo) (key : KeyInfo) (groups : List Text) (w : W)
        → In key keys
        → has_overlap groups m.groups ≡ false
        → groups_of key.creator ≡ ok groups
        → (audit_keys auditor m keys w).0 ≡ []
        → Gone (audit_keys auditor m keys w).1 m.name key.client_id
    unfolding audit_keys
    audit_keys-revokes m [] key groups w i lost looked clean = elim i [ ]
    audit_keys-revokes m (k ∷ ks) key groups w i lost looked clean = elim (In-cons i) [
      | inl first ↦ audit_keys-final m ks _ (
          rw first (
            audit_key-revokes m k groups w lost (ap (λ x. groups_of x.creator) (sym first) ∙ looked)
              (left-empty _ _ clean)))
      | inr later ↦ audit_keys-revokes m ks key groups _ later lost looked (right-empty _ _ clean)
    ]

    -- The identity provider answers alike during the pass, and a revoked key stays so. When the
    -- pass over a model that is not public reports no error, every key listed for the model whose
    -- creator has groups that do not give access to the model is revoked.
    pub audit_model-revokes :
        (m : ModelInfo) (keys : List KeyInfo) (key : KeyInfo) (groups : List Text) (w : W)
        → m.public ≡ false
        → (auditor.keys.list_keys m.name w).0 ≡ ok keys
        → In key keys
        → groups_of key.creator ≡ ok groups
        → (MayUse groups m → ⊥)
        → (audit_model auditor m w).0 ≡ []
        → Gone (audit_model auditor m w).1 m.name key.client_id
    unfolding audit_model audit_listed
    audit_model-revokes m keys key groups w private listed i looked lost =
        simp (private, listed)
          (audit_keys-revokes m keys key groups (auditor.keys.list_keys m.name w).1 i no_overlap
            looked)
      where
        no_overlap : has_overlap groups m.groups ≡ false
        no_overlap = elim (Bool-cases (has_overlap groups m.groups)) [
          | inl kept ↦ absurd (lost ((has_overlap_iff groups m private).0 kept))
          | inr none_shared ↦ none_shared
        ]

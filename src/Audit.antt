-- ===== src/Audit.antt =====
-- key-manager/internal/audit/auditor.go: one pass of the auditor. The timer and the log are not
-- modelled; a failed lookup and a failed revocation differ in what they leave, not in what is
-- logged.
pub mod Rules
pub mod Complete
mod Tests
use nebari_llm_serving_pack.Base.{
  Bool, true, false, List, [], ◌∷◌, ◌++◌, ◌||◌, if◌then◌else◌, Text, bytes, Result, ok, err, Exec,
  member,
}
use nebari_llm_serving_pack.Keys.Store.{KeyInfo}
use nebari_llm_serving_pack.Models.{ModelInfo}

-- UserGroupsLookup, a call to Keycloak.
abbrev pub UserGroupsLookup : Type 0 → Type 0
UserGroupsLookup W = Text → Exec W (List Text)

pub record KeyManager (W : Type 0) : Type 0 where
  pub list_keys : Text → Exec W (List KeyInfo)
  pub revoke_key : Text → Text → Exec W (Unit {0})

pub record Auditor (W : Type 0) : Type 0 where
  pub models : W → List ModelInfo
  pub keys : KeyManager W
  pub lookup : UserGroupsLookup W

-- The set of the model's groups is their list.
unfoldable pub has_overlap : List Text → List Text → Bool
has_overlap [] model_group_set = false
has_overlap (g ∷ gs) model_group_set = member g model_group_set || has_overlap gs model_group_set

unfoldable pub listing_error : Text → Text → Text
listing_error name e = bytes "listing keys for model " ++ (name ++ (bytes ": " ++ e))

unfoldable pub revoking_error : Text → Text → Text → Text
revoking_error client_id name e =
    bytes "revoking key " ++ (client_id ++ (bytes " for model " ++ (name ++ (bytes ": " ++ e))))

unfoldable pub errors_of : Text → Text → Result (Unit {0}) → List Text
errors_of client_id name (ok _) = []
errors_of client_id name (err e) = revoking_error client_id name e ∷ []

module _ {W : Type 0} (auditor : Auditor W) where
  -- What happens to a key once its creator is looked up: the errors of the step, and the world.
  unfoldable pub judge_key : ModelInfo → KeyInfo → Result (List Text) → W → List Text × W
  judge_key model key (err e) w = ([], w)
  judge_key model key (ok user_groups) w =
      if has_overlap user_groups model.groups
      then ([], w)
      else (let (r, w') = auditor.keys.revoke_key model.name key.client_id w in
          (errors_of key.client_id model.name r, w'))

  unfoldable pub audit_key : ModelInfo → KeyInfo → W → List Text × W
  audit_key model key w = let (r, w') = auditor.lookup key.creator w in judge_key model key r w'

  unfoldable pub audit_keys : ModelInfo → List KeyInfo → W → List Text × W
  audit_keys model [] w = ([], w)
  audit_keys model (key ∷ keys) w =
      let (es, w') = audit_key model key w in
      let (fs, w'') = audit_keys model keys w' in (es ++ fs, w'')

  unfoldable pub audit_listed : ModelInfo → Result (List KeyInfo) → W → List Text × W
  audit_listed model (err e) w = (listing_error model.name e ∷ [], w)
  audit_listed model (ok keys) w = audit_keys model keys w

  unfoldable pub audit_model : ModelInfo → W → List Text × W
  audit_model model w =
      if model.public
      then ([], w)
      else (let (r, w') = auditor.keys.list_keys model.name w in audit_listed model r w')

  unfoldable pub audit_models : List ModelInfo → W → List Text × W
  audit_models [] w = ([], w)
  audit_models (model ∷ models) w =
      let (es, w') = audit_model model w in
      let (fs, w'') = audit_models models w' in (es ++ fs, w'')

  -- The errors that RunOnce joins; none is success.
  unfoldable pub run_once : W → List Text × W
  run_once w = audit_models (auditor.models w) w

-- ===== src/Models.antt =====
-- key-manager/internal/models/watcher.go: the cache of models. The two List calls of Sync are its
-- arguments, by their results; the lock is not modelled, each method being one step.
pub mod Access
pub mod Sync
mod Tests
use nebari_llm_serving_pack.Base.{
  Bool, true, false, Option, none, some, List, [], ◌∷◌, ◌++◌, ◌||◌, if◌then◌else◌, Text, bytes, Map,
  insert, Result, ok, err, member,
}
use nebari_llm_serving_pack.Crd.{LlmModel, PassthroughModel}

pub record ModelInfo : Type 0 where
  pub name : Text
  pub namespace : Text
  pub model_name : Text
  pub public : Bool
  pub groups : List Text
  pub passthrough : Bool
  pub provider : Text

pub record Watcher : Type 0 where
  pub models : Map ModelInfo

abbrev pub new_watcher : Watcher
new_watcher = record { models = [] }

unfoldable pub public_or_false : Option Bool → Bool
public_or_false none = false
public_or_false (some b) = b

unfoldable pub llm_key : LlmModel → Text
llm_key m = bytes "llmmodel/" ++ (m.namespace ++ (bytes "/" ++ m.name))

unfoldable pub llm_info : LlmModel → ModelInfo
llm_info m = record {
  name = m.name;
  namespace = m.namespace;
  model_name = m.spec.model.name;
  public = public_or_false m.spec.access.public;
  groups = m.spec.access.groups;
  passthrough = false;
  provider = [];
}

unfoldable pub passthrough_key : PassthroughModel → Text
passthrough_key pm = bytes "passthroughmodel/" ++ (pm.namespace ++ (bytes "/" ++ pm.name))

unfoldable pub passthrough_info : PassthroughModel → ModelInfo
passthrough_info pm = record {
  name = pm.name;
  namespace = pm.namespace;
  model_name = pm.spec.provider.hostname;
  public = public_or_false pm.spec.access.public;
  groups = pm.spec.access.groups;
  passthrough = true;
  provider = pm.spec.provider.hostname;
}

-- The two loops of Sync: each item is stored under its key.
unfoldable pub put_all {ℓ} :
    {A : Type ℓ} → (A → Text) → (A → ModelInfo) → Map ModelInfo → List A → Map ModelInfo
put_all key info updated [] = updated
put_all key info updated (m ∷ ms) = put_all key info (insert (key m) (info m) updated) ms

unfoldable pub sync :
    Result (List LlmModel) → Result (List PassthroughModel) → Watcher → Result (Unit {0}) × Watcher
sync (err e) listed w = (err e, w)
sync (ok ms) (err e) w = (err e, w)
sync (ok ms) (ok pms) w = (
  ok tt,
  record { models = put_all passthrough_key passthrough_info (put_all llm_key llm_info [] ms) pms },
)

-- What the two List calls of a Sync give.
abbrev pub Reads : Type 0
Reads = Result (List LlmModel) × Result (List PassthroughModel)

-- The Syncs of cmd/main.go, the first and those of the ticker, one after the other, with their
-- results, which main only logs.
unfoldable pub sync_all : List Reads → Watcher → List (Result (Unit {0})) × Watcher
sync_all [] w = ([], w)
sync_all ((listed, pt_listed) ∷ later) w =
    let (r, w') = sync listed pt_listed w in let (rs, w'') = sync_all later w' in (r ∷ rs, w'')

unfoldable pub values : Map ModelInfo → List ModelInfo
values [] = []
values ((k, m) ∷ ms) = m ∷ values ms

unfoldable pub list_models : Watcher → List ModelInfo
list_models w = values w.models

-- The inner loop of FilterModelsForUser: some group of the model is one of the user's.
unfoldable pub shares_group : List Text → List Text → Bool
shares_group user_groups [] = false
shares_group user_groups (g ∷ gs) = member g user_groups || shares_group user_groups gs

unfoldable pub accessible : List Text → List ModelInfo → List ModelInfo
accessible user_groups [] = []
accessible user_groups (m ∷ ms) =
    let rest = accessible user_groups ms in
    if m.public then m ∷ rest else if shares_group user_groups m.groups then m ∷ rest else rest

unfoldable pub filter_models_for_user : Watcher → List Text → List ModelInfo
filter_models_for_user w groups = accessible groups (values w.models)

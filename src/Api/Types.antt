-- ===== src/Api/Types.antt =====
-- Requests, responses and interfaces of key-manager/internal/api.
use nebari_llm_serving_pack.Base.{ℕ, Option, List, Text, Map, Exec}
use nebari_llm_serving_pack.Keys.Store.{KeyInfo, CreateKeyResult}
use nebari_llm_serving_pack.Models.{ModelInfo}

pub record UserInfo : Type 0 where
  pub username : Text
  pub name : Text
  pub email : Text
  pub groups : List Text

-- A value of the claims map, as far as a type switch tells: an item of an array is a string or
-- anything else.
pub data Item : Type 0 where
  text_item : Text → Item
  other_item : Item

pub data Claim : Type 0 where
  text : Text → Claim
  array : List Item → Claim
  texts : List Text → Claim
  other : Claim

abbrev pub Claims : Type 0
Claims = Map Claim

-- The result of TokenValidator.ValidateToken; `not_ready` is ErrNotReady.
pub data Validation : Type 0 where
  valid : Claims → Validation
  not_ready : Validation
  invalid : Text → Validation

pub data Body : Type 0 where
  nothing : Body
  message : Text → Body
  identity : UserInfo → Body
  models : List ModelInfo → Body
  keys : List KeyInfo → Body
  created : CreateKeyResult → Body

pub record Response : Type 0 where
  pub status : ℕ
  pub retry_after : Option ℕ
  pub body : Body

-- The identity in the request's context, then the world behind the handler.
abbrev pub HandlerFunc : Type 0 → Type 0
HandlerFunc W = Option UserInfo → W → Response × W

-- The interfaces ModelLister and KeyManager.
abbrev pub ModelLister : Type 0 → Type 0
ModelLister W = List Text → W → List ModelInfo

pub record KeyManager (W : Type 0) : Type 0 where
  pub create_key : Text → Text → Text → Exec W CreateKeyResult
  pub list_keys : Text → Exec W (List KeyInfo)
  pub list_keys_for_user : Text → Exec W (List KeyInfo)
  pub revoke_key : Text → Text → Exec W (Unit {0})

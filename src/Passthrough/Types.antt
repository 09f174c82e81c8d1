-- ===== src/Passthrough/Types.antt =====
-- The objects, calls and conditions of the controller of PassthroughModels.
use nebari_llm_serving_pack.Base.{
  ℕ, Bool, true, false, ◌&&◌, not, Option, none, some, List, [], ◌∷◌, if◌then◌else◌, Text, ◌==◌,
  bytes, Map, Result, ok, err,
}
use nebari_llm_serving_pack.Auth.{DataObject, SecurityPolicy}
use nebari_llm_serving_pack.Cluster.{Kind, Written, Held, Unstructured}
use nebari_llm_serving_pack.Crd.{PassthroughModel}
use nebari_llm_serving_pack.Passthrough.{
  Backend, BackendTlsPolicy, AiServiceBackend, BackendSecurityPolicy, PassthroughRoute,
}

pub data PassthroughPhase : Type 0 where
  ready_phase error_phase : PassthroughPhase

pub data CondType : Type 0 where
  backend_configured external_endpoint_ready internal_endpoint_ready : CondType

pub record Condition : Type 0 where
  pub type : CondType
  pub status : Bool
  pub reason : Text
  pub message : Text
  pub observed_generation : ℕ

pub record PassthroughModelStatus : Type 0 where
  pub phase : Option PassthroughPhase
  pub conditions : List Condition
  pub observed_generation : ℕ
  pub external_endpoint : Text
  pub internal_endpoint : Text

pub record PassthroughObject : Type 0 where
  pub model : PassthroughModel
  pub deleting : Bool
  pub finalizers : List Text
  pub generation : ℕ
  pub status : PassthroughModelStatus

pub data Custom : Type 0 where
  backend : Backend → Custom
  tls_policy : BackendTlsPolicy → Custom
  service_backend : AiServiceBackend → Custom
  upstream_policy : BackendSecurityPolicy → Custom
  route : PassthroughRoute → Custom
  security_policy : SecurityPolicy → Custom

-- meta.SetStatusCondition is a function of a list and a condition.
pub record Api (W : Type 0) : Type 0 where
  pub models : Kind W PassthroughObject
  pub update_model_status : PassthroughObject → W → Written × W
  pub secrets : Kind W (Held (Map Text))
  pub list_secrets : Text → W → Result (List DataObject) × W
  pub config_maps : Kind W (Held (Map Text))
  pub customs : Text → Kind W (Unstructured Custom)
  pub set_owner : Text → Text → Result (Unit {0})
  pub set_condition : List Condition → Condition → List Condition

abbrev pub apply_failed : Text
apply_failed = bytes "ApplyFailed"

unfoldable pub condition_for : CondType → Result (Unit {0}) → Text → Condition
condition_for type (err e) ok_message = record {
  type = type;
  status = false;
  reason = apply_failed;
  message = e;
  observed_generation = 0;
}
condition_for type (ok u) ok_message = record {
  type = type;
  status = true;
  reason = bytes "Applied";
  message = ok_message;
  observed_generation = 0;
}

unfoldable pub disabled_condition : CondType → Condition
disabled_condition type = record {
  type = type;
  status = false;
  reason = bytes "EndpointDisabled";
  message = bytes "endpoint disabled in spec";
  observed_generation = 0;
}

unfoldable pub phase_for : List Condition → PassthroughPhase
phase_for [] = ready_phase
phase_for (c ∷ conditions) =
    let later = phase_for conditions in
    if not c.status && c.reason == apply_failed then error_phase else later

unfoldable pub first_error : Option Text → Result (Unit {0}) → Option Text
first_error (some e) r = some e
first_error none (ok u) = none
first_error none (err e) = some e

unfoldable pub result_of : Option Text → Result (Unit {0})
result_of none = ok tt
result_of (some e) = err e

unfoldable pub custom : PassthroughModel → Text → Text → Custom → Option (Unstructured Custom)
custom pm kind name content = some (record {
  kind = kind;
  name = name;
  namespace = pm.namespace;
  version = [];
  owned = true;
  content = content;
})

unfoldable pub custom_route :
    PassthroughModel → Option PassthroughRoute → Option (Unstructured Custom)
custom_route pm none = none
custom_route pm (some r) = custom pm (bytes "AIGatewayRoute") r.name (route r)

unfoldable pub custom_policy :
    PassthroughModel → Option SecurityPolicy → Option (Unstructured Custom)
custom_policy pm none = none
custom_policy pm (some p) = custom pm (bytes "SecurityPolicy") p.name (security_policy p)

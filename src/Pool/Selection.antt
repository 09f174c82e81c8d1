-- ===== src/Pool/Selection.antt =====
-- Which pods the selectors of a model choose.
use nebari_llm_serving_pack.Base.{
  ◌≡◌, refl, Bool, true, false, ◌&&◌, Option, none, some, [], ◌∷◌, Text, ◌==◌, ==-refl, bytes, Map,
  lookup, insert, Result, ok, err, ok-injective,
}
use nebari_llm_serving_pack.Config.{OperatorConfig}
use nebari_llm_serving_pack.Crd.{LlmModel}
use nebari_llm_serving_pack.Naming.{standard_labels}
use nebari_llm_serving_pack.Pool.{
  InferencePoolResources, ConfigMap, build_inference_pool, epp_name_of, epp_selector,
  build_epp_deployment, build_epp_service, resources_of, build_inference_pool_resources,
}
use nebari_llm_serving_pack.Serving.{build_deployment}
use nebari_llm_serving_pack.Storage.{StorageResult}

unfoldable pub is_label : Option Text → Text → Bool
is_label none value = false
is_label (some held) value = held == value

-- Kubernetes' documented reading of `matchLabels`: an object has each label with its value.
unfoldable pub selects : Map Text → Map Text → Bool
selects [] labels = true
selects ((k, v) ∷ selector) labels = is_label (lookup k labels) v && selects selector labels

-- The pool and the picker's Service choose the pods that they are for, and not the other's.
abbrev pub IsApart : Map Text → Map Text → InferencePoolResources → Type 0
IsApart model_pods epp_pods r =
    (selects r.inference_pool.match_labels model_pods ≡ true)
    × (selects r.inference_pool.match_labels epp_pods ≡ false)
    × (selects r.epp_service.spec.selector epp_pods ≡ true)
    × (selects r.epp_service.spec.selector model_pods ≡ false)
    × (selects r.epp_deployment.spec.selector epp_pods ≡ true)
    × (r.inference_pool.endpoint_picker ≡ r.epp_service.name)

module _ (model : LlmModel) (cfg : OperatorConfig) (storage : StorageResult) where
  IsApart-built :
      (cm : Result ConfigMap) (r : InferencePoolResources)
      → resources_of model cfg cm ≡ ok r
      → IsApart
          (build_deployment model storage cfg).spec.template_labels
          r.epp_deployment.spec.template_labels
          r
  unfolding resources_of selects is_label epp_selector standard_labels insert lookup ◌==◌ bytes
      build_inference_pool build_epp_deployment build_epp_service build_deployment epp_name_of
  IsApart-built (err e) r h = cc h
  IsApart-built (ok cm) r h =
      rw (← ok-injective h) (rw (==-refl model.name) (refl, refl, refl, refl, refl, refl))

  -- Where the resources of the pool are built, its selector chooses the pods that serve the model and
  -- not the endpoint picker's, which carry the model's instance label as well; the selectors of the
  -- picker's Service and Deployment choose its pods, and that of the Service no pod that serves the
  -- model; and the picker that the pool names is that Service.
  pub build_inference_pool_resources-IsApart :
      (json_to_yaml : Text → Result Text) (r : InferencePoolResources)
      → build_inference_pool_resources json_to_yaml model cfg ≡ ok r
      → IsApart
          (build_deployment model storage cfg).spec.template_labels
          r.epp_deployment.spec.template_labels
          r
  unfolding build_inference_pool_resources
  build_inference_pool_resources-IsApart json_to_yaml r h = IsApart-built _ r h

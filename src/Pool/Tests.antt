-- ===== src/Pool/Tests.antt =====
-- The selectors at a model.
use nebari_llm_serving_pack.Base.{◌≡◌, refl, none, [], ◌∷◌, bytes, Text, Result, ok}
use nebari_llm_serving_pack.Pool.{
  InferencePoolResources, build_inference_pool, epp_name_of, epp_config_map_name,
  epp_default_config, build_epp_deployment, build_epp_service, build_epp_role, build_epp_config_map,
  render_epp_config, config_map_of, resources_of, build_inference_pool_resources,
}
use nebari_llm_serving_pack.Naming.{standard_labels}
use nebari_llm_serving_pack.Pool.Selection.{IsApart, build_inference_pool_resources-IsApart}
use nebari_llm_serving_pack.Samples.{served, configured}
use nebari_llm_serving_pack.Serving.{build_deployment}
use nebari_llm_serving_pack.Storage.{StorageResult}

abbrev as_yaml : Text → Result Text
as_yaml raw = ok raw

abbrev pool : InferencePoolResources
pool = record {
  inference_pool = build_inference_pool served (standard_labels served);
  epp_config_map = record {
    name = epp_config_map_name (epp_name_of served);
    labels = standard_labels served;
    entries = (bytes "epp-config.yaml", epp_default_config) ∷ [];
  };
  epp_deployment =
      build_epp_deployment served (epp_name_of served) (standard_labels served) configured;
  epp_service = build_epp_service served (epp_name_of served) (standard_labels served);
  epp_service_account = record { name = epp_name_of served; labels = standard_labels served };
  epp_role = build_epp_role (epp_name_of served) (standard_labels served);
  epp_role_binding = record {
    name = epp_name_of served;
    labels = standard_labels served;
    role = epp_name_of served;
    subject = epp_name_of served;
  };
}

pool_built : build_inference_pool_resources as_yaml served configured ≡ ok pool
unfolding build_inference_pool_resources build_epp_config_map render_epp_config config_map_of
    resources_of
pool_built = refl

abbrev no_storage : StorageResult
no_storage = record {
  pvc = none;
  init_container = none;
  volumes = [];
  volume_mounts = [];
  model_path = [];
}

build_inference_pool_resources-IsApart_example :
    IsApart
      (build_deployment served no_storage configured).spec.template_labels
      pool.epp_deployment.spec.template_labels
      pool
build_inference_pool_resources-IsApart_example =
    build_inference_pool_resources-IsApart served configured no_storage as_yaml pool pool_built

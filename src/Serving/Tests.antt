-- ===== src/Serving/Tests.antt =====
-- The properties of a model's workload at a model with one GPU, kept on a claimed volume.
use nebari_llm_serving_pack.Base.{
  ◌≡◌, ◌⊎◌, refl, some, [], ◌∷◌, ◌==◌, bytes, Text, Result, ok, decimal, lookup, In,
}
use nebari_llm_serving_pack.Config.{Environment}
use nebari_llm_serving_pack.Samples.{served, configured}
use nebari_llm_serving_pack.Serving.{build_vllm_container, build_deployment, nvidia_gpu_key}
use nebari_llm_serving_pack.Serving.Gpu.{IsTolerated, build_deployment-gpu}
use nebari_llm_serving_pack.Serving.Mounts.{IsWired, build_deployment-IsWired}
use nebari_llm_serving_pack.Storage.{
  StorageResult, storage_mount, with_volume, build_hf_storage_spec, build_storage_spec, build_pvc,
  parse_storage_size, pvc_of, pvc_name, claimed, chosen_class, preloads, build_hf_init_container,
  model_storage_volume_name, model_cache_path,
}
use nebari_llm_serving_pack.Workload.{claim}

abbrev no_env : Environment
no_env name = []

abbrev as_printed : Text → Result Text
as_printed size = ok size

abbrev kept : Result StorageResult
kept = build_storage_spec as_printed no_env served (bytes "fast")

abbrev placed : StorageResult
placed = record {
  pvc = some (record {
    name = pvc_name served;
    storage_request = bytes "9Gi";
    storage_class_name = some (bytes "fast");
  });
  init_container = some (build_hf_init_container no_env served.spec.model);
  volumes = record { name = model_storage_volume_name; source = claim (pvc_name served) } ∷ [];
  volume_mounts = storage_mount model_cache_path ∷ [];
  model_path = model_cache_path;
}

kept-placed : kept ≡ ok placed
unfolding build_storage_spec build_hf_storage_spec with_volume build_pvc parse_storage_size pvc_of
    claimed pvc_name ◌==◌ bytes chosen_class preloads
kept-placed = refl

build_deployment-IsWired_example :
    IsWired placed (build_deployment served placed configured).spec.pod
    × In
        (storage_mount placed.model_path)
        (build_vllm_container served placed configured).volume_mounts
build_deployment-IsWired_example =
    build_deployment-IsWired as_printed no_env served configured placed kept-placed

build_deployment-gpu_example :
    ((served.spec.resources.gpu.count ≡ 0)
      × ((build_vllm_container served placed configured).limits ≡ served.spec.resources.limits)
      × ((build_deployment served placed configured).spec.pod.tolerations
          ≡ served.spec.vllm.tolerations))
    ⊎ ((lookup nvidia_gpu_key (build_vllm_container served placed configured).limits
          ≡ some (decimal served.spec.resources.gpu.count))
        × IsTolerated served.spec.vllm.tolerations
            (build_deployment served placed configured).spec.pod.tolerations)
build_deployment-gpu_example = build_deployment-gpu served placed configured

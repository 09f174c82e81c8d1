-- ===== src/Storage.antt =====
-- operator/internal/controller/reconcilers/storage.go: where a model's files are kept and how they
-- get there. `resource.ParseQuantity` is an argument, and so is the environment.
use nebari_llm_serving_pack.Base.{
  Bool, true, Option, none, some, List, [], ◌∷◌, ◌++◌, if◌then◌else◌, Text, ◌==◌, bytes, Result, ok,
  err, wrap_result,
}
use nebari_llm_serving_pack.Config.{Environment}
use nebari_llm_serving_pack.Crd.{StorageSpec, ModelSpec, LlmModel, EnvVar}
use nebari_llm_serving_pack.Workload.{Volume, VolumeMount, empty_dir, claim, Container}

abbrev pub model_storage_volume_name : Text
model_storage_volume_name = bytes "model-storage"

abbrev pub model_cache_path : Text
model_cache_path = bytes "/model-cache"

abbrev pub default_model_downloader_image : Text
default_model_downloader_image = bytes "ghcr.io/nebari-dev/llm-serving-pack/model-downloader:latest"

-- ReadWriteOnce is the one access mode.
pub record Pvc : Type 0 where
  pub name : Text
  pub storage_request : Text
  pub storage_class_name : Option Text

pub record StorageResult : Type 0 where
  pub pvc : Option Pvc
  pub init_container : Option Container
  pub volumes : List Volume
  pub volume_mounts : List VolumeMount
  pub model_path : Text

-- A container of which the code sets a name, an image and mounts.
unfoldable pub bare_container : Text → Text → List VolumeMount → Container
bare_container name image mounts = record {
  name = name;
  image = image;
  command = [];
  args = [];
  env = [];
  ports = [];
  limits = [];
  requests = [];
  volume_mounts = mounts;
  startup_probe = none;
  liveness_probe = none;
  readiness_probe = none;
}

abbrev pub storage_mount : Text → VolumeMount
storage_mount path = record { name = model_storage_volume_name; mount_path = path }

unfoldable pub model_downloader_image : Environment → Text
model_downloader_image env =
    if env (bytes "LLM_MODEL_DOWNLOADER_IMAGE") == []
    then default_model_downloader_image
    else env (bytes "LLM_MODEL_DOWNLOADER_IMAGE")

unfoldable pub hf_token_env : Text → List EnvVar
hf_token_env secret_name =
    if secret_name == []
    then []
    else record {
      name = bytes "HF_TOKEN";
      value = [];
      secret_key_ref = some (secret_name, bytes "HF_TOKEN");
    }
      ∷ []

unfoldable pub build_hf_init_container : Environment → ModelSpec → Container
build_hf_init_container env model =
    record (bare_container (bytes "model-downloader") (model_downloader_image env)
      (storage_mount model_cache_path ∷ [])) {
        args =
            model.name
            ∷ bytes "--local-dir"
            ∷ model_cache_path
            ∷ (if model.revision == [] then [] else bytes "--revision" ∷ model.revision ∷ []);
        env = hf_token_env model.auth_secret_name;
      }

unfoldable pub build_oci_storage_spec : ModelSpec → StorageResult
build_oci_storage_spec model = record {
  pvc = none;
  init_container =
      some
        (record (bare_container (bytes "model-loader") model.image
          (storage_mount (bytes "/shared-models") ∷ [])) {
            command = bytes "cp" ∷ bytes "-r" ∷ bytes "/models/." ∷ bytes "/shared-models/" ∷ [];
          });
  volumes = record { name = model_storage_volume_name; source = empty_dir [] none } ∷ [];
  volume_mounts = storage_mount model_cache_path ∷ [];
  model_path = model_cache_path;
}

-- `Preload` is not set or true.
unfoldable pub preloads : Option Bool → Bool
preloads none = true
preloads (some b) = b

unfoldable pub chosen_class : Text → Text → Option Text
chosen_class own default_name =
    if own == [] then (if default_name == [] then none else some default_name) else some own

unfoldable pub pvc_name : LlmModel → Text
pvc_name model = model.name ++ bytes "-model-storage"

unfoldable pub pvc_of : Text → StorageSpec → Text → Result Text → Result Pvc
pvc_of name storage default_name (err e) = err e
pvc_of name storage default_name (ok size) = ok (record {
  name = name;
  storage_request = size;
  storage_class_name = chosen_class storage.storage_class_name default_name;
})

unfoldable pub in_memory : Result Text → Result (Option Pvc × Volume)
in_memory (err e) = err e
in_memory (ok size) =
    ok (none, record { name = model_storage_volume_name; source = empty_dir [] (some size) })

unfoldable pub claimed : LlmModel → Result Pvc → Result (Option Pvc × Volume)
claimed model (err e) = err e
claimed model (ok pvc) =
    ok (some pvc, record { name = model_storage_volume_name; source = claim (pvc_name model) })

unfoldable pub with_volume :
    Environment → LlmModel → Result (Option Pvc × Volume) → Result StorageResult
with_volume env model (err e) = err e
with_volume env model (ok (pvc, volume)) = ok (record {
  pvc = pvc;
  init_container =
      if preloads model.spec.model.preload
      then some (build_hf_init_container env model.spec.model)
      else none;
  volumes = volume ∷ [];
  volume_mounts = storage_mount model_cache_path ∷ [];
  model_path = model_cache_path;
})

module _ (parse_quantity : Text → Result Text) where
  unfoldable pub parse_storage_size : Text → Result Text
  parse_storage_size size =
      if size == []
      then ok (bytes "0")
      else wrap_result (λ e. bytes "invalid storage size \"" ++ (size ++ (bytes "\": " ++ e)))
          (parse_quantity size)

  unfoldable pub build_pvc : Text → StorageSpec → Text → Result Pvc
  build_pvc name storage default_name =
      pvc_of name storage default_name
        (wrap_result (λ e. bytes "parsing storage size: " ++ e) (parse_storage_size storage.size))

  unfoldable pub build_hf_storage_spec : Environment → LlmModel → Text → Result StorageResult
  build_hf_storage_spec env model default_name = with_volume env model (
      if model.spec.model.storage.type == bytes "emptyDir"
      then in_memory (
          wrap_result (λ e. bytes "parsing storage size: " ++ e)
            (parse_storage_size model.spec.model.storage.size))
      else claimed model (
          wrap_result (λ e. bytes "building PVC: " ++ e)
            (build_pvc (pvc_name model) model.spec.model.storage default_name)))

  unfoldable pub build_storage_spec : Environment → LlmModel → Text → Result StorageResult
  build_storage_spec env model default_name =
      let fetched = build_hf_storage_spec env model default_name in
      if model.spec.model.source == bytes "oci"
      then ok (build_oci_storage_spec model.spec.model)
      else fetched

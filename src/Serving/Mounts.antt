-- ===== src/Serving/Mounts.antt =====
-- The volumes of a pod and what its containers mount.
use nebari_llm_serving_pack.Base.{
  ◌≡◌, inl, inr, refl, ◌∙◌, Option, none, some, List, [], ◌∷◌, ◌++◌, if◌then◌else◌, Bool-cases,
  Text, ◌==◌, bytes, Result, ok, err, wrap_result, All, All-mono, All-append, In, here, there,
}
use nebari_llm_serving_pack.Config.{Environment, OperatorConfig}
use nebari_llm_serving_pack.Crd.{LlmModel}
use nebari_llm_serving_pack.Serving.{
  shm_volume_name, init_containers_of, build_shm_volume, build_vllm_container, build_deployment,
}
use nebari_llm_serving_pack.Storage.{
  Pvc, StorageResult, model_storage_volume_name, storage_mount, pvc_name, pvc_of, in_memory,
  claimed, with_volume, build_pvc, build_hf_init_container, build_oci_storage_spec, bare_container,
  preloads, build_hf_storage_spec, build_storage_spec,
}
use nebari_llm_serving_pack.Workload.{
  VolumeSource, Volume, VolumeMount, Container, PodSpec, empty_dir, claim, config_map, volume_names,
}

-- The claims that a pod's volumes name, and the name of the claim that is built.
unfoldable pub claims : List Volume → List Text
claims [] = []
claims (v ∷ volumes) = claims_of v.source ++ claims volumes
  where
    claims_of : VolumeSource → List Text
    claims_of (empty_dir medium limit) = []
    claims_of (claim name) = name ∷ []
    claims_of (config_map name) = []

unfoldable pub built : Option Pvc → List Text
built none = []
built (some pvc) = pvc.name ∷ []

-- All mounts of a container are of the volumes of its pod.
abbrev pub IsMounted : List Volume → Container → Type 0
IsMounted volumes c = All (λ (m : VolumeMount). In m.name (volume_names volumes)) c.volume_mounts

abbrev OnlyStorage : Container → Type 0
OnlyStorage c = All (λ (m : VolumeMount). m.name ≡ model_storage_volume_name) c.volume_mounts

-- What the storage of a model is like, whatever its source.
abbrev IsPlaced : StorageResult → Type 0
IsPlaced s =
    (volume_names s.volumes ≡ model_storage_volume_name ∷ [])
    × (claims s.volumes ≡ built s.pvc)
    × (s.volume_mounts ≡ storage_mount s.model_path ∷ [])
    × All OnlyStorage (init_containers_of s.init_container)

abbrev Holds {ℓ κ} : {A : Type ℓ} → (A → Type κ) → Result A → Type κ
Holds P (ok a) = P a
Holds P (err e) = Unit

abbrev IsClaimed : Option Pvc × Volume → Type 0
IsClaimed (pvc, v) = (v.name ≡ model_storage_volume_name) × (claims (v ∷ []) ≡ built pvc)

with_volume-IsPlaced :
    (env : Environment) (model : LlmModel) (r : Result (Option Pvc × Volume))
    → Holds IsClaimed r
    → Holds IsPlaced (with_volume env model r)
unfolding with_volume volume_names init_containers_of build_hf_init_container bare_container
with_volume-IsPlaced env model (err e) h = tt
with_volume-IsPlaced env model (ok (pvc, v)) h =
    ((λ i. h.0 i ∷ []), h.1, refl, downloader env model)
  where
    downloader :
        (env : Environment) (model : LlmModel)
        → All OnlyStorage (
            init_containers_of (
              if preloads model.spec.model.preload
              then some (build_hf_init_container env model.spec.model)
              else none))
    downloader env model = elim (Bool-cases (preloads model.spec.model.preload)) [
      | inl fetched ↦ rw fetched ((refl, tt), tt)
      | inr given ↦ rw given tt
    ]

in_memory-IsClaimed : (r : Result Text) → Holds IsClaimed (in_memory r)
unfolding in_memory claims built
in_memory-IsClaimed (err e) = tt
in_memory-IsClaimed (ok size) = (refl, refl)

claimed-IsClaimed :
    (model : LlmModel) (default_name : Text) (g : Text → Text) (r : Result Text)
    → Holds IsClaimed (
        claimed model
          (wrap_result g (pvc_of (pvc_name model) model.spec.model.storage default_name r)))
unfolding claimed pvc_of claims built
claimed-IsClaimed model default_name g (err e) = tt
claimed-IsClaimed model default_name g (ok size) = (refl, refl)

build_oci_storage_spec-IsPlaced :
    (model : LlmModel) → IsPlaced (build_oci_storage_spec model.spec.model)
unfolding build_oci_storage_spec volume_names claims built init_containers_of bare_container
build_oci_storage_spec-IsPlaced model = (refl, refl, refl, ((refl, tt), tt))

module _ (parse_quantity : Text → Result Text) (env : Environment) (model : LlmModel) where
  build_storage_spec-IsPlaced :
      (default_name : Text)
      → Holds IsPlaced (build_storage_spec parse_quantity env model default_name)
  unfolding build_storage_spec build_hf_storage_spec build_pvc
  build_storage_spec-IsPlaced default_name =
      elim (Bool-cases (model.spec.model.source == bytes "oci")) [
        | inl oci ↦ simp oci (build_oci_storage_spec-IsPlaced model)
        | inr fetched ↦ simp fetched (
            with_volume-IsPlaced env model _
              (elim (Bool-cases (model.spec.model.storage.type == bytes "emptyDir")) [
                | inl memory ↦ simp memory (in_memory-IsClaimed _)
                | inr pvc ↦ simp pvc (claimed-IsClaimed model default_name _ _)
              ]))
      ]

shm_volume_names :
    (model : LlmModel) (volumes : List Volume)
    → volume_names (volumes ++ build_shm_volume model ∷ [])
      ≡ volume_names volumes ++ shm_volume_name ∷ []
unfolding volume_names build_shm_volume
shm_volume_names model [] = refl
shm_volume_names model (v ∷ volumes) = λ i. v.name ∷ shm_volume_names model volumes i

shm_claims :
    (model : LlmModel) (volumes : List Volume)
    → claims (volumes ++ build_shm_volume model ∷ []) ≡ claims volumes
unfolding claims build_shm_volume
shm_claims model [] = refl
shm_claims model (v ∷ volumes) = rw (shm_claims model volumes)

-- In a pod, every mount of a container is of one of the pod's volumes, and the claims of the volumes
-- are exactly that which the operator creates, if any.
abbrev pub IsWired : StorageResult → PodSpec → Type 0
IsWired s pod =
    All (IsMounted pod.volumes) (pod.init_containers ++ pod.containers)
    × (claims pod.volumes ≡ built s.pvc)

module _ (model : LlmModel) (s : StorageResult) (cfg : OperatorConfig) where
  OnlyStorage-IsMounted :
      (volumes : List Volume)
      → volume_names volumes ≡ model_storage_volume_name ∷ shm_volume_name ∷ []
      → (c : Container) → OnlyStorage c
      → IsMounted volumes c
  OnlyStorage-IsMounted volumes names c h = All-mono (λ m e. rw (names, e) here) c.volume_mounts h

  vllm-IsMounted :
      (volumes : List Volume)
      → volume_names volumes ≡ model_storage_volume_name ∷ shm_volume_name ∷ []
      → s.volume_mounts ≡ storage_mount s.model_path ∷ []
      → IsMounted volumes (build_vllm_container model s cfg)
        × In (storage_mount s.model_path) (build_vllm_container model s cfg).volume_mounts
  unfolding build_vllm_container
  vllm-IsMounted volumes names mounts = rw (mounts, names) ((here, (there here, tt)), here)

  IsPlaced-IsWired :
      IsPlaced s
      → IsWired s (build_deployment model s cfg).spec.pod
        × In (storage_mount s.model_path) (build_vllm_container model s cfg).volume_mounts
  unfolding build_deployment
  IsPlaced-IsWired (names, claimed_names, mounts, init) =
      let all_names = shm_volume_names model s.volumes ∙ (λ i. names i ++ shm_volume_name ∷ []) in
      let (vllm, path) = vllm-IsMounted _ all_names mounts in
      (
        (
          All-append _ (init_containers_of s.init_container) _
              (All-mono (OnlyStorage-IsMounted _ all_names) _ init) (vllm, tt),
          shm_claims model s.volumes ∙ claimed_names,
        ),
        path,
      )

of_Holds {ℓ κ} : {A : Type ℓ} (P : A → Type κ) (r : Result A) {a : A} → r ≡ ok a → Holds P r → P a
of_Holds P r e h = rw e at h

-- Where the storage of a model is built without error, its Deployment is wired: every mount of its
-- containers, those that fetch the model included, is of a volume of the pod, and the claims that the
-- volumes name are exactly that which is built, if any; and the path that the server is given for its
-- model is one that is mounted.
pub build_deployment-IsWired :
    (parse_quantity : Text → Result Text) (env : Environment) (model : LlmModel)
    (cfg : OperatorConfig) (s : StorageResult)
    → build_storage_spec parse_quantity env model cfg.default_storage_class_name ≡ ok s
    → IsWired s (build_deployment model s cfg).spec.pod
      × In (storage_mount s.model_path) (build_vllm_container model s cfg).volume_mounts
build_deployment-IsWired parse_quantity env model cfg s e =
    IsPlaced-IsWired model s cfg
      (of_Holds IsPlaced _ e (build_storage_spec-IsPlaced parse_quantity env model _))

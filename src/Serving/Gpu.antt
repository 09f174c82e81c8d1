-- ===== src/Serving/Gpu.antt =====
-- GPUs: the limit of the container and the toleration of the pod.
use nebari_llm_serving_pack.Base.{
  ◌≡◌, ◌⊎◌, ◌↔◌, inl, inr, refl, sym, ◌∙◌, Bool, true, false, some, List, [], ◌∷◌, ◌++◌, ltb, arith,
  Bool-cases, and-true, In, here, there, In-cons, Text, bytes, ◌==◌, ==-refl, ==-sound, eq_iff,
  lookup, any, decimal, lookup-insert,
}
use mathlib.Core.Bool.{false≢true}
use nebari_llm_serving_pack.Config.{OperatorConfig}
use nebari_llm_serving_pack.Crd.{Toleration, LlmModel}
use nebari_llm_serving_pack.Serving.{
  nvidia_gpu_key, covers_gpu, tolerations_gpu_taint, gpu_toleration, build_tolerations,
  build_resource_limits, build_vllm_container, build_deployment,
}
use nebari_llm_serving_pack.Storage.{StorageResult}

-- The taint of GPU nodes, here with any value.
abbrev no_schedule : Text
no_schedule = bytes "NoSchedule"

-- When a toleration matches the taint `nvidia.com/gpu` with the effect NoSchedule whatever the
-- taint's value, as Kubernetes documents it: an operator Exists, the taint's key or, with an empty
-- key, any, and the taint's effect or, with an empty effect, any.
abbrev pub Tolerates : Toleration → Type 0
Tolerates t =
    (t.operator ≡ bytes "Exists")
    × ((t.key ≡ nvidia_gpu_key) ⊎ (t.key ≡ []))
    × ((t.effect ≡ no_schedule) ⊎ (t.effect ≡ []))

-- A toleration by which the user has spoken on the taint: it names its key, or any key.
abbrev pub IsAboutGpu : Toleration → Type 0
IsAboutGpu t = (t.key ≡ nvidia_gpu_key) ⊎ ((t.key ≡ []) × (t.operator ≡ bytes "Exists"))

gpu_toleration-Tolerates : Tolerates gpu_toleration
gpu_toleration-Tolerates = (refl, inl refl, inl refl)

-- The pod's tolerations: the user's own where one of them is about the taint, and else those and one
-- more that matches the taint.
abbrev pub IsTolerated : List Toleration → List Toleration → Type 0
IsTolerated own ts =
    ((t : Toleration) × In t own × IsAboutGpu t × (ts ≡ own))
    ⊎ (((t : Toleration) → In t own → IsAboutGpu t → ⊥)
        × ((added : Toleration) × Tolerates added × (ts ≡ own ++ added ∷ [])))

module _ {A : Type 0} (p : A → Bool) where
  any-In : (xs : List A) → any p xs ≡ true → (x : A) × In x xs × (p x ≡ true)
  any-In [] h = cc h
  any-In (x ∷ xs) h = elim (Bool-cases (p x)) [
    | inl hit ↦ (x, here, hit)
    | inr miss ↦ let (y, i, hit) = any-In xs (rw miss at h) in (y, there i, hit)
  ]

  In-any : (xs : List A) {x : A} → In x xs → p x ≡ true → any p xs ≡ true
  In-any [] i h = elim i [ ]
  In-any (y ∷ xs) {x} i h = elim (In-cons i) [
    | inl this ↦ rw (← this, h)
    | inr later ↦ elim (Bool-cases (p y)) [
      | inl hit ↦ rw hit
      | inr miss ↦ rw miss (In-any xs later h)
    ]
  ]

covers_gpu_iff : (t : Toleration) → (covers_gpu t ≡ true) ↔ IsAboutGpu t
unfolding covers_gpu
covers_gpu_iff t = (
  (λ h. elim (Bool-cases (t.key == nvidia_gpu_key)) [
    | inl key ↦ inl (==-sound _ _ key)
    | inr other ↦
        let (empty, exists) =
          and-true (t.key == []) (t.operator == bytes "Exists") (rw other at h) in
        inr (==-sound _ _ empty, ==-sound _ _ exists)
  ]),
  (λ h. elim h [
    | inl key ↦ rw ((eq_iff t.key nvidia_gpu_key).1 key)
    | inr both ↦
        ground (arith, (eq_iff t.key []).1 both.0, (eq_iff t.operator (bytes "Exists")).1 both.1)
  ]),
)

build_tolerations-IsTolerated :
    (model : LlmModel)
    → ltb 0 model.spec.resources.gpu.count ≡ true
    → IsTolerated model.spec.vllm.tolerations (build_tolerations model)
unfolding build_tolerations tolerations_gpu_taint
build_tolerations-IsTolerated model h =
    elim (Bool-cases (any covers_gpu model.spec.vllm.tolerations)) [
      | inl own ↦
          let (t, i, covers) = any-In covers_gpu model.spec.vllm.tolerations own in
          inl (t, i, (covers_gpu_iff t).0 covers, simp (h, own))
      | inr uncovered ↦ inr (
        (λ t i about. false≢true (
            sym uncovered
            ∙ In-any covers_gpu model.spec.vllm.tolerations i ((covers_gpu_iff t).1 about))),
        (gpu_toleration, gpu_toleration-Tolerates, simp (h, uncovered)),
      )
    ]

limits-lookup :
    (model : LlmModel)
    → ltb 0 model.spec.resources.gpu.count ≡ true
    → lookup nvidia_gpu_key (build_resource_limits model)
      ≡ some (decimal model.spec.resources.gpu.count)
unfolding build_resource_limits
limits-lookup model h = simp h (
    lookup-insert nvidia_gpu_key nvidia_gpu_key (decimal model.spec.resources.gpu.count)
      model.spec.resources.limits
    ∙ simp (==-refl nvidia_gpu_key))

limits-own :
    (model : LlmModel)
    → ltb 0 model.spec.resources.gpu.count ≡ false
    → build_resource_limits model ≡ model.spec.resources.limits
unfolding build_resource_limits
limits-own model h = simp h

tolerations-own :
    (model : LlmModel)
    → ltb 0 model.spec.resources.gpu.count ≡ false
    → build_tolerations model ≡ model.spec.vllm.tolerations
unfolding build_tolerations
tolerations-own model h = simp h

no_count :
    (model : LlmModel)
    → ltb 0 model.spec.resources.gpu.count ≡ false
    → model.spec.resources.gpu.count ≡ 0
no_count model h = ground arith

-- The Deployment of a model either asks for no GPU, and then the limits of its container and its
-- tolerations are those of the model. Or its container has the model's number of GPUs as its limit,
-- and the pod has either just the user's tolerations, of which one names the taint's key or any key,
-- or, where none does, these and one more, which by Kubernetes' rules matches the taint
-- nvidia.com/gpu with the effect NoSchedule, whatever its value.
pub build_deployment-gpu :
    (model : LlmModel) (storage : StorageResult) (cfg : OperatorConfig)
    → ((model.spec.resources.gpu.count ≡ 0)
        × ((build_vllm_container model storage cfg).limits ≡ model.spec.resources.limits)
        × ((build_deployment model storage cfg).spec.pod.tolerations ≡ model.spec.vllm.tolerations))
      ⊎ ((lookup nvidia_gpu_key (build_vllm_container model storage cfg).limits
            ≡ some (decimal model.spec.resources.gpu.count))
          × IsTolerated model.spec.vllm.tolerations
              (build_deployment model storage cfg).spec.pod.tolerations)
unfolding build_deployment build_vllm_container
build_deployment-gpu model storage cfg = elim (Bool-cases (ltb 0 model.spec.resources.gpu.count)) [
  | inl gpu ↦ inr (limits-lookup model gpu, build_tolerations-IsTolerated model gpu)
  | inr unasked ↦
      inl (no_count model unasked, limits-own model unasked, tolerations-own model unasked)
]

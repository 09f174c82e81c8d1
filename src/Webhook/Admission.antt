-- ===== src/Webhook/Admission.antt =====
-- When the webhooks admit an object.
use nebari_llm_serving_pack.Base.{
  ◌≤◌, ◌≡◌, ◌≢◌, ◌⊎◌, ◌↔◌, inl, inr, refl, ap, Bool, true, false, Option, none, some, List, [], ◌∷◌,
  ltb, arith, Bool-cases, length, Text, ◌==◌, eq_iff, ==-sound, ==-refl, bytes, Map, lookup, Result,
  ok, err, then-ok,
}
use mathlib.Core.Bool.{false≢true}
use nebari_llm_serving_pack.Crd.{AccessSpec, LlmModel}
use nebari_llm_serving_pack.Naming.{subdomain_of, effective_subdomain}
use nebari_llm_serving_pack.Webhook.{
  Found, found, not_found, no_match, unread, CustomValidator, text_or_empty, true_or,
  validate_operator_namespace, check_label, validate_namespace_label, validate_access,
  check_collision, empty_dir_preload_warnings, ignore_value, validate_llm_model,
}

-- The object is in the operator's namespace, where there is one.
abbrev pub IsPlaced : CustomValidator → Text → Type 0
IsPlaced v namespace = (v.operator_namespace ≡ []) ⊎ (namespace ≡ v.operator_namespace)

-- The namespace can be read and carries the label.
abbrev pub IsManaged : CustomValidator → Text → Type 0
IsManaged v namespace =
    (labels : Map Text) × (v.reader.namespace_labels namespace ≡ ok labels)
    × (lookup (bytes "nebari.dev/managed") labels ≡ some (bytes "true"))

-- Somebody can use the model.
abbrev pub IsAccessible : AccessSpec → Type 0
IsAccessible access = (access.public ≡ some true) ⊎ (access.groups ≢ [])

-- A read that finds nothing of the kind.
abbrev pub IsFree : {A : Type 0} → Found A → Type 0
IsFree f = (f ≡ not_found) ⊎ (f ≡ no_match)

missing : ([] == bytes "true") ≡ true → ⊥
unfolding bytes ◌==◌
missing h = absurd (false≢true h)

pub IsPlaced-ok :
    (kind : Text) (v : CustomValidator) (namespace : Text)
    → (validate_operator_namespace kind v namespace ≡ ok tt) ↔ IsPlaced v namespace
unfolding validate_operator_namespace
IsPlaced-ok kind v namespace = elim (Bool-cases (v.operator_namespace == [])) [
  | inl any_namespace ↦ ((λ h. inl (==-sound _ _ any_namespace)), (λ h. simp any_namespace))
  | inr own ↦ elim (Bool-cases (namespace == v.operator_namespace)) [
    | inl same ↦ ((λ h. inr (==-sound _ _ same)), (λ h. simp (own, same)))
    | inr other ↦ (
      (λ h. cc (simp (own, other) at h)),
      (λ h. elim h [
        | inl e ↦ cc (own, (eq_iff v.operator_namespace []).1 e)
        | inr e ↦ cc (other, (eq_iff namespace v.operator_namespace).1 e)
      ]),
    )
  ]
]

is_true : (o : Option Text) → ((text_or_empty o == bytes "true") ≡ true) ↔ (o ≡ some (bytes "true"))
unfolding text_or_empty
is_true o = (to o, λ e. rw e (==-refl (bytes "true")))
  where
    to : (o : Option Text) → (text_or_empty o == bytes "true") ≡ true → o ≡ some (bytes "true")
    to none h = absurd (missing h)
    to (some value) h = ap some (==-sound value (bytes "true") h)

label-ok :
    (kind namespace : Text) (r : Result (Map Text))
    → check_label kind namespace r ≡ ok tt
    → (labels : Map Text) × (r ≡ ok labels)
      × (lookup (bytes "nebari.dev/managed") labels ≡ some (bytes "true"))
unfolding check_label
label-ok kind namespace (err e) h = cc h
label-ok kind namespace (ok labels) h =
    elim (Bool-cases (text_or_empty (lookup (bytes "nebari.dev/managed") labels) == bytes "true")) [
      | inl labelled ↦ (labels, refl, (is_true _).0 labelled)
      | inr other ↦ cc (rw other at h)
    ]

ok-label :
    (kind namespace : Text) (labels : Map Text)
    → lookup (bytes "nebari.dev/managed") labels ≡ some (bytes "true")
    → check_label kind namespace (ok labels) ≡ ok tt
unfolding check_label
ok-label kind namespace labels e = rw ((is_true _).1 e)

pub IsManaged-ok :
    (kind : Text) (v : CustomValidator) (namespace : Text)
    → (validate_namespace_label kind v namespace ≡ ok tt) ↔ IsManaged v namespace
unfolding validate_namespace_label
IsManaged-ok kind v namespace = (
  label-ok kind namespace _,
  λ h. let (labels, e, value) = h in rw e (ok-label kind namespace labels value),
)

pub access-ok :
    (noun : Text) (access : AccessSpec)
    → (validate_access noun access ≡ ok tt) ↔ IsAccessible access
unfolding validate_access true_or
access-ok noun access = by_fields access.public access.groups
  where
    by_fields :
        (public : Option Bool) (groups : List Text)
        → (validate_access noun (record { public = public; groups = groups }) ≡ ok tt)
          ↔ ((public ≡ some true) ⊎ (groups ≢ []))
    by_fields (some true) groups = ((λ h. inl refl), (λ h. refl))
    by_fields (some false) [] =
        ((λ h. cc h), (λ h. elim h [ inl e ↦ cc e | inr e ↦ absurd (e refl) ]))
    by_fields (some false) (g ∷ gs) = ((λ h. inr (λ e. cc e)), (λ h. ground arith))
    by_fields none [] = ((λ h. cc h), (λ h. elim h [ inl e ↦ cc e | inr e ↦ absurd (e refl) ]))
    by_fields none (g ∷ gs) = ((λ h. inr (λ e. cc e)), (λ h. ground arith))

pub collision-ok :
    {A : Type 0} (kind other name namespace : Text) (f : Found A)
    → (check_collision kind other name namespace f ≡ ok tt) ↔ IsFree f
unfolding check_collision
collision-ok kind other name namespace (found a) =
    ((λ h. cc h), (λ h. elim h [ inl e ↦ cc e | inr e ↦ cc e ]))
collision-ok kind other name namespace not_found = ((λ h. inl refl), (λ h. refl))
collision-ok kind other name namespace no_match = ((λ h. inr refl), (λ h. refl))
collision-ok kind other name namespace (unread m) =
    ((λ h. cc h), (λ h. elim h [ inl e ↦ cc e | inr e ↦ cc e ]))

subdomain-ok :
    (sha256 : Text → Text) (model : LlmModel)
    → (ignore_value (effective_subdomain sha256 model) ≡ ok tt)
      ↔ (length (subdomain_of sha256 model) ≤ 63)
unfolding effective_subdomain ignore_value
subdomain-ok sha256 model = elim (Bool-cases (ltb 63 (length (subdomain_of sha256 model)))) [
  | inl over ↦ ((λ h. cc (simp over at h)), (λ h. ground arith))
  | inr within ↦ ((λ h. ground arith), (λ h. simp within))
]

-- An LLMModel is admitted, at creation and at each update, exactly when it is in the operator's
-- namespace, the namespace is labelled as managed, it is public or has groups, no PassthroughModel
-- has its name, and its subdomain fits a DNS label; the warnings never refuse it.
pub validate_llm_model_iff :
    (sha256 : Text → Text) (v : CustomValidator) (model : LlmModel)
    → (validate_llm_model sha256 v model ≡ ok (empty_dir_preload_warnings model)) ↔ (
        IsPlaced v model.namespace
        × IsManaged v model.namespace
        × IsAccessible model.spec.access
        × IsFree (v.reader.get_passthrough_model model.name model.namespace)
        × (length (subdomain_of sha256 model) ≤ 63))
unfolding validate_llm_model
validate_llm_model_iff sha256 v model = (
  (λ h.
      let (p, rest_1) = then-ok _ _ h in
      let (m, rest_2) = then-ok _ _ rest_1 in
      let (a, rest_3) = then-ok _ _ rest_2 in
      let (c, rest_4) = then-ok _ _ rest_3 in
      let (s, rest_5) = then-ok _ _ rest_4 in
      (
        (IsPlaced-ok _ v _).0 p,
        (IsManaged-ok _ v _).0 m,
        (access-ok _ _).0 a,
        (collision-ok _ _ _ _ _).0 c,
        (subdomain-ok sha256 model).0 s,
      )),
  (λ h.
      let (p, m, a, c, s) = h in
      rw (
        (IsPlaced-ok (bytes "LLMModel") v model.namespace).1 p,
        (IsManaged-ok (bytes "LLMModel") v model.namespace).1 m,
        (access-ok (bytes "model") model.spec.access).1 a,
        (collision-ok (bytes "LLMModel") (bytes "PassthroughModel") model.name model.namespace
              (v.reader.get_passthrough_model model.name model.namespace)).1
            c,
        (subdomain-ok sha256 model).1 s,
      )),
)

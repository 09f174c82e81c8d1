-- ===== src/Webhook/Passthrough.antt =====
-- When the webhook admits a PassthroughModel.
use nebari_llm_serving_pack.Base.{
  ℕ, suc, ◌≡◌, ◌≢◌, ◌⊎◌, ◌↔◌, inl, inr, refl, Bool, true, false, ◌&&◌, ◌||◌, not, List, [], ◌∷◌,
  nat_eq, if◌then◌else◌, arith, Bool-cases, All, length, Text, bytes, has_prefix, contains_text,
  Result, ok, err, then-ok,
}
use nebari_llm_serving_pack.Crd.{PassthroughModel}
use nebari_llm_serving_pack.Webhook.{
  CustomValidator, true_or, is_blank, contains_any, validate_provider, check_declared,
  validate_models, validate_endpoints, validate_passthrough_model,
}
use nebari_llm_serving_pack.Webhook.Admission.{
  IsPlaced, IsManaged, IsAccessible, IsFree, IsPlaced-ok, IsManaged-ok, access-ok, collision-ok,
}

-- No slash, no colon, no blank or line end.
abbrev pub IsBareByte : ℕ → Type 0
IsBareByte c = (c ≢ 47) × (c ≢ 58) × (c ≢ 32) × (c ≢ 9) × (c ≢ 10) × (c ≢ 13)

abbrev separators : Text
separators = 32 ∷ 9 ∷ 10 ∷ 13 ∷ []

bare_ok :
    (s : Text)
    → ((contains_any s (bytes "/:") || contains_any s separators) ≡ false) ↔ All IsBareByte s
unfolding contains_any bytes
bare_ok [] = ((λ h. tt), (λ h. refl))
bare_ok (c ∷ s) = (
  (λ h. (
    (
      (λ e. ground arith),
      (λ e. ground arith),
      (λ e. ground arith),
      (λ e. ground arith),
      (λ e. ground arith),
      (λ e. ground arith),
    ),
    (bare_ok s).0 (ground arith),
  )),
  (λ h. let ((a, b, c, d, e, f), rest) = h in ground (arith, (bare_ok s).1 rest)),
)

no_scheme : (s : Text) → All IsBareByte s → contains_text s (bytes "://") ≡ false
unfolding contains_text has_prefix bytes
no_scheme [] h = refl
no_scheme (c ∷ s) h = let ((a, b, blank, d, e, f), later) = h in ground (arith, no_scheme s later)

provider-ok :
    (pm : PassthroughModel)
    → (validate_provider pm ≡ ok tt) ↔ (
        (is_blank pm.spec.provider.hostname ≡ false)
        × All IsBareByte pm.spec.provider.hostname
        × (is_blank pm.spec.provider.credential_secret_name ≡ false))
unfolding validate_provider
provider-ok pm = (to, from)
  where
    to :
        validate_provider pm ≡ ok tt
        → (is_blank pm.spec.provider.hostname ≡ false)
          × All IsBareByte pm.spec.provider.hostname
          × (is_blank pm.spec.provider.credential_secret_name ≡ false)
    to h = elim (Bool-cases (is_blank pm.spec.provider.hostname)) [
      | inl blank ↦ cc (simp blank at h)
      | inr named ↦ elim (Bool-cases (contains_text pm.spec.provider.hostname (bytes "://"))) [
        | inl scheme ↦ cc (simp (named, scheme) at h)
        | inr plain ↦
            elim (Bool-cases (
              contains_any pm.spec.provider.hostname (bytes "/:")
              || contains_any pm.spec.provider.hostname separators)) [
                | inl other ↦ cc (simp (named, plain, other) at h)
                | inr bare ↦ elim (Bool-cases (is_blank pm.spec.provider.credential_secret_name)) [
                  | inl no_secret ↦ cc (simp (named, plain, bare, no_secret) at h)
                  | inr secret ↦ (named, (bare_ok _).0 bare, secret)
                ]
              ]
      ]
    ]

    from :
        (is_blank pm.spec.provider.hostname ≡ false)
          × All IsBareByte pm.spec.provider.hostname
          × (is_blank pm.spec.provider.credential_secret_name ≡ false)
        → validate_provider pm ≡ ok tt
    from h =
        let (named, bare, secret) = h in
        simp (
          named,
          no_scheme pm.spec.provider.hostname bare,
          (bare_ok pm.spec.provider.hostname).1 bare,
          secret,
        )

declared-ok :
    (i : ℕ) (ids : List Text) → (check_declared i ids ≡ ok tt) ↔ All (λ id. is_blank id ≡ false) ids
unfolding check_declared
declared-ok i [] = ((λ h. tt), (λ h. refl))
declared-ok i (id ∷ ids) = elim (Bool-cases (is_blank id)) [
  | inl blank ↦ ((λ h. cc (rw blank at h)), (λ h. cc (blank, h.0)))
  | inr named ↦ (
    (λ h. (named, (declared-ok (suc i) ids).0 (rw named at h))),
    (λ h. rw named ((declared-ok (suc i) ids).1 h.1)),
  )
]

some_enabled :
    (a b : Bool) (e : Text)
    → (◌≡◌ {A = Result (Unit {0})} (if not a && not b then err e else ok tt) (ok tt))
      ↔ ((a ≡ true) ⊎ (b ≡ true))
some_enabled true b e = ((λ h. inl refl), (λ h. refl))
some_enabled false true e = ((λ h. inr refl), (λ h. refl))
some_enabled false false e = ((λ h. cc h), (λ h. elim h [ inl e ↦ cc e | inr e ↦ cc e ]))

endpoints-ok :
    (pm : PassthroughModel)
    → (validate_endpoints pm ≡ ok tt) ↔ (
        (true_or true pm.spec.endpoints.external_enabled ≡ true)
        ⊎ (true_or true pm.spec.endpoints.internal_enabled ≡ true))
unfolding validate_endpoints
endpoints-ok pm =
    some_enabled (true_or true pm.spec.endpoints.external_enabled)
      (true_or true pm.spec.endpoints.internal_enabled) _

some_declared :
    (catch_all : Bool) (ids : List Text) (e : Text)
    → ((if not catch_all && nat_eq (length ids) 0 then err e else check_declared 0 ids) ≡ ok tt)
      ↔ (((catch_all ≡ true) ⊎ (ids ≢ [])) × All (λ id. is_blank id ≡ false) ids)
some_declared true ids e =
    ((λ h. (inl refl, (declared-ok 0 ids).0 h)), (λ h. (declared-ok 0 ids).1 h.1))
some_declared false [] e = ((λ h. cc h), (λ h. elim h.0 [ inl e ↦ cc e | inr e ↦ absurd (e refl) ]))
some_declared false (id ∷ ids) e = (
  (λ h. (inr (λ e. cc e), (declared-ok 0 (id ∷ ids)).0 (rw not_zero at h))),
  (λ h. rw not_zero ((declared-ok 0 (id ∷ ids)).1 h.1)),
)
  where
    not_zero : nat_eq (suc (length ids)) 0 ≡ false
    not_zero = ground arith

models-ok :
    (pm : PassthroughModel)
    → (validate_models pm ≡ ok tt) ↔ (
        ((pm.spec.models.catch_all ≡ true) ⊎ (pm.spec.models.declared ≢ []))
        × All (λ id. is_blank id ≡ false) pm.spec.models.declared)
unfolding validate_models
models-ok pm = some_declared pm.spec.models.catch_all pm.spec.models.declared _

-- A PassthroughModel is admitted, at creation and at each update, exactly when it is in the
-- operator's namespace, the namespace is labelled as managed, it is public or has groups, its
-- provider has a host without slash, colon, blank or line end and a named Secret, it routes
-- something and each declared id is not blank, an endpoint is enabled, and no LLMModel has its name.
pub validate_passthrough_model_iff :
    (v : CustomValidator) (pm : PassthroughModel)
    → (validate_passthrough_model v pm ≡ ok tt) ↔ (
        IsPlaced v pm.namespace
        × IsManaged v pm.namespace
        × IsAccessible pm.spec.access
        × ((is_blank pm.spec.provider.hostname ≡ false)
            × All IsBareByte pm.spec.provider.hostname
            × (is_blank pm.spec.provider.credential_secret_name ≡ false))
        × (((pm.spec.models.catch_all ≡ true) ⊎ (pm.spec.models.declared ≢ []))
            × All (λ id. is_blank id ≡ false) pm.spec.models.declared)
        × ((true_or true pm.spec.endpoints.external_enabled ≡ true)
            ⊎ (true_or true pm.spec.endpoints.internal_enabled ≡ true))
        × IsFree (v.reader.get_llm_model pm.name pm.namespace))
unfolding validate_passthrough_model
validate_passthrough_model_iff v pm = (
  (λ h.
      let (placed, after_placed) = then-ok _ _ h in
      let (managed, after_managed) = then-ok _ _ after_placed in
      let (access, after_access) = then-ok _ _ after_managed in
      let (provider, after_provider) = then-ok (validate_provider pm) _ after_access in
      let (models, after_models) = then-ok (validate_models pm) _ after_provider in
      let (endpoints, collision) = then-ok (validate_endpoints pm) _ after_models in
      (
        (IsPlaced-ok _ v _).0 placed,
        (IsManaged-ok _ v _).0 managed,
        (access-ok _ _).0 access,
        (provider-ok pm).0 provider,
        (models-ok pm).0 models,
        (endpoints-ok pm).0 endpoints,
        (collision-ok (bytes "PassthroughModel") (bytes "LLMModel") pm.name pm.namespace _).0
            collision,
      )),
  (λ h.
      let (placed, managed, access, provider, models, endpoints, free) = h in
      rw (
        (IsPlaced-ok (bytes "PassthroughModel") v pm.namespace).1 placed,
        (IsManaged-ok (bytes "PassthroughModel") v pm.namespace).1 managed,
        (access-ok (bytes "passthrough") pm.spec.access).1 access,
        (provider-ok pm).1 provider,
        (models-ok pm).1 models,
        (endpoints-ok pm).1 endpoints,
        (collision-ok (bytes "PassthroughModel") (bytes "LLMModel") pm.name pm.namespace
              (v.reader.get_llm_model pm.name pm.namespace)).1
            free,
      )),
)

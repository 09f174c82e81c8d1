-- ===== src/Tls/Steady.antt =====
-- The steady state of the shared TLS resources.
use nebari_llm_serving_pack.Base.{
  ◌≡◌, ◌⊎◌, refl, inl, inr, true, false, some, List, [], ◌∷◌, if◌then◌else◌, Bool-cases, Text, ◌==◌,
  ==-refl, bytes, Result, ok, ok-injective, All, Exec, pure, wrap, ◌>>◌,
}
use nebari_llm_serving_pack.Cluster.{Fetched, found}
use nebari_llm_serving_pack.Config.{OperatorConfig}
use nebari_llm_serving_pack.Gateway.{Item, merge_https_listener}
use nebari_llm_serving_pack.Naming.{shared_external_hostname, shared_internal_hostname}
use nebari_llm_serving_pack.Routing.{external_https_listener_name, internal_https_listener_name}
use nebari_llm_serving_pack.Tls
use nebari_llm_serving_pack.Tls.{
  Api, GatewayObject, Deletion, absent, deletion_result, shared_secret_name,
  distinct_gateway_namespaces,
}
use nebari_llm_serving_pack.Tls.Build.{
  Resource, shared_tls_certificate_name, certificate_spec, build_shared_certificate, grant_spec,
  build_secret_reference_grant,
}
use nebari_llm_serving_pack.Tls.Json.{
  Value, HasDistinct, IsSound, field_at, nested_specs_equal_refl,
}

certificate-HasDistinct :
    (base_domain issuer : Text) → HasDistinct (certificate_spec base_domain issuer)
unfolding certificate_spec IsSound field_at ◌==◌ bytes
certificate-HasDistinct base_domain issuer =
    (refl, tt, (refl, (tt, (tt, tt)), (refl, (refl, tt, (refl, tt, (refl, tt, tt))), tt)))

certificate_ok-HasDistinct :
    (base_domain namespace issuer : Text) (r : Resource)
    → build_shared_certificate base_domain namespace issuer ≡ ok r
    → HasDistinct r.spec
unfolding build_shared_certificate
certificate_ok-HasDistinct base_domain namespace issuer r h =
    elim (Bool-cases (base_domain == [])) [
      | inl empty ↦ cc (rw empty at h)
      | inr named ↦ elim (Bool-cases (namespace == [])) [
        | inl empty ↦ cc (rw (named, empty) at h)
        | inr housed ↦ elim (Bool-cases (issuer == [])) [
          | inl empty ↦ cc (rw (named, housed, empty) at h)
          | inr issued ↦
              rw (← ok-injective (rw (named, housed, issued) at h))
                (certificate-HasDistinct base_domain issuer)
        ]
      ]
    ]

grant-HasDistinct : (from_namespace name : Text) → HasDistinct (grant_spec from_namespace name)
unfolding grant_spec IsSound field_at ◌==◌ bytes
grant-HasDistinct from_namespace name = (
  refl,
  ((refl, tt, (refl, tt, (refl, tt, tt))), tt),
  (refl, ((refl, tt, (refl, tt, (refl, tt, tt))), tt), tt),
)

foreign_spec :
    (ns operator_namespace name : Text)
    → HasDistinct (build_secret_reference_grant ns operator_namespace name).spec
unfolding build_secret_reference_grant
foreign_spec ns operator_namespace name = grant-HasDistinct ns name

module _ {W : Type 0} (api : Api W) (print : Value → Text) (cfg : OperatorConfig) (w : W) where
  -- The object is there with the spec that is wanted; reading it leaves the world alone.
  abbrev pub IsThere : Resource → Type 0
  IsThere r =
      (c : Resource) × ((api.resources r.kind).get r.namespace r.name w ≡ (found c, w))
      × (c.spec ≡ r.spec)

  -- The Gateway is there, and MergeHTTPSListener finds nothing to change.
  abbrev pub IsServed : Text → Text → Text → Text → Type 0
  IsServed name namespace listener_name hostname =
      (gw : GatewayObject) × (items : List Item) × (api.gateways.get namespace name w
        ≡ (found gw, w))
      × (merge_https_listener listener_name hostname (shared_secret_name cfg) cfg.operator_namespace
            gw.listeners
          ≡ ok (false, items))

  -- The Certificate is there; or the user's Secret is used, and there is no Certificate to delete.
  abbrev pub HasSource : Type 0
  HasSource =
      (((cfg.tls_secret_name == []) ≡ true)
        × ((r : Resource) × (build_shared_certificate cfg.base_domain cfg.operator_namespace
                cfg.cluster_issuer_name
              ≡ ok r)
            × IsThere r))
      ⊎ (((cfg.tls_secret_name == []) ≡ false)
          × (api.delete_certificate cfg.operator_namespace shared_tls_certificate_name w
              ≡ (absent, w))
          × ((r : Fetched Text) × (api.secret_type cfg.operator_namespace cfg.tls_secret_name w
                ≡ (r, w))))

  pub record IsSettled : Type 0 where
    pub source : HasSource
    pub grants :
        All
          (λ ns.
            (ns ≡ cfg.operator_namespace)
            ⊎ IsThere
                (build_secret_reference_grant ns cfg.operator_namespace (shared_secret_name cfg)))
          (distinct_gateway_namespaces cfg)
    pub external :
        IsServed cfg.external_gateway_name cfg.external_gateway_ns external_https_listener_name
          (shared_external_hostname cfg.base_domain)
    pub internal :
        IsServed cfg.internal_gateway_name cfg.internal_gateway_ns internal_https_listener_name
          (shared_internal_hostname cfg.base_domain)

  -- Nothing is written and nothing fails.
  abbrev Rests : Exec W (Unit {0}) → Type 0
  Rests m = ◌≡◌ {A = Result (Unit {0}) × W} (m w) (ok tt, w)

  then-Rests : (m n : Exec W (Unit {0})) → Rests m → Rests n → Rests (m >> n)
  then-Rests m n h k = rw h k

  wrap-Rests : (f : Text → Text) (m : Exec W (Unit {0})) → Rests m → Rests (wrap f m)
  wrap-Rests f m h = rw h refl

  resource-Rests :
      (r : Resource)
      → HasDistinct r.spec
      → IsThere r
      → Rests (Tls.create_or_update_unstructured api print r)
  unfolding Tls.create_or_update_unstructured Tls.apply_resource
  resource-Rests r distinct (c, got, same) =
      rw got (rw same (rw (nested_specs_equal_refl print r.spec distinct) refl))

  gateway-Rests :
      (name namespace listener_name hostname : Text)
      → IsServed name namespace listener_name hostname
      → Rests (Tls.patch_gateway_listener api print cfg name namespace listener_name hostname)
  unfolding Tls.patch_gateway_listener Tls.patch_found Tls.write_gateway
  gateway-Rests name namespace listener_name hostname (gw, items, got, merged) =
      rw got (rw merged refl)

  source-Rests : HasSource → Rests (Tls.ensure_tls_source api print cfg)
  unfolding Tls.ensure_tls_source Tls.ensure_certificate Tls.delete_managed_certificate
      Tls.check_user_secret deletion_result
  source-Rests (inl (managed, (r, built, there))) = simp managed (
      wrap-Rests _ (Tls.ensure_certificate api print cfg)
        (rw built (resource-Rests r (certificate_ok-HasDistinct _ _ _ r built) there)))
  source-Rests (inr (given, gone, (r, read))) = simp given (rw (gone, read) refl)

  grants-Rests :
      (namespaces : List Text)
      → All
          (λ ns.
            (ns ≡ cfg.operator_namespace)
            ⊎ IsThere
                (build_secret_reference_grant ns cfg.operator_namespace (shared_secret_name cfg)))
          namespaces
      → Rests (Tls.ensure_grants api print cfg namespaces)
  unfolding Tls.ensure_grants Tls.ensure_reference_grant
  grants-Rests [] h = refl
  grants-Rests (ns ∷ namespaces) (here, later) = elim (Bool-cases (ns == cfg.operator_namespace)) [
    | inl own ↦ rw own (grants-Rests namespaces later)
    | inr other ↦ rw other (rw (foreign other here) (grants-Rests namespaces later))
  ]
    where
      foreign :
          (ns == cfg.operator_namespace) ≡ false
          → (ns ≡ cfg.operator_namespace)
            ⊎ IsThere
                (build_secret_reference_grant ns cfg.operator_namespace (shared_secret_name cfg))
          → Rests (Tls.ensure_reference_grant api print cfg ns)
      foreign other (inl own) = cc (own, other, ==-refl ns)
      foreign other (inr there) =
          resource-Rests _ (foreign_spec ns cfg.operator_namespace (shared_secret_name cfg)) there

  listeners-Rests : IsSettled → Rests (Tls.patch_listeners api print cfg)
  unfolding Tls.patch_listeners
  listeners-Rests settled =
      rw (gateway-Rests _ _ _ _ settled.external) (rw (gateway-Rests _ _ _ _ settled.internal) refl)

  managed-Rests :
      IsSettled
      → Rests (if cfg.manage_shared_listeners then Tls.patch_listeners api print cfg else pure tt)
  managed-Rests settled = elim (Bool-cases cfg.manage_shared_listeners) [
    | inl managed ↦ simp managed (listeners-Rests settled)
    | inr left ↦ simp left refl
  ]

  -- In a settled cluster a pass of the shared TLS reconciliation succeeds and leaves the world as it
  -- was: it writes nothing. Settled means that the Certificate and the grant of every other
  -- Gateway's namespace are there with the specs that the operator builds, or that the user's own
  -- Secret is configured and no Certificate is left, and that both Gateways have the listeners; the
  -- comparison of specs finds a spec equal to itself, whatever `%v` prints.
  pub reconcile_steady : IsSettled → Rests (Tls.reconcile api print (some cfg))
  unfolding Tls.reconcile Tls.reconcile_with
  reconcile_steady settled = elim (Bool-cases (cfg.base_domain == [])) [
    | inl empty ↦ simp empty refl
    | inr named ↦ elim (Bool-cases (cfg.operator_namespace == [])) [
      | inl empty ↦ simp (named, empty) refl
      | inr housed ↦
          simp (named, housed)
            (then-Rests (Tls.ensure_tls_source api print cfg) _ (source-Rests settled.source) (
              then-Rests (Tls.ensure_grants api print cfg (distinct_gateway_namespaces cfg)) _
                (grants-Rests _ settled.grants) (managed-Rests settled)))
    ]
  ]

-- ===== src/Passthrough/Ready.antt =====
-- When a PassthroughModel is Ready.
use nebari_llm_serving_pack.Base.{
  ◌≡◌, ◌↔◌, refl, Bool, true, false, not, ◌&&◌, Option, none, some, List, [], ◌∷◌, if◌then◌else◌,
  Text, ◌==◌, bytes, Result, ok, err, Exec,
}
use nebari_llm_serving_pack.Auth.{SecurityPolicy}
use nebari_llm_serving_pack.Cluster.{Unstructured}
use nebari_llm_serving_pack.Passthrough.{PassthroughRoute, PassthroughResources}
use nebari_llm_serving_pack.Passthrough.Types.{
  Api, Custom, Condition, CondType, backend_configured, external_endpoint_ready,
  internal_endpoint_ready, ready_phase, error_phase, apply_failed, condition_for,
  disabled_condition, phase_for, first_error, result_of, custom_route, custom_policy,
}
use nebari_llm_serving_pack.Crd.{PassthroughModel}
use nebari_llm_serving_pack.Passthrough.Apply.{
  create_or_update_unstructured, apply_owned, apply_from, apply_all, provider_objects,
  apply_endpoint, apply_groups,
}

module _ {W : Type 0} (api : Api W) where
  -- Every object of the list that is there gets its owner and is created or updated without error,
  -- each in the world that the one before left.
  abbrev pub AllApplied : List (Option (Unstructured Custom)) → W → Type 0
  AllApplied [] w = Unit
  AllApplied (none ∷ objs) w = AllApplied objs w
  AllApplied (some o ∷ objs) w =
      (api.set_owner o.kind o.name ≡ ok tt)
      × ((create_or_update_unstructured api o w).0 ≡ ok tt)
      × AllApplied objs (create_or_update_unstructured api o w).1

  owned-ok :
      (first : Option Text) (o : Unstructured Custom) (owner : Result (Unit {0}))
      (rest : Option Text → Exec W (Unit {0})) (w : W)
      → (apply_owned api first o owner rest w).0 ≡ ok tt
      → (owner ≡ ok tt)
        × ((rest
              (first_error first (create_or_update_unstructured api o w).0)
              (create_or_update_unstructured api o w).1).0
            ≡ ok tt)
  unfolding apply_owned
  owned-ok first o (err e) rest w h = cc h
  owned-ok first o (ok u) rest w h = (refl, h)

  -- A first error stays.
  failed_apply :
      (objs : List (Option (Unstructured Custom))) (e : Text) (w : W)
      → (apply_from api (some e) objs w).0 ≡ ok tt
      → ⊥
  unfolding apply_from result_of first_error
  failed_apply [] e w h = cc h
  failed_apply (none ∷ objs) e w h = failed_apply objs e w h
  failed_apply (some o ∷ objs) e w h =
      let (_, k) = owned-ok (some e) o (api.set_owner o.kind o.name) _ w h in
      failed_apply objs e (create_or_update_unstructured api o w).1 k

  later-ok :
      (objs : List (Option (Unstructured Custom))) (r : Result (Unit {0})) (w : W)
      → (apply_from api (first_error none r) objs w).0 ≡ ok tt
      → (r ≡ ok tt) × ((apply_from api none objs w).0 ≡ ok tt)
  unfolding first_error
  later-ok objs (ok u) w h = (refl, h)
  later-ok objs (err e) w h = absurd (failed_apply objs e w h)

  apply_all-AllApplied :
      (objs : List (Option (Unstructured Custom))) (w : W)
      → (apply_all api objs w).0 ≡ ok tt
      → AllApplied objs w
  unfolding apply_all apply_from
  apply_all-AllApplied [] w h = tt
  apply_all-AllApplied (none ∷ objs) w h = apply_all-AllApplied objs w h
  apply_all-AllApplied (some o ∷ objs) w h =
      let (owned, k) = owned-ok none o (api.set_owner o.kind o.name) _ w h in
      let (applied, rest) =
        later-ok objs (create_or_update_unstructured api o w).0
          (create_or_update_unstructured api o w).1 k in
      (owned, applied, apply_all-AllApplied objs (create_or_update_unstructured api o w).1 rest)

  ok-later :
      (objs : List (Option (Unstructured Custom))) (r : Result (Unit {0})) (w : W)
      → r ≡ ok tt
      → (apply_from api none objs w).0 ≡ ok tt
      → (apply_from api (first_error none r) objs w).0 ≡ ok tt
  unfolding first_error
  ok-later objs (ok u) w e h = h
  ok-later objs (err m) w e h = cc e

  AllApplied-apply_all :
      (objs : List (Option (Unstructured Custom))) (w : W)
      → AllApplied objs w
      → (apply_all api objs w).0 ≡ ok tt
  unfolding apply_all apply_from apply_owned result_of first_error
  AllApplied-apply_all [] w h = refl
  AllApplied-apply_all (none ∷ objs) w h = AllApplied-apply_all objs w h
  AllApplied-apply_all (some o ∷ objs) w (owned, applied, rest) = rw owned (
      ok-later objs (create_or_update_unstructured api o w).0
        (create_or_update_unstructured api o w).1 applied
        (AllApplied-apply_all objs (create_or_update_unstructured api o w).1 rest))

has_failed : Condition → Bool
has_failed c = not c.status && c.reason == apply_failed

condition_for_iff :
    (type : CondType) (r : Result (Unit {0})) (message : Text)
    → (has_failed (condition_for type r message) ≡ false) ↔ (r ≡ ok tt)
unfolding has_failed condition_for ◌==◌ bytes
condition_for_iff type (ok u) message = ((λ h. refl), λ h. refl)
condition_for_iff type (err e) message = ((λ h. cc h), λ h. cc h)

phase_for_iff :
    (a b c : Condition)
    → (phase_for (a ∷ b ∷ c ∷ []) ≡ ready_phase)
      ↔ ((has_failed a ≡ false) × (has_failed b ≡ false) × (has_failed c ≡ false))
unfolding phase_for has_failed
phase_for_iff a b c = by_tests (has_failed a) (has_failed b) (has_failed c)
  where
    by_tests :
        (p q r : Bool)
        → ((if p
              then error_phase
              else (if q then error_phase else (if r then error_phase else ready_phase)))
            ≡ ready_phase)
          ↔ ((p ≡ false) × (q ≡ false) × (r ≡ false))
    by_tests false false false = ((λ h. (refl, refl, refl)), λ h. refl)
    by_tests false false true = ((λ h. cc h), λ h. cc (h.2))
    by_tests false true r = ((λ h. cc h), λ h. cc (h.1))
    by_tests true q r = ((λ h. cc h), λ h. cc (h.0))

module _ {W : Type 0} (api : Api W) (pm : PassthroughModel) where
  -- An endpoint without a route needs nothing; else its route and its policy are applied.
  abbrev pub EndpointApplied : Option PassthroughRoute → Option SecurityPolicy → W → Type 0
  EndpointApplied none policy w = Unit
  EndpointApplied (some r) policy w =
      AllApplied api (custom_route pm (some r) ∷ custom_policy pm policy ∷ []) w

  endpoint_iff :
      (type : CondType) (message : Text) (r : Option PassthroughRoute) (p : Option SecurityPolicy)
      (w : W)
      → (has_failed (apply_endpoint api pm type message r p w).0 ≡ false) ↔ EndpointApplied r p w
  unfolding apply_endpoint has_failed disabled_condition ◌==◌ bytes
  endpoint_iff type message none p w = ((λ h. tt), λ h. refl)
  endpoint_iff type message (some r) p w =
      let objs = custom_route pm (some r) ∷ custom_policy pm p ∷ [] in
      let (to, from) = condition_for_iff type (apply_all api objs w).0 message in
      ((λ h. apply_all-AllApplied api objs w (to h)), λ h. from (AllApplied-apply_all api objs w h))

  -- A PassthroughModel is Ready exactly when everything that it needs was applied: the provider's
  -- four objects, and for each endpoint with a route that route and its policy, each object with its
  -- owner set and created or updated without error, in the world that the one before left. So no
  -- failed object is hidden by one that is applied after it.
  pub apply_groups_iff :
      (r : PassthroughResources) (w : W)
      → (phase_for (apply_groups api pm r w).0 ≡ ready_phase) ↔ (
          AllApplied api (provider_objects api pm r) w
          × EndpointApplied r.external_route r.external_security_policy
              (apply_all api (provider_objects api pm r) w).1
          × EndpointApplied r.internal_route r.internal_security_policy
              (apply_endpoint api pm external_endpoint_ready
                (bytes "external route and apiKeyAuth policy applied")
                r.external_route
                r.external_security_policy
                (apply_all api (provider_objects api pm r) w).1).1)
  unfolding apply_groups
  apply_groups_iff r w =
      let ran = apply_all api (provider_objects api pm r) w in
      let external_message = bytes "external route and apiKeyAuth policy applied" in
      let internal_message = bytes "internal route and JWT policy applied" in
      let (external, w₂) =
        apply_endpoint api pm external_endpoint_ready external_message r.external_route
          r.external_security_policy ran.1 in
      let (internal, _) =
        apply_endpoint api pm internal_endpoint_ready internal_message r.internal_route
          r.internal_security_policy w₂ in
      let message = bytes "provider backend resources applied" in
      let all = phase_for_iff (condition_for backend_configured ran.0 message) external internal in
      let first = condition_for_iff backend_configured ran.0 message in
      let second =
        endpoint_iff external_endpoint_ready external_message r.external_route
          r.external_security_policy ran.1 in
      let third =
        endpoint_iff internal_endpoint_ready internal_message r.internal_route
          r.internal_security_policy w₂ in
      (
        (λ h.
            let (a, b, c) = all.0 h in
            (
              apply_all-AllApplied api (provider_objects api pm r) w (first.0 a),
              second.0 b,
              third.0 c,
            )),
        (λ h.
            let (a, b, c) = h in
            all.1 (
              first.1 (AllApplied-apply_all api (provider_objects api pm r) w a),
              second.1 b,
              third.1 c,
            )),
      )

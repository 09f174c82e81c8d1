-- ===== src/Auth/Admits.antt =====
-- Whom the rendered policies admit.
use nebari_llm_serving_pack.Base.{
  ◌≡◌, ◌⊎◌, ◌↔◌, inl, inr, refl, sym, ◌∙◌, Bool, true, false, ◌&&◌, Option, some, none, List, [],
  ◌∷◌, if◌then◌else◌, Bool-cases, arith, Text, ◌==◌, ==-refl, any, member, member-In, In-member, In,
  here, there, Map, sort_texts-In, In-sort_texts,
}
use nebari_llm_serving_pack.Auth.{
  DataObject, Action, allow, deny, Principal, header, jwt_claim, Rule, Authorization,
  api_key_client_id_header, keys_of, client_ids_from_secret, is_public_access,
  build_api_key_authorization, build_api_key_auth_security_policy, build_external_security_policy,
  build_group_authorization, build_jwt_security_policy, build_internal_security_policy,
}
use nebari_llm_serving_pack.Config.{OperatorConfig}
use nebari_llm_serving_pack.Crd.{LlmModel}

-- Envoy Gateway's documented reading of a policy for a request that is authenticated as a client
-- and carries the claims of a token: the first rule whose principal matches decides, else the
-- default does; without a block every authenticated request passes.
unfoldable pub matches : Text → (Text → List Text) → Principal → Bool
matches client claims (header name values) =
    name == api_key_client_id_header && member client values
matches client claims (jwt_claim provider name values) = any (λ g. member g values) (claims name)

unfoldable pub decide : Text → (Text → List Text) → Action → List Rule → Action
decide client claims default_action [] = default_action
decide client claims default_action (r ∷ rules) =
    let later = decide client claims default_action rules in
    if matches client claims r.principal then r.action else later

unfoldable pub is_allow : Action → Bool
is_allow allow = true
is_allow deny = false

unfoldable pub passes : Text → (Text → List Text) → Option Authorization → Bool
passes client claims none = true
passes client claims (some a) = is_allow (decide client claims a.default_action a.rules)

allow_if : (b : Bool) → is_allow (if b then allow else deny) ≡ b
unfolding is_allow
allow_if true = refl
allow_if false = refl

no_rule : (client : Text) → is_allow deny ≡ member client []
unfolding is_allow member
no_rule client = refl

-- What a Secret holds, nothing where there is none.
unfoldable pub entries_of : Option DataObject → Map Text
entries_of none = []
entries_of (some secret) = secret.entries

keys-passes :
    (client : Text) (claims : Text → List Text) (ids : List Text)
    → passes client claims (some (build_api_key_authorization ids)) ≡ member client ids
unfolding passes decide matches build_api_key_authorization
keys-passes client claims [] = no_rule client
keys-passes client claims (id ∷ ids) =
    rw (==-refl api_key_client_id_header) (allow_if (member client (id ∷ ids)))

groups-passes :
    (client : Text) (claims : Text → List Text) (groups : List Text) (claim : Text)
    → passes client claims (some (build_group_authorization groups claim))
      ≡ any (λ g. member g groups) (claims claim)
unfolding passes decide matches build_group_authorization
groups-passes client claims groups claim = allow_if (any (λ g. member g groups) (claims claim))

any-member-In :
    (gs groups : List Text)
    → any (λ g. member g groups) gs ≡ true
    → (g : Text) × In g gs × In g groups
any-member-In [] groups h = cc
any-member-In (g ∷ gs) groups h = elim (Bool-cases (member g groups)) [
  | inl mine ↦ (g, here, member-In g groups mine)
  | inr other ↦ let (g', i, j) = any-member-In gs groups (rw other at h) in (g', there i, j)
]

In-any-member :
    {g : Text} {gs : List Text} (groups : List Text)
    → In g gs
    → In g groups
    → any (λ g. member g groups) gs ≡ true
In-any-member groups here j = rw (In-member j)
In-any-member groups (there {x} {xs} i) j = ground (arith, In-any-member groups i j)

-- The internal endpoint is open to a token's groups: the model is public, or the claim with the
-- groups shares one with the model.
abbrev pub IsOpenTo : LlmModel → OperatorConfig → (Text → List Text) → Type 0
IsOpenTo model cfg claims =
    (is_public_access model.spec.access ≡ true)
    ⊎ ((g : Text) × In g (claims cfg.oidc_groups_claim) × In g model.spec.access.groups)

ids-In :
    (client : Text) (secret : Option DataObject)
    → (member client (client_ids_from_secret secret) ≡ true)
      ↔ In client (keys_of (entries_of secret))
unfolding client_ids_from_secret entries_of keys_of member
ids-In client none = ((λ h. cc h), λ i. elim i [ ])
ids-In client (some secret) = (
  (λ h. sort_texts-In (keys_of secret.entries) (member-In client _ h)),
  λ i. In-member (In-sort_texts (keys_of secret.entries) i),
)

pub external_policy_iff :
    (model : LlmModel) (secret : Option DataObject) (pooled : List Text) (client : Text)
    (claims : Text → List Text)
    → (passes client claims
          (build_external_security_policy model
            (client_ids_from_secret secret)
            pooled).authorization
        ≡ true)
      ↔ In client (keys_of (entries_of secret))
unfolding build_external_security_policy build_api_key_auth_security_policy
external_policy_iff model secret pooled client claims =
    let same = keys-passes client claims (client_ids_from_secret secret) in
    let (to, from) = ids-In client secret in ((λ h. to (sym same ∙ h)), λ i. same ∙ from i)

internal :
    (model : LlmModel) (cfg : OperatorConfig) (client : Text) (claims : Text → List Text)
    → (passes client claims (build_internal_security_policy model cfg).authorization ≡ true)
      ↔ IsOpenTo model cfg claims
unfolding build_internal_security_policy build_jwt_security_policy passes
internal model cfg client claims = elim (Bool-cases (is_public_access model.spec.access)) [
  | inl public ↦ simp public ((λ h. inl refl), λ h. refl)
  | inr closed ↦
      let same = groups-passes client claims model.spec.access.groups cfg.oidc_groups_claim in
      simp closed ((λ h. inr (any-member-In _ _ (sym same ∙ h))), λ h. same ∙ shared h)
]
  where
    shared :
        (false ≡ true)
          ⊎ ((g : Text) × In g (claims cfg.oidc_groups_claim) × In g model.spec.access.groups)
        → any (λ g. member g model.spec.access.groups) (claims cfg.oidc_groups_claim) ≡ true
    shared (inl e) = cc e
    shared (inr (g, i, j)) = In-any-member model.spec.access.groups i j

-- The rendered policies admit exactly these requests: that of the external endpoint those of the
-- clients whose keys stand in the model's own Secret, which is none before it exists, whatever keys
-- are pooled for authentication; that of the internal endpoint those whose token has a group of the
-- model, and all where the model is public.
pub security_policies-admit :
    (model : LlmModel) (cfg : OperatorConfig) (secret : Option DataObject) (pooled : List Text)
    (client : Text) (claims : Text → List Text)
    → ((passes client claims
            (build_external_security_policy model
              (client_ids_from_secret secret)
              pooled).authorization
          ≡ true)
        ↔ In client (keys_of (entries_of secret)))
      × ((passes client claims (build_internal_security_policy model cfg).authorization ≡ true)
          ↔ IsOpenTo model cfg claims)
security_policies-admit model cfg secret pooled client claims =
    (external_policy_iff model secret pooled client claims, internal model cfg client claims)

-- ===== src/Config/Required.antt =====
-- When LoadFromEnv gives a configuration, and what it reports else.
use nebari_llm_serving_pack.Base.{
  ◌≡◌, ◌≢◌, ◌⊎◌, ◌↔◌, inl, inr, refl, sym, ap, ◌∙◌, List, [], ◌∷◌, ◌++◌, Bool-cases, Text, ◌==◌,
  eq_iff, ==-sound, bytes, ok, err, In, there, In-cons, In-of_eq, All, All-of,
}
use mathlib.Core.Bool.{false≢true}
use nebari_llm_serving_pack.Config.{
  Environment, required_keys, missing, joined, config_from, unless_missing, load_from_env,
}

-- A variable of the list that is not set.
abbrev pub IsMissing : Environment → List Text → Text → Type 0
IsMissing env keys key = In key keys × (env key ≡ [])

missing-IsMissing :
    (env : Environment) (keys : List Text) (key : Text)
    → In key (missing env keys)
    → IsMissing env keys key
unfolding missing
missing-IsMissing env [] key i = elim i [ ]
missing-IsMissing env (k ∷ keys) key i = elim (Bool-cases (env k == [])) [
  | inr present ↦ let (j, e) = missing-IsMissing env keys key (rw present at i) in (there j, e)
  | inl empty ↦ elim (In-cons (rw empty at i)) [
    | inl e ↦ (In-of_eq e, ap env e ∙ ==-sound (env k) [] empty)
    | inr later ↦ let (j, e) = missing-IsMissing env keys key later in (there j, e)
  ]
]

IsMissing-missing :
    (env : Environment) (keys : List Text) (key : Text)
    → In key keys
    → env key ≡ []
    → In key (missing env keys)
unfolding missing
IsMissing-missing env [] key i e = elim i [ ]
IsMissing-missing env (k ∷ keys) key i e = elim (Bool-cases (env k == [])) [
  | inl empty ↦ rw empty (elim (In-cons i) [
    | inl same ↦ In-of_eq same
    | inr later ↦ there (IsMissing-missing env keys key later e)
  ])
  | inr present ↦ rw present (elim (In-cons i) [
    | inl same ↦ absurd (false≢true (sym present ∙ (eq_iff (env k) []).1 (ap env (sym same) ∙ e)))
    | inr later ↦ IsMissing-missing env keys key later e
  ])
]

-- Every required variable is set.
abbrev pub AllSet : Environment → Type 0
AllSet env = All (λ key. env key ≢ []) required_keys

-- The keys are the required ones that are not set, and at least one.
abbrev pub IsReported : Environment → List Text → Type 0
IsReported env keys = (keys ≢ []) × ((key : Text) → In key keys ↔ IsMissing env required_keys key)

by_missing :
    (env : Environment) (keys : List Text)
    → ((key : Text) → In key keys ↔ IsMissing env required_keys key)
    → ((unless_missing (config_from env) keys ≡ ok (config_from env)) × AllSet env)
      ⊎ ((unless_missing (config_from env) keys
            ≡ err (bytes "missing required environment variables: " ++ joined keys))
          × IsReported env keys)
unfolding unless_missing
by_missing env [] same =
    inl
      (refl, All-of (λ key. env key ≢ []) required_keys (λ key i e. elim ((same key).1 (i, e)) [ ]))
by_missing env (k ∷ keys) same = inr (refl, ((λ e. cc e), same))

-- LoadFromEnv gives the configuration when every required variable is set, and else an error that
-- lists the required variables that are not set, all of them and no other.
pub load_from_env-reports :
    (env : Environment)
    → ((load_from_env env ≡ ok (config_from env)) × AllSet env)
      ⊎ ((load_from_env env
            ≡ err (
                bytes "missing required environment variables: "
                ++ joined (missing env required_keys)))
          × IsReported env (missing env required_keys))
unfolding load_from_env
load_from_env-reports env = by_missing env (missing env required_keys) (λ key.
    (missing-IsMissing env required_keys key, λ h. IsMissing-missing env required_keys key h.0 h.1))

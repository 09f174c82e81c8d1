-- ===== src/Auth/Secrets.antt =====
-- operator/internal/controller/apikeys.go: the Secrets with API keys, as both controllers read them.
use nebari_llm_serving_pack.Base.{
  ◌≡◌, ◌⊎◌, ◌↔◌, inl, inr, refl, sym, Bool, true, Option, some, none, List, [], ◌∷◌, if◌then◌else◌,
  Bool-cases, Text, ◌==◌, bytes, Map, lookup, has_suffix, Result, ok, err, In, here, there, In-cons,
  In-of_eq, sorted_set, sorted_set-In, In-sorted_set, IsStrict, sorted_set-IsStrict,
}
use nebari_llm_serving_pack.Auth.{DataObject, client_ids_from_secret}
use nebari_llm_serving_pack.Cluster.{Fetched, found, not_found, failed}
use nebari_llm_serving_pack.Naming.{api_key_secret_suffix}

unfoldable pub equals_text : Option Text → Text → Bool
equals_text none t = [] == t
equals_text (some s) t = s == t

-- The filter of managedByOperatorPredicate, on an object's labels.
unfoldable pub managed_by_operator : Map Text → Bool
managed_by_operator labels =
    equals_text (lookup (bytes "app.kubernetes.io/managed-by") labels) (bytes "nebari-llm-operator")

-- The argument is what the Get of the model's own Secret gives.
unfoldable pub api_key_client_ids : Fetched DataObject → Result (List Text)
api_key_client_ids (found secret) = ok (client_ids_from_secret (some secret))
api_key_client_ids not_found = ok []
api_key_client_ids (failed e) = err e

unfoldable pub with_suffix : List DataObject → List Text
with_suffix [] = []
with_suffix (s ∷ secrets) =
    let later = with_suffix secrets in
    if has_suffix s.name api_key_secret_suffix then s.name ∷ later else later

-- The first argument is what the List of the operator's Secrets in the namespace gives.
unfoldable pub api_key_secret_names_with : Result (List DataObject) → Text → Result (List Text)
api_key_secret_names_with (err e) own_name = err e
api_key_secret_names_with (ok secrets) own_name = ok (sorted_set (own_name ∷ with_suffix secrets))

-- The requests for the models of the Secret's namespace; the last argument is what their List gives.
unfoldable pub enqueue_all_models_for_api_key_secret :
    Text → Result (List (Text × Text)) → List (Text × Text)
enqueue_all_models_for_api_key_secret secret_name (err e) = []
enqueue_all_models_for_api_key_secret secret_name (ok models) =
    if has_suffix secret_name api_key_secret_suffix then models else []

-- A name that is to be pooled: the model's own, or that of a Secret with the suffix.
abbrev pub IsPooled : List DataObject → Text → Text → Type 0
IsPooled secrets own_name n =
    (n ≡ own_name)
    ⊎ ((s : DataObject) × In s secrets × (s.name ≡ n) × (has_suffix n api_key_secret_suffix ≡ true))

with_suffix-In :
    (n : Text) (secrets : List DataObject)
    → In n (with_suffix secrets)
    → (s : DataObject) × In s secrets × (s.name ≡ n) × (has_suffix n api_key_secret_suffix ≡ true)
unfolding with_suffix
with_suffix-In n [] i = elim i [ ]
with_suffix-In n (s ∷ secrets) i = elim (Bool-cases (has_suffix s.name api_key_secret_suffix)) [
  | inr other ↦ let (t, j, e, h) = with_suffix-In n secrets (simp other at i) in (t, there j, e, h)
  | inl mine ↦ elim (In-cons (simp mine at i)) [
    | inl e ↦ (s, here, sym e, rw e mine)
    | inr later ↦ let (t, j, e, h) = with_suffix-In n secrets later in (t, there j, e, h)
  ]
]

In-with_suffix :
    (s : DataObject) (secrets : List DataObject)
    → In s secrets
    → has_suffix s.name api_key_secret_suffix ≡ true
    → In s.name (with_suffix secrets)
unfolding with_suffix
In-with_suffix s [] i h = elim i [ ]
In-with_suffix s (t ∷ secrets) here h = simp h here
In-with_suffix s (t ∷ secrets) (there i) h =
    elim (Bool-cases (has_suffix t.name api_key_secret_suffix)) [
      | inl mine ↦ simp mine (there (In-with_suffix s secrets i h))
      | inr other ↦ simp other (In-with_suffix s secrets i h)
    ]

-- The names that are pooled for a model are its own and those of the listed Secrets that have the
-- suffix, and no others, in a strict order: so the list is the same however the server orders its
-- answer and however often it names a Secret.
pub api_key_secret_names_with-IsPooled :
    (secrets : List DataObject) (own_name n : Text)
    → (names : List Text) × (api_key_secret_names_with (ok secrets) own_name ≡ ok names)
      × IsStrict names
      × (In n names ↔ IsPooled secrets own_name n)
unfolding api_key_secret_names_with
api_key_secret_names_with-IsPooled secrets own_name n = (
  sorted_set (own_name ∷ with_suffix secrets),
  refl,
  sorted_set-IsStrict (own_name ∷ with_suffix secrets),
  (to, from),
)
  where
    to : In n (sorted_set (own_name ∷ with_suffix secrets)) → IsPooled secrets own_name n
    to i = elim (In-cons (sorted_set-In (own_name ∷ with_suffix secrets) i)) [
      | inl e ↦ inl e
      | inr j ↦ inr (with_suffix-In n secrets j)
    ]

    from : IsPooled secrets own_name n → In n (sorted_set (own_name ∷ with_suffix secrets))
    from (inl e) = In-sorted_set (own_name ∷ with_suffix secrets) (In-of_eq e)
    from (inr (s, i, e, h)) =
        In-sorted_set (own_name ∷ with_suffix secrets)
          (there (rw (← e) (In-with_suffix s secrets i (rw e h))))

-- ===== src/Webhook/Unique.antt =====
-- What the webhooks keep true of all objects, over any sequence of admitted writes and deletions.
use nebari_llm_serving_pack.Base.{
  ◌≡◌, inl, inr, List, [], ◌∷◌, Text, bytes, ok, then-ok, In, In-cons,
}
use nebari_llm_serving_pack.Crd.{LlmModel, PassthroughModel}
use nebari_llm_serving_pack.Webhook.{
  Found, found, CustomValidator, validate_llm_model, validate_provider, validate_models,
  validate_endpoints, validate_passthrough_model,
}
use nebari_llm_serving_pack.Webhook.Admission.{IsAccessible, IsFree, access-ok, collision-ok}

-- The objects of both kinds in the cluster.
pub record Objects : Type 0 where
  pub llm_models : List LlmModel
  pub passthrough_models : List PassthroughModel

-- The uncached reader finds every object that is there.
abbrev pub IsCurrent : Objects → CustomValidator → Type 0
IsCurrent s v =
    ((m : LlmModel)
      → In m s.llm_models
      → (n : LlmModel) × (v.reader.get_llm_model m.name m.namespace ≡ found n))
    × ((pm : PassthroughModel)
        → In pm s.passthrough_models
        → (qm : PassthroughModel) × (v.reader.get_passthrough_model pm.name pm.namespace
            ≡ found qm))

-- One write at a time: a creation, or an update in place of an old object; or deletions. `rest` is
-- what stays of the kind.
pub data Step (sha256 : Text → Text) (s : Objects) : Objects → Type 0 where
  write_llm_model :
      (v : CustomValidator) (m : LlmModel) (warnings : List Text) (rest : List LlmModel)
      → IsCurrent s v
      → validate_llm_model sha256 v m ≡ ok warnings
      → ((n : LlmModel) → In n rest → In n s.llm_models)
      → Step sha256 s (record s { llm_models = m ∷ rest })
  write_passthrough_model :
      (v : CustomValidator) (pm : PassthroughModel) (rest : List PassthroughModel)
      → IsCurrent s v
      → validate_passthrough_model v pm ≡ ok tt
      → ((qm : PassthroughModel) → In qm rest → In qm s.passthrough_models)
      → Step sha256 s (record s { passthrough_models = pm ∷ rest })
  delete :
      (s' : Objects)
      → ((n : LlmModel) → In n s'.llm_models → In n s.llm_models)
      → ((qm : PassthroughModel) → In qm s'.passthrough_models → In qm s.passthrough_models)
      → Step sha256 s s'

pub data Reachable (sha256 : Text → Text) : Objects → Type 0 where
  start : Reachable sha256 (record { llm_models = []; passthrough_models = [] })
  after : {s s' : Objects} → Reachable sha256 s → Step sha256 s s' → Reachable sha256 s'

-- No two objects of different kinds share a name in a namespace, and somebody can use each.
pub record IsSound (s : Objects) : Type 0 where
  pub apart :
      (m : LlmModel) (pm : PassthroughModel)
      → In m s.llm_models
      → In pm s.passthrough_models
      → m.namespace ≡ pm.namespace
      → m.name ≡ pm.name
      → ⊥
  pub served : (m : LlmModel) → In m s.llm_models → IsAccessible m.spec.access
  pub provided : (pm : PassthroughModel) → In pm s.passthrough_models → IsAccessible pm.spec.access

free-found : {A : Type 0} {f : Found A} {a : A} → IsFree f → f ≡ found a → ⊥
free-found (inl e) h = cc (e, h)
free-found (inr e) h = cc (e, h)

llm_model-checked :
    (sha256 : Text → Text) (v : CustomValidator) (m : LlmModel) (warnings : List Text)
    → validate_llm_model sha256 v m ≡ ok warnings
    → IsAccessible m.spec.access × IsFree (v.reader.get_passthrough_model m.name m.namespace)
unfolding validate_llm_model
llm_model-checked sha256 v m warnings h =
    let (_, managed) = then-ok _ _ h in
    let (_, access) = then-ok _ _ managed in
    let (a, collision) = then-ok _ _ access in
    let (c, _) = then-ok _ _ collision in ((access-ok _ _).0 a, (collision-ok _ _ _ _ _).0 c)

passthrough_model-checked :
    (v : CustomValidator) (pm : PassthroughModel)
    → validate_passthrough_model v pm ≡ ok tt
    → IsAccessible pm.spec.access × IsFree (v.reader.get_llm_model pm.name pm.namespace)
unfolding validate_passthrough_model
passthrough_model-checked v pm h =
    let (_, managed) = then-ok _ _ h in
    let (_, access) = then-ok _ _ managed in
    let (a, provider) = then-ok _ _ access in
    let (_, models) = then-ok (validate_provider pm) _ provider in
    let (_, endpoints) = then-ok (validate_models pm) _ models in
    let (_, collision) = then-ok (validate_endpoints pm) _ endpoints in
    (
      (access-ok _ _).0 a,
      (collision-ok (bytes "PassthroughModel") (bytes "LLMModel") pm.name pm.namespace _).0
          collision,
    )

step-IsSound : (sha256 : Text → Text) (s s' : Objects) → IsSound s → Step sha256 s s' → IsSound s'
step-IsSound sha256 s s' sound (write_llm_model v m warnings rest current admitted old) =
    let (access, free) = llm_model-checked sha256 v m warnings admitted in
    record {
      apart = λ n pm i j same_namespace same_name. elim (In-cons i) [
        | inl e ↦
            let (qm, is_found) = current.1 pm j in
            free-found {a = qm} free (cc (e, same_namespace, same_name, is_found))
        | inr k ↦ sound.apart n pm (old n k) j same_namespace same_name
      ];
      served = λ n i. elim (In-cons i) [ inl e ↦ rw e access | inr k ↦ sound.served n (old n k) ];
      provided = sound.provided;
    }
step-IsSound sha256 s s' sound (write_passthrough_model v pm rest current admitted old) =
    let (access, free) = passthrough_model-checked v pm admitted in
    record {
      apart = λ m qm i j same_namespace same_name. elim (In-cons j) [
        | inl e ↦
            let (n, is_found) = current.0 m i in
            free-found {a = n} free (cc (e, same_namespace, same_name, is_found))
        | inr k ↦ sound.apart m qm i (old qm k) same_namespace same_name
      ];
      served = sound.served;
      provided =
          λ qm j. elim (In-cons j) [ inl e ↦ rw e access | inr k ↦ sound.provided qm (old qm k) ];
    }
step-IsSound sha256 s s' sound (delete _ fewer fewer_passthrough) = record {
  apart = λ m pm i j. sound.apart m pm (fewer m i) (fewer_passthrough pm j);
  served = λ m i. sound.served m (fewer m i);
  provided = λ pm j. sound.provided pm (fewer_passthrough pm j);
}

-- After any sequence of writes that the webhooks admitted one after the other, each with a reader
-- that finds every object there is, and of deletions: no LLMModel and PassthroughModel of one
-- namespace share a name, and so the Secret of their keys; and each is public or has groups.
pub Reachable-IsSound : (sha256 : Text → Text) (s : Objects) → Reachable sha256 s → IsSound s
Reachable-IsSound sha256 s start = record {
  apart = λ m pm i. elim i [ ];
  served = λ m i. elim i [ ];
  provided = λ pm i. elim i [ ];
}
Reachable-IsSound sha256 s' (after {s} reached step) =
    step-IsSound sha256 s s' (Reachable-IsSound sha256 s reached) step

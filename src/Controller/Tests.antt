-- ===== src/Controller/Tests.antt =====
-- A cluster that keeps Secrets and one model's Deployment, and the properties at it.
use nebari_llm_serving_pack.Base.{
  ◌≡◌, refl, inl, inr, ◌∙◌, true, false, Option, some, none, List, [], ◌∷◌, if◌then◌else◌,
  Bool-cases, Text, ◌==◌, eq_iff, bytes, Map, lookup, insert, has_key, lookup-insert, Result, ok,
}
use mathlib.Core.Path.{fst_path}
use nebari_llm_serving_pack.Auth.{AuthResources, build_auth_resources}
use nebari_llm_serving_pack.Cluster.{Fetched, found, not_found, Kind, done, exists, Held}
use nebari_llm_serving_pack.Cluster.Keeps.{Keeps, KindKeeps}
use nebari_llm_serving_pack.Config.{Environment}
use nebari_llm_serving_pack.Controller
use nebari_llm_serving_pack.Controller.Keys.{IsUnmoved}
use nebari_llm_serving_pack.Controller.Types.{
  Api, LlmModelObject, LiveDeployment, Pod, ready, finalizer_name,
}
use nebari_llm_serving_pack.Controller.Unmoved.{reconcile-Keeps}
use nebari_llm_serving_pack.Pool.{build_epp_deployment}
use nebari_llm_serving_pack.Samples.{served, configured}

record Small : Type 0 where
  secrets : Map (Map Text)
  deployment : Fetched LiveDeployment
  pods : List Pod

-- A kind of which there is no object, and whose writes succeed without a trace.
abbrev inert : {A : Type 0} → Kind Small A
inert = record {
  get = λ namespace name w. (not_found, w);
  create = λ a w. (done, w);
  update = λ a w. (done, w);
  delete = λ a w. (done, w);
}

abbrev held_at : Text → Option (Map Text) → Fetched (Held (Map Text))
held_at name none = not_found
held_at name (some entries) = found (record {
  name = name;
  namespace = bytes "llm";
  labels = [];
  annotations = [];
  version = [];
  owned = false;
  spec = entries;
})

abbrev secret_kind : Kind Small (Held (Map Text))
secret_kind = record {
  get = λ namespace name w. (held_at name (lookup name w.secrets), w);
  create = λ o w. (
    if has_key o.name w.secrets then exists (bytes "exists") else done,
    if has_key o.name w.secrets then w else record w { secrets = insert o.name o.spec w.secrets },
  );
  update = λ o w. (done, record w { secrets = insert o.name o.spec w.secrets });
  delete = λ o w. (done, w);
}

abbrev live : LlmModelObject
live = record {
  model = served;
  deleting = false;
  finalizers = finalizer_name ∷ [];
  generation = 1;
  status = record {
    phase = some ready;
    observed_generation = 1;
    ready_replicas = 1;
    desired_replicas = 1;
    external_endpoint = [];
    internal_endpoint = [];
  };
}

abbrev small : Api Small
small = record {
  models = record inert { get = λ namespace name w. (found live, w) };
  update_model_status = λ o w. (done, w);
  secrets = secret_kind;
  list_secrets = λ namespace w. (ok [], w);
  config_maps = inert;
  claims = inert;
  network_policies = inert;
  service_accounts = inert;
  services = inert;
  deployments = record inert { get = λ namespace name w. (w.deployment, w) };
  list_pods = λ namespace labels w. (ok w.pods, w);
  roles = inert;
  role_bindings = inert;
  customs = λ kind. inert;
  reference_grants = inert;
  set_owner = λ kind name. ok tt;
}

abbrev keys : Map Text
keys = (bytes "al-1", bytes "sk-a") ∷ []

-- The model's Secret holds the keys.
abbrev HasKeys : Small → Type 0
HasKeys w = lookup (bytes "phi-api-keys") w.secrets ≡ some keys

keeps : {A : Type 0} (f : Small → A) → Keeps HasKeys (λ (w : Small). (f w, w))
keeps f = record { run = λ w i. i }

inert-KindKeeps : (A : Type 0) → KindKeeps HasKeys (inert {A = A})
inert-KindKeeps A = record {
  gets = λ namespace name. keeps _;
  creates = λ a. keeps _;
  updates = λ a. keeps _;
  deletes = λ a. keeps _;
}

updated :
    (name : Text) (entries : Map Text) (w : Small)
    → HasKeys w
    → lookup name w.secrets ≡ some entries
    → lookup (bytes "phi-api-keys") (insert name entries w.secrets) ≡ some keys
updated name entries w i e = elim (Bool-cases (name == bytes "phi-api-keys")) [
  | inl same ↦
      lookup-insert name (bytes "phi-api-keys") entries w.secrets
      ∙ rw same (cc (e, i, (eq_iff name (bytes "phi-api-keys")).0 same))
  | inr other ↦ lookup-insert name (bytes "phi-api-keys") entries w.secrets ∙ rw other i
]

found-injective : {A : Type 0} {a b : A} → found a ≡ found b → a ≡ b
found-injective e = cc

relabels :
    (name : Text) (o : Held (Map Text)) (w w' : Small) (r : Option (Map Text))
    → lookup name w.secrets ≡ r
    → HasKeys w
    → ◌≡◌ {A = Fetched (Held (Map Text)) × Small} (held_at name r, w) (found o, w')
    → lookup (bytes "phi-api-keys") (insert o.name o.spec w'.secrets) ≡ some keys
relabels name o w w' none e i h = cc (fst_path h)
relabels name o w w' (some entries) e i h =
    rw (← found-injective (fst_path h)) (rw (← same_world) (updated name entries w i e))
  where
    same_world : w ≡ w'
    same_world = λ i. (h i).1

creates :
    (name : Text) (w : Small)
    → HasKeys w
    → HasKeys
        (if has_key name w.secrets then w else record w { secrets = insert name [] w.secrets })
unfolding has_key
creates name w i = elim (Bool-cases (has_key name w.secrets)) [
  | inl there ↦ simp there i
  | inr gone ↦ simp gone (
      lookup-insert name (bytes "phi-api-keys") [] w.secrets
      ∙ (elim (Bool-cases (name == bytes "phi-api-keys")) [
        | inl same ↦ absurd (was_there same gone)
        | inr other ↦ rw other i
      ]))
]
  where
    was_there : (name == bytes "phi-api-keys") ≡ true → has_key name w.secrets ≡ false → ⊥
    was_there same gone =
        let here = (eq_iff name (bytes "phi-api-keys")).0 same in cc (rw (here, i) at gone)

unmoved : IsUnmoved small HasKeys
unmoved = record {
  models = record {
    gets = λ namespace name. keeps _;
    creates = λ a. keeps _;
    updates = λ a. keeps _;
    deletes = λ a. keeps _;
  };
  statuses = λ o. keeps _;
  secret_gets = λ namespace name. keeps _;
  secret_lists = λ namespace. keeps _;
  relabels =
      λ namespace name labels o w w' i e. relabels name o w w' (lookup name w.secrets) refl i e;
  creates_empty = λ o empty. record { run = λ w i. rw empty (creates o.name w i) };
  config_maps = inert-KindKeeps _;
  claims = inert-KindKeeps _;
  network_policies = inert-KindKeeps _;
  service_accounts = inert-KindKeeps _;
  services = inert-KindKeeps _;
  deployments = record {
    gets = λ namespace name. keeps _;
    creates = λ a. keeps _;
    updates = λ a. keeps _;
    deletes = λ a. keeps _;
  };
  pods = λ namespace labels. keeps _;
  roles = inert-KindKeeps _;
  role_bindings = inert-KindKeeps _;
  customs = λ kind. inert-KindKeeps _;
}

abbrev no_env : Environment
no_env name = []

abbrev kept_text : Text → Result Text
kept_text t = ok t

abbrev idle : LiveDeployment
idle = record {
  object = record {
    name = bytes "phi";
    namespace = bytes "llm";
    labels = [];
    annotations = [];
    version = [];
    owned = true;
    spec = (build_epp_deployment served [] [] configured).spec;
  };
  ready_replicas = 0;
}

abbrev before : Small
before = record { secrets = (bytes "phi-api-keys", keys) ∷ []; deployment = found idle; pods = [] }

has_keys : HasKeys before
unfolding lookup ◌==◌ bytes
has_keys = refl

reconcile-Keeps_example :
    HasKeys
      (Controller.reconcile small configured no_env kept_text kept_text
        (λ t. t)
        (bytes "llm")
        (bytes "phi")
        before).1
reconcile-Keeps_example =
    reconcile-Keeps small HasKeys unmoved configured no_env kept_text kept_text (λ t. t)
      (bytes "llm") (bytes "phi") before refl has_keys

abbrev auth : AuthResources
auth = build_auth_resources served configured [] []

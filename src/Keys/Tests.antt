-- ===== src/Keys/Tests.antt =====
-- A store with versions, to run the Manager on, and the theorems at it.
mod Cycle
mod Revocation
mod Identifiers
use nebari_llm_serving_pack.Base.{
  ℕ, ◌+◌, ◌%◌, ◌<◌, ◌≤◌, ◌≡◌, ◌↔◌, length, decimal, ◌⊎◌, refl, ap, sym, inl, inr, Bool-cases, Bool,
  true, false, ◌&&◌, Option, none, some, List, [], ◌∷◌, ◌++◌, if◌then◌else◌, arith, Text, ◌==◌,
  eq_iff, bytes, Map, lookup, has_key, insert, delete, lookup-insert, Result, ok, err, Exec, All,
  contains_text, base64_url,
}
use nebari_llm_serving_pack.Keys.Names.{
  user_prefix, sanitize_username_for_key, client_id, is_valid_data_key_name, nul_joined,
}
use nebari_llm_serving_pack.Keys.Probe.{count_prefix, is_taken, mint_sequence}
use nebari_llm_serving_pack.Keys.Unique.{IsByte, NulFree, Collides, client_id_collision}
use nebari_llm_serving_pack.Keys.Valid.{sanitize_idempotent}
use nebari_llm_serving_pack.Keys.Accepted.{IsDataKey, client_id-IsDataKey}
use nebari_llm_serving_pack.Keys.Free.{mint_sequence-free}
use nebari_llm_serving_pack.Keys.Revoked.{IsRevoked, revoke_key-Deleted}
use nebari_llm_serving_pack.Keys.Manager
use nebari_llm_serving_pack.Keys.Manager.{
  secret_name, config_map_name, is_conflict, after_attempt, retry, generate_api_key, get_secret,
  get_config_map, key_metadata, record_key, store_key, create_key_once, create_key, remove_key,
  revoke_key_once, revoke_key,
}
use nebari_llm_serving_pack.Keys.Tracked.{IsAlone, IsTracked}
use nebari_llm_serving_pack.Keys.Store.{CreateKeyResult, Object, Client, Env, IsVersioned}

record Server : Type 0 where
  secrets : Map (Map Text)
  metadata : Map (Map Text)
  -- The updates of ConfigMaps that are still to meet a conflict, one for each.
  busy : List (Unit {0})

same_map : Map Text → Map Text → Bool
same_map [] [] = true
same_map [] (_ ∷ _) = false
same_map (_ ∷ _) [] = false
same_map ((k, v) ∷ m) ((j, u) ∷ n) = k == j && (v == u && same_map m n)

same_map_sound : (m n : Map Text) → same_map m n ≡ true → m ≡ n
unfolding same_map
same_map_sound [] [] h = refl
same_map_sound [] (_ ∷ _) h = cc
same_map_sound (_ ∷ _) [] h = cc
same_map_sound ((k, v) ∷ m) ((j, u) ∷ n) h =
    ground (arith, eq_iff k j, eq_iff v u, same_map_sound m n)

abbrev Held : Type 0
Held = Map Text

read : Map Held → Text → Result (Object Held)
read m n = elim (lookup n m) [
  | none ↦ err (bytes "not found")
  | some d ↦ ok (record { name = n; labels = []; version = d; entries = d })
]

fits : Option Held → Held → Bool
fits none v = false
fits (some d) v = same_map d v

update_secret : Object Held → Exec Server (Unit {0})
update_secret o w =
    if fits (lookup o.name w.secrets) o.version
    then (ok tt, record w { secrets = insert o.name o.entries w.secrets })
    else (err (bytes "conflict"), w)

update_metadata : Object Held → List (Unit {0}) → Exec Server (Unit {0})
update_metadata o [] w =
    if fits (lookup o.name w.metadata) o.version
    then (ok tt, record w { metadata = insert o.name o.entries w.metadata })
    else (err (bytes "conflict"), w)
update_metadata o (_ ∷ later) w = (err (bytes "conflict"), record w { busy = later })

abbrev server : Client Held Server
server = record {
  get_secret = λ _ n w. (read w.secrets n, w);
  get_config_map = λ _ n w. (read w.metadata n, w);
  update_secret = update_secret;
  update_config_map = λ o w. update_metadata o w.busy w;
  list_config_maps = λ _ w. (ok [], w);
}

bytes_of : Text → Text
bytes_of [] = []
bytes_of (b ∷ s) = (b % 256) ∷ bytes_of s

abbrev env : Env Server
env = record {
  random = λ n w. (ok (bytes "012345678901234567890123"), w);
  now = λ w. 0;
  marshal = λ info. ok info.creator;
  unmarshal = λ s. none;
  sha256 = bytes_of;
  quote = λ s. bytes "\"" ++ (s ++ bytes "\"");
}

fits_sound : (d : Option Held) (v : Held) → fits d v ≡ true → d ≡ some v
unfolding fits
fits_sound none v h = cc
fits_sound (some d) v h = cc (same_map_sound d v h)

read_lem :
    (m : Map Held) (n : Text) {o : Object Held}
    → read m n ≡ ok o
    → (o.name ≡ n) × (o.entries ≡ o.version)
unfolding read
read_lem m n h = ground arith

update_secret_lem :
    (o : Object Held) (w w' : Server)
    → update_secret o w ≡ (ok tt, w')
    → (lookup o.name w.secrets ≡ some o.version) × (w'.secrets ≡ insert o.name o.entries w.secrets)
unfolding update_secret
update_secret_lem o w w' h = ground (arith, fits_sound (lookup o.name w.secrets) o.version)

update_metadata_lem :
    (o : Object Held) (busy : List (Unit {0})) (w w' : Server)
    → update_metadata o busy w ≡ (ok tt, w')
    → (lookup o.name w.metadata ≡ some o.version)
      × (w'.metadata ≡ insert o.name o.entries w.metadata)
unfolding update_metadata
update_metadata_lem o [] w w' h = ground (arith, fits_sound (lookup o.name w.metadata) o.version)
update_metadata_lem o (_ ∷ later) w w' h = ground arith

secrets_IsVersioned :
    IsVersioned
      (server.get_secret (bytes "ns"))
      server.update_secret
      (λ w n. lookup n w.secrets)
      (λ n v. v)
secrets_IsVersioned = record {
  read = λ n w o w' h. read_lem w.secrets n (ap (λ (p : Result (Object Held) × Server). p.0) h);
  found = λ o w w' h. (update_secret_lem o w w' h).0;
  written =
      λ o w w' h n. rw (update_secret_lem o w w' h).1 (lookup-insert o.name n o.entries w.secrets);
}

metadata_IsVersioned :
    IsVersioned
      (server.get_config_map (bytes "ns"))
      server.update_config_map
      (λ w n. lookup n w.metadata)
      (λ n v. v)
metadata_IsVersioned = record {
  read = λ n w o w' h. read_lem w.metadata n (ap (λ (p : Result (Object Held) × Server). p.0) h);
  found = λ o w w' h. (update_metadata_lem o w.busy w w' h).0;
  written = λ o w w' h n.
      rw (update_metadata_lem o w.busy w w' h).1 (lookup-insert o.name n o.entries w.metadata);
}

abbrev model : Text
model = bytes "phi"

-- Two keys are live, and a third was revoked.
abbrev start : Server
start = record {
  secrets =
      (
        bytes "phi-api-keys",
        (client_id bytes_of (bytes "al") model 1, bytes "sk-1")
            ∷ (client_id bytes_of (bytes "al") model 3, bytes "sk-3")
            ∷ [],
      )
      ∷ [];
  metadata = (bytes "phi-api-key-metadata", []) ∷ [];
  busy = [];
}

abbrev new_key : CreateKeyResult
new_key = record {
  client_id = client_id bytes_of (bytes "al") model 4;
  api_key = bytes "sk-MDEyMzQ1Njc4OTAxMjM0NTY3ODkwMTIz";
}

abbrev minted : Result CreateKeyResult × Server
minted = create_key server env (bytes "ns") model (bytes "al") (bytes "test") start

-- The count of the live keys is 2, and 3 is taken.
minted_id : minted ≡ (ok new_key, minted.1)
unfolding create_key retry after_attempt create_key_once store_key record_key get_secret
    get_config_map update_secret update_metadata read fits same_map key_metadata generate_api_key
    Manager.update_secret Manager.update_config_map bytes lookup insert has_key ◌==◌ client_id
    mint_sequence bytes_of secret_name config_map_name base64_url
minted_id = refl

abbrev in_secrets : Server → Text → Option (Map Text)
in_secrets w n = lookup n w.secrets

abbrev in_metadata : Server → Text → Option (Map Text)
in_metadata w n = lookup n w.metadata

abbrev left : Object Held
left = record {
  name = bytes "phi-api-keys";
  labels = [];
  version = (client_id bytes_of (bytes "al") model 3, bytes "sk-3") ∷ [];
  entries = (client_id bytes_of (bytes "al") model 3, bytes "sk-3") ∷ [];
}

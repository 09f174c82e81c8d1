-- ===== src/Keys/Probe.antt =====
-- The search of createKeyOnce for a client ID that is free, and why it ends.
use nebari_llm_serving_pack.Base.{
  ℕ, zero, suc, ◌+◌, Bool, ◌||◌, [], ◌∷◌, length, if◌then◌else◌, Text, has_prefix, Map, has_key,
}
use nebari_llm_serving_pack.Keys.Names.{user_prefix, client_id}

-- The loop `for k := range secret.Data` that counts the keys with a prefix.
unfoldable pub count_prefix : Text → Map Text → ℕ
unfolding has_prefix
count_prefix prefix [] = 0
count_prefix prefix ((k, v) ∷ m) =
    let rest = count_prefix prefix m in if has_prefix k prefix then suc rest else rest

module _ (id : ℕ → Text) (secret cm : Map Text) where
  -- `inSecret || inCM`
  unfoldable pub is_taken : ℕ → Bool
  unfolding has_key
  is_taken sequence = has_key (id sequence) secret || has_key (id sequence) cm

  -- The unbounded `for` loop, with fuel: the first number from `sequence` on that is free.
  unfoldable pub probe : ℕ → ℕ → ℕ
  unfolding is_taken
  probe zero sequence = sequence
  probe (suc fuel) sequence =
      let rest = probe fuel (suc sequence) in if is_taken sequence then rest else sequence

-- The sequence number that createKeyOnce mints for the contents of the Secret and the ConfigMap.
unfoldable pub mint_sequence : (Text → Text) → Text → Text → Map Text → Map Text → ℕ
unfolding probe count_prefix client_id
mint_sequence sha256 username model_name secret cm =
    probe (client_id sha256 username model_name) secret cm (suc (length secret + length cm))
      (suc (count_prefix (user_prefix sha256 username model_name) secret))

-- ===== src/Keys/Names.antt =====
-- The data keys of the API-key Secrets: key-manager/internal/secrets/manager.go, from
-- sanitizeUsernameForKey to the composition of a client ID in createKeyOnce. SHA-256 is a
-- parameter: bytes to bytes.
use nebari_llm_serving_pack.Base.{
  ℕ, ◌+◌, ◌/◌, ◌%◌, Bool, true, false, ◌&&◌, ◌||◌, List, [], ◌∷◌, ◌++◌, ltb, leb, nat_eq,
  if◌then◌else◌, all, take, Text, ◌==◌, bytes, decimal,
}

unfoldable pub is_valid_data_key_byte : ℕ → Bool
is_valid_data_key_byte c =
    if leb b'a' c && leb c b'z'
    then true
    else if leb b'A' c && leb c b'Z'
    then true
    else if leb b'0' c && leb c b'9'
    then true
    else if nat_eq c b'-' || (nat_eq c b'.' || nat_eq c b'_')
    then true
    else false

unfoldable pub is_valid_data_key_name : Text → Bool
is_valid_data_key_name [] = false
is_valid_data_key_name (c ∷ s) = all is_valid_data_key_byte (c ∷ s)

-- encoding/hex
unfoldable pub hex_digit : ℕ → ℕ
hex_digit n = if ltb n 10 then 48 + n else 87 + n

unfoldable pub hex_encode : Text → Text
unfolding hex_digit
hex_encode [] = []
hex_encode (b ∷ bs) = hex_digit (b / 16 % 16) ∷ hex_digit (b % 16) ∷ hex_encode bs

-- The parts with a NUL byte between each two, as the loop of shortHash writes them.
unfoldable pub nul_joined : List Text → Text
nul_joined [] = []
nul_joined (p ∷ []) = p
nul_joined (p ∷ q ∷ ps) = p ++ 0 ∷ nul_joined (q ∷ ps)

-- One byte of a name that is not a valid data key.
unfoldable pub sanitized_byte : ℕ → Text
unfolding is_valid_data_key_byte bytes
sanitized_byte c =
    if nat_eq c b'@' then bytes "-at-" else if is_valid_data_key_byte c then c ∷ [] else b'-' ∷ []

unfoldable pub sanitized_bytes : Text → Text
unfolding sanitized_byte
sanitized_bytes [] = []
sanitized_bytes (c ∷ s) = sanitized_byte c ++ sanitized_bytes s

module _ (sha256 : Text → Text) where
  unfoldable pub short_hash : List Text → Text
  unfolding hex_encode nul_joined
  short_hash parts = hex_encode (take 16 (sha256 (nul_joined parts)))

  unfoldable pub sanitize_username_for_key : Text → Text
  unfolding is_valid_data_key_name sanitized_bytes short_hash ◌==◌
  sanitize_username_for_key username =
      if username == []
      then []
      else if is_valid_data_key_name username
      then username
      else sanitized_bytes username ++ b'-' ∷ short_hash (username ∷ [])

  -- fmt.Sprintf("user-%s-%s-%s-", safeUsername, safeModel, shortHash(username, modelName))
  unfoldable pub user_prefix : Text → Text → Text
  unfolding sanitize_username_for_key bytes
  user_prefix username model_name =
      bytes "user-"
      ++ (sanitize_username_for_key username
          ++ (b'-' ∷ sanitize_username_for_key model_name
              ++ (b'-' ∷ short_hash (username ∷ model_name ∷ []) ++ b'-' ∷ [])))

  -- fmt.Sprintf("%s%d", userPrefix, sequence)
  unfoldable pub client_id : Text → Text → ℕ → Text
  unfolding user_prefix decimal
  client_id username model_name sequence = user_prefix username model_name ++ decimal sequence

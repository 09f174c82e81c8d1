-- ===== src/Keys/Valid.antt =====
-- Sanitised names are what isValidDataKeyName takes for a data key, and client IDs have its bytes.
use nebari_llm_serving_pack.Base.{
  ℕ, ◌/◌, ◌%◌, ◌<◌, ◌≡◌, ◌≢◌, inl, inr, refl, true, List, [], ◌∷◌, ◌++◌, arith, Bool-cases,
  and-true, all, All, take, Text, decimal, IsDigit, decimal-IsDigit,
}
use nebari_llm_serving_pack.Keys.Names.{
  is_valid_data_key_byte, is_valid_data_key_name, hex_digit, hex_encode, nul_joined, sanitized_byte,
  sanitized_bytes, short_hash, sanitize_username_for_key, user_prefix, client_id,
}

abbrev pub AllValid : Text → Type 0
AllValid s = all is_valid_data_key_byte s ≡ true

all-append : (s t : Text) → AllValid s → AllValid t → AllValid (s ++ t)
all-append [] t hs ht = ht
all-append (c ∷ s) t hs ht =
    let (h, k) = and-true (is_valid_data_key_byte c) (all is_valid_data_key_byte s) hs in
    rw h (all-append s t k ht)

dash-append : (s t : Text) → AllValid s → AllValid t → AllValid (s ++ b'-' ∷ t)
unfolding is_valid_data_key_byte
dash-append s t hs ht = all-append s (b'-' ∷ t) hs ht

digit-valid : (c : ℕ) → IsDigit c → is_valid_data_key_byte c ≡ true
unfolding is_valid_data_key_byte
digit-valid c h = ground arith

digits-valid : (s : Text) → All IsDigit s → AllValid s
digits-valid [] h = refl
digits-valid (c ∷ s) h = rw (digit-valid c h.0) (digits-valid s h.1)

hex_digit-valid : (n : ℕ) → n < 16 → is_valid_data_key_byte (hex_digit n) ≡ true
unfolding is_valid_data_key_byte hex_digit
hex_digit-valid n h = ground arith

hex_encode-valid : (s : Text) → AllValid (hex_encode s)
unfolding hex_encode
hex_encode-valid [] = refl
hex_encode-valid (b ∷ s) =
    rw (hex_digit-valid (b / 16 % 16) (omega arith))
      (rw (hex_digit-valid (b % 16) (omega arith)) (hex_encode-valid s))

sanitized_byte-valid : (c : ℕ) → AllValid (sanitized_byte c)
unfolding sanitized_byte
sanitized_byte-valid c = ground arith

sanitized_bytes-valid : (s : Text) → AllValid (sanitized_bytes s)
unfolding sanitized_bytes
sanitized_bytes-valid [] = refl
sanitized_bytes-valid (c ∷ s) =
    all-append (sanitized_byte c) (sanitized_bytes s) (sanitized_byte-valid c)
      (sanitized_bytes-valid s)

valid_of_name : (s : Text) → is_valid_data_key_name s ≡ true → AllValid s
unfolding is_valid_data_key_name
valid_of_name [] h = refl
valid_of_name (c ∷ s) h = h

name_of_valid : (s : Text) → s ≢ [] → AllValid s → is_valid_data_key_name s ≡ true
unfolding is_valid_data_key_name
name_of_valid [] p h = absurd (p refl)
name_of_valid (c ∷ s) p h = h

append-ne-nil : (s t : Text) (c : ℕ) → s ++ c ∷ t ≢ []
append-ne-nil [] t c e = cc
append-ne-nil (d ∷ s) t c e = cc

module _ (sha256 : Text → Text) where
  short_hash-valid : (parts : List Text) → AllValid (short_hash sha256 parts)
  unfolding short_hash
  short_hash-valid parts = hex_encode-valid (take 16 (sha256 (nul_joined parts)))

  -- A name that passes the check is kept as it is.
  pub sanitize_fixed :
      (s : Text) → is_valid_data_key_name s ≡ true → sanitize_username_for_key sha256 s ≡ s
  unfolding sanitize_username_for_key
  sanitize_fixed [] h = refl
  sanitize_fixed (c ∷ s) h = rw h

  replaced-valid : (s : Text) → AllValid (sanitized_bytes s ++ b'-' ∷ short_hash sha256 (s ∷ []))
  unfolding is_valid_data_key_byte
  replaced-valid s =
      all-append (sanitized_bytes s) _ (sanitized_bytes-valid s) (short_hash-valid (s ∷ []))

  -- The sanitised form of a name that is not empty passes the check of names.
  pub sanitize-valid :
      (s : Text) → s ≢ [] → is_valid_data_key_name (sanitize_username_for_key sha256 s) ≡ true
  sanitize-valid [] p = absurd (p refl)
  sanitize-valid (c ∷ s) p = elim (Bool-cases (is_valid_data_key_name (c ∷ s))) [
    | inl h ↦ rw (sanitize_fixed (c ∷ s) h) h
    | inr h ↦
        unfold sanitize_username_for_key in
        rw h (
          name_of_valid _ (append-ne-nil (sanitized_bytes (c ∷ s)) _ b'-') (replaced-valid (c ∷ s)))
  ]

  -- Sanitising twice is sanitising once, whatever the name.
  pub sanitize_idempotent :
      (s : Text)
      → sanitize_username_for_key sha256 (sanitize_username_for_key sha256 s)
        ≡ sanitize_username_for_key sha256 s
  sanitize_idempotent [] = unfold sanitize_username_for_key in refl
  sanitize_idempotent (c ∷ s) =
      sanitize_fixed (sanitize_username_for_key sha256 (c ∷ s)) (sanitize-valid (c ∷ s) (λ e. cc))

  sanitize-AllValid : (s : Text) → AllValid (sanitize_username_for_key sha256 s)
  sanitize-AllValid [] = unfold sanitize_username_for_key in refl
  sanitize-AllValid (c ∷ s) = valid_of_name _ (sanitize-valid (c ∷ s) (λ e. cc))

  user_prefix-valid : (u m : Text) → AllValid (user_prefix sha256 u m)
  unfolding user_prefix is_valid_data_key_byte
  user_prefix-valid u m = dash-append (sanitize_username_for_key sha256 u) _ (sanitize-AllValid u) (
      dash-append (sanitize_username_for_key sha256 m) _ (sanitize-AllValid m)
        (dash-append (short_hash sha256 (u ∷ m ∷ [])) [] (short_hash-valid (u ∷ m ∷ [])) refl))

  -- Every client ID has only the bytes of a data key.
  pub client_id-AllValid : (u m : Text) (n : ℕ) → AllValid (client_id sha256 u m n)
  unfolding client_id
  client_id-AllValid u m n =
      all-append (user_prefix sha256 u m) (decimal n) (user_prefix-valid u m)
        (digits-valid (decimal n) (decimal-IsDigit n))

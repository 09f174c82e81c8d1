-- ===== src/Keys/Accepted.antt =====
-- When the API server accepts a client ID as a data key of a Secret.
use nebari_llm_serving_pack.Base.{
  ℕ, zero, suc, ◌+◌, ◌*◌, ◌≤◌, ◌≡◌, ◌≢◌, ◌⊎◌, ◌↔◌, refl, true, false, [], ◌∷◌, ◌++◌, arith,
  and-true, all, All, take, length, length-append, Text, bytes, has_prefix, decimal,
}
use nebari_llm_serving_pack.Keys.Names.{
  is_valid_data_key_byte, hex_encode, nul_joined, short_hash, sanitize_username_for_key,
  user_prefix, client_id,
}
use nebari_llm_serving_pack.Keys.Valid.{AllValid, client_id-AllValid}

-- A letter, a digit, a dash, a dot or an underscore.
abbrev pub IsKeyByte : ℕ → Type 0
IsKeyByte c =
    (((97 ≤ c) × (c ≤ 122)) ⊎ ((65 ≤ c) × (c ≤ 90)))
    ⊎ (((48 ≤ c) × (c ≤ 57)) ⊎ ((c ≡ 45) ⊎ ((c ≡ 46) ⊎ (c ≡ 95))))

-- IsConfigMapKey of Kubernetes, by which the API server validates the keys of a Secret.
abbrev pub IsDataKey : Text → Type 0
IsDataKey s =
    (s ≢ [])
    × All IsKeyByte s
    × (length s ≤ 253)
    × (s ≢ bytes ".")
    × (has_prefix s (bytes "..") ≡ false)

key_byte : (c : ℕ) → is_valid_data_key_byte c ≡ true → IsKeyByte c
unfolding is_valid_data_key_byte
key_byte c h = ground arith

key_bytes : (s : Text) → AllValid s → All IsKeyByte s
key_bytes [] h = tt
key_bytes (c ∷ s) h =
    let (this, rest) = and-true (is_valid_data_key_byte c) (all is_valid_data_key_byte s) h in
    (key_byte c this, key_bytes s rest)

length-hex_encode : (s : Text) → length (hex_encode s) ≡ 2 * length s
unfolding hex_encode
length-hex_encode [] = refl
length-hex_encode (c ∷ s) = let rest = length-hex_encode s in omega arith

length-take : (n : ℕ) (s : Text) → n ≤ length s → length (take n s) ≡ n
length-take zero s h = refl
length-take (suc n) [] h = omega arith
length-take (suc n) (c ∷ s) h = let rest = length-take n s (omega arith) in omega arith

module _ (sha256 : Text → Text) where
  -- The length of a client ID beside its three variable parts.
  length-client_id :
      ((s : Text) → length (sha256 s) ≡ 32)
      → (u m : Text) (n : ℕ)
      → length (client_id sha256 u m n)
        ≡ 40
          + length (sanitize_username_for_key sha256 u)
          + length (sanitize_username_for_key sha256 m)
          + length (decimal n)
  unfolding client_id user_prefix short_hash bytes
  length-client_id digest u m n =
      let su = sanitize_username_for_key sha256 u in
      let sm = sanitize_username_for_key sha256 m in
      let hash = hex_encode (take 16 (sha256 (nul_joined (u ∷ m ∷ [])))) in
      let digits = length-hex_encode (take 16 (sha256 (nul_joined (u ∷ m ∷ [])))) in
      let half = length-take 16 (sha256 (nul_joined (u ∷ m ∷ []))) (rw digest (omega arith)) in
      let a = length-append (user_prefix sha256 u m) (decimal n) in
      let b = length-append su (b'-' ∷ sm ++ (b'-' ∷ hash ++ b'-' ∷ [])) in
      let c = length-append sm (b'-' ∷ hash ++ b'-' ∷ []) in
      let d = length-append hash (b'-' ∷ []) in omega arith

  -- It begins with "user-".
  begins :
      (u m : Text) (n : ℕ)
      → (client_id sha256 u m n ≢ [])
        × (client_id sha256 u m n ≢ bytes ".")
        × (has_prefix (client_id sha256 u m n) (bytes "..") ≡ false)
  unfolding client_id user_prefix bytes has_prefix
  begins u m n = ((λ e. cc e), (λ e. cc e), refl)

  -- Where SHA-256 gives 32 bytes, the API server accepts the client ID as a data key of a Secret, for
  -- any username, model name and number, exactly when the sanitised names and the number have
  -- together at most 213 bytes; its bytes and its beginning are never a reason to refuse it.
  pub client_id-IsDataKey :
      ((s : Text) → length (sha256 s) ≡ 32)
      → (u m : Text) (n : ℕ)
      → IsDataKey (client_id sha256 u m n) ↔ (
          length (sanitize_username_for_key sha256 u)
            + length (sanitize_username_for_key sha256 m)
            + length (decimal n)
          ≤ 213)
  client_id-IsDataKey digest u m n = (
    (λ h. let (_, _, short, _, _) = h in let e = length-client_id digest u m n in omega arith),
    (λ h.
        let e = length-client_id digest u m n in
        let (filled, no_dot, no_dots) = begins u m n in
        (filled, key_bytes _ (client_id-AllValid sha256 u m n), omega arith, no_dot, no_dots)),
  )

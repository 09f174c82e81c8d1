-- ===== src/Keys/Unique.antt =====
-- Which client IDs of key-manager/internal/secrets/manager.go can coincide.
use nebari_llm_serving_pack.Base.{
  ℕ, ◌/◌, ◌%◌, ◌<◌, ◌≡◌, ◌≢◌, ◌⊎◌, inl, inr, refl, ap, sym, ◌∙◌, Option, some, none, List, [], ◌∷◌,
  ◌++◌, arith, nat_eq, if◌then◌else◌, Bool-cases, All, All-take, take, Text, ◌==◌, eq_iff, bytes,
  decimal, decimal-injective, IsDigit, decimal-IsDigit,
}
use mathlib.Core.List.{append_assoc}
use nebari_llm_serving_pack.Keys.Names.{
  hex_digit, hex_encode, nul_joined, short_hash, sanitize_username_for_key, client_id,
}

abbrev NoDash : Text → Type 0
NoDash = All (λ c. c ≢ b'-')

-- A text before and after its last dash.
split_last : Text → Option (Text × Text)
split_last [] = none
split_last (c ∷ s) = elim (split_last s) [
  | some (a, b) ↦ some (c ∷ a, b)
  | none ↦ if nat_eq c b'-' then some ([], s) else none
]

split_last-NoDash : (s : Text) → NoDash s → split_last s ≡ none
unfolding split_last
split_last-NoDash [] h = refl
split_last-NoDash (c ∷ s) h = ground (arith, split_last-NoDash s h.1)

split_last-append : (a s : Text) → NoDash s → split_last (a ++ b'-' ∷ s) ≡ some (a, s)
unfolding split_last
split_last-append [] s h = ground (arith, split_last-NoDash s h)
split_last-append (c ∷ a) s h = rw (split_last-append a s h)

some-pair :
    {a b s t : Text}
    → ◌≡◌ {A = Option (Text × Text)} (some (a, s)) (some (b, t))
    → (a ≡ b) × (s ≡ t)
some-pair e = (cc, cc)

last_dash :
    (a b s t : Text) → NoDash s → NoDash t → a ++ b'-' ∷ s ≡ b ++ b'-' ∷ t → (a ≡ b) × (s ≡ t)
last_dash a b s t hs ht e =
    some-pair (sym (split_last-append a s hs) ∙ ap split_last e ∙ split_last-append b t ht)

IsDigit-NoDash : (s : Text) → All IsDigit s → NoDash s
IsDigit-NoDash [] h = tt
IsDigit-NoDash (c ∷ s) h = ((λ e. absurd (omega (arith, h.0))), IsDigit-NoDash s h.1)

hex_digit-ne-dash : (n : ℕ) → hex_digit n ≢ b'-'
unfolding hex_digit
hex_digit-ne-dash n e = ground arith

hex_encode-NoDash : (s : Text) → NoDash (hex_encode s)
unfolding hex_encode
hex_encode-NoDash [] = tt
hex_encode-NoDash (b ∷ s) =
    (hex_digit-ne-dash (b / 16 % 16), (hex_digit-ne-dash (b % 16), hex_encode-NoDash s))

hex_digit-injective : (m n : ℕ) → m < 16 → n < 16 → hex_digit m ≡ hex_digit n → m ≡ n
unfolding hex_digit
hex_digit-injective m n hm hn e = ground arith

abbrev pub IsByte : ℕ → Type 0
IsByte b = b < 256

hex_byte-injective :
    (a b : ℕ)
    → IsByte a
    → IsByte b
    → hex_digit (a / 16 % 16) ≡ hex_digit (b / 16 % 16)
    → hex_digit (a % 16) ≡ hex_digit (b % 16)
    → a ≡ b
hex_byte-injective a b ha hb e f = omega (
  arith,
  hex_digit-injective (a / 16 % 16) (b / 16 % 16) (omega arith) (omega arith) e,
  hex_digit-injective (a % 16) (b % 16) (omega arith) (omega arith) f,
)

-- The bytes behind two equal hexadecimal texts are equal.
pub hex_encode-injective :
    (s t : Text) → All IsByte s → All IsByte t → hex_encode s ≡ hex_encode t → s ≡ t
unfolding hex_encode
hex_encode-injective [] [] hs ht e = refl
hex_encode-injective [] (b ∷ t) hs ht e = cc
hex_encode-injective (a ∷ s) [] hs ht e = cc
hex_encode-injective (a ∷ s) (b ∷ t) hs ht e =
    cc (hex_byte-injective a b hs.0 ht.0 (cc) (cc), hex_encode-injective s t hs.1 ht.1 (cc))

abbrev pub NulFree : Text → Type 0
NulFree = All (λ c. c ≢ 0)

-- NUL-free texts joined by a NUL byte can be taken apart again.
pub nul_joined-injective :
    (p q p' q' : Text)
    → NulFree p
    → NulFree p'
    → nul_joined (p ∷ q ∷ []) ≡ nul_joined (p' ∷ q' ∷ [])
    → (p ≡ p') × (q ≡ q')
unfolding nul_joined
nul_joined-injective [] q [] q' h h' e = (refl, cc)
nul_joined-injective [] q (c ∷ p') q' h h' e = absurd (h'.0 (cc))
nul_joined-injective (c ∷ p) q [] q' h h' e = absurd (h.0 (cc))
nul_joined-injective (c ∷ p) q (d ∷ p') q' h h' e =
    let (e₁, e₂) = nul_joined-injective p q p' q' h.1 h'.1 (cc) in (cc, e₂)

regroup :
    (p s t h d : Text)
    → (p ++ (s ++ (b'-' ∷ t ++ (b'-' ∷ h ++ b'-' ∷ [])))) ++ d
      ≡ (p ++ (s ++ b'-' ∷ t) ++ b'-' ∷ h) ++ b'-' ∷ d
regroup p s t h d = simp append_assoc

module _ (sha256 : Text → Text) where
  client_id-parts :
      (u m : Text) (n : ℕ)
      → client_id sha256 u m n
        ≡ (bytes "user-"
            ++ (sanitize_username_for_key sha256 u ++ b'-' ∷ sanitize_username_for_key sha256 m)
            ++ b'-' ∷ short_hash sha256 (u ∷ m ∷ []))
          ++ b'-' ∷ decimal n
  unfolding client_id
  client_id-parts u m n =
      regroup (bytes "user-") (sanitize_username_for_key sha256 u)
        (sanitize_username_for_key sha256 m) (short_hash sha256 (u ∷ m ∷ [])) (decimal n)

  short_hash-NoDash : (parts : List Text) → NoDash (short_hash sha256 parts)
  unfolding short_hash
  short_hash-NoDash parts = hex_encode-NoDash (take 16 (sha256 (nul_joined parts)))

  -- Equal client IDs have equal sequence numbers and equal pair hashes.
  pub client_id-hash :
      (u m u' m' : Text) (n n' : ℕ)
      → client_id sha256 u m n ≡ client_id sha256 u' m' n'
      → (n ≡ n') × (short_hash sha256 (u ∷ m ∷ []) ≡ short_hash sha256 (u' ∷ m' ∷ []))
  client_id-hash u m u' m' n n' e =
      let (front, number) =
        last_dash _ _ (decimal n) (decimal n') (IsDigit-NoDash _ (decimal-IsDigit n))
          (IsDigit-NoDash _ (decimal-IsDigit n'))
          (sym (client_id-parts u m n) ∙ e ∙ client_id-parts u' m' n') in
      let (rest, hash) =
        last_dash _ _ (short_hash sha256 (u ∷ m ∷ [])) (short_hash sha256 (u' ∷ m' ∷ []))
          (short_hash-NoDash (u ∷ m ∷ [])) (short_hash-NoDash (u' ∷ m' ∷ [])) front in
      (decimal-injective n n' number, hash)

  -- Two different inputs whose digests agree in their first 16 bytes.
  abbrev pub Collides : Text → Text → Type 0
  Collides x y = (x ≢ y) × (take 16 (sha256 x) ≡ take 16 (sha256 y))

  module _ (digest : (x : Text) → All IsByte (sha256 x)) where
    -- Two client IDs that coincide were minted for the same user, model and sequence number, or
    -- the two hashed pairs are a collision of SHA-256 cut to 16 bytes; NUL-free names.
    pub client_id_collision :
        (u m u' m' : Text) (n n' : ℕ)
        → NulFree u
        → NulFree u'
        → client_id sha256 u m n ≡ client_id sha256 u' m' n'
        → (n ≡ n')
          × (((u ≡ u') × (m ≡ m')) ⊎ Collides (nul_joined (u ∷ m ∷ [])) (nul_joined (u' ∷ m' ∷ [])))
    unfolding short_hash
    client_id_collision u m u' m' n n' hu hu' e =
        let (number, hash) = client_id-hash u m u' m' n n' e in
        let x : Text = nul_joined (u ∷ m ∷ []) in
        let y : Text = nul_joined (u' ∷ m' ∷ []) in
        (
          number,
          elim (Bool-cases (x == y)) [
            | inl same ↦ inl (nul_joined-injective u m u' m' hu hu' ((eq_iff x y).0 same))
            | inr other ↦ inr (
              (λ p. cc ((eq_iff x y).1 p, other)),
              hex_encode-injective _ _ (All-take IsByte 16 (sha256 x) (digest x))
                  (All-take IsByte 16 (sha256 y) (digest y)) hash,
            )
          ],
        )

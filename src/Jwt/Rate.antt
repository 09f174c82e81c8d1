-- ===== src/Jwt/Rate.antt =====
-- The rate of requests to the identity provider over any number of tokens: ValidateToken.
use nebari_llm_serving_pack.Base.{
  ℕ, suc, ◌+◌, ◌*◌, ◌≤◌, ◌<◌, ◌≡◌, ◌⊎◌, inl, inr, List, [], ◌∷◌, arith, Text, In, here, there,
}
use nebari_llm_serving_pack.Jwt.{unknown_kid_cooldown, Http, State, ParseWithClaims, validate_token}
use nebari_llm_serving_pack.Jwt.Cooldown.{
  Counts, IsStep, idle, fetched, CallsOnce, validate_token-IsStep,
}

-- Tokens with the clock's reading at each.
module _ {W : Type 0} (http : Http W) (parse : ParseWithClaims W) where
  unfoldable pub validate_all : List (ℕ × Text) → State W → State W
  validate_all [] s = s
  validate_all ((now, token) ∷ rest) s = validate_all rest (validate_token http parse now token s).1

-- Either no request was sent since there were `sent` ones, or the stamp pays for those that were.
abbrev IsPaid : ℕ → ℕ → ℕ → ℕ → ℕ → Type 0
IsPaid start finish sent calls last =
    (calls ≤ sent)
    ⊎ ((start ≤ last)
        × (last ≤ finish)
        × (calls * unknown_kid_cooldown + start
            ≤ sent * unknown_kid_cooldown + unknown_kid_cooldown + last))

pay :
    (start finish sent calls last now calls' : ℕ)
    → 0 < start
    → start ≤ now
    → now ≤ finish
    → calls' ≤ suc calls
    → (last ≡ 0) ⊎ (last + unknown_kid_cooldown ≤ now)
    → IsPaid start finish sent calls last
    → IsPaid start finish sent calls' now
pay start finish sent calls last now calls' p a b c (inl d) (inl e) = inr (a, b, omega arith)
pay start finish sent calls last now calls' p a b c (inr d) (inl e) = inr (a, b, omega arith)
pay start finish sent calls last now calls' p a b c (inl d) (inr (e, f, g)) =
    inr (a, b, omega arith)
pay start finish sent calls last now calls' p a b c (inr d) (inr (e, f, g)) =
    inr (a, b, omega arith)

settle :
    (start finish sent calls last : ℕ)
    → start ≤ finish
    → IsPaid start finish sent calls last
    → calls * unknown_kid_cooldown + start
      ≤ sent * unknown_kid_cooldown + unknown_kid_cooldown + finish
settle start finish sent calls last a (inl b) = omega arith
settle start finish sent calls last a (inr (b, c, d)) = omega arith

module _ {W : Type 0} (http : Http W) (calls : W → ℕ) (start finish sent : ℕ) where
  abbrev IsPaidIn : State W → Type 0
  IsPaidIn s = IsPaid start finish sent (calls s.1) s.0.last_kid_refresh

  step-IsPaid :
      (now : ℕ) (s s' : State W)
      → 0 < start
      → start ≤ now
      → now ≤ finish
      → IsStep http calls now s s'
      → IsPaidIn s
      → IsPaidIn s'
  step-IsPaid now s s' p a b (idle c e) (inl d) = inl (omega arith)
  step-IsPaid now s s' p a b (idle c e) (inr (d, f, g)) = inr (rw e d, rw e f, rw e (omega arith))
  step-IsPaid now s s' p a b (fetched c e d) paid =
      rw e (pay start finish sent (calls s.1) s.0.last_kid_refresh now (calls s'.1) p a b c d paid)

  module _ (parse : ParseWithClaims W) (counts : Counts http calls)
      (once : CallsOnce http calls counts parse) where
    all-IsPaid :
        (requests : List (ℕ × Text)) (s : State W)
        → 0 < start
        → ((r : ℕ × Text) → In r requests → (start ≤ r.0) × (r.0 ≤ finish))
        → IsPaidIn s
        → IsPaidIn (validate_all http parse requests s)
    unfolding validate_all
    all-IsPaid [] s p within paid = paid
    all-IsPaid ((now, token) ∷ rest) s p within paid =
        all-IsPaid rest _ p (λ r i. within r (there i))
          (step-IsPaid now s _ p (within (now, token) here).0 (within (now, token) here).1
            (validate_token-IsStep http calls counts parse once now token s) paid)

-- Any number of tokens, forged or not, validated at times between `start` and `finish`, make the
-- validator send at most one request more than one for each 30 seconds between these times.
pub validate_all-rate :
    {W : Type 0} (http : Http W) (calls : W → ℕ) (parse : ParseWithClaims W)
    (counts : Counts http calls) (once : CallsOnce http calls counts parse) (start finish : ℕ)
    (requests : List (ℕ × Text)) (s : State W)
    → 0 < start
    → start ≤ finish
    → ((r : ℕ × Text) → In r requests → (start ≤ r.0) × (r.0 ≤ finish))
    → calls (validate_all http parse requests s).1 * unknown_kid_cooldown + start
      ≤ calls s.1 * unknown_kid_cooldown + unknown_kid_cooldown + finish
validate_all-rate http calls parse counts once start finish requests s p a within =
    settle start finish (calls s.1) _ _ a (
      all-IsPaid http calls start finish (calls s.1) parse counts once requests s p within
        (inl (omega arith)))

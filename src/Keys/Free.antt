-- ===== src/Keys/Free.antt =====
-- The search for a free client ID ends within its fuel, at the first ID that is free.
use nebari_llm_serving_pack.Base.{
  ℕ, zero, suc, ◌+◌, ◌≤◌, ◌<◌, ◌≡◌, ◌≢◌, inl, inr, refl, ap, Bool, true, false, ◌||◌, List, [], ◌∷◌,
  ◌++◌, arith, length, length-append, if◌then◌else◌, Bool-cases, nat_eq, nat_eq_iff, Text, ◌==◌,
  eq_iff, Map, lookup, has_key,
}
use nebari_llm_serving_pack.Keys.Names.{user_prefix, client_id}
use nebari_llm_serving_pack.Keys.Unique.{client_id-hash}
use nebari_llm_serving_pack.Keys.Probe.{count_prefix, is_taken, probe, mint_sequence}

holds : List Text → Text → Bool
holds [] t = false
holds (k ∷ ks) t = k == t || holds ks t

without : Text → List Text → List Text
without t [] = []
without t (k ∷ ks) = let rest = without t ks in if k == t then rest else k ∷ rest

length-without-le : (t : Text) (ks : List Text) → length (without t ks) ≤ length ks
unfolding without
length-without-le t [] = omega arith
length-without-le t (k ∷ ks) = ground (arith, length-without-le t ks)

length-without-lt :
    (t : Text) (ks : List Text) → holds ks t ≡ true → length (without t ks) < length ks
unfolding without holds
length-without-lt t [] h = cc
length-without-lt t (k ∷ ks) h = ground (arith, length-without-lt t ks, length-without-le t ks)

holds-without :
    (t u : Text) (ks : List Text) → t ≢ u → holds ks u ≡ true → holds (without t ks) u ≡ true
unfolding without holds
holds-without t u [] p h = h
holds-without t u (k ∷ ks) p h = ground (arith, eq_iff k t, eq_iff k u, holds-without t u ks p)

keys : Map Text → List Text
keys [] = []
keys ((k, v) ∷ m) = k ∷ keys m

length-keys : (m : Map Text) → length (keys m) ≡ length m
unfolding keys
length-keys [] = refl
length-keys ((k, v) ∷ m) = ap suc (length-keys m)

holds-keys : (t : Text) (m : Map Text) → has_key t m ≡ holds (keys m) t
unfolding has_key lookup holds keys
holds-keys t [] = refl
holds-keys t ((k, v) ∷ m) = ground (arith, holds-keys t m)

holds-append : (t : Text) (ks ls : List Text) → holds (ks ++ ls) t ≡ (holds ks t || holds ls t)
unfolding holds
holds-append t [] ls = refl
holds-append t (k ∷ ks) ls = ground (arith, holds-append t ks ls)

module _ (id : ℕ → Text) (injective : (m n : ℕ) → id m ≡ id n → m ≡ n) (secret cm : Map Text) where
  taken-holds :
      (n : ℕ) → is_taken id secret cm n ≡ true → holds (keys secret ++ keys cm) (id n) ≡ true
  unfolding is_taken
  taken-holds n h =
      rw holds-append
        (rw (← holds-keys (id n) secret) (rw (← holds-keys (id n) cm) (unfold has_key in h)))

  probe_step :
      (fuel s : ℕ)
      → probe id secret cm (suc fuel) s
        ≡ (if is_taken id secret cm s then probe id secret cm fuel (suc s) else s)
  unfolding probe
  probe_step fuel s = refl

  probe_within :
      (fuel s : ℕ) (ks : List Text)
      → length ks < fuel
      → ((n : ℕ) → s ≤ n → is_taken id secret cm n ≡ true → holds ks (id n) ≡ true)
      → is_taken id secret cm (probe id secret cm fuel s) ≡ false
  probe_within zero s ks short covers = absurd (omega arith)
  probe_within (suc fuel) s ks short covers = elim (Bool-cases (is_taken id secret cm s)) [
    | inl taken ↦
        let smaller : length (without (id s) ks) < length ks =
          length-without-lt (id s) ks (covers s (omega arith) taken) in
        rw probe_step (
          rw taken (
            probe_within fuel (suc s) (without (id s) ks) (omega arith) (λ n later h.
              holds-without (id s) (id n) ks (λ e. absurd (omega (arith, injective s n e)))
                (covers n (omega arith) h))))
    | inr free ↦ rw probe_step (rw free free)
  ]

  probe_from : (fuel s : ℕ) → s ≤ probe id secret cm fuel s
  probe_from zero s = unfold probe in omega arith
  probe_from (suc fuel) s = rw probe_step (ground (arith, probe_from fuel (suc s)))

  probe_least :
      (fuel s n : ℕ) → s ≤ n → n < probe id secret cm fuel s → is_taken id secret cm n ≡ true
  probe_least zero s n h k = absurd (unfold probe in omega arith)
  probe_least (suc fuel) s n h k = elim (Bool-cases (is_taken id secret cm s)) [
    | inl taken ↦
        let k' : n < probe id secret cm fuel (suc s) = rw taken at (rw probe_step at k) in
        elim (Bool-cases (nat_eq s n)) [
          | inl same ↦ rw (← (nat_eq_iff s n).0 same) taken
          | inr other ↦ probe_least fuel (suc s) n (ground arith) k'
        ]
    | inr free ↦ absurd (let k' : n < s = rw free at (rw probe_step at k) in omega arith)
  ]

module _ (sha256 : Text → Text) (username model_name : Text) (secret cm : Map Text) where
  client_id-injective :
      (m n : ℕ)
      → client_id sha256 username model_name m ≡ client_id sha256 username model_name n
      → m ≡ n
  client_id-injective m n e =
      (client_id-hash sha256 username model_name username model_name m n e).0

  mint_step :
      mint_sequence sha256 username model_name secret cm
      ≡ probe
          (client_id sha256 username model_name)
          secret
          cm
          (suc (length secret + length cm))
          (suc (count_prefix (user_prefix sha256 username model_name) secret))
  unfolding mint_sequence
  mint_step = refl

  covers :
      (n : ℕ)
      → is_taken (client_id sha256 username model_name) secret cm n ≡ true
      → holds (keys secret ++ keys cm) (client_id sha256 username model_name n) ≡ true
  covers = taken-holds (client_id sha256 username model_name) client_id-injective secret cm

  few_keys : length (keys secret ++ keys cm) < suc (length secret + length cm)
  few_keys =
      omega (arith, length-append (keys secret) (keys cm), length-keys secret, length-keys cm)

  -- The search ends: the client ID that is minted is neither in the Secret nor in the ConfigMap.
  -- Its number is above the count of the keys with the prefix, and each number between the two is
  -- taken.
  pub mint_sequence-free :
      (is_taken
          (client_id sha256 username model_name)
          secret
          cm
          (mint_sequence sha256 username model_name secret cm)
        ≡ false)
      × (count_prefix (user_prefix sha256 username model_name) secret
          < mint_sequence sha256 username model_name secret cm)
      × ((n : ℕ)
          → count_prefix (user_prefix sha256 username model_name) secret < n
          → n < mint_sequence sha256 username model_name secret cm
          → is_taken (client_id sha256 username model_name) secret cm n ≡ true)
  mint_sequence-free =
      let id = client_id sha256 username model_name in
      let fuel = suc (length secret + length cm) in
      let start = suc (count_prefix (user_prefix sha256 username model_name) secret) in
      rw mint_step (
        probe_within id client_id-injective secret cm fuel start (keys secret ++ keys cm) few_keys
            (λ n later h. covers n h),
        probe_from id client_id-injective secret cm fuel start,
        λ n later below. probe_least id client_id-injective secret cm fuel start n later below,
      )

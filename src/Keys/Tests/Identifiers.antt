-- ===== src/Keys/Tests/Identifiers.antt =====
-- Names, client IDs and sequence numbers, with the identity for SHA-256 or a fixed digest.
use nebari_llm_serving_pack.Base.{
  ℕ, ◌+◌, ◌<◌, ◌≤◌, ◌≡◌, ◌↔◌, length, decimal, ◌⊎◌, refl, true, false, [], ◌∷◌, arith, Text, bytes,
  All,
}
use nebari_llm_serving_pack.Keys.Names.{
  user_prefix, sanitize_username_for_key, client_id, nul_joined,
}
use nebari_llm_serving_pack.Keys.Probe.{count_prefix, is_taken, mint_sequence}
use nebari_llm_serving_pack.Keys.Unique.{IsByte, NulFree, Collides, client_id_collision}
use nebari_llm_serving_pack.Keys.Valid.{sanitize_idempotent}
use nebari_llm_serving_pack.Keys.Accepted.{IsDataKey, client_id-IsDataKey}
use nebari_llm_serving_pack.Keys.Free.{mint_sequence-free}
use nebari_llm_serving_pack.Keys.Tests.{bytes_of, model, left}

bytes_of-IsByte : (s : Text) → All IsByte (bytes_of s)
unfolding bytes_of
bytes_of-IsByte [] = tt
bytes_of-IsByte (b ∷ s) = (omega arith, bytes_of-IsByte s)

al_NulFree : NulFree (bytes "al")
unfolding bytes
al_NulFree = (λ e. absurd (omega arith), (λ e. absurd (omega arith), tt))

client_id_collision_example :
    (◌≡◌ {A = ℕ} 2 2)
    × (((bytes "al" ≡ bytes "al") × (model ≡ model))
        ⊎ Collides bytes_of
            (nul_joined (bytes "al" ∷ model ∷ []))
            (nul_joined (bytes "al" ∷ model ∷ [])))
client_id_collision_example =
    client_id_collision bytes_of bytes_of-IsByte (bytes "al") model (bytes "al") model 2 2
      al_NulFree al_NulFree refl

digest_of : Text → Text
digest_of s = bytes "01234567890123456789012345678901"

digest_length : (s : Text) → length (digest_of s) ≡ 32
unfolding digest_of bytes
digest_length s = refl

client_id-IsDataKey_example : IsDataKey (client_id digest_of (bytes "..a@b") model 1) ↔ (
    length (sanitize_username_for_key digest_of (bytes "..a@b"))
      + length (sanitize_username_for_key digest_of model)
      + length (decimal 1)
    ≤ 213)
client_id-IsDataKey_example = client_id-IsDataKey digest_of digest_length (bytes "..a@b") model 1

sanitize_idempotent_example :
    sanitize_username_for_key bytes_of (sanitize_username_for_key bytes_of (bytes "a@b"))
    ≡ sanitize_username_for_key bytes_of (bytes "a@b")
sanitize_idempotent_example = sanitize_idempotent bytes_of (bytes "a@b")

mint_sequence-free_example :
    (is_taken
        (client_id bytes_of (bytes "al") model)
        left.entries
        []
        (mint_sequence bytes_of (bytes "al") model left.entries [])
      ≡ false)
    × (count_prefix (user_prefix bytes_of (bytes "al") model) left.entries
        < mint_sequence bytes_of (bytes "al") model left.entries [])
    × ((n : ℕ)
        → count_prefix (user_prefix bytes_of (bytes "al") model) left.entries < n
        → n < mint_sequence bytes_of (bytes "al") model left.entries []
        → is_taken (client_id bytes_of (bytes "al") model) left.entries [] n ≡ true)
mint_sequence-free_example = mint_sequence-free bytes_of (bytes "al") model left.entries []

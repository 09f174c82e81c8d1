-- ===== src/Base/Base64.antt =====
-- RawURLEncoding of package encoding/base64: three bytes are four characters, with no padding.
use Prim.Native.Nat.{ℕ, ◌+◌, ◌-◌, ◌*◌, ◌/◌, ◌%◌}
use mathlib.Core.Path.{◌≡◌}
use mathlib.Core.List.{[], ◌∷◌}
use native.Mathlib.Omega.{arith}
use nebari_llm_serving_pack.Base.Tests.{ltb, nat_eq, if◌then◌else◌}
use nebari_llm_serving_pack.Base.Lists.{length}
use nebari_llm_serving_pack.Base.Texts.{Text}

unfoldable pub base64_char : ℕ → ℕ
base64_char n =
    if ltb n 26
    then 65 + n
    else if ltb n 52
    then 71 + n
    else if ltb n 62
    then n - 4
    else if nat_eq n 62
    then b'-'
    else b'_'

unfoldable pub base64_url : Text → Text
unfolding base64_char
base64_url [] = []
base64_url (a ∷ []) = base64_char (a / 4) ∷ base64_char (a % 4 * 16) ∷ []
base64_url (a ∷ b ∷ []) =
    base64_char (a / 4) ∷ base64_char (a % 4 * 16 + b / 16) ∷ base64_char (b % 16 * 4) ∷ []
base64_url (a ∷ b ∷ c ∷ s) =
    base64_char (a / 4)
    ∷ base64_char (a % 4 * 16 + b / 16)
    ∷ base64_char (b % 16 * 4 + c / 64)
    ∷ base64_char (c % 64)
    ∷ base64_url s

-- Of `n` bytes the text has `(8 * n + 5) / 6` characters.
pub length-base64_url : (s : Text) → length (base64_url s) ≡ (8 * length s + 5) / 6
unfolding base64_url
length-base64_url [] = omega arith
length-base64_url (a ∷ []) = omega arith
length-base64_url (a ∷ b ∷ []) = omega arith
length-base64_url (a ∷ b ∷ c ∷ s) = omega (arith, length-base64_url s)

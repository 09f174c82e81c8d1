-- ===== src/Base/Members.antt =====
-- Membership of texts, as a test and as a family.
use mathlib.Core.Path.{◌≡◌, refl}
use mathlib.Core.Logic.{◌⊎◌, inl, inr}
use mathlib.Core.Bool.{Bool, true, false, ◌||◌}
use mathlib.Core.List.{List, [], ◌∷◌, ◌++◌}
use native.Mathlib.Omega.{arith}
use nebari_llm_serving_pack.Base.Tests.{Bool-cases}
use nebari_llm_serving_pack.Base.Lists.{In, here, there, All}
use nebari_llm_serving_pack.Base.Texts.{Text, ◌==◌, ==-refl, eq_iff}

-- A Go set, `map[string]struct{}`, is the list of the keys that were put into it.
unfoldable pub member : Text → List Text → Bool
member g [] = false
member g (h ∷ hs) = h == g || member g hs

pub member-In : (g : Text) (hs : List Text) → member g hs ≡ true → In g hs
unfolding member
member-In g [] h = cc
member-In g (k ∷ hs) h = elim (Bool-cases (k == g)) [
  | inl same ↦ rw ((eq_iff k g).0 same) here
  | inr other ↦ there (member-In g hs (rw other at h))
]

pub In-member : {g : Text} {hs : List Text} → In g hs → member g hs ≡ true
unfolding member
In-member {g} (here {xs}) = rw (==-refl g)
In-member (there {x} {xs} i) = ground (arith, In-member i)

module _ {ℓ} {A : Type ℓ} where
  pub In-cons : {a x : A} {xs : List A} → In a (x ∷ xs) → (a ≡ x) ⊎ In a xs
  In-cons here = inl refl
  In-cons (there i) = inr i

  pub In-of_eq : {a x : A} {xs : List A} → a ≡ x → In a (x ∷ xs)
  In-of_eq e = rw e here

  pub In-append_left : {a : A} (xs ys : List A) → In a xs → In a (xs ++ ys)
  In-append_left [] ys i = elim i [ ]
  In-append_left (x ∷ xs) ys here = here
  In-append_left (x ∷ xs) ys (there i) = there (In-append_left xs ys i)

  pub In-append_right : {a : A} (xs ys : List A) → In a ys → In a (xs ++ ys)
  In-append_right [] ys i = i
  In-append_right (x ∷ xs) ys i = there (In-append_right xs ys i)

  pub In-append : {a : A} (xs ys : List A) → In a (xs ++ ys) → In a xs ⊎ In a ys
  In-append [] ys i = inr i
  In-append (x ∷ xs) ys here = inl here
  In-append (x ∷ xs) ys (there i) = elim (In-append xs ys i) [
    | inl j ↦ inl (there j)
    | inr j ↦ inr j
  ]

pub All-of {ℓ κ} :
    {A : Type ℓ} (P : A → Type κ) (xs : List A) → ((a : A) → In a xs → P a) → All P xs
All-of P [] h = tt
All-of P (x ∷ xs) h = (h x here, All-of P xs (λ a i. h a (there i)))

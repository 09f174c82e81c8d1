-- ===== src/Base/Sorting.antt =====
-- sort.Strings: texts in the order of their bytes; and that a list without repetitions has one
-- sorted form.
use Prim.Native.Nat.{ℕ}
use mathlib.Core.Path.{◌≡◌, refl}
use mathlib.Core.Logic.{inl, inr}
use mathlib.Core.Bool.{Bool, true, false, ◌&&◌, ◌||◌}
use mathlib.Core.List.{List, [], ◌∷◌}
use native.Mathlib.Omega.{arith}
use nebari_llm_serving_pack.Base.Tests.{nat_eq, ltb, if◌then◌else◌, Bool-cases}
use nebari_llm_serving_pack.Base.Lists.{In, there}
use nebari_llm_serving_pack.Base.Texts.{Text}
use nebari_llm_serving_pack.Base.Members.{In-cons, In-of_eq}

unfoldable pub text_lt : Text → Text → Bool
text_lt [] [] = false
text_lt [] (y ∷ ys) = true
text_lt (x ∷ xs) [] = false
text_lt (x ∷ xs) (y ∷ ys) = ltb x y || (nat_eq x y && text_lt xs ys)

unfoldable pub insert_sorted : Text → List Text → List Text
insert_sorted x [] = x ∷ []
insert_sorted x (y ∷ ys) =
    let later = insert_sorted x ys in if text_lt y x then y ∷ later else x ∷ y ∷ ys

unfoldable pub sort_texts : List Text → List Text
sort_texts [] = []
sort_texts (x ∷ xs) = insert_sorted x (sort_texts xs)

pub lt_irrefl : (s : Text) → text_lt s s ≡ false
unfolding text_lt
lt_irrefl [] = refl
lt_irrefl (x ∷ xs) = ground (arith, lt_irrefl xs)

pub lt_trans : (s t u : Text) → text_lt s t ≡ true → text_lt t u ≡ true → text_lt s u ≡ true
unfolding text_lt
lt_trans [] [] u h k = cc
lt_trans [] (y ∷ ys) [] h k = cc
lt_trans [] (y ∷ ys) (z ∷ zs) h k = refl
lt_trans (x ∷ xs) [] u h k = cc
lt_trans (x ∷ xs) (y ∷ ys) [] h k = cc
lt_trans (x ∷ xs) (y ∷ ys) (z ∷ zs) h k = elim (Bool-cases (text_lt xs ys)) [
  | inr not_less ↦ ground arith
  | inl first ↦ elim (Bool-cases (text_lt ys zs)) [
    | inr not_less ↦ ground arith
    | inl second ↦ ground (arith, lt_trans xs ys zs first second)
  ]
]

-- One of two texts is first, or they are the same.
pub lt_total : (s t : Text) → text_lt s t ≡ false → text_lt t s ≡ false → s ≡ t
unfolding text_lt
lt_total [] [] h k = refl
lt_total [] (y ∷ ys) h k = cc
lt_total (x ∷ xs) [] h k = cc
lt_total (x ∷ xs) (y ∷ ys) h k =
    cc (lt_total xs ys (ground arith) (ground arith), head x y (text_lt xs ys) (text_lt ys xs) h k)
  where
    head :
        (x y : ℕ) (p q : Bool)
        → (ltb x y || (nat_eq x y && p)) ≡ false
        → (ltb y x || (nat_eq y x && q)) ≡ false
        → x ≡ y
    head x y p q h k = ground arith

pub insert_sorted-In :
    {a : Text} (x : Text) (xs : List Text) → In a (insert_sorted x xs) → In a (x ∷ xs)
unfolding insert_sorted
insert_sorted-In x [] i = i
insert_sorted-In x (y ∷ ys) i = elim (Bool-cases (text_lt y x)) [
  | inr before ↦ rw before at i
  | inl after ↦ elim (In-cons (rw after at i)) [
    | inl e ↦ there (In-of_eq e)
    | inr j ↦ elim (In-cons (insert_sorted-In x ys j)) [
      | inl e ↦ In-of_eq e
      | inr k ↦ there (there k)
    ]
  ]
]

In-insert_sorted :
    {a : Text} (x : Text) (xs : List Text) → In a (x ∷ xs) → In a (insert_sorted x xs)
unfolding insert_sorted
In-insert_sorted x [] i = i
In-insert_sorted x (y ∷ ys) i = elim (Bool-cases (text_lt y x)) [
  | inr before ↦ rw before i
  | inl after ↦ rw after (elim (In-cons i) [
    | inl e ↦ there (In-insert_sorted x ys (In-of_eq e))
    | inr j ↦ elim (In-cons j) [
      | inl e ↦ In-of_eq e
      | inr k ↦ there (In-insert_sorted x ys (there k))
    ]
  ])
]

pub sort_texts-In : {a : Text} (xs : List Text) → In a (sort_texts xs) → In a xs
unfolding sort_texts
sort_texts-In [] i = i
sort_texts-In (x ∷ xs) i = elim (In-cons (insert_sorted-In x (sort_texts xs) i)) [
  | inl e ↦ In-of_eq e
  | inr j ↦ there (sort_texts-In xs j)
]

pub In-sort_texts : {a : Text} (xs : List Text) → In a xs → In a (sort_texts xs)
unfolding sort_texts
In-sort_texts [] i = i
In-sort_texts (x ∷ xs) i =
    In-insert_sorted x (sort_texts xs)
      (elim (In-cons i) [ inl e ↦ In-of_eq e | inr j ↦ there (In-sort_texts xs j) ])

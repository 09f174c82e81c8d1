-- ===== src/Base/Canonical.antt =====
-- The sorted list of a Go set of strings: the set's elements determine it.
use mathlib.Core.Path.{◌≡◌, refl, sym}
use mathlib.Core.Logic.{inl, inr}
use mathlib.Core.Bool.{true}
use mathlib.Core.List.{List, [], ◌∷◌}
use nebari_llm_serving_pack.Base.Tests.{if◌then◌else◌, Bool-cases}
use nebari_llm_serving_pack.Base.Lists.{All, All-mono, In, here, there}
use nebari_llm_serving_pack.Base.Texts.{Text}
use nebari_llm_serving_pack.Base.Members.{member, member-In, In-member, In-cons, In-of_eq, All-of}
use nebari_llm_serving_pack.Base.Sorting.{
  text_lt, insert_sorted, sort_texts, lt_irrefl, lt_trans, lt_total, insert_sorted-In,
  sort_texts-In, In-sort_texts,
}

-- The keys of a set into which the values were put.
unfoldable pub set_of : List Text → List Text
set_of [] = []
set_of (x ∷ xs) = let later = set_of xs in if member x later then later else x ∷ later

unfoldable pub sorted_set : List Text → List Text
sorted_set xs = sort_texts (set_of xs)

abbrev NoRepeat : List Text → Type 0
NoRepeat [] = Unit
NoRepeat (x ∷ xs) = (In x xs → ⊥) × NoRepeat xs

abbrev pub IsStrict : List Text → Type 0
IsStrict [] = Unit
IsStrict (x ∷ xs) = All (λ y. text_lt x y ≡ true) xs × IsStrict xs

All-In {ℓ κ} : {A : Type ℓ} (P : A → Type κ) {a : A} {xs : List A} → In a xs → All P xs → P a
All-In P here h = h.0
All-In P (there i) h = All-In P i h.1

set_of-In : {a : Text} (xs : List Text) → In a (set_of xs) → In a xs
unfolding set_of
set_of-In [] i = i
set_of-In (x ∷ xs) i = elim (Bool-cases (member x (set_of xs))) [
  | inl old ↦ there (set_of-In xs (rw old at i))
  | inr new ↦ elim (In-cons (rw new at i)) [ inl e ↦ In-of_eq e | inr j ↦ there (set_of-In xs j) ]
]

In-set_of : {a : Text} (xs : List Text) → In a xs → In a (set_of xs)
unfolding set_of
In-set_of [] i = i
In-set_of (x ∷ xs) i = elim (Bool-cases (member x (set_of xs))) [
  | inl old ↦
      rw old
        (elim (In-cons i) [ inl e ↦ rw e (member-In x (set_of xs) old) | inr j ↦ In-set_of xs j ])
  | inr new ↦ rw new (elim (In-cons i) [ inl e ↦ In-of_eq e | inr j ↦ there (In-set_of xs j) ])
]

set_of-NoRepeat : (xs : List Text) → NoRepeat (set_of xs)
unfolding set_of
set_of-NoRepeat [] = tt
set_of-NoRepeat (x ∷ xs) = elim (Bool-cases (member x (set_of xs))) [
  | inl old ↦ rw old (set_of-NoRepeat xs)
  | inr new ↦ rw new ((λ i. cc (In-member i)), set_of-NoRepeat xs)
]

insert_sorted-IsStrict :
    (x : Text) (xs : List Text) → (In x xs → ⊥) → IsStrict xs → IsStrict (insert_sorted x xs)
unfolding insert_sorted
insert_sorted-IsStrict x [] new h = (tt, tt)
insert_sorted-IsStrict x (y ∷ ys) new (first, later) = elim (Bool-cases (text_lt y x)) [
  | inl after ↦ rw after (
    All-of _ (insert_sorted x ys) (λ a i. elim (In-cons (insert_sorted-In x ys i)) [
      | inl e ↦ rw e after
      | inr j ↦ All-In (λ z. text_lt y z ≡ true) j first
    ]),
    insert_sorted-IsStrict x ys (λ i. new (there i)) later,
  )
  | inr before ↦ elim (Bool-cases (text_lt x y)) [
    | inl less ↦
        rw before ((less, All-mono (λ a k. lt_trans x y a less k) ys first), (first, later))
    | inr neither ↦ absurd (new (In-of_eq (lt_total x y neither before)))
  ]
]

sort_texts-IsStrict : (xs : List Text) → NoRepeat xs → IsStrict (sort_texts xs)
unfolding sort_texts
sort_texts-IsStrict [] h = tt
sort_texts-IsStrict (x ∷ xs) (new, h) =
    insert_sorted-IsStrict x (sort_texts xs) (λ i. new (sort_texts-In xs i))
      (sort_texts-IsStrict xs h)

same_head :
    (x y : Text) (xs ys : List Text)
    → All (λ z. text_lt x z ≡ true) xs
    → All (λ z. text_lt y z ≡ true) ys
    → In x (y ∷ ys)
    → In y (x ∷ xs)
    → x ≡ y
same_head x y xs ys h k i j = elim (In-cons i) [
  | inl e ↦ e
  | inr later ↦ elim (In-cons j) [
    | inl e ↦ sym e
    | inr after ↦ absurd (
        cc (
          lt_trans x y x (All-In (λ z. text_lt x z ≡ true) after h)
              (All-In (λ z. text_lt y z ≡ true) later k),
          lt_irrefl x,
        ))
  ]
]

In-tail :
    {x y a : Text} {xs ys : List Text}
    → All (λ z. text_lt x z ≡ true) xs
    → x ≡ y
    → In a (y ∷ ys)
    → In a xs
    → In a ys
In-tail {x} {y} {a} h e i j = elim (In-cons i) [
  | inr later ↦ later
  | inl f ↦ absurd (cc (All-In (λ z. text_lt x z ≡ true) j h, lt_irrefl x, e, f))
]

-- A sorted list without repetitions is determined by what stands in it.
IsStrict-unique :
    (xs ys : List Text)
    → IsStrict xs
    → IsStrict ys
    → ((a : Text) → In a xs → In a ys)
    → ((a : Text) → In a ys → In a xs)
    → xs ≡ ys
IsStrict-unique [] [] h k to from = refl
IsStrict-unique [] (y ∷ ys) h k to from = elim (from y here) [ ]
IsStrict-unique (x ∷ xs) [] h k to from = elim (to x here) [ ]
IsStrict-unique (x ∷ xs) (y ∷ ys) h k to from =
    let heads = same_head x y xs ys h.0 k.0 (to x here) (from y here) in
    let tails =
      IsStrict-unique xs ys h.1 k.1 (λ a i. In-tail h.0 heads (to a (there i)) i)
        (λ a i. In-tail k.0 (sym heads) (from a (there i)) i) in
    λ i. heads i ∷ tails i

pub sorted_set-In : {a : Text} (xs : List Text) → In a (sorted_set xs) → In a xs
unfolding sorted_set
sorted_set-In xs i = set_of-In xs (sort_texts-In (set_of xs) i)

pub In-sorted_set : {a : Text} (xs : List Text) → In a xs → In a (sorted_set xs)
unfolding sorted_set
In-sorted_set xs i = In-sort_texts (set_of xs) (In-set_of xs i)

pub sorted_set-IsStrict : (xs : List Text) → IsStrict (sorted_set xs)
unfolding sorted_set
sorted_set-IsStrict xs = sort_texts-IsStrict (set_of xs) (set_of-NoRepeat xs)

pub sorted_set_unique :
    (xs ys : List Text)
    → ((a : Text) → In a xs → In a ys)
    → ((a : Text) → In a ys → In a xs)
    → sorted_set xs ≡ sorted_set ys
sorted_set_unique xs ys to from =
    IsStrict-unique (sorted_set xs) (sorted_set ys) (sorted_set-IsStrict xs)
      (sorted_set-IsStrict ys) (λ a i. In-sorted_set ys (to a (sorted_set-In xs i)))
      (λ a i. In-sorted_set xs (from a (sorted_set-In ys i)))

-- ===== src/Models/Access.antt =====
-- Who may use a model: FilterModelsForUser.
use nebari_llm_serving_pack.Base.{
  ◌≡◌, ◌↔◌, ◌⊎◌, inl, inr, refl, Bool, true, false, List, [], ◌∷◌, if◌then◌else◌, arith, Bool-cases,
  Text, In, here, there, In-cons, In-of_eq, member, member-In, In-member,
}
use mathlib.Core.Bool.{false≢true}
use nebari_llm_serving_pack.Models.{
  ModelInfo, Watcher, shares_group, accessible, list_models, filter_models_for_user,
}

-- A public model, or one with a group of the user's.
abbrev pub MayUse : List Text → ModelInfo → Type 0
MayUse groups m = (m.public ≡ true) ⊎ ((g : Text) × In g m.groups × In g groups)

pub shares_group-In :
    (groups gs : List Text) → shares_group groups gs ≡ true → (g : Text) × In g gs × In g groups
unfolding shares_group
shares_group-In groups [] h = cc
shares_group-In groups (g ∷ gs) h = elim (Bool-cases (member g groups)) [
  | inl mine ↦ (g, here, member-In g groups mine)
  | inr other ↦ let (k, i, j) = shares_group-In groups gs (rw other at h) in (k, there i, j)
]

pub In-shares_group :
    {g : Text} {gs : List Text} (groups : List Text)
    → In g gs
    → In g groups
    → shares_group groups gs ≡ true
unfolding shares_group
In-shares_group groups here j = rw (In-member j)
In-shares_group groups (there {x} i) j = ground (arith, In-shares_group groups i j)

-- What one round of the loop keeps, by its two tests.
choice-In :
    (a b : Bool) {m n : ModelInfo} {rest : List ModelInfo}
    → In m (if a then n ∷ rest else if b then n ∷ rest else rest)
    → In m rest ⊎ ((m ≡ n) × ((a ≡ true) ⊎ (b ≡ true)))
choice-In true b i = elim (In-cons i) [ inl e ↦ inr (e, inl refl) | inr j ↦ inl j ]
choice-In false true i = elim (In-cons i) [ inl e ↦ inr (e, inr refl) | inr j ↦ inl j ]
choice-In false false i = inl i

In-choice :
    (a b : Bool) {m n : ModelInfo} {rest : List ModelInfo}
    → In m rest ⊎ ((m ≡ n) × ((a ≡ true) ⊎ (b ≡ true)))
    → In m (if a then n ∷ rest else if b then n ∷ rest else rest)
In-choice true b (inl i) = there i
In-choice true b (inr (e, _)) = In-of_eq e
In-choice false true (inl i) = there i
In-choice false true (inr (e, _)) = In-of_eq e
In-choice false false (inl i) = i
In-choice false false (inr (_, inl h)) = absurd (false≢true h)
In-choice false false (inr (_, inr h)) = absurd (false≢true h)

accessible-MayUse :
    (groups : List Text) {m : ModelInfo} (ms : List ModelInfo)
    → In m (accessible groups ms)
    → In m ms × MayUse groups m
unfolding accessible
accessible-MayUse groups [] i = elim i [ ]
accessible-MayUse groups (n ∷ ms) i = elim (choice-In n.public (shares_group groups n.groups) i) [
  | inl later ↦ let (j, h) = accessible-MayUse groups ms later in (there j, h)
  | inr (e, inl anyone) ↦ (In-of_eq e, inl (rw e anyone))
  | inr (e, inr shared) ↦ (In-of_eq e, inr (rw e (shares_group-In groups n.groups shared)))
]

may_use :
    (groups : List Text) (m : ModelInfo)
    → MayUse groups m
    → (m.public ≡ true) ⊎ (shares_group groups m.groups ≡ true)
may_use groups m (inl anyone) = inl anyone
may_use groups m (inr (g, i, j)) = inr (In-shares_group groups i j)

MayUse-accessible :
    (groups : List Text) {m : ModelInfo} {ms : List ModelInfo}
    → In m ms
    → MayUse groups m
    → In m (accessible groups ms)
unfolding accessible
MayUse-accessible groups {m} here h =
    In-choice m.public (shares_group groups m.groups) (inr (refl, may_use groups m h))
MayUse-accessible groups (there {x} {xs} i) h =
    In-choice x.public (shares_group groups x.groups) (inl (MayUse-accessible groups i h))

-- The models that a user with these groups is shown are exactly the cached ones that are public
-- or share a group with the user.
pub filter_models_for_user_iff :
    (w : Watcher) (groups : List Text) (m : ModelInfo)
    → In m (filter_models_for_user w groups) ↔ (In m (list_models w) × MayUse groups m)
unfolding filter_models_for_user list_models
filter_models_for_user_iff w groups m =
    (accessible-MayUse groups _, λ h. MayUse-accessible groups h.0 h.1)

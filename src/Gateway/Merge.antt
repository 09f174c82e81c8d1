-- ===== src/Gateway/Merge.antt =====
-- What MergeHTTPSListener keeps and gives.
use nebari_llm_serving_pack.Base.{
  ◌≡◌, refl, inl, inr, Bool, true, false, some, List, [], ◌∷◌, if◌then◌else◌, Bool-cases, Text,
  ◌==◌, ==-refl, ==-sound, ok, In, here, there,
}
use nebari_llm_serving_pack.Gateway.{
  CertificateRef, Listener, Item, listener, no_object, build_https_listener, refs_equal,
  listeners_equal, keep_item, merge_listeners, merge_https_listener,
}

refs_equal_refl : (refs : List CertificateRef) → refs_equal refs refs ≡ true
unfolding refs_equal
refs_equal_refl [] = refl
refs_equal_refl (a ∷ refs) =
    rw (==-refl a.kind, ==-refl a.name, ==-refl a.namespace, refs_equal_refl refs)

listeners_equal_refl : (l : Listener) → listeners_equal l l ≡ true
unfolding listeners_equal
listeners_equal_refl l = rw (
  ==-refl l.name,
  ==-refl l.protocol,
  ==-refl l.port,
  ==-refl l.hostname,
  ==-refl l.tls_mode,
  refs_equal_refl l.certificate_refs,
  ==-refl l.allowed_from,
)

-- The items that are no listener of the name.
unfoldable pub others : Text → List Item → List Item
others name [] = []
others name (no_object s ∷ items) = no_object s ∷ others name items
others name (listener l ∷ items) =
    let rest = others name items in if l.name == name then rest else listener l ∷ rest

-- Some listener of the list has the name and agrees with `desired` in all that is compared.
abbrev pub IsServed : Text → Listener → List Item → Type 0
IsServed name desired items =
    (l : Listener) × In (listener l) items × (l.name ≡ name) × (listeners_equal l desired ≡ true)

module _ (name : Text) (desired : Listener) where
  merge-others :
      desired.name ≡ name
      → (items : List Item) → others name (merge_listeners name desired items).1 ≡ others name items
  unfolding merge_listeners others keep_item
  merge-others named [] = rw (named, ==-refl name)
  merge-others named (no_object s ∷ items) = cc (merge-others named items)
  merge-others named (listener l ∷ items) = elim (Bool-cases (l.name == name)) [
    | inr other ↦ simp other (cc (merge-others named items))
    | inl hit ↦ elim (Bool-cases (listeners_equal l desired)) [
      | inl same ↦ simp (hit, same)
      | inr changed ↦ simp (hit, changed, named, ==-refl name)
    ]
  ]

  merge-IsServed :
      desired.name ≡ name
      → (items : List Item) → IsServed name desired (merge_listeners name desired items).1
  unfolding merge_listeners keep_item
  merge-IsServed named [] = (desired, here, named, listeners_equal_refl desired)
  merge-IsServed named (no_object s ∷ items) =
      let (l, i, e, same) = merge-IsServed named items in (l, there i, e, same)
  merge-IsServed named (listener l ∷ items) = elim (Bool-cases (l.name == name)) [
    | inr other ↦
        let (k, i, e, same) = merge-IsServed named items in simp other (k, there i, e, same)
    | inl hit ↦ elim (Bool-cases (listeners_equal l desired)) [
      | inl same ↦ simp (hit, same) (l, here, ==-sound _ _ hit, same)
      | inr changed ↦ simp (hit, changed) (desired, here, named, listeners_equal_refl desired)
    ]
  ]

  named_test : desired.name ≡ name → (desired.name == name) ≡ true
  named_test named = rw named (==-refl name)

  merge-again :
      desired.name ≡ name
      → (items : List Item)
      → merge_listeners name desired (merge_listeners name desired items).1
        ≡ (false, (merge_listeners name desired items).1)
  unfolding merge_listeners keep_item
  merge-again named [] = rw (named_test named, listeners_equal_refl desired)
  merge-again named (no_object s ∷ items) = rw (merge-again named items)
  merge-again named (listener l ∷ items) = elim (Bool-cases (l.name == name)) [
    | inr other ↦ simp other (rw (merge-again named items))
    | inl hit ↦ elim (Bool-cases (listeners_equal l desired)) [
      | inl same ↦ simp (hit, same)
      | inr changed ↦ simp (hit, changed, named_test named, listeners_equal_refl desired)
    ]
  ]

  -- What a merge into `items` gives: the desired listener is served, the items that are no listener
  -- of its name are as they were and in their order, and a second merge modifies nothing.
  abbrev pub IsMerged : List Item → Bool × List Item → Type 0
  IsMerged items r =
      IsServed name desired r.1
      × (others name r.1 ≡ others name items)
      × (merge_listeners name desired r.1 ≡ (false, r.1))

-- Whatever listeners a Gateway has: after the merge one of the listener's name agrees with the
-- desired one in all that is compared, every other item stays as it was, and merging again modifies
-- nothing.
pub merge_https_listener-IsMerged :
    (name hostname secret_name secret_namespace : Text) (items : List Item)
    → (r : Bool × List Item) × (merge_https_listener name hostname secret_name secret_namespace
          (ok (some items))
        ≡ ok r)
      × IsMerged name (build_https_listener name hostname secret_name secret_namespace) items r
unfolding merge_https_listener
merge_https_listener-IsMerged name hostname secret_name secret_namespace items = (
  merge_listeners name desired items,
  refl,
  (
    merge-IsServed name desired named items,
    merge-others name desired named items,
    merge-again name desired named items,
  ),
)
  where
    desired : Listener
    desired = build_https_listener name hostname secret_name secret_namespace

    named : desired.name ≡ name
    named = unfold build_https_listener in refl

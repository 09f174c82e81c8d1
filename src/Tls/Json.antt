-- ===== src/Tls/Json.antt =====
-- nestedSpecsEqual and valueEqual in operator/internal/controller/clustertls_singleton.go, on values of
-- JSON. What `%v` prints of a value is an argument.
use nebari_llm_serving_pack.Base.{
  ◌≡◌, refl, Bool, true, false, ◌&&◌, Option, none, some, ℕ, ◌+◌, arith, nat_eq, if◌then◌else◌,
  Bool-cases, inl, inr, Text, ◌==◌, ==-refl, eq_iff,
}

mutual
  pub data Value : Type 0 where
    scalar : Text → Value
    array : Values → Value
    object : Fields → Value

  pub data Values : Type 0 where
    no_value : Values
    value : Value → Values → Values

  -- The keys are in the order of the iteration.
  pub data Fields : Type 0 where
    no_field : Fields
    field : Text → Value → Fields → Fields

unfoldable pub field_count : Fields → ℕ
field_count no_field = 0
field_count (field k v fields) = 1 + field_count fields

unfoldable pub field_at : Text → Fields → Option Value
field_at key no_field = none
field_at key (field k v fields) =
    let later = field_at key fields in if k == key then some v else later

module _ (print : Value → Text) where
  unfoldable mutual
    unfolding field_at field_count

    -- valueEqual against a field that may be missing.
    pub held_equal : Value → Option Value → Bool
    held_equal v none = false
    held_equal (object a) (some (object b)) =
        nat_eq (field_count a) (field_count b) && fields_within a b
    held_equal (object a) (some (array b)) = false
    held_equal (object a) (some (scalar b)) = false
    held_equal (array a) (some (array b)) = values_equal a b
    held_equal (array a) (some (object b)) = false
    held_equal (array a) (some (scalar b)) = false
    held_equal (scalar a) (some b) = print (scalar a) == print b

    values_equal : Values → Values → Bool
    values_equal no_value no_value = true
    values_equal no_value (value b bs) = false
    values_equal (value a rest) no_value = false
    values_equal (value a rest) (value b bs) = held_equal a (some b) && values_equal rest bs

    pub fields_within : Fields → Fields → Bool
    fields_within no_field b = true
    fields_within (field k v fields) b = held_equal v (field_at k b) && fields_within fields b

  unfoldable pub value_equal : Value → Value → Bool
  unfolding held_equal
  value_equal a b = held_equal a (some b)

  unfoldable pub nested_specs_equal : Fields → Fields → Bool
  unfolding held_equal field_count
  nested_specs_equal a b = nat_eq (field_count a) (field_count b) && fields_within a b

-- Keys of an object are distinct, at every depth.
unfoldable mutual
  unfolding field_at

  pub IsSound : Value → Type 0
  IsSound (scalar s) = Unit
  IsSound (array vs) = AreSound vs
  IsSound (object fields) = HasDistinct fields

  AreSound : Values → Type 0
  AreSound no_value = Unit
  AreSound (value v vs) = IsSound v × AreSound vs

  pub HasDistinct : Fields → Type 0
  HasDistinct no_field = Unit
  HasDistinct (field k v fields) = (field_at k fields ≡ none) × IsSound v × HasDistinct fields

-- The fields of the first stand in the second.
unfoldable pub StandIn : Fields → Fields → Type 0
StandIn no_field b = Unit
StandIn (field k v fields) b = (field_at k b ≡ some v) × StandIn fields b

StandIn-later :
    (fields b : Fields) (k : Text) (v : Value)
    → field_at k fields ≡ none
    → StandIn fields b
    → StandIn fields (field k v b)
unfolding StandIn field_at
StandIn-later no_field b k v new h = tt
StandIn-later (field j u fields) b k v new (first, h) = elim (Bool-cases (j == k)) [
  | inl same ↦ cc (rw same at new)
  | inr other ↦ (rw (flipped other) first, StandIn-later fields b k v (rw other at new) h)
]
  where
    flipped : (j == k) ≡ false → (k == j) ≡ false
    flipped other = ground (arith, eq_iff j k, eq_iff k j)

StandIn-refl : (fields : Fields) → HasDistinct fields → StandIn fields fields
unfolding StandIn HasDistinct field_at
StandIn-refl no_field h = tt
StandIn-refl (field k v fields) (new, sound, h) =
    (rw (==-refl k) refl, StandIn-later fields fields k v new (StandIn-refl fields h))

module _ (print : Value → Text) where
  mutual
    unfolding held_equal IsSound StandIn field_count

    pub held_equal_refl : (v : Value) → IsSound v → held_equal print v (some v) ≡ true
    held_equal_refl (scalar s) h = ==-refl (print (scalar s))
    held_equal_refl (array vs) h = values_equal_refl vs h
    held_equal_refl (object fields) h =
        ground (arith, fields_within_of fields fields (StandIn-refl fields h) h)

    values_equal_refl : (vs : Values) → AreSound vs → values_equal print vs vs ≡ true
    values_equal_refl no_value h = refl
    values_equal_refl (value v vs) (h, k) = rw (held_equal_refl v h, values_equal_refl vs k)

    fields_within_of :
        (fields b : Fields)
        → StandIn fields b
        → HasDistinct fields
        → fields_within print fields b ≡ true
    fields_within_of no_field b h k = refl
    fields_within_of (field key v fields) b (first, h) (new, sound, k) =
        rw (first, held_equal_refl v sound, fields_within_of fields b h k)

  pub nested_specs_equal_refl :
      (fields : Fields) → HasDistinct fields → nested_specs_equal print fields fields ≡ true
  unfolding nested_specs_equal held_equal IsSound
  nested_specs_equal_refl fields h = held_equal_refl (object fields) h

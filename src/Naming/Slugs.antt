-- ===== src/Naming/Slugs.antt =====
-- What Slugify and EffectiveSubdomain give.
use nebari_llm_serving_pack.Base.{
  ℕ, zero, suc, ◌/◌, ◌%◌, ◌≤◌, ◌<◌, ◌≡◌, ◌≢◌, inl, inr, refl, sym, ◌∙◌, Bool, true, false, [], ◌∷◌,
  ◌++◌, ltb, leb, arith, Bool-cases, take, length, length-append, length-take-le, all, Text, ◌==◌,
  eq_iff, err,
}
use mathlib.Core.Bool.{false≢true}
use nebari_llm_serving_pack.Keys.Names.{hex_digit, hex_encode}
use nebari_llm_serving_pack.Crd.{LlmModel}
use nebari_llm_serving_pack.Naming.{
  is_slug_byte, replace_others, collapse_dashes, trim_left, trim_right, to_lower, slug, slugify,
  subdomain_of, effective_subdomain,
}

-- A text of the bytes `[a-z0-9-]`.
abbrev pub IsSlug : Text → Type 0
IsSlug s = all is_slug_byte s ≡ true

append-IsSlug : (s t : Text) → IsSlug s → IsSlug t → IsSlug (s ++ t)
append-IsSlug [] t h k = k
append-IsSlug (c ∷ s) t h k = ground (arith, append-IsSlug s t)

take-IsSlug : (n : ℕ) (s : Text) → IsSlug s → IsSlug (take n s)
take-IsSlug zero s h = refl
take-IsSlug (suc n) [] h = refl
take-IsSlug (suc n) (c ∷ s) h = ground (arith, take-IsSlug n s)

dash-slug : is_slug_byte b'-' ≡ true
unfolding is_slug_byte
dash-slug = refl

replace_others-IsSlug : (in_run : Bool) (s : Text) → IsSlug (replace_others in_run s)
unfolding replace_others
replace_others-IsSlug in_run [] = refl
replace_others-IsSlug in_run (c ∷ s) =
    ground (arith, replace_others-IsSlug true s, replace_others-IsSlug false s, dash-slug)

collapse_dashes-IsSlug : (in_run : Bool) (s : Text) → IsSlug s → IsSlug (collapse_dashes in_run s)
unfolding collapse_dashes
collapse_dashes-IsSlug in_run [] h = refl
collapse_dashes-IsSlug in_run (c ∷ s) h =
    ground (arith, collapse_dashes-IsSlug true s, collapse_dashes-IsSlug false s)

trim_left-IsSlug : (s : Text) → IsSlug s → IsSlug (trim_left s)
unfolding trim_left
trim_left-IsSlug [] h = refl
trim_left-IsSlug (c ∷ s) h = ground (arith, trim_left-IsSlug s)

trim_right-IsSlug : (s : Text) → IsSlug s → IsSlug (trim_right s)
unfolding trim_right
trim_right-IsSlug [] h = refl
trim_right-IsSlug (c ∷ s) h = ground (arith, trim_right-IsSlug s)

trim_right-le : (s : Text) → length (trim_right s) ≤ length s
unfolding trim_right
trim_right-le [] = omega arith
trim_right-le (c ∷ s) = ground (arith, trim_right-le s)

hex_digit-slug : (n : ℕ) → n < 16 → is_slug_byte (hex_digit n) ≡ true
unfolding is_slug_byte hex_digit
hex_digit-slug n h = ground arith

hex_encode-IsSlug : (s : Text) → IsSlug (hex_encode s)
unfolding hex_encode
hex_encode-IsSlug [] = refl
hex_encode-IsSlug (b ∷ s) =
    rw (hex_digit-slug (b / 16 % 16) (omega arith), hex_digit-slug (b % 16) (omega arith))
      (hex_encode-IsSlug s)

slug-IsSlug : (name : Text) → IsSlug (slug name)
unfolding slug
slug-IsSlug name = trim_right-IsSlug _ (
    trim_left-IsSlug _
      (collapse_dashes-IsSlug false _ (replace_others-IsSlug false (to_lower name))))

module _ (sha256 : Text → Text) where
  -- Whatever the name, its slug has bytes of `[a-z0-9-]` only, and at most 57 of them.
  pub slugify-IsSlug :
      (name : Text) → IsSlug (slugify sha256 name) × (length (slugify sha256 name) ≤ 57)
  unfolding slugify
  slugify-IsSlug name = elim (Bool-cases (leb (length (slug name)) 48)) [
    | inl short ↦ simp short (slug-IsSlug name, ground arith)
    | inr long ↦ simp long (
      append-IsSlug (trim_right (take 48 (slug name))) _
          (trim_right-IsSlug _ (take-IsSlug 48 _ (slug-IsSlug name)))
          (rw dash-slug (take-IsSlug 8 _ (hex_encode-IsSlug (sha256 name)))),
      omega (
        arith,
        length-append (trim_right (take 48 (slug name))) (b'-' ∷ take 8 (hex_encode (sha256 name))),
        length-take-le 48 (slug name),
        length-take-le 8 (hex_encode (sha256 name)),
        trim_right-le (take 48 (slug name)),
      ),
    )
  ]

  too_long :
      (model : LlmModel) (e : Text)
      → effective_subdomain sha256 model ≡ err e
      → 63 < length (subdomain_of sha256 model)
  unfolding effective_subdomain
  too_long model e h = elim (Bool-cases (ltb 63 (length (subdomain_of sha256 model)))) [
    | inl over ↦ ground arith
    | inr within ↦ cc (simp within at h)
  ]

  of_subdomain :
      (model : LlmModel)
      → 63 < length (subdomain_of sha256 model)
      → (model.spec.endpoints.external_subdomain ≢ [])
        × (63 < length model.spec.endpoints.external_subdomain)
  unfolding subdomain_of
  of_subdomain model h = elim (Bool-cases (model.spec.endpoints.external_subdomain == [])) [
    | inl derived ↦ absurd (omega (arith, (slugify-IsSlug model.name).1, the_slug derived))
    | inr own ↦ ((λ e. false≢true (sym own ∙ (eq_iff _ []).1 e)), simp own at h)
  ]
    where
      the_slug :
          (model.spec.endpoints.external_subdomain == []) ≡ true
          → 63 < length (slugify sha256 model.name)
      the_slug derived = simp derived at h

  -- The effective subdomain is refused only where the model names one of more than 63 bytes itself:
  -- one that is derived from the model's name always fits.
  effective_subdomain-err :
      (model : LlmModel) (e : Text)
      → effective_subdomain sha256 model ≡ err e
      → (model.spec.endpoints.external_subdomain ≢ [])
        × (63 < length model.spec.endpoints.external_subdomain)
  effective_subdomain-err model e h = of_subdomain model (too_long model e h)

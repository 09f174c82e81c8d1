-- ===== src/Base/Results.antt =====
-- A Go call that returns a value or an error (kept as its message), alone and over a world `W`
-- that the call may change: the cluster behind an API client, for one.
use mathlib.Core.Path.{◌≡◌, refl, fst_path}
use nebari_llm_serving_pack.Base.Texts.{Text}

pub data Result {ℓ} (A : Type ℓ) : Type ℓ where
  ok : A → Result A
  err : Text → Result A

pub ok-injective {ℓ} : {A : Type ℓ} {a b : A} → ok a ≡ ok b → a ≡ b
ok-injective e = cc

-- `if err := first; err != nil { return err }`, then the rest.
infixr 20 ◌&>◌
abbrev pub ◌&>◌ {ℓ} : {A : Type ℓ} → Result (Unit {0}) → Result A → Result A
ok _ &> rest = rest
err e &> rest = err e

pub then-ok {ℓ} :
    {A : Type ℓ} (first : Result (Unit {0})) (rest : Result A) {a : A}
    → ((first &> rest) ≡ ok a)
    → (first ≡ ok tt) × (rest ≡ ok a)
then-ok (ok tt) rest h = (refl, h)
then-ok (err e) rest h = cc h

-- The error, wrapped as `fmt.Errorf("…: %w", …, err)` does.
abbrev pub wrap_result {ℓ} : {A : Type ℓ} → (Text → Text) → Result A → Result A
wrap_result f (ok a) = ok a
wrap_result f (err e) = err (f e)

abbrev pub Exec {ℓ} : Type ℓ → Type ℓ → Type ℓ
Exec W A = W → Result A × W

module _ {ℓ} {W A : Type ℓ} where
  abbrev pub pure : A → Exec W A
  pure a w = (ok a, w)

  abbrev pub fail : Text → Exec W A
  fail e w = (err e, w)

  abbrev pub lift : Result A → Exec W A
  lift r w = (r, w)

  abbrev pub wrap : (Text → Text) → Exec W A → Exec W A
  wrap f m w = let (r, w') = m w in (wrap_result f r, w')

module _ {ℓ} {W A B : Type ℓ} where
  abbrev pub continue : Result A → (A → Exec W B) → Exec W B
  continue (ok a) f w = f a w
  continue (err e) f w = (err e, w)

  infixl 10 ◌>>=◌ ◌>>◌
  abbrev pub ◌>>=◌ : Exec W A → (A → Exec W B) → Exec W B
  ◌>>=◌ m f w = let (r, w') = m w in continue r f w'

  abbrev pub ◌>>◌ : Exec W A → Exec W B → Exec W B
  m >> n = m >>= λ _. n

module _ {ℓ} {W A B : Type ℓ} where
  continue-ok :
      (r : Result A) (f : A → Exec W B) (w : W) {b : B} {w' : W}
      → continue r f w ≡ (ok b, w')
      → (a : A) × (r ≡ ok a) × (f a w ≡ (ok b, w'))
  continue-ok (ok a) f w h = (a, refl, h)
  continue-ok (err e) f w h = absurd (err-ne-ok e (fst_path h))
    where
      err-ne-ok : (e : Text) {b : B} → err e ≡ ok b → ⊥
      err-ne-ok e p = cc

  -- A sequence that succeeds has a first part that succeeds, and the rest runs on what it left.
  pub bind-ok :
      (m : Exec W A) (f : A → Exec W B) (w : W) {b : B} {w' : W}
      → (m >>= f) w ≡ (ok b, w')
      → (a : A) × (w₁ : W) × (m w ≡ (ok a, w₁)) × (f a w₁ ≡ (ok b, w'))
  bind-ok m f w h =
      let (a, e, k) = continue-ok (m w).0 f (m w).1 h in (a, (m w).1, (λ i. (e i, (m w).1)), k)

wrap_result-ok {ℓ} :
    {A : Type ℓ} (g : Text → Text) (r : Result A) {a : A} → wrap_result g r ≡ ok a → r ≡ ok a
wrap_result-ok g (ok b) h = h
wrap_result-ok g (err e) h = cc

module _ {ℓ} {W A : Type ℓ} where
  pub wrap-ok :
      (g : Text → Text) (m : Exec W A) (w : W) {a : A} {w' : W}
      → wrap g m w ≡ (ok a, w')
      → m w ≡ (ok a, w')
  wrap-ok g m w h = λ i. (wrap_result-ok g (m w).0 (fst_path h) i, snd_of h i)
    where
      snd_of : {p q : Result A × W} → p ≡ q → p.1 ≡ q.1
      snd_of e = λ i. (e i).1

-- ===== src/Base/Outcome.antt =====
-- Go's pair of a value and an error: a value, or the error that was returned.
use mathlib.Core.Path.{◌≡◌, refl, sym}
use mathlib.Core.Bool.{Bool, true, false}
use mathlib.Core.Logic.{◌⊎◌, inl, inr}

pub data Result {ℓ κ} (E : Type ℓ) (A : Type κ) : Type (ℓ ⊔ κ) where
  ok : A → Result E A
  err : E → Result E A

module _ {ℓ} {E : Type ℓ} where
  -- A check that returns early with `e` unless the test holds.
  abbrev pub guard : Bool → E → Result E (Unit {0})
  guard false e = err e
  guard true e = ok tt

  infixl 5 ◌>>=◌ ◌>>◌
  -- `if err != nil { return …, err }`, and what follows it.
  abbrev pub ◌>>=◌ {κ μ} : {A : Type κ} {B : Type μ} → Result E A → (A → Result E B) → Result E B
  err e >>= rest = err e
  ok a >>= rest = rest a

  abbrev pub ◌>>◌ {κ} : {B : Type κ} → Result E (Unit {0}) → Result E B → Result E B
  done >> rest = done >>= λ _. rest

  pub Result-cases {κ} :
      {A : Type κ} (r : Result E A) → ((a : A) × (r ≡ ok a)) ⊎ ((e : E) × (r ≡ err e))
  Result-cases (ok a) = inl (a, refl)
  Result-cases (err e) = inr (e, refl)

  pub >>=-assoc {κ μ ν} :
      {A : Type κ} {B : Type μ} {C : Type ν} (m : Result E A) (f : A → Result E B)
      (g : B → Result E C)
      → ((m >>= f) >>= g) ≡ (m >>= λ a. f a >>= g)
  >>=-assoc (ok a) f g = refl
  >>=-assoc (err e) f g = refl

  -- Continuations that agree on the value that is returned may be exchanged.
  pub >>=-congr {κ μ} :
      {A : Type κ} {B : Type μ} (m : Result E A) (f g : A → Result E B)
      → ((a : A) → m ≡ ok a → f a ≡ g a)
      → (m >>= f) ≡ (m >>= g)
  >>=-congr (ok a) f g h = h a refl
  >>=-congr (err e) f g h = refl

  -- What holds of the value, if one is returned.
  abbrev pub Yields {κ μ} : {A : Type κ} → (A → Type μ) → Result E A → Type μ
  Yields P (ok a) = P a
  Yields P (err e) = Unit

  pub >>=-Yields {κ μ ν} :
      {A : Type κ} {B : Type μ} (P : B → Type ν) (m : Result E A) (f : A → Result E B)
      → ((a : A) → m ≡ ok a → Yields P (f a))
      → Yields P (m >>= f)
  >>=-Yields P (ok a) f h = h a refl
  >>=-Yields P (err e) f h = tt

  pub Yields-map {κ μ ν} :
      {A : Type κ} (P : A → Type μ) (Q : A → Type ν) (r : Result E A)
      → ((a : A) → P a → Q a)
      → Yields P r
      → Yields Q r
  Yields-map P Q (ok a) f h = f a h
  Yields-map P Q (err e) f h = tt

  -- A check that was passed.
  pub guard-true : (b : Bool) (e : E) (u : Unit {0}) → guard b e ≡ ok u → b ≡ true
  guard-true true e u h = refl
  guard-true false e u h = let bad : ok u ≡ err e = sym h in cc

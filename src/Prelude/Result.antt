-- ===== src/Prelude/Result.antt =====
-- A computation that may throw: the value, or the error thrown.
use mathlib.Core.Path.{◌≡◌, refl}
use mathlib.Core.Logic.{◌⊎◌, inl, inr}

pub data Result {ℓ} (E A : Type ℓ) : Type ℓ where
  ok : A → Result E A
  throw : E → Result E A

module _ {ℓ} {E : Type ℓ} where
  -- `try` knows which of the two came back.
  pub Result-cases :
      {A : Type ℓ} (r : Result E A) → ((a : A) × (r ≡ ok a)) ⊎ ((e : E) × (r ≡ throw e))
  Result-cases (throw thrown) = inr (thrown, refl)
  Result-cases (ok value) = inl (value, refl)

  pub ok-injective : {A : Type ℓ} {a b : A} → ◌≡◌ {A = Result E A} (ok a) (ok b) → a ≡ b
  ok-injective h = cc

  -- The next statement runs on the value, and a thrown error skips it.
  infixl 5 ◌>>=◌
  abbrev pub ◌>>=◌ : {A B : Type ℓ} → Result E A → (A → Result E B) → Result E B
  throw thrown >>= next = throw thrown
  ok value >>= next = next value

  infixl 5 ◌>>◌
  abbrev pub ◌>>◌ : {B : Type ℓ} → Result E (Unit {ℓ}) → Result E B → Result E B
  first >> second = first >>= λ _. second

  -- A chain that returned, taken apart at its first step.
  pub >>=-eq-ok :
      {A B : Type ℓ} (r : Result E A) (next : A → Result E B) {last : B}
      → (r >>= next) ≡ ok last
      → (value : A) × (r ≡ ok value) × (next value ≡ ok last)
  >>=-eq-ok (throw thrown) next returned = cc
  >>=-eq-ok (ok value) next returned = (value, refl, returned)

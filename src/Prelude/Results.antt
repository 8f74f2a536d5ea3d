-- ===== src/Prelude/Results.antt =====
-- Calls that may raise: the value, or the error that was raised.
use mathlib.Core.Logic.{◌⊎◌, inl, inr}
use mathlib.Core.Path.{◌≡◌, refl}
use native.Mathlib.Omega.{arith}
use mathlib.Core.Bool.{Bool, true, false}

pub data Result {ℓ κ} (E : Type κ) (A : Type ℓ) : Type (ℓ ⊔ κ) where
  ok : A → Result E A
  err : E → Result E A

module _ {κ} {E : Type κ} where
  infixl 5 ◌>>=◌ ◌>>◌
  abbrev pub ◌>>=◌ {ℓ ι} : {A : Type ℓ} {B : Type ι} → Result E A → (A → Result E B) → Result E B
  ok a >>= f = f a
  err e >>= f = err e

  abbrev pub ◌>>◌ {ℓ} : {B : Type ℓ} → Result E (Unit {0}) → Result E B → Result E B
  m >> k = m >>= λ _. k

  -- `if b: raise e`
  abbrev pub raise_if : Bool → E → Result E (Unit {0})
  raise_if true e = err e
  raise_if false e = ok tt

pub Result-cases {ℓ κ} :
    {E : Type κ} {A : Type ℓ} (r : Result E A) → ((e : E) × (r ≡ err e)) ⊎ ((a : A) × (r ≡ ok a))
Result-cases (ok a) = inr (a, refl)
Result-cases (err e) = inl (e, refl)

-- What two calls returned, when the pair of them did.
pub chain-ok {ℓ κ ι} :
    {E : Type κ} {A : Type ℓ} {B : Type ι} (m : Result E A) (r : Result E B) (f : A → B → B) {b : B}
    → (m >>= λ x. r >>= λ y. ok (f x y)) ≡ ok b
    → (a : A) × (c : B) × (m ≡ ok a) × (r ≡ ok c) × (b ≡ f a c)
chain-ok (ok a) (ok c) f p = (a, c, refl, refl, ground arith)
chain-ok (ok a) (err e) f p = absurd (ground arith)
chain-ok (err e) r f p = absurd (ground arith)

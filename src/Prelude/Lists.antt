-- ===== src/Prelude/Lists.antt =====
-- Lists measured by native numbers, and predicates and folds over their elements.
use Prim.Native.Nat.{ℕ, zero, suc, ◌+◌, ◌≤◌, ◌<◌}
use mathlib.Core.Bool.{Bool, true, false}
use mathlib.Core.List.{List, [], ◌∷◌, ◌++◌}
use mathlib.Core.Logic.{inl, inr}
use mathlib.Core.Path.{◌≡◌, refl}
use native.Mathlib.Omega.{arith}
use llama.Prelude.Tests.{if◌then◌else◌, Bool-cases}

module _ {ℓ} {A : Type ℓ} where
  abbrev pub length : List A → ℕ
  length [] = 0
  length (x ∷ xs) = suc (length xs)

  abbrev pub take : ℕ → List A → List A
  take zero xs = []
  take (suc n) [] = []
  take (suc n) (x ∷ xs) = x ∷ take n xs

  abbrev pub drop : ℕ → List A → List A
  drop zero xs = xs
  drop (suc n) [] = []
  drop (suc n) (x ∷ xs) = drop n xs

  -- `[x for x in xs if p(x)]`
  unfoldable pub select : (A → Bool) → List A → List A
  select p [] = []
  select p (x ∷ xs) = if p x then x ∷ select p xs else select p xs

  -- `any(p(x) for x in xs)`
  unfoldable pub any : (A → Bool) → List A → Bool
  any p [] = false
  any p (x ∷ xs) = if p x then true else any p xs

  -- `sum(f(x) for x in xs)`
  unfoldable pub sum_by : (A → ℕ) → List A → ℕ
  sum_by f [] = 0
  sum_by f (x ∷ xs) = f x + sum_by f xs

  pub length-append : (xs ys : List A) → length (xs ++ ys) ≡ length xs + length ys
  length-append [] ys = omega arith
  length-append (x ∷ xs) ys = omega (arith, length-append xs ys)

abbrev pub All {ℓ κ} : {A : Type ℓ} → (A → Type κ) → List A → Type κ
All P [] = Unit
All P (x ∷ xs) = P x × All P xs

-- Membership as a family that can be matched.
pub data In {ℓ} {A : Type ℓ} (a : A) : List A → Type ℓ where
  here : {xs : List A} → In a (a ∷ xs)
  there : {x : A} {xs : List A} → In a xs → In a (x ∷ xs)

module _ {ℓ} {A : Type ℓ} where
  -- An element of a conditional list is an element of one of the branches.
  In-branch :
      (p : A → Bool) (a x : A) (b : Bool) (xs ys : List A)
      → p x ≡ b
      → (In a ys → In a xs × (p a ≡ true))
      → In a (if b then x ∷ ys else ys)
      → In a (x ∷ xs) × (p a ≡ true)
  In-branch p a x true xs ys e rec here = (here, e)
  In-branch p a x true xs ys e rec (there t) = (there (rec t).0, (rec t).1)
  In-branch p a x false xs ys e rec t = (there (rec t).0, (rec t).1)

  pub In-select : (p : A → Bool) (a : A) (xs : List A) → In a (select p xs) → In a xs × (p a ≡ true)
  unfolding select
  In-select p a [] h = elim h [ ]
  In-select p a (x ∷ xs) h = In-branch p a x (p x) xs (select p xs) refl (In-select p a xs) h

module _ {ℓ} {A : Type ℓ} where
  -- Counting and summing over the chosen elements, as sums over all of them.
  pub sum_by-select :
      (f : A → ℕ) (p : A → Bool) (xs : List A)
      → sum_by f (select p xs) ≡ sum_by (λ x. if p x then f x else 0) xs
  unfolding sum_by select
  sum_by-select f p [] = refl
  sum_by-select f p (x ∷ xs) = ground (arith, sum_by-select f p xs)

  pub length-select :
      (p : A → Bool) (xs : List A) → length (select p xs) ≡ sum_by (λ x. if p x then 1 else 0) xs
  unfolding sum_by select
  length-select p [] = refl
  length-select p (x ∷ xs) = ground (arith, length-select p xs)

  pub sum_by-cong : (f g : A → ℕ) (xs : List A) → ((x : A) → f x ≡ g x) → sum_by f xs ≡ sum_by g xs
  unfolding sum_by
  sum_by-cong f g [] h = refl
  sum_by-cong f g (x ∷ xs) h = omega (arith, h x, sum_by-cong f g xs h)

  pub sum_by-le : (f g : A → ℕ) (xs : List A) → ((x : A) → f x ≤ g x) → sum_by f xs ≤ sum_by g xs
  unfolding sum_by
  sum_by-le f g [] h = omega arith
  sum_by-le f g (x ∷ xs) h = omega (arith, h x, sum_by-le f g xs h)

module _ {A : Type 0} where
  pub All-In : (P : A → Type 0) (x : A) (xs : List A) → All P xs → In x xs → P x
  All-In P x [] a i = elim i [ ]
  All-In P x (y ∷ ys) a here = a.0
  All-In P x (y ∷ ys) a (there i) = All-In P x ys a.1 i

  pub select-All : (P : A → Type 0) (p : A → Bool) (xs : List A) → All P xs → All P (select p xs)
  unfolding select
  select-All P p [] a = tt
  select-All P p (x ∷ xs) a = elim (Bool-cases (p x)) [
    | inl e ↦ rw (e, select) (a.0, select-All P p xs a.1)
    | inr e ↦ rw (e, select) (select-All P p xs a.1)
  ]

  pub length-select_pos :
      (p : A → Bool) (x : A) (xs : List A) → In x xs → p x ≡ true → 0 < length (select p xs)
  unfolding select
  length-select_pos p x [] i e = elim i [ ]
  length-select_pos p x (y ∷ ys) here e = ground arith
  length-select_pos p x (y ∷ ys) (there i) e = ground (arith, length-select_pos p x ys i e)

-- `min(best, *rest)` by a strict order: the first of the least elements.
unfoldable pub first_min {ℓ} : {A : Type ℓ} → (A → A → Bool) → A → List A → A
first_min lt best [] = best
first_min lt best (x ∷ xs) = first_min lt (if lt x best then x else best) xs

In-skip {ℓ} : {A : Type ℓ} {a b x : A} {xs : List A} → In a (b ∷ xs) → In a (b ∷ x ∷ xs)
In-skip here = here
In-skip (there i) = there (there i)

pub first_min-In {ℓ} :
    {A : Type ℓ} (lt : A → A → Bool) (best : A) (xs : List A)
    → In (first_min lt best xs) (best ∷ xs)
unfolding first_min
first_min-In lt best [] = here
first_min-In lt best (x ∷ xs) = elim (Bool-cases (lt x best)) [
  | inl e ↦ rw (e, first_min) (there (first_min-In lt x xs))
  | inr e ↦ rw (e, first_min) (In-skip (first_min-In lt best xs))
]

-- ===== src/Governance/Selector/Order.antt =====
-- The comparison of keys is a total preorder, so `min` finds a least one.
use Prim.Native.Nat.{compare, Ordering}
use llama.Prelude.{
  first_min, if◌then◌else◌, ℕ, ◌*◌, ◌<◌, ◌≡◌, refl, inl, inr, Bool, true, false, List, [], ◌∷◌,
  Option, arith, In, here, there, Bool-cases, All, sym,
}
use llama.Governance.Selector.Key.{
  Key, Fraction, compare_priority, compare_fraction, compare_deadline, or_else, compare_key, key_lt,
}
use llama.Prelude.Int.{ℤ}

abbrev pub flip : Ordering → Ordering
flip Ordering.lt = Ordering.gt
flip Ordering.eq = Ordering.eq
flip Ordering.gt = Ordering.lt

-- How two comparisons in a row determine the third.
pub record Chain (x y z : Ordering) : Type 0 where
  pub left : x ≡ Ordering.eq → z ≡ y
  pub right : y ≡ Ordering.eq → z ≡ x
  pub both : x ≡ Ordering.lt → y ≡ Ordering.lt → z ≡ Ordering.lt

or_else-Chain :
    (x y z u v w : Ordering)
    → Chain x y z
    → Chain u v w
    → Chain (or_else x u) (or_else y v) (or_else z w)
or_else-Chain x y z u v w c d = record {
  left = ground (arith, c.left, c.right, c.both, d.left, d.right, d.both);
  right = ground (arith, c.left, c.right, c.both, d.left, d.right, d.both);
  both = ground (arith, c.left, c.right, c.both, d.left, d.right, d.both);
}

or_else-flip : (x u : Ordering) → flip (or_else x u) ≡ or_else (flip x) (flip u)
or_else-flip x u = ground arith

compare-flip : (a b : ℕ) → compare b a ≡ flip (compare a b)
compare-flip a b = ground arith

compare-Chain : (a b c : ℕ) → Chain (compare a b) (compare b c) (compare a c)
compare-Chain a b c = record { left = ground arith; right = ground arith; both = ground arith }

deadline-flip : (a b : Option ℕ) → compare_deadline b a ≡ flip (compare_deadline a b)
deadline-flip a b = ground arith

deadline-Chain :
    (a b c : Option ℕ) → Chain (compare_deadline a b) (compare_deadline b c) (compare_deadline a c)
deadline-Chain a b c = record { left = ground arith; right = ground arith; both = ground arith }

priority-flip : (a b : ℤ) → compare_priority b a ≡ flip (compare_priority a b)
priority-flip a b = ground arith

priority-Chain :
    (a b c : ℤ) → Chain (compare_priority a b) (compare_priority b c) (compare_priority a c)
priority-Chain a b c = record { left = ground arith; right = ground arith; both = ground arith }

-- Multiplying both sides by a positive number changes no comparison.
pub mul-lt : (x y k : ℕ) → 0 < k → x < y → x * k < y * k
mul-lt x y k h l = grind arith

compare-mul : (x y k : ℕ) → 0 < k → compare (x * k) (y * k) ≡ compare x y
compare-mul x y k h = ground (arith, mul-lt x y k h, mul-lt y x k h)

fraction-flip : (a b : Fraction) → compare_fraction b a ≡ flip (compare_fraction a b)
fraction-flip a b = compare-flip (a.above * b.below) (b.above * a.below)

scale : (x y k : ℕ) {x' y' : ℕ} → 0 < k → x * k ≡ x' → y * k ≡ y' → compare x y ≡ compare x' y'
scale x y k h e f = rw (← e, ← f) (sym (compare-mul x y k h))

fraction-Chain :
    (a b c : Fraction)
    → 0 < a.below
    → 0 < b.below
    → 0 < c.below
    → Chain (compare_fraction a b) (compare_fraction b c) (compare_fraction a c)
fraction-Chain a b c p q r =
    let x = a.above * b.below * c.below in
    let y = b.above * a.below * c.below in
    let z = c.above * a.below * b.below in
    let e : compare_fraction a b ≡ compare x y = scale _ _ c.below r refl refl in
    let f : compare_fraction b c ≡ compare y z = scale _ _ a.below p (omega arith) (omega arith) in
    let g : compare_fraction a c ≡ compare x z = scale _ _ b.below q (omega arith) (omega arith) in
    rw (e, f, g) (compare-Chain x y z)

-- The denominators of a key are positive.
pub record IsPositive (k : Key) : Type 0 where
  pub workflow_below : 0 < k.workflow_debt.below
  pub agent_below : 0 < k.agent_debt.below
  pub request_below : 0 < k.request_debt.below

compare_key-Chain :
    (a b c : Key)
    → IsPositive a
    → IsPositive b
    → IsPositive c
    → Chain (compare_key a b) (compare_key b c) (compare_key a c)
unfolding compare_key
compare_key-Chain a b c p q r =
    or_else-Chain _ _ _ _ _ _
      (priority-Chain a.effective_priority b.effective_priority c.effective_priority)
      (or_else-Chain _ _ _ _ _ _
        (fraction-Chain a.workflow_debt b.workflow_debt c.workflow_debt p.workflow_below
          q.workflow_below r.workflow_below)
        (or_else-Chain _ _ _ _ _ _
          (fraction-Chain a.agent_debt b.agent_debt c.agent_debt p.agent_below q.agent_below
            r.agent_below)
          (or_else-Chain _ _ _ _ _ _
            (fraction-Chain a.request_debt b.request_debt c.request_debt p.request_below
              q.request_below r.request_below)
            (or_else-Chain _ _ _ _ _ _ (deadline-Chain a.deadline b.deadline c.deadline)
              (compare-Chain a.order b.order c.order)))))

compare_key-flip : (a b : Key) → compare_key b a ≡ flip (compare_key a b)
unfolding compare_key
compare_key-flip a b = rw (
  or_else-flip,
  or_else-flip,
  or_else-flip,
  or_else-flip,
  or_else-flip,
  priority-flip a.effective_priority b.effective_priority,
  fraction-flip a.workflow_debt b.workflow_debt,
  fraction-flip a.agent_debt b.agent_debt,
  fraction-flip a.request_debt b.request_debt,
  deadline-flip a.deadline b.deadline,
  compare-flip a.order b.order,
)

-- Of two keys at most one is below the other.
pub key_lt_asym : (a b : Key) → key_lt a b ≡ true → key_lt b a ≡ false
unfolding key_lt
key_lt_asym a b h = ground (arith, compare_key-flip a b)

-- What is not below a key is not below one that is not above it.
pub key_lt_trans :
    (a b c : Key)
    → IsPositive a
    → IsPositive b
    → IsPositive c
    → key_lt b a ≡ false
    → key_lt c b ≡ false
    → key_lt c a ≡ false
unfolding key_lt
key_lt_trans a b c p q r h k =
    let chain = compare_key-Chain a b c p q r in
    ground (
      arith,
      compare_key-flip a b,
      compare_key-flip b c,
      compare_key-flip a c,
      chain.left,
      chain.right,
      chain.both,
    )

module _ {A : Type 0} (lt : A → A → Bool) (Good : A → Type 0)
    (asym : (a b : A) → lt a b ≡ true → lt b a ≡ false)
    (trans : (a b c : A)
      → Good a
      → Good b
      → Good c
      → lt b a ≡ false
      → lt c b ≡ false
      → lt c a ≡ false) where
  irrefl : (a : A) → lt a a ≡ false
  irrefl a = elim (Bool-cases (lt a a)) [ inl e ↦ asym a a e | inr e ↦ e ]

  -- `r` is one of the elements, none of them is below it, and it is good.
  abbrev pub Least : A → List A → Type 0
  Least r xs = In r xs × All (λ x. lt x r ≡ false) xs × Good r

  Least-replaced :
      (r best x : A) (xs : List A)
      → Good best
      → Good x
      → lt x best ≡ true
      → Least r (x ∷ xs)
      → Least r (best ∷ x ∷ xs)
  Least-replaced r best x xs gb gx e l =
      (there l.0, (trans r x best l.2 gx gb l.1.0 (asym x best e), l.1), l.2)

  Least-kept :
      (r best x : A) (xs : List A)
      → Good best
      → Good x
      → lt x best ≡ false
      → Least r (best ∷ xs)
      → Least r (best ∷ x ∷ xs)
  Least-kept r best x xs gb gx e (here, a, g) =
      (here, (a.0, (trans r best x g gb gx a.0 e, a.1)), g)
  Least-kept r best x xs gb gx e (there i, a, g) =
      (there (there i), (a.0, (trans r best x g gb gx a.0 e, a.1)), g)

  Least-step :
      (best x : A) (xs : List A) (b : Bool)
      → lt x best ≡ b
      → Good best
      → Good x
      → Least (first_min lt x xs) (x ∷ xs)
      → Least (first_min lt best xs) (best ∷ xs)
      → Least (first_min lt (if b then x else best) xs) (best ∷ x ∷ xs)
  Least-step best x xs true e gb gx l m = Least-replaced _ best x xs gb gx e l
  Least-step best x xs false e gb gx l m = Least-kept _ best x xs gb gx e m

  -- `min` yields one of its arguments, and none of them is below it.
  pub first_min-Least :
      (best : A) (xs : List A) → All Good (best ∷ xs) → Least (first_min lt best xs) (best ∷ xs)
  unfolding first_min
  first_min-Least best [] g = (here, (irrefl best, tt), g.0)
  first_min-Least best (x ∷ xs) (gb, (gx, gs)) =
      Least-step best x xs (lt x best) refl gb gx (first_min-Least x xs (gx, gs))
        (first_min-Least best xs (gb, gs))

-- ===== src/Prelude/Dict.antt =====
-- Python's `dict` as a list of pairs in insertion order.
use mathlib.Core.Bool.{Bool, false}
use mathlib.Core.List.{List, [], ◌∷◌, map}
use mathlib.Core.Logic.{ite}
use mathlib.Core.Option.{Option, none, some}
use mathlib.Core.Path.{◌≡◌, refl, sym}
use native.Mathlib.Omega.{arith}
use Prim.Native.Nat.{ℕ, ◌+◌, ◌≤◌, ◌<◌}
use llama.Prelude.Tests.{ite-rule}
use llama.Prelude.Lists.{length, select, sum_by, All, In, here, there}

abbrev pub Dict {ℓ} : Type ℓ → Type ℓ → Type ℓ
Dict K V = List (K × V)

module _ {ℓ} {K V : Type ℓ} where
  -- `d.values()`
  abbrev pub values : Dict K V → List V
  values = map (λ e. e.1)

module _ {ℓ} {K V : Type ℓ} (dec : Discrete K) where
  -- `d.get(k)`
  unfoldable pub get : K → Dict K V → Option V
  get k [] = none
  get k ((j, v) ∷ m) = ite (dec j k) (some v) (get k m)

  -- `d[k] = v`: a key that is there keeps its place, a new one goes to the end
  unfoldable pub put : K → V → Dict K V → Dict K V
  put k v [] = (k, v) ∷ []
  put k v ((j, w) ∷ m) = ite (dec j k) ((j, v) ∷ m) ((j, w) ∷ put k v m)

  -- `d.pop(k, None)`
  unfoldable pub remove : K → Dict K V → Dict K V
  remove k [] = []
  remove k ((j, w) ∷ m) = ite (dec j k) (remove k m) ((j, w) ∷ remove k m)

  -- Each key stands once, as in every `dict`.
  abbrev pub Distinct : Dict K V → Type ℓ
  Distinct [] = Unit
  Distinct ((j, w) ∷ m) = (get j m ≡ none) × Distinct m

  pub get-put :
      (k j : K) (v : V) (m : Dict K V) → get j (put k v m) ≡ ite (dec k j) (some v) (get j m)
  unfolding get put
  get-put k j v [] = refl
  get-put k j v ((i, w) ∷ m) = ground (arith, get-put k j v m)

  -- The last of two writes to one key counts.
  pub put-put : (k : K) (v w : V) (m : Dict K V) → put k v (put k w m) ≡ put k v m
  unfolding put
  put-put k v w [] = ground arith
  put-put k v w ((i, u) ∷ m) = ground (arith, put-put k v w m)

  pub get-remove : (k j : K) (m : Dict K V) → get j (remove k m) ≡ ite (dec k j) none (get j m)
  unfolding get remove
  get-remove k j [] = ground arith
  get-remove k j ((i, w) ∷ m) = ground (arith, get-remove k j m)

  pub put-Distinct : (k : K) (v : V) (m : Dict K V) → Distinct m → Distinct (put k v m)
  unfolding get put
  put-Distinct k v [] d = (refl, tt)
  put-Distinct k v ((i, w) ∷ m) d = ground (arith, get-put k i v m, put-Distinct k v m d.1)

  pub remove-Distinct : (k : K) (m : Dict K V) → Distinct m → Distinct (remove k m)
  unfolding get remove
  remove-Distinct k [] d = tt
  remove-Distinct k ((i, w) ∷ m) d = ground (arith, get-remove k i m, remove-Distinct k m d.1)

  pub remove_absent : (k : K) (m : Dict K V) → get k m ≡ none → remove k m ≡ m
  unfolding get remove
  remove_absent k [] h = refl
  remove_absent k ((i, w) ∷ m) h = ground (arith, remove_absent k m)

  -- A new key can be taken out again.
  pub remove-put : (k : K) (v : V) (m : Dict K V) → get k m ≡ none → remove k (put k v m) ≡ m
  unfolding get put remove
  remove-put k v [] h = ground arith
  remove-put k v ((i, w) ∷ m) h = ground (arith, remove-put k v m)

  pub select-put_new :
      (p : V → Bool) (k : K) (v : V) (m : Dict K V)
      → get k m ≡ none
      → p v ≡ false
      → select p (values (put k v m)) ≡ select p (values m)
  unfolding get put select
  select-put_new p k v [] h e = rw e refl
  select-put_new p k v ((i, w) ∷ m) h e = ground (arith, select-put_new p k v m)

  module _ (f : V → ℕ) where
    -- The sum over the values changes by what is written.
    pub sum_by-put_new :
        (k : K) (v : V) (m : Dict K V)
        → get k m ≡ none
        → sum_by f (values (put k v m)) ≡ sum_by f (values m) + f v
    unfolding get put sum_by
    sum_by-put_new k v [] h = omega arith
    sum_by-put_new k v ((i, w) ∷ m) h = ground (arith, sum_by-put_new k v m)

    pub sum_by-put_old :
        (k : K) (v w : V) (m : Dict K V)
        → get k m ≡ some w
        → sum_by f (values (put k v m)) + f w ≡ sum_by f (values m) + f v
    unfolding get put sum_by
    sum_by-put_old k v w [] h = cc
    sum_by-put_old k v w ((i, u) ∷ m) h = ground (arith, sum_by-put_old k v w m)

    pub sum_by-remove-le :
        (k : K) (m : Dict K V) → sum_by f (values (remove k m)) ≤ sum_by f (values m)
    unfolding remove sum_by
    sum_by-remove-le k [] = omega arith
    sum_by-remove-le k ((i, w) ∷ m) = ground (arith, sum_by-remove-le k m)

    pub sum_by-remove :
        (k : K) (w : V) (m : Dict K V)
        → Distinct m
        → get k m ≡ some w
        → sum_by f (values (remove k m)) + f w ≡ sum_by f (values m)
    unfolding get remove sum_by
    sum_by-remove k w [] d h = cc
    sum_by-remove k w ((i, u) ∷ m) d h = ground (arith, sum_by-remove k w m d.1, remove_absent k m)

  pub In-get : (k : K) (v : V) (m : Dict K V) → get k m ≡ some v → In (k, v) m
  unfolding get
  In-get k v [] h = cc
  In-get k v ((i, w) ∷ m) h = elim (dec i k) [
    | yes p ↦ let e : Path (K × V) (i, w) (k, v) = ground arith in rw e here
    | no p ↦ there (In-get k v m (ground arith))
  ]

  pub length-remove-le : (k : K) (m : Dict K V) → length (remove k m) ≤ length m
  unfolding remove
  length-remove-le k [] = omega arith
  length-remove-le k ((i, w) ∷ m) = ground (arith, length-remove-le k m)

  pub length-remove :
      (k : K) (w : V) (m : Dict K V) → get k m ≡ some w → length (remove k m) < length m
  unfolding get remove
  length-remove k w [] h = cc
  length-remove k w ((i, u) ∷ m) h = ground (arith, length-remove k w m, length-remove-le k m)

  pub length-put-le : (k : K) (v : V) (m : Dict K V) → length (put k v m) ≤ length m + 1
  unfolding put
  length-put-le k v [] = omega arith
  length-put-le k v ((i, w) ∷ m) = ground (arith, length-put-le k v m)

  pub length-put_old :
      (k : K) (v w : V) (m : Dict K V) → get k m ≡ some w → length (put k v m) ≡ length m
  unfolding get put
  length-put_old k v w [] h = cc
  length-put_old k v w ((i, u) ∷ m) h = ground (arith, length-put_old k v w m)

  -- What holds of every item
  module _ {κ} (P : K × V → Type κ) where
    pub put-All : (k : K) (v : V) (m : Dict K V) → P (k, v) → All P m → All P (put k v m)
    unfolding put
    put-All k v [] p a = (p, tt)
    put-All k v ((i, w) ∷ m) p a =
        ite-rule (All P) (dec i k) _ _ (λ q. let r : P (i, v) = rw q p in (r, a.1))
          (λ q. (a.0, put-All k v m p a.1))

    pub remove-All : (k : K) (m : Dict K V) → All P m → All P (remove k m)
    unfolding remove
    remove-All k [] a = tt
    remove-All k ((i, w) ∷ m) a =
        ite-rule (All P) (dec i k) _ _ (λ q. remove-All k m a.1) (λ q. (a.0, remove-All k m a.1))

    pub get-All : (k : K) (v : V) (m : Dict K V) → get k m ≡ some v → All P m → P (k, v)
    unfolding get
    get-All k v [] h a = absurd (ground arith)
    get-All k v ((i, w) ∷ m) h a = elim (dec i k) [
      | yes q ↦ let e : Path (K × V) (i, w) (k, v) = ground arith in rw (sym e) a.0
      | no q ↦ get-All k v m (ground arith) a.1
    ]

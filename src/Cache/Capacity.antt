-- ===== src/Cache/Capacity.antt =====
-- Pruning and making room.
use llama.Prelude.{
  ℕ, zero, suc, ◌+◌, ◌≤◌, ◌<◌, ◌≡◌, refl, inl, inr, List, [], ◌∷◌, some, String, String_discrete,
  ◌==◌, ok, err, length, first_min, first_min-In, arith, In, here, there, Bool-cases,
}
use llama.Prelude.Dict
use llama.Prelude.Dict.{Dict, values, length-remove}
use llama.Cache.Entries.{
  Entry, Cache, capacity_error, Outcome, Done, remove_locked, evict, evict_all, prune_locked, older,
  is_full, evictable, make_room, ensure_capacity,
}
use llama.Cache.Accounting.{
  Accounts, Droppable, Dropped, Dropped-refl, Dropped-trans, evict-Dropped, remove-Droppable,
  select-Droppable,
}

evict_all-Dropped :
    (c : Cache) (es : List Entry) → Accounts c → Droppable c.entries es → Dropped c (evict_all c es)
unfolding evict_all
evict_all-Dropped c [] a d = Dropped-refl c a
evict_all-Dropped c (e ∷ es) a d =
    let one = evict-Dropped c e a d.0 d.1 in
    Dropped-trans c (evict c e) (evict_all (evict c e) es) one (
      evict_all-Dropped (evict c e) es one.accounts
        (unfold remove_locked in remove-Droppable e.entry_id c.entries es d.2 d.3))

-- Pruning drops unleased entries only.
pub prune_locked-Dropped : (c : Cache) (now : ℕ) → Accounts c → Dropped c (prune_locked c now)
unfolding prune_locked
prune_locked-Dropped c now a =
    evict_all-Dropped c _ a (select-Droppable _ c.entries (λ e h. ground arith) a.distinct a.keyed)

In-Droppable :
    (m : Dict String Entry) (es : List Entry) (x : Entry)
    → Droppable m es
    → In x es
    → (Dict.get String_discrete x.entry_id m ≡ some x) × (x.refcount ≡ 0)
In-Droppable m [] x d i = elim i [ ]
In-Droppable m (e ∷ es) x d here = (d.0, d.1)
In-Droppable m (e ∷ es) x d (there i) = In-Droppable m es x d.3 i

abbrev pub HasRoom : Cache → ℕ → Type 0
HasRoom c n = (c.bytes_used + n ≤ c.byte_budget) × (length c.entries < c.max_entries)

-- What making room does, on each outcome.
abbrev pub MadeRoom : Cache → ℕ → Outcome Done → Type 0
MadeRoom c n (d, ok u) = Dropped c d × HasRoom d n
MadeRoom c n (d, err x) = Dropped c d × (x ≡ capacity_error)

victim-Dropped :
    (c : Cache) (e : Entry) (es : List Entry)
    → Accounts c
    → evictable c ≡ e ∷ es
    → let v = first_min older e es in
      Dropped c (evict c v) × (length (evict c v).entries < length c.entries)
unfolding remove_locked
victim-Dropped c e es a q =
    let v = first_min older e es in
    let drops =
      select-Droppable (λ x. x.refcount == 0) c.entries (λ x h. ground arith) a.distinct a.keyed in
    let found = In-Droppable c.entries (e ∷ es) v (rw q at drops) (first_min-In older e es) in
    (
      evict-Dropped c v a found.0 found.1,
      length-remove String_discrete v.entry_id v c.entries found.0,
    )

MadeRoom-later :
    (c d : Cache) (n : ℕ) (r : Outcome Done) → Dropped c d → MadeRoom d n r → MadeRoom c n r
MadeRoom-later c d n (e, ok u) p m = (Dropped-trans c d e p m.0, m.1)
MadeRoom-later c d n (e, err x) p m = (Dropped-trans c d e p m.0, m.1)

-- One round, with the evictable entries in hand and the later rounds as a hypothesis.
round-MadeRoom :
    (fuel : ℕ) (c : Cache) (n : ℕ) (l : List Entry)
    → evictable c ≡ l
    → Accounts c
    → ((d : Cache)
        → length d.entries < length c.entries
        → Accounts d
        → MadeRoom d n (make_room fuel d n))
    → MadeRoom c n (elim l [
      | [] ↦ (c, err capacity_error)
      | e ∷ es ↦ make_room fuel (evict c (first_min older e es)) n
    ])
round-MadeRoom fuel c n [] q a rec = (Dropped-refl c a, refl)
round-MadeRoom fuel c n (e ∷ es) q a rec =
    let v = victim-Dropped c e es a q in
    let d = evict c (first_min older e es) in
    MadeRoom-later c d n (make_room fuel d n) v.0 (rec d v.1 v.0.accounts)

make_room-MadeRoom :
    (fuel : ℕ) (c : Cache) (n : ℕ)
    → length c.entries < fuel
    → Accounts c
    → MadeRoom c n (make_room fuel c n)
unfolding make_room
make_room-MadeRoom zero c n h a = absurd (omega arith)
make_room-MadeRoom (suc fuel) c n h a = elim (Bool-cases (is_full c n)) [
  | inl e ↦
      rw (e, make_room)
        (round-MadeRoom fuel c n (evictable c) refl a
          (λ d less b. make_room-MadeRoom fuel d n (omega arith) b))
  | inr e ↦ rw (e, make_room) (Dropped-refl c a, (ground arith, ground arith))
]

-- Making room for `n` bytes ends on every cache whose books are right, for its fuel is never used
-- up. If it succeeds, `n` more bytes and one more entry fit; if it fails, then by a capacity error.
-- Either way it has dropped entries only that nobody had leased, and the books are still right.
pub ensure_capacity-MadeRoom :
    (c : Cache) (n now : ℕ) → Accounts c → MadeRoom c n (ensure_capacity c n now)
unfolding ensure_capacity
ensure_capacity-MadeRoom c n now a =
    let p = prune_locked-Dropped c now a in
    let d = prune_locked c now in
    MadeRoom-later c d n (make_room (suc (length d.entries)) d n) p
      (make_room-MadeRoom (suc (length d.entries)) d n (omega arith) p.accounts)

pub MadeRoom-Dropped : (c : Cache) (n : ℕ) (r : Outcome Done) → MadeRoom c n r → Dropped c r.0
MadeRoom-Dropped c n (d, ok u) m = m.0
MadeRoom-Dropped c n (d, err x) m = m.0

pub MadeRoom-ok :
    (c : Cache) (n : ℕ) (r : Outcome Done) → MadeRoom c n r → r.1 ≡ ok tt → HasRoom r.0 n
MadeRoom-ok c n (d, ok u) m e = m.1
MadeRoom-ok c n (d, err x) m e = cc

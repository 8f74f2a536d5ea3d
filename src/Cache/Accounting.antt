-- ===== src/Cache/Accounting.antt =====
-- The byte count, the number of entries and the identifiers of the cache.
use llama.Prelude.{
  ◌≤◌, ◌<◌, ◌≡◌, refl, ◌∙◌, ◌≢◌, inl, inr, Bool, true, false, List, [], ◌∷◌, none, some, String,
  String_discrete, select, sum_by, length, arith, All, Bool-cases,
}
use llama.Prelude.Dict
use llama.Prelude.Dict.{
  length-remove-le, Dict, values, Distinct, get-put, get-remove, put-Distinct, remove-Distinct,
  sum_by-remove, length-remove,
}
use llama.Cache.Entries.{Entry, Cache, remove_locked, evict}

-- The entry that stands under each key carries that key as its identifier.
abbrev pub Keyed : Dict String Entry → Type 0
Keyed = All (λ p. p.1.entry_id ≡ p.0)

-- The count of bytes is that of the entries, and no identifier stands twice.
pub record Accounts (c : Cache) : Type 0 where
  pub distinct : Distinct String_discrete c.entries
  pub keyed : Keyed c.entries
  pub bytes : c.bytes_used ≡ sum_by (λ e. e.byte_size) (values c.entries)

-- An entry that stands in the cache.
abbrev pub Stored : Cache → Entry → Type 0
Stored c e = Dict.get String_discrete e.entry_id c.entries ≡ some e

-- Entries that stand in the cache under identifiers that all differ, and that nobody holds.
abbrev pub Droppable : Dict String Entry → List Entry → Type 0
Droppable m [] = Unit
Droppable m (e ∷ es) =
    (Dict.get String_discrete e.entry_id m ≡ some e)
    × (e.refcount ≡ 0)
    × All (λ x. e.entry_id ≢ x.entry_id) es
    × Droppable m es

-- A leased entry stays as it is.
abbrev pub Pins : Cache → Cache → Type 0
Pins c d =
    (id : String) (e : Entry)
    → Dict.get String_discrete id c.entries ≡ some e
    → 0 < e.refcount
    → Dict.get String_discrete id d.entries ≡ some e

pub Keyed-id :
    (k : String) (e : Entry) (m : Dict String Entry)
    → Dict.get String_discrete k m ≡ some e
    → Keyed m
    → e.entry_id ≡ k
unfolding Dict.get
Keyed-id k e [] g h = cc
Keyed-id k e ((j, w) ∷ m) g h = ground (arith, Keyed-id k e m)

remove-Keyed :
    (k : String) (m : Dict String Entry) → Keyed m → Keyed (Dict.remove String_discrete k m)
unfolding Dict.remove
remove-Keyed k [] h = tt
remove-Keyed k ((j, w) ∷ m) h = ground (arith, remove-Keyed k m)

pub remove_locked-Accounts :
    (c : Cache) (e : Entry) (b : Bool) → Accounts c → Stored c e → Accounts (remove_locked c e b)
unfolding remove_locked
remove_locked-Accounts c e b a s = record {
  distinct = remove-Distinct String_discrete e.entry_id c.entries a.distinct;
  keyed = remove-Keyed e.entry_id c.entries a.keyed;
  bytes = omega (
    arith,
    a.bytes,
    sum_by-remove String_discrete (λ (x : Entry). x.byte_size) e.entry_id e c.entries a.distinct s,
  );
}

remove_locked-Pins :
    (c : Cache) (e : Entry) (b : Bool) → Stored c e → e.refcount ≡ 0 → Pins c (remove_locked c e b)
unfolding remove_locked
remove_locked-Pins c e b s free id x g held =
    ground (arith, get-remove String_discrete e.entry_id id c.entries)

-- Dropping one entry leaves those with other identifiers.
pub remove-Droppable :
    (k : String) (m : Dict String Entry) (es : List Entry)
    → All (λ x. k ≢ x.entry_id) es
    → Droppable m es
    → Droppable (Dict.remove String_discrete k m) es
remove-Droppable k m [] a d = tt
remove-Droppable k m (e ∷ es) a d =
    let other : k ≢ e.entry_id = a.0 in
    let stored : Dict.get String_discrete e.entry_id m ≡ some e = d.0 in
    (
      ground (arith, get-remove String_discrete k e.entry_id m),
      d.1,
      d.2,
      remove-Droppable k m es a.1 d.3,
    )

-- Nothing under `k` in `m`, so the entries of `m` stay found when `k` is put in front.
Droppable-cons :
    (k : String) (w : Entry) (m : Dict String Entry) (es : List Entry)
    → Dict.get String_discrete k m ≡ none
    → Droppable m es
    → Droppable ((k, w) ∷ m) es × All (λ x. k ≢ x.entry_id) es
unfolding Dict.get
Droppable-cons k w m [] h d = (tt, tt)
Droppable-cons k w m (e ∷ es) h d =
    let rest = Droppable-cons k w m es h d.3 in
    let other : k ≢ e.entry_id = (λ p. let found = d.0 in ground arith) in
    ((ground (arith, d.0), d.1, d.2, rest.0), (other, rest.1))

-- The unleased entries that a comprehension over the cache collects can be dropped one by one.
pub select-Droppable :
    (p : Entry → Bool) (m : Dict String Entry)
    → ((e : Entry) → p e ≡ true → e.refcount ≡ 0)
    → Distinct String_discrete m
    → Keyed m
    → Droppable m (select p (values m))
unfolding select Dict.get
select-Droppable p [] free d k = tt
select-Droppable p ((j, w) ∷ m) free d k =
    let rest = select-Droppable p m free d.1 k.1 in
    let both = Droppable-cons j w m (select p (values m)) d.0 rest in
    let id : w.entry_id ≡ j = k.0 in
    elim (Bool-cases (p w)) [
      | inl e ↦ rw (e, select) (ground arith, free w e, rw id both.1, both.0)
      | inr e ↦ rw (e, select) both.0
    ]

pub Pins-trans : (c d e : Cache) → Pins c d → Pins d e → Pins c e
Pins-trans c d e p q id x g held = q id x (p id x g held) held

-- What dropping entries keeps.
pub record Dropped (c d : Cache) : Type 0 where
  pub accounts : Accounts d
  pub pins : Pins c d
  pub budget : d.byte_budget ≡ c.byte_budget
  pub max_entries : d.max_entries ≡ c.max_entries
  pub ttl : d.ttl_seconds ≡ c.ttl_seconds
  pub fewer : length d.entries ≤ length c.entries
  pub lighter : d.bytes_used ≤ c.bytes_used
  pub absent :
      (id : String)
      → Dict.get String_discrete id c.entries ≡ none
      → Dict.get String_discrete id d.entries ≡ none

pub Dropped-refl : (c : Cache) → Accounts c → Dropped c c
Dropped-refl c a = record {
  accounts = a;
  pins = λ id e g h. g;
  budget = refl;
  max_entries = refl;
  ttl = refl;
  fewer = omega arith;
  lighter = omega arith;
  absent = λ id h. h;
}

pub Dropped-trans : (c d e : Cache) → Dropped c d → Dropped d e → Dropped c e
Dropped-trans c d e p q = record {
  accounts = q.accounts;
  pins = Pins-trans c d e p.pins q.pins;
  budget = q.budget ∙ p.budget;
  max_entries = q.max_entries ∙ p.max_entries;
  ttl = q.ttl ∙ p.ttl;
  fewer = omega (arith, p.fewer, q.fewer);
  lighter = omega (arith, p.lighter, q.lighter);
  absent = λ id h. q.absent id (p.absent id h);
}

pub remove_locked-Dropped :
    (c : Cache) (e : Entry) (b : Bool)
    → Accounts c
    → Stored c e
    → e.refcount ≡ 0
    → Dropped c (remove_locked c e b)
unfolding remove_locked
remove_locked-Dropped c e b a s free = record {
  accounts = remove_locked-Accounts c e b a s;
  pins = remove_locked-Pins c e b s free;
  budget = refl;
  max_entries = refl;
  ttl = refl;
  fewer = length-remove-le String_discrete e.entry_id c.entries;
  lighter = omega arith;
  absent = λ id h. ground (arith, get-remove String_discrete e.entry_id id c.entries);
}

pub evict-Dropped :
    (c : Cache) (e : Entry) → Accounts c → Stored c e → e.refcount ≡ 0 → Dropped c (evict c e)
evict-Dropped c e a s free =
    let d = remove_locked-Dropped c e false a s free in
    record {
      accounts = record {
        distinct = d.accounts.distinct;
        keyed = d.accounts.keyed;
        bytes = d.accounts.bytes;
      };
      pins = d.pins;
      budget = d.budget;
      max_entries = d.max_entries;
      ttl = d.ttl;
      fewer = d.fewer;
      lighter = d.lighter;
      absent = d.absent;
    }

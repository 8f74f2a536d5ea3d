-- ===== src/Cache/Bounds.antt =====
-- The budgets of the cache hold after every operation.
use llama.Prelude.{
  ℕ, ◌+◌, ◌≤◌, ◌≡◌, refl, ap, ◌∙◌, inl, inr, true, List, [], ◌∷◌, Option, none, some, String,
  String_discrete, ltb, ◌==◌, if◌then◌else◌, ok, err, length, arith, Bool-cases, if-rule,
  Option-cases,
}
use llama.Prelude.Dict
use llama.Prelude.Dict.{
  Dict, values, Distinct, get-put, put-Distinct, sum_by-put_new, sum_by-put_old, length-put-le,
  length-put_old,
}
use llama.Cache.Scope.{CacheScope, ExactTokenCacheKey, Index_discrete}
use llama.Cache.Entries.{
  value_error, capacity_error, Entry, Cache, Outcome, Done, prune_locked, ensure_capacity,
  ◌then_do◌,
}
use llama.Cache.Store.{replace_existing, make_way, new_entry, insert_entry, put}
use llama.Cache.Accounting.{
  Pins, Pins-trans, Keyed-id, Accounts, Keyed, Stored, Dropped, Dropped-refl, Dropped-trans,
  remove_locked-Dropped,
}
use llama.Cache.Capacity.{
  MadeRoom-Dropped, MadeRoom-ok, HasRoom, prune_locked-Dropped, ensure_capacity-MadeRoom,
}

pub record IsBounded (c : Cache) : Type 0 where
  pub accounts : Accounts c
  pub bytes : c.bytes_used ≤ c.byte_budget
  pub count : length c.entries ≤ c.max_entries

pub Dropped-IsBounded : (c d : Cache) → Dropped c d → IsBounded c → IsBounded d
Dropped-IsBounded c d p b = record {
  accounts = p.accounts;
  bytes = omega (arith, p.budget, p.lighter, b.bytes);
  count = omega (arith, p.max_entries, p.fewer, b.count);
}

pub put-Keyed :
    (k : String) (e : Entry) (m : Dict String Entry)
    → e.entry_id ≡ k
    → Keyed m
    → Keyed (Dict.put String_discrete k e m)
unfolding Dict.put
put-Keyed k e [] h d = (h, tt)
put-Keyed k e ((j, w) ∷ m) h d = ground (arith, put-Keyed k e m)

-- Adding an entry where there is room for it.
pub added-IsBounded :
    (c : Cache) (e : Entry) (d : Cache)
    → Dict.get String_discrete e.entry_id c.entries ≡ none
    → Accounts c
    → HasRoom c e.byte_size
    → d.entries ≡ Dict.put String_discrete e.entry_id e c.entries
    → d.bytes_used ≡ c.bytes_used + e.byte_size
    → d.byte_budget ≡ c.byte_budget
    → d.max_entries ≡ c.max_entries
    → IsBounded d
added-IsBounded c e d fresh a room entries bytes budget count = record {
  accounts = record {
    distinct = rw entries (put-Distinct String_discrete e.entry_id e c.entries a.distinct);
    keyed = rw entries (put-Keyed e.entry_id e c.entries refl a.keyed);
    bytes = rw entries (
        omega (
          arith,
          bytes,
          a.bytes,
          sum_by-put_new String_discrete (λ (x : Entry). x.byte_size) e.entry_id e c.entries fresh,
        ));
  };
  bytes = omega (arith, bytes, budget, room.0);
  count =
      rw entries
        (omega (arith, count, room.1, length-put-le String_discrete e.entry_id e c.entries));
}

-- Changing an entry in place, at the same size.
pub changed-IsBounded :
    (c : Cache) (e x : Entry) (d : Cache)
    → Stored c e
    → x.entry_id ≡ e.entry_id
    → x.byte_size ≡ e.byte_size
    → IsBounded c
    → d.entries ≡ Dict.put String_discrete e.entry_id x c.entries
    → d.bytes_used ≡ c.bytes_used
    → d.byte_budget ≡ c.byte_budget
    → d.max_entries ≡ c.max_entries
    → IsBounded d
changed-IsBounded c e x d s id size b entries bytes budget count = record {
  accounts = record {
    distinct = rw entries (put-Distinct String_discrete e.entry_id x c.entries b.accounts.distinct);
    keyed = rw entries (put-Keyed e.entry_id x c.entries id b.accounts.keyed);
    bytes = rw entries (
        omega (
          arith,
          bytes,
          size,
          b.accounts.bytes,
          sum_by-put_old String_discrete (λ (y : Entry). y.byte_size) e.entry_id x e c.entries s,
        ));
  };
  bytes = omega (arith, bytes, budget, b.bytes);
  count =
      rw entries
        (omega (arith, count, b.count, length-put_old String_discrete e.entry_id x e c.entries s));
}

-- Giving way drops at most the entry of the same key and scope.
replace_existing-Dropped :
    (c : Cache) (id : String) (o : Option Entry)
    → Dict.get String_discrete id c.entries ≡ o
    → Accounts c
    → Dropped c (replace_existing c o).0
unfolding replace_existing
replace_existing-Dropped c id none g a = Dropped-refl c a
replace_existing-Dropped c id (some e) g a =
    let same = Keyed-id id e c.entries g a.keyed in
    let stored : Stored c e = ap (λ k. Dict.get String_discrete k c.entries) same ∙ g in
    elim (Bool-cases (e.refcount == 0)) [
      | inl free ↦
          rw (free, replace_existing) (remove_locked-Dropped c e true a stored (ground arith))
      | inr held ↦ rw (held, replace_existing) (Dropped-refl c a)
    ]

pub make_way-Dropped :
    (c : Cache) (key : ExactTokenCacheKey) (scope : CacheScope)
    → Accounts c
    → Dropped c (make_way c key scope).0
unfolding make_way
make_way-Dropped c key scope a =
    elim (Option-cases (Dict.get Index_discrete (key, scope) c.index)) [
      | inl e ↦ rw (e, make_way) (Dropped-refl c a)
      | inr (id, e) ↦ rw (e, make_way) (replace_existing-Dropped c id _ refl a)
    ]

-- What holds of the cache after the first call, and is kept by the second if the first succeeds.
pub then_do-rule :
    {A : Type 0} (P : Cache → Type 0) (m : Outcome Done) (f : Cache → Outcome A)
    → P m.0
    → (m.1 ≡ ok tt → P (f m.0).0)
    → P (m then_do f).0
then_do-rule P (c, err x) f p q = p
then_do-rule P (c, ok tt) f p q = q refl

abbrev pub placed : Cache → ExactTokenCacheKey → CacheScope → List ℕ → ℕ → String → Outcome String
placed d key scope payload now id = (insert_entry d (new_entry d key scope payload now id), ok id)

-- The books are right and within the budgets, and every leased entry is as it was.
pub record Safe (c d : Cache) : Type 0 where
  pub bounded : IsBounded d
  pub pins : Pins c d

pub Dropped-Safe : (c d : Cache) → Dropped c d → IsBounded c → Safe c d
Dropped-Safe c d p b = record { bounded = Dropped-IsBounded c d p b; pins = p.pins }

-- Writing under an unused identifier changes no entry that stands there.
pub fresh-Pins :
    (c d : Cache) (e : Entry)
    → Dict.get String_discrete e.entry_id c.entries ≡ none
    → d.entries ≡ Dict.put String_discrete e.entry_id e c.entries
    → Pins c d
fresh-Pins c d e fresh entries id x g held =
    rw entries (ground (arith, get-put String_discrete e.entry_id id e c.entries))

insert_entry-Safe :
    (b c : Cache) (e : Entry)
    → Dropped b c
    → Dict.get String_discrete e.entry_id b.entries ≡ none
    → HasRoom c e.byte_size
    → Safe b (insert_entry c e)
unfolding insert_entry
insert_entry-Safe b c e p unused room =
    let fresh = p.absent e.entry_id unused in
    record {
      bounded = added-IsBounded c e (insert_entry c e) fresh p.accounts room refl refl refl refl;
      pins =
          Pins-trans b c (insert_entry c e) p.pins (fresh-Pins c (insert_entry c e) e fresh refl);
    }

-- The calls of `put` that may drop entries.
cleared-Dropped :
    (c : Cache) (key : ExactTokenCacheKey) (scope : CacheScope) (n now : ℕ)
    → IsBounded c
    → let r = make_way (prune_locked c now) key scope then_do (λ d. ensure_capacity d n now) in
      Dropped c r.0 × (r.1 ≡ ok tt → HasRoom r.0 n)
cleared-Dropped c key scope n now b =
    let p = prune_locked-Dropped c now b.accounts in
    let pruned = prune_locked c now in
    cleared (make_way pruned key scope) (
      Dropped-trans c pruned (make_way pruned key scope).0 p
        (make_way-Dropped pruned key scope p.accounts))
  where
    cleared :
        (m : Outcome Done)
        → Dropped c m.0
        → let r = m then_do (λ d. ensure_capacity d n now) in
          Dropped c r.0 × (r.1 ≡ ok tt → HasRoom r.0 n)
    cleared (d, err x) q = (q, λ e. cc)
    cleared (d, ok tt) q =
        let m = ensure_capacity-MadeRoom d n now q.accounts in
        (
          Dropped-trans c d (ensure_capacity d n now).0 q
              (MadeRoom-Dropped d n (ensure_capacity d n now) m),
          MadeRoom-ok d n (ensure_capacity d n now) m,
        )

-- After `put`, whether it raised or not, the count of bytes is that of the entries, at most the
-- byte budget, there are at most `max_entries` entries, and every entry that was leased stands as
-- it was. The new identifier is taken to be unused.
pub put-Safe :
    (c : Cache) (key : ExactTokenCacheKey) (scope : CacheScope) (payload : List ℕ) (now : ℕ)
    (id : String)
    → IsBounded c
    → Dict.get String_discrete id c.entries ≡ none
    → Safe c (put c key scope payload now id).0
unfolding put
put-Safe c key scope payload now id b fresh =
    let stay = Dropped-Safe c c (Dropped-refl c b.accounts) b in
    let n = length payload in
    let r = make_way (prune_locked c now) key scope then_do (λ d. ensure_capacity d n now) in
    let p = cleared-Dropped c key scope n now b in
    let done : Safe c (r then_do (λ d. placed d key scope payload now id)).0 =
      then_do-rule (Safe c) r (λ d. placed d key scope payload now id) (Dropped-Safe c r.0 p.0 b)
        (λ e. insert_entry-Safe c r.0 (new_entry r.0 key scope payload now id) p.0 fresh (p.1 e)) in
    let P = λ (q : Outcome String). Safe c q.0 in
    let rest = r then_do (λ d. placed d key scope payload now id) in
    if-rule P (n == 0) (c, err value_error)
      (if ltb c.byte_budget n then (c, err capacity_error) else rest) stay
      (if-rule P (ltb c.byte_budget n) (c, err capacity_error) rest stay done)

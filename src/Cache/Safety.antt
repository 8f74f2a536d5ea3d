-- ===== src/Cache/Safety.antt =====
-- Leasing, releasing and invalidating keep the books, the budgets and what is leased.
use mathlib.Core.Path.{subst}
use llama.Prelude.{
  sym, ℕ, ◌≤◌, ◌<◌, ◌≡◌, refl, ap, ◌∙◌, Bool, true, false, not, ◌&&◌, [], ◌∷◌, Option, none, some,
  String, String_discrete, ◌==◌, ok, arith, In, here, there, if-rule,
}
use llama.Prelude.Dict
use llama.Prelude.Dict.{Dict, values, Distinct, get-put, get-remove, put-Distinct}
use llama.Cache.Scope.{CacheScope, ExactTokenCacheKey}
use llama.Cache.Entries.{Entry, Cache, Outcome, CacheLease, ensure_capacity, ◌then_do◌}
use llama.Cache.Leases.{
  lease_of, count_hit, leased_now, clone_of, add_clone, lease_in_place, lease_entry,
}
use llama.Cache.Accounting.{Pins, Pins-trans, Keyed, Stored, Dropped}
use llama.Cache.Capacity.{MadeRoom-Dropped, MadeRoom-ok, HasRoom, ensure_capacity-MadeRoom}
use llama.Cache.Bounds.{
  IsBounded, Safe, Dropped-Safe, added-IsBounded, changed-IsBounded, fresh-Pins, then_do-rule,
}

-- What stays of a leased entry while others use the cache: all that its lease can see.
pub record Holds (e f : Entry) : Type 0 where
  pub generation : f.generation ≡ e.generation
  pub key : f.key ≡ e.key
  pub payload : f.payload ≡ e.payload
  pub refcount : e.refcount ≤ f.refcount

abbrev pub Keeps : Cache → Cache → Type 0
Keeps c d =
    (id : String) (e : Entry)
    → Dict.get String_discrete id c.entries ≡ some e
    → 0 < e.refcount
    → (f : Entry) × (Dict.get String_discrete id d.entries ≡ some f) × Holds e f

pub Holds-refl : (e : Entry) → Holds e e
Holds-refl e = record { generation = refl; key = refl; payload = refl; refcount = omega arith }

pub Pins-Keeps : (c d : Cache) → Pins c d → Keeps c d
Pins-Keeps c d p id e g h = (e, p id e g h, Holds-refl e)

-- The entries of a cache that are found among its values are found under their identifiers.
pub In-Stored :
    (m : Dict String Entry) (x : Entry)
    → Distinct String_discrete m
    → Keyed m
    → In x (values m)
    → Dict.get String_discrete x.entry_id m ≡ some x
unfolding Dict.get
In-Stored [] x d k i = elim i [ ]
In-Stored ((j, w) ∷ m) x d k here = let id : x.entry_id ≡ j = k.0 in ground arith
In-Stored ((j, w) ∷ m) x d k (there i) =
    let rest = In-Stored m x d.1 k.1 i in
    let new : Dict.get String_discrete j m ≡ none = d.0 in
    elim (String_discrete j x.entry_id) [
      | yes p ↦ absurd (let q : Dict.get String_discrete x.entry_id m ≡ none = rw (← p) new in cc)
      | no p ↦ ground arith
    ]

-- The entry under an identifier is one entry.
pub same_entry :
    (c : Cache) (e f : Entry) (id : String)
    → Stored c e
    → e.entry_id ≡ id
    → Dict.get String_discrete id c.entries ≡ some f
    → e ≡ f
same_entry c e f id s p g =
    let q : Dict.get String_discrete id c.entries ≡ some e =
      ap (λ k. Dict.get String_discrete k c.entries) (sym p) ∙ s in
    cc

-- Changing one entry in place, so that its lease holders see no difference, or nobody leases it.
pub changed-Keeps :
    (c d : Cache) (e x : Entry)
    → Stored c e
    → (0 < e.refcount → Holds e x)
    → d.entries ≡ Dict.put String_discrete e.entry_id x c.entries
    → Keeps c d
changed-Keeps c d e x s same entries id f g h = elim (String_discrete e.entry_id id) [
  | yes p ↦
      let q = same_entry c e f id s p g in
      (
        x,
        rw entries (ground (arith, get-put String_discrete e.entry_id id x c.entries)),
        subst (λ y. 0 < y.refcount → Holds y x) q same h,
      )
  | no p ↦ (
    f,
    rw entries (ground (arith, get-put String_discrete e.entry_id id x c.entries)),
    Holds-refl f,
  )
]

pub lease_in_place-lem :
    (c : Cache) (e : Entry) (now : ℕ)
    → IsBounded c
    → Stored c e
    → IsBounded (lease_in_place c (leased_now c e now))
      × Keeps c (lease_in_place c (leased_now c e now))
unfolding lease_in_place
lease_in_place-lem c e now b s =
    let x = leased_now c e now in
    let d = lease_in_place c x in
    (
      changed-IsBounded c e x d s refl refl b refl refl refl refl,
      changed-Keeps c d e x s
          (λ h. record { generation = refl; key = refl; payload = refl; refcount = omega arith })
          refl,
    )

-- The books and budgets hold, and what is leased is kept.
pub record Serves (c d : Cache) : Type 0 where
  pub bounded : IsBounded d
  pub keeps : Keeps c d

pub Safe-Serves : (c d : Cache) → Safe c d → Serves c d
Safe-Serves c d s = record { bounded = s.bounded; keeps = Pins-Keeps c d s.pins }

pub count_hit-Serves :
    (c d : Cache) (key : ExactTokenCacheKey) → Serves c d → Serves c (count_hit d key)
count_hit-Serves c d key s = record {
  bounded = record {
    accounts = record {
      distinct = s.bounded.accounts.distinct;
      keyed = s.bounded.accounts.keyed;
      bytes = s.bounded.accounts.bytes;
    };
    bytes = s.bounded.bytes;
    count = s.bounded.count;
  };
  keeps = s.keeps;
}

pub add_clone-Safe :
    (b c : Cache) (e : Entry)
    → Dropped b c
    → Dict.get String_discrete e.entry_id b.entries ≡ none
    → HasRoom c e.byte_size
    → Safe b (add_clone c e)
unfolding add_clone
add_clone-Safe b c e p unused room =
    let fresh = p.absent e.entry_id unused in
    record {
      bounded = added-IsBounded c e (add_clone c e) fresh p.accounts room refl refl refl refl;
      pins = Pins-trans b c (add_clone c e) p.pins (fresh-Pins c (add_clone c e) e fresh refl);
    }

pub lease_entry-Serves :
    (c : Cache) (key : ExactTokenCacheKey) (e : Entry) (requester : CacheScope) (mutable : Bool)
    (now : ℕ) (id : String)
    → IsBounded c
    → Stored c e
    → Dict.get String_discrete id c.entries ≡ none
    → Serves c (lease_entry c key e requester mutable now id).0
unfolding lease_entry
lease_entry-Serves c key e requester mutable now id b s fresh =
    let m = ensure_capacity-MadeRoom c e.byte_size now b.accounts in
    let r = ensure_capacity c e.byte_size now in
    let p = MadeRoom-Dropped c e.byte_size r m in
    let copy = λ (d : Cache).
      let clone = clone_of d e requester now id in
      let res : Outcome (Option CacheLease) =
        (count_hit (add_clone d clone) key, ok (some (lease_of clone mutable true))) in
      res in
    let Q = λ (q : Outcome (Option CacheLease)). Serves c q.0 in
    let place = lease_in_place-lem c e now b s in
    if-rule Q (mutable && not (e.refcount == 0)) (r then_do copy)
      (count_hit (lease_in_place c (leased_now c e now)) key, ok (some (lease_of e mutable false)))
      (then_do-rule (Serves c) r copy (Safe-Serves c r.0 (Dropped-Safe c r.0 p b)) (λ q.
        let d = add_clone r.0 (clone_of r.0 e requester now id) in
        count_hit-Serves c d key (
          Safe-Serves c d (
            add_clone-Safe c r.0 (clone_of r.0 e requester now id) p fresh
              (MadeRoom-ok c e.byte_size r m q)))))
      (count_hit-Serves c (lease_in_place c (leased_now c e now)) key
        (record { bounded = place.0; keeps = place.1 }))

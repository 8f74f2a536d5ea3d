-- ===== src/Cache/Operations.antt =====
-- Every operation of the cache, in any order.
use llama.Prelude.{
  ℕ, ◌+◌, ◌-◌, ◌≡◌, refl, ap, ◌∙◌, inl, inr, Bool, true, false, not, ◌&&◌, ◌||◌, List, [], ◌∷◌,
  Option, none, String, String_discrete, ◌==◌, err, length, first_min, first_min-In, arith, In,
  Bool-cases, if-rule, Option-cases, In-select,
}
use llama.Prelude.Dict
use llama.Prelude.Dict.{Dict, values, get-put}
use llama.Cache.Scope.{CacheKind, CacheNamespace, CacheScope, ExactTokenCacheKey, is_prefix}
use llama.Cache.Entries.{
  Entry, Cache, value_error, Outcome, CacheLease, remove_locked, prune_locked,
}
use llama.Cache.Leases.{
  matching, allowed, narrower, acquire_pruned, acquire, remove_all, targets, invalidate, prune,
  drop_lease, release_found, release,
}
use llama.Cache.Accounting.{
  Accounts, Stored, Dropped, Dropped-refl, Dropped-trans, remove_locked-Dropped, Droppable,
  remove-Droppable, select-Droppable, Keyed-id,
}
use llama.Cache.Capacity.{prune_locked-Dropped}
use llama.Cache.Bounds.{IsBounded, Dropped-IsBounded, Dropped-Safe, changed-IsBounded}
use llama.Cache.Safety.{Holds, Serves, Safe-Serves, In-Stored, lease_entry-Serves}

pub Holds-trans : (e f g : Entry) → Holds e f → Holds f g → Holds e g
Holds-trans e f g p q = record {
  generation = q.generation ∙ p.generation;
  key = q.key ∙ p.key;
  payload = q.payload ∙ p.payload;
  refcount = omega (arith, p.refcount, q.refcount);
}

Serves-trans : (b c d : Cache) → Serves b c → Serves c d → Serves b d
Serves-trans b c d p q = record {
  bounded = q.bounded;
  keeps = λ id e g h.
      let (f, found, held) = p.keeps id e g h in
      let (k, found', held') = q.keeps id f found (omega (arith, held.refcount)) in
      (k, found', Holds-trans e f k held held');
}

Dropped-Serves : (c d : Cache) → Dropped c d → IsBounded c → Serves c d
Dropped-Serves c d p b = Safe-Serves c d (Dropped-Safe c d p b)

-- The counters are in no invariant.
counters-Serves :
    (c d : Cache)
    → d.entries ≡ c.entries
    → d.bytes_used ≡ c.bytes_used
    → d.byte_budget ≡ c.byte_budget
    → d.max_entries ≡ c.max_entries
    → IsBounded c
    → Serves c d
counters-Serves c d entries bytes budget count b = record {
  bounded = record {
    accounts = record {
      distinct = rw entries b.accounts.distinct;
      keyed = rw entries b.accounts.keyed;
      bytes = rw (entries, bytes) b.accounts.bytes;
    };
    bytes = omega (arith, bytes, budget, b.bytes);
    count = rw entries (omega (arith, count, b.count));
  };
  keeps = λ id e g h. (
    e,
    rw entries g,
    record { generation = refl; key = refl; payload = refl; refcount = omega arith },
  );
}

-- What `acquire` chooses from stands in the cache.
pub allowed-Stored :
    (c : Cache) (key : ExactTokenCacheKey) (requester : CacheScope) (e : Entry)
    → IsBounded c
    → In e (allowed c key requester)
    → Stored c e
allowed-Stored c key requester e b i =
    let matched = In-select _ e (matching c key) i in
    let value = In-select _ e (values c.entries) matched.0 in
    In-Stored c.entries e b.accounts.distinct b.accounts.keyed value.0

acquire_pruned-Serves :
    (c : Cache) (key : ExactTokenCacheKey) (requester : CacheScope) (mutable : Bool) (now : ℕ)
    (id : String) (l : List Entry)
    → allowed c key requester ≡ l
    → IsBounded c
    → Dict.get String_discrete id c.entries ≡ none
    → Serves c (acquire_pruned c key requester mutable now id).0
unfolding acquire_pruned
acquire_pruned-Serves c key requester mutable now id [] q b fresh =
    let missed : Cache = record c { misses = c.misses + 1 } in
    let refused : Cache = record c { denied = c.denied + 1 } in
    rw (q, acquire_pruned)
      (if-rule (λ d. Serves c d) (length (matching c key) == 0) missed refused
        (counters-Serves c missed refl refl refl refl b)
        (counters-Serves c refused refl refl refl refl b))
acquire_pruned-Serves c key requester mutable now id (e ∷ es) q b fresh =
    let v = first_min narrower e es in
    rw (q, acquire_pruned)
      (lease_entry-Serves c key v requester mutable now id b
        (allowed-Stored c key requester v b (rw q (first_min-In narrower e es))) fresh)

-- `acquire`, whether it raised, missed or leased, keeps the books and the budgets, and all that other
-- leases can see. The identifier for a copy is taken to be unused.
pub acquire-Serves :
    (c : Cache) (key : ExactTokenCacheKey) (requester : CacheScope) (mutable : Bool) (now : ℕ)
    (id : String)
    → IsBounded c
    → Dict.get String_discrete id c.entries ≡ none
    → Serves c (acquire c key requester mutable now id).0
unfolding acquire
acquire-Serves c key requester mutable now id b fresh =
    let d = prune_locked c now in
    let p = prune_locked-Dropped c now b.accounts in
    let Q = λ (r : Outcome (Option CacheLease)). Serves c r.0 in
    if-rule Q (mutable && is_prefix key.kind) (c, err value_error)
      (acquire_pruned d key requester mutable now id)
      (Dropped-Serves c c (Dropped-refl c b.accounts) b)
      (Serves-trans c d _ (Dropped-Serves c d p b) (
        acquire_pruned-Serves d key requester mutable now id _ refl (Dropped-IsBounded c d p b)
          (p.absent id fresh)))

remove_all-Dropped :
    (c : Cache) (es : List Entry)
    → Accounts c
    → Droppable c.entries es
    → Dropped c (remove_all c es)
unfolding remove_all
remove_all-Dropped c [] a d = Dropped-refl c a
remove_all-Dropped c (e ∷ es) a d =
    let one = remove_locked-Dropped c e true a d.0 d.1 in
    Dropped-trans c (remove_locked c e true) (remove_all (remove_locked c e true) es) one (
      remove_all-Dropped (remove_locked c e true) es one.accounts
        (unfold remove_locked in remove-Droppable e.entry_id c.entries es d.2 d.3))

pub invalidate-Serves :
    (c : Cache) (tenant_id : String) (kind : Option CacheKind) (namespace : Option CacheNamespace)
    → IsBounded c
    → Serves c (invalidate c tenant_id kind namespace).0
unfolding invalidate
invalidate-Serves c tenant_id kind namespace b =
    Dropped-Serves c _
      (remove_all-Dropped c (targets c tenant_id kind namespace) b.accounts
        (select-Droppable _ c.entries (λ e h. ground arith) b.accounts.distinct b.accounts.keyed))
      b

pub prune-Serves : (c : Cache) (now : ℕ) → IsBounded c → Serves c (prune c now).0
unfolding prune
prune-Serves c now b = Dropped-Serves c _ (prune_locked-Dropped c now b.accounts) b

-- Dropping one hold on an entry.
drop_lease-IsBounded :
    (c : Cache) (e : Entry) → IsBounded c → Stored c e → IsBounded (drop_lease c e)
unfolding drop_lease
drop_lease-IsBounded c e b s =
    let held : Entry = record e { refcount = e.refcount - 1 } in
    let d : Cache = record c { entries = Dict.put String_discrete e.entry_id held c.entries } in
    let bounded = changed-IsBounded c e held d s refl refl b refl refl refl refl in
    let stored : Stored d held =
      ground (arith, get-put String_discrete e.entry_id e.entry_id held c.entries) in
    elim (Bool-cases (held.ephemeral && held.refcount == 0)) [
      | inl gone ↦
          rw (gone, drop_lease)
            (Dropped-IsBounded d (remove_locked d held false)
              (remove_locked-Dropped d held false bounded.accounts stored (ground arith)) bounded)
      | inr stays ↦ rw (stays, drop_lease) bounded
    ]

-- Releasing keeps the books and the budgets.
pub release-IsBounded :
    (c : Cache) (lease : CacheLease) → IsBounded c → IsBounded (release c lease).0
unfolding release release_found
release-IsBounded c lease b =
    elim (Option-cases (Dict.get String_discrete lease.entry_id c.entries)) [
      | inl e ↦ rw (e, release_found) b
      | inr (e, g) ↦
          let same = Keyed-id lease.entry_id e c.entries g b.accounts.keyed in
          let stored : Stored c e = ap (λ k. Dict.get String_discrete k c.entries) same ∙ g in
          rw (g, release_found)
            (if-rule (λ (r : Cache × Bool). IsBounded r.0)
              (not (e.generation == lease.generation) || e.refcount == 0) (c, false)
              (drop_lease c e, true) b (drop_lease-IsBounded c e b stored))
    ]

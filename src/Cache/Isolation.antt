-- ===== src/Cache/Isolation.antt =====
-- What a lease reads, and who may have it.
use mathlib.Core.Path.{subst₂}
use llama.Prelude.{
  ℕ, ◌<◌, ◌≡◌, refl, ap, ◌∙◌, inl, inr, Bool, true, false, not, ◌&&◌, List, [], ◌∷◌, Option, none,
  some, String, String_discrete, ◌==◌, Result, ok, err, first_min, first_min-In, arith, In,
  Bool-cases, Option-cases, In-select,
}
use llama.Prelude.Dict
use llama.Prelude.Dict.{values, get-put}
use llama.Cache.Scope.{
  CacheVisibility, CacheKind, CacheNamespace, CacheScope, ExactTokenCacheKey, is_prefix, Shares,
  allows, in_tenant, in_workflow, same_agent, private, workflow, tenant,
}
use llama.Cache.Entries.{
  Done, Entry, Cache, CacheError, value_error, Outcome, CacheLease, prune_locked, ensure_capacity,
  ◌then_do◌,
}
use llama.Cache.Store.{put}
use llama.Cache.Leases.{
  matching, allowed, narrower, lease_of, count_hit, leased_now, clone_of, add_clone, lease_in_place,
  lease_entry, acquire_pruned, acquire, invalidate, prune, lease_entry_locked, find_lease, read,
}
use llama.Cache.Accounting.{Stored}
use llama.Cache.Bounds.{IsBounded, Dropped-IsBounded, put-Safe}
use llama.Cache.Capacity.{prune_locked-Dropped}
use llama.Cache.Safety.{Serves, Safe-Serves}
use llama.Cache.Operations.{acquire-Serves, invalidate-Serves, prune-Serves, allowed-Stored}

-- A lease that reads stands for one held entry.
record Reads (c : Cache) (lease : CacheLease) (e : Entry) : Type 0 where
  found : Dict.get String_discrete lease.entry_id c.entries ≡ some e
  generation : e.generation ≡ lease.generation
  key : e.key ≡ lease.key
  held : 0 < e.refcount

read-Reads :
    (c : Cache) (lease : CacheLease) (payload : List ℕ)
    → read c lease ≡ ok payload
    → (e : Entry) × Reads c lease e × (e.payload ≡ payload)
unfolding read lease_entry_locked find_lease
read-Reads c lease payload h =
    elim (Option-cases (Dict.get String_discrete lease.entry_id c.entries)) [
      | inl q ↦ absurd (ground arith)
      | inr (e, q) ↦ (
        e,
        record { found = q; generation = ground arith; key = ground arith; held = ground arith },
        ground arith,
      )
    ]

Reads-read :
    (c : Cache) (lease : CacheLease) (e : Entry) → Reads c lease e → read c lease ≡ ok e.payload
unfolding read lease_entry_locked find_lease
Reads-read c lease e r =
    let q = r.found in let g = r.generation in let k = r.key in let h = r.held in ground arith

read-Serves :
    (c d : Cache) (lease : CacheLease) (payload : List ℕ)
    → Serves c d
    → read c lease ≡ ok payload
    → read d lease ≡ ok payload
read-Serves c d lease payload s h =
    let (e, r, p) = read-Reads c lease payload h in
    let (f, found, same) = s.keeps lease.entry_id e r.found r.held in
    Reads-read d lease f (record {
      found = found;
      generation = same.generation ∙ r.generation;
      key = same.key ∙ r.key;
      held = omega (arith, r.held, same.refcount);
    })
    ∙ ap ok (same.payload ∙ p)

-- What a lease reads it still reads after a `put`, an `acquire`, an `invalidate` or a `prune` of
-- anyone, whatever these evict, replace or raise. New identifiers are taken to be unused.
pub read_stable :
    (c : Cache) (lease : CacheLease) (payload : List ℕ) (id : String) (now : ℕ)
    → IsBounded c
    → Dict.get String_discrete id c.entries ≡ none
    → read c lease ≡ ok payload
    → ((key : ExactTokenCacheKey) (scope : CacheScope) (bytes : List ℕ)
        → read (put c key scope bytes now id).0 lease ≡ ok payload)
      × ((key : ExactTokenCacheKey) (requester : CacheScope) (mutable : Bool)
          → read (acquire c key requester mutable now id).0 lease ≡ ok payload)
      × ((tenant_id : String) (kind : Option CacheKind) (namespace : Option CacheNamespace)
          → read (invalidate c tenant_id kind namespace).0 lease ≡ ok payload)
      × (read (prune c now).0 lease ≡ ok payload)
read_stable c lease payload id now b fresh h = (
  λ key scope bytes.
      read-Serves c _ lease payload (Safe-Serves c _ (put-Safe c key scope bytes now id b fresh)) h,
  λ key requester mutable.
      read-Serves c _ lease payload (acquire-Serves c key requester mutable now id b fresh) h,
  λ tenant_id kind namespace.
      read-Serves c _ lease payload (invalidate-Serves c tenant_id kind namespace b) h,
  read-Serves c _ lease payload (prune-Serves c now b) h,
)

by_visibility :
    (s r : CacheScope) (v : CacheVisibility) → s.visibility ≡ v → allows s r ≡ true → Shares s r
unfolding allows
by_visibility s r private e h = same_agent (ground arith) (ground arith) (ground arith) e
by_visibility s r workflow e h = in_workflow (ground arith) (ground arith) e
by_visibility s r tenant e h = in_tenant (ground arith) e

allows-Shares : (s r : CacheScope) → allows s r ≡ true → Shares s r
allows-Shares s r h = by_visibility s r s.visibility refl h

-- What `acquire` hands out: a lease that reads the payload of an entry of the cache with exactly the
-- requested key, whose scope shares it with the requester.
pub record Grants (c d : Cache) (key : ExactTokenCacheKey) (requester : CacheScope)
    (lease : CacheLease) : Type 0 where
  pub source : Entry
  pub stored : Stored c source
  pub same_key : source.key ≡ key
  pub shared : Shares source.scope requester
  pub reads : read d lease ≡ ok source.payload

in_place-read :
    (c : Cache) (key : ExactTokenCacheKey) (e : Entry) (mutable : Bool) (now : ℕ)
    → read (count_hit (lease_in_place c (leased_now c e now)) key) (lease_of e mutable false)
      ≡ ok e.payload
unfolding lease_in_place
in_place-read c key e mutable now =
    let x = leased_now c e now in
    Reads-read (count_hit (lease_in_place c x) key) (lease_of e mutable false) x (record {
      found = ground (arith, get-put String_discrete e.entry_id e.entry_id x c.entries);
      generation = refl;
      key = refl;
      held = omega arith;
    })

clone-read :
    (c : Cache) (key : ExactTokenCacheKey) (x : Entry) (mutable : Bool)
    → 0 < x.refcount
    → read (count_hit (add_clone c x) key) (lease_of x mutable true) ≡ ok x.payload
unfolding add_clone
clone-read c key x mutable h =
    Reads-read (count_hit (add_clone c x) key) (lease_of x mutable true) x (record {
      found = ground (arith, get-put String_discrete x.entry_id x.entry_id x c.entries);
      generation = refl;
      key = refl;
      held = h;
    })

-- The results of two successful calls that are equal read alike.
read_same :
    (x d : Cache) (l lease : CacheLease) (payload : List ℕ)
    → Path (Outcome (Option CacheLease)) (x, ok (some l)) (d, ok (some lease))
    → read x l ≡ ok payload
    → read d lease ≡ ok payload
read_same x d l lease payload h r =
    let p : x ≡ d = ap (λ (q : Outcome (Option CacheLease)). q.0) h in
    let q' : Path (Result CacheError (Option CacheLease)) (ok (some l)) (ok (some lease)) =
      ap (λ (q : Outcome (Option CacheLease)). q.1) h in
    let q : l ≡ lease = cc in subst₂ (λ y m. read y m ≡ ok payload) p q r

module _ (c d : Cache) (key : ExactTokenCacheKey) (e : Entry) (requester : CacheScope)
    (mutable : Bool) (now : ℕ) (id : String) (lease : CacheLease) where
  abbrev copied : Cache → Outcome (Option CacheLease)
  copied x =
      let clone = clone_of x e requester now id in
      (count_hit (add_clone x clone) key, ok (some (lease_of clone mutable true)))

  copied-reads :
      (r : Outcome Done) → (r then_do copied) ≡ (d, ok (some lease)) → read d lease ≡ ok e.payload
  copied-reads (x, err y) h =
      let q : Path (Result CacheError (Option CacheLease)) (err y) (ok (some lease)) =
        ap (λ (q : Outcome (Option CacheLease)). q.1) h in
      cc
  copied-reads (x, ok u) h =
      let clone = clone_of x e requester now id in
      read_same (count_hit (add_clone x clone) key) d (lease_of clone mutable true) lease e.payload
        h (clone-read x key clone mutable (omega arith))

  lease_entry-reads :
      lease_entry c key e requester mutable now id ≡ (d, ok (some lease))
      → read d lease ≡ ok e.payload
  unfolding lease_entry
  lease_entry-reads h = elim (Bool-cases (mutable && not (e.refcount == 0))) [
    | inl copy ↦ copied-reads (ensure_capacity c e.byte_size now) (rw copy at h)
    | inr place ↦
        read_same (count_hit (lease_in_place c (leased_now c e now)) key) d
          (lease_of e mutable false) lease e.payload (rw place at h)
          (in_place-read c key e mutable now)
  ]

key_of_match :
    (c : Cache) (key : ExactTokenCacheKey) (e : Entry) → In e (matching c key) → e.key ≡ key
key_of_match c key e i = let m = In-select _ e (values c.entries) i in ground arith

acquire_pruned-Grants :
    (c d : Cache) (key : ExactTokenCacheKey) (requester : CacheScope) (mutable : Bool) (now : ℕ)
    (id : String) (lease : CacheLease) (l : List Entry)
    → allowed c key requester ≡ l
    → IsBounded c
    → acquire_pruned c key requester mutable now id ≡ (d, ok (some lease))
    → Grants c d key requester lease
unfolding acquire_pruned
acquire_pruned-Grants c d key requester mutable now id lease [] q b h =
    let r : Path (Result CacheError (Option CacheLease)) (ok none) (ok (some lease)) =
      ap (λ (q : Outcome (Option CacheLease)). q.1) (rw (q, acquire_pruned) at h) in
    absurd (cc)
acquire_pruned-Grants c d key requester mutable now id lease (e ∷ es) q b h =
    let v = first_min narrower e es in
    let chosen : In v (allowed c key requester) = rw q (first_min-In narrower e es) in
    let matched = In-select _ v (matching c key) chosen in
    record {
      source = v;
      stored = allowed-Stored c key requester v b chosen;
      same_key = key_of_match c key v matched.0;
      shared = allows-Shares v.scope requester matched.1;
      reads =
          lease_entry-reads c d key v requester mutable now id lease (rw (q, acquire_pruned) at h);
    }

-- A lease that `acquire` hands out reads the payload of an entry that stood in the cache after its
-- expired entries were dropped, under exactly the requested key, and whose scope shares it with the
-- requester: always the same tenant, and the same workflow or the same agent of it unless the entry
-- is visible to all the tenant or all the workflow.
pub acquire-Grants :
    (c d : Cache) (key : ExactTokenCacheKey) (requester : CacheScope) (mutable : Bool) (now : ℕ)
    (id : String) (lease : CacheLease)
    → IsBounded c
    → acquire c key requester mutable now id ≡ (d, ok (some lease))
    → Grants (prune_locked c now) d key requester lease
unfolding acquire
acquire-Grants c d key requester mutable now id lease b h =
    elim (Bool-cases (mutable && is_prefix key.kind)) [
      | inl bad ↦
          let r : Path (Result CacheError (Option CacheLease)) (err value_error) (ok (some lease)) =
            ap (λ (q : Outcome (Option CacheLease)). q.1) (rw bad at h) in
          absurd (cc)
      | inr good ↦
          acquire_pruned-Grants (prune_locked c now) d key requester mutable now id lease _ refl
            (Dropped-IsBounded c (prune_locked c now) (prune_locked-Dropped c now b.accounts) b)
            (rw good at h)
    ]

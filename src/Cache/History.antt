-- ===== src/Cache/History.antt =====
-- The cache over any history of calls.
use llama.Prelude.{
  ℕ, ◌≤◌, ◌≡◌, refl, inl, inr, Bool, not, ◌||◌, List, [], Option, none, String, String_discrete, ok,
  err, length, arith, if-rule, Result-cases, sum_by,
}
use llama.Prelude.Dict
use llama.Prelude.Dict.{values}
use llama.Cache.Scope.{CacheKind, CacheNamespace, CacheScope, ExactTokenCacheKey, is_prefix}
use llama.Cache.Entries.{Entry, Cache, value_error, Outcome, CacheLease}
use llama.Cache.Store.{put}
use llama.Cache.Leases.{
  acquire, invalidate, prune, release, release_after, commit_session, lease_entry_locked,
}
use llama.Cache.Bounds.{IsBounded, put-Safe}
use llama.Cache.Operations.{acquire-Serves, invalidate-Serves, prune-Serves, release-IsBounded}

release_after-IsBounded :
    (lease : CacheLease) (r : Outcome String) → IsBounded r.0 → IsBounded (release_after lease r).0
release_after-IsBounded lease (d, err x) b = b
release_after-IsBounded lease (d, ok id) b = release-IsBounded d lease b

-- Committing a session keeps the books and the budgets.
commit_session-IsBounded :
    (c : Cache) (lease : CacheLease) (new_key : ExactTokenCacheKey) (payload : List ℕ)
    (scope : CacheScope) (now : ℕ) (id : String)
    → IsBounded c
    → Dict.get String_discrete id c.entries ≡ none
    → IsBounded (commit_session c lease new_key payload scope now id).0
unfolding commit_session
commit_session-IsBounded c lease new_key payload scope now id b fresh =
    let Q = λ (r : Outcome String). IsBounded r.0 in
    let stored = release_after lease (put c new_key scope payload now id) in
    let done =
      release_after-IsBounded lease (put c new_key scope payload now id)
        (put-Safe c new_key scope payload now id b fresh).bounded in
    if-rule Q (not lease.mutable || is_prefix new_key.kind) (c, err value_error)
      (elim (lease_entry_locked c lease) [ err x ↦ (c, err x) | ok e ↦ stored ]) b
      (elim (Result-cases (lease_entry_locked c lease)) [
        | inl (x, e) ↦ rw e b
        | inr (x, e) ↦ rw e done
      ])

-- One call of the cache, by whichever client. `uuid4` yields an identifier that is not in use.
pub data Call (c : Cache) : Cache → Type 0 where
  puts :
      (key : ExactTokenCacheKey) (scope : CacheScope) (payload : List ℕ) (now : ℕ) (id : String)
      → Dict.get String_discrete id c.entries ≡ none
      → Call c (put c key scope payload now id).0
  acquires :
      (key : ExactTokenCacheKey) (requester : CacheScope) (mutable : Bool) (now : ℕ) (id : String)
      → Dict.get String_discrete id c.entries ≡ none
      → Call c (acquire c key requester mutable now id).0
  commits :
      (lease : CacheLease) (key : ExactTokenCacheKey) (payload : List ℕ) (scope : CacheScope)
      (now : ℕ) (id : String)
      → Dict.get String_discrete id c.entries ≡ none
      → Call c (commit_session c lease key payload scope now id).0
  releases : (lease : CacheLease) → Call c (release c lease).0
  invalidates :
      (tenant_id : String) (kind : Option CacheKind) (namespace : Option CacheNamespace)
      → Call c (invalidate c tenant_id kind namespace).0
  prunes : (now : ℕ) → Call c (prune c now).0

pub data Calls (c : Cache) : Cache → Type 0 where
  unused : Calls c c
  more : {d e : Cache} → Calls c d → Call d e → Calls c e

Call-IsBounded : {c d : Cache} → Call c d → IsBounded c → IsBounded d
Call-IsBounded {c} (puts key scope payload now id fresh) b =
    (put-Safe c key scope payload now id b fresh).bounded
Call-IsBounded {c} (acquires key requester mutable now id fresh) b =
    (acquire-Serves c key requester mutable now id b fresh).bounded
Call-IsBounded {c} (commits lease key payload scope now id fresh) b =
    commit_session-IsBounded c lease key payload scope now id b fresh
Call-IsBounded {c} (releases lease) b = release-IsBounded c lease b
Call-IsBounded {c} (invalidates tenant_id kind namespace) b =
    (invalidate-Serves c tenant_id kind namespace b).bounded
Call-IsBounded {c} (prunes now) b = (prune-Serves c now b).bounded

pub Calls-IsBounded : {c d : Cache} → Calls c d → IsBounded c → IsBounded d
Calls-IsBounded unused b = b
Calls-IsBounded (more calls call) b = Call-IsBounded call (Calls-IsBounded calls b)

-- The constructor's cache.
unfoldable pub empty_cache : ℕ → ℕ → ℕ → Cache
empty_cache byte_budget max_entries ttl_seconds = record {
  byte_budget = byte_budget;
  max_entries = max_entries;
  ttl_seconds = ttl_seconds;
  entries = [];
  index = [];
  bytes_used = 0;
  hits = 0;
  misses = 0;
  denied = 0;
  insertions = 0;
  evictions = 0;
  invalidations = 0;
  cow_clones = 0;
  saved_prefill_tokens = 0;
}

pub empty_cache-IsBounded : (bytes count ttl : ℕ) → IsBounded (empty_cache bytes count ttl)
unfolding empty_cache sum_by
empty_cache-IsBounded bytes count ttl = record {
  accounts = record { distinct = tt; keyed = tt; bytes = refl };
  bytes = omega arith;
  count = omega arith;
}

-- After any calls on a new cache, raised errors included, the byte count is the sum of the entries'
-- sizes and at most the byte budget, and there are at most `max_entries` entries. New identifiers
-- are taken to be unused.
pub budgets_hold :
    (bytes count ttl : ℕ) {c : Cache}
    → Calls (empty_cache bytes count ttl) c
    → (c.bytes_used ≡ sum_by (λ (e : Entry). e.byte_size) (values c.entries))
      × (c.bytes_used ≤ c.byte_budget)
      × (length c.entries ≤ c.max_entries)
budgets_hold bytes count ttl calls =
    let b = Calls-IsBounded calls (empty_cache-IsBounded bytes count ttl) in
    (b.accounts.bytes, b.bytes, b.count)

-- ===== src/Cache/Leases.antt =====
-- Leases on entries: `acquire`, `read`, `release`, `commit_session` and `invalidate` of
-- inference_runtime/cache.py. The identifier that `uuid4` makes for a copy is an argument.
use llama.Prelude.{
  ℕ, ◌+◌, ◌-◌, Bool, true, false, not, ◌&&◌, ◌||◌, List, [], ◌∷◌, Option, none, some, String,
  String_discrete, is_yes, ltb, ◌==◌, if◌then◌else◌, Result, ok, err, select, length, first_min,
}
use llama.Prelude.Dict
use llama.Prelude.Dict.{Dict, values}
use llama.Cache.Scope.{
  CacheKind, CacheNamespace, Kind_discrete, Namespace_discrete, CacheScope, ExactTokenCacheKey,
  Key_discrete, allows, visibility_rank, is_prefix,
}
use llama.Cache.Entries.{
  Entry, CacheLease, Cache, CacheError, value_error, stale_lease, Outcome, remove_locked,
  prune_locked, ensure_capacity, ◌then_do◌,
}
use llama.Cache.Store.{put}

-- `(visibility_rank, -last_access)` in the order of tuples
abbrev pub narrower : Entry → Entry → Bool
narrower a b =
    if visibility_rank a.scope.visibility == visibility_rank b.scope.visibility
    then ltb b.last_access a.last_access
    else ltb (visibility_rank a.scope.visibility) (visibility_rank b.scope.visibility)

abbrev pub matching : Cache → ExactTokenCacheKey → List Entry
matching c key = select (λ e. not e.ephemeral && is_yes (Key_discrete e.key key)) (values c.entries)

abbrev pub allowed : Cache → ExactTokenCacheKey → CacheScope → List Entry
allowed c key requester = select (λ e. allows e.scope requester) (matching c key)

abbrev pub lease_of : Entry → Bool → Bool → CacheLease
lease_of e mutable copy_on_write = record {
  entry_id = e.entry_id;
  generation = e.generation;
  key = e.key;
  mutable = mutable;
  copy_on_write = copy_on_write;
}

abbrev pub count_hit : Cache → ExactTokenCacheKey → Cache
count_hit c key = record c {
  hits = c.hits + 1;
  saved_prefill_tokens = c.saved_prefill_tokens + length key.token_ids;
}

abbrev pub leased_now : Cache → Entry → ℕ → Entry
leased_now c e now = record e {
  refcount = e.refcount + 1;
  last_access = now;
  expires_at = now + c.ttl_seconds;
}

abbrev pub clone_of : Cache → Entry → CacheScope → ℕ → String → Entry
clone_of c e requester now id = record {
  entry_id = id;
  generation = e.generation + 1;
  key = e.key;
  scope = requester;
  payload = e.payload;
  byte_size = e.byte_size;
  created_at = now;
  expires_at = now + c.ttl_seconds;
  last_access = now;
  refcount = 1;
  ephemeral = true;
}

unfoldable pub add_clone : Cache → Entry → Cache
add_clone c e = record c {
  entries = Dict.put String_discrete e.entry_id e c.entries;
  bytes_used = c.bytes_used + e.byte_size;
  cow_clones = c.cow_clones + 1;
}

unfoldable pub lease_in_place : Cache → Entry → Cache
lease_in_place c e = record c { entries = Dict.put String_discrete e.entry_id e c.entries }

-- The end of `acquire`, with the entry that was chosen: a copy if it is to be written while leased.
unfoldable pub lease_entry :
    Cache
    → ExactTokenCacheKey
    → Entry
    → CacheScope
    → Bool
    → ℕ
    → String
    → Outcome (Option CacheLease)
unfolding ensure_capacity add_clone lease_in_place
lease_entry c key e requester mutable now id =
    if mutable && not (e.refcount == 0)
    then ensure_capacity c e.byte_size now then_do (λ d.
      let clone = clone_of d e requester now id in
      (count_hit (add_clone d clone) key, ok (some (lease_of clone mutable true))))
    else (
      count_hit (lease_in_place c (leased_now c e now)) key,
      ok (some (lease_of e mutable false)),
    )

unfoldable pub acquire_pruned :
    Cache → ExactTokenCacheKey → CacheScope → Bool → ℕ → String → Outcome (Option CacheLease)
unfolding lease_entry
acquire_pruned c key requester mutable now id = elim (allowed c key requester) [
  | [] ↦ (
    if length (matching c key) == 0
        then record c { misses = c.misses + 1 }
        else record c { denied = c.denied + 1 },
    ok none,
  )
  | e ∷ es ↦ lease_entry c key (first_min narrower e es) requester mutable now id
]

-- `acquire`
unfoldable pub acquire :
    Cache → ExactTokenCacheKey → CacheScope → Bool → ℕ → String → Outcome (Option CacheLease)
unfolding acquire_pruned prune_locked
acquire c key requester mutable now id =
    if mutable && is_prefix key.kind
    then (c, err value_error)
    else acquire_pruned (prune_locked c now) key requester mutable now id

unfoldable pub find_lease : Cache → CacheLease → Option Entry → Result CacheError Entry
find_lease c lease none = err stale_lease
find_lease c lease (some e) =
    if not (e.generation == lease.generation)
      || not (is_yes (Key_discrete e.key lease.key))
      || e.refcount == 0
    then err stale_lease
    else ok e

-- `_lease_entry_locked`
unfoldable pub lease_entry_locked : Cache → CacheLease → Result CacheError Entry
unfolding find_lease
lease_entry_locked c lease = find_lease c lease (Dict.get String_discrete lease.entry_id c.entries)

-- `read`
unfoldable pub read : Cache → CacheLease → Result CacheError (List ℕ)
unfolding lease_entry_locked
read c lease = elim (lease_entry_locked c lease) [ err x ↦ err x | ok e ↦ ok e.payload ]

-- `entry.refcount -= 1`, and the removal of a copy that nobody holds.
unfoldable pub drop_lease : Cache → Entry → Cache
unfolding remove_locked
drop_lease c e =
    let held : Entry = record e { refcount = e.refcount - 1 } in
    let d : Cache = record c { entries = Dict.put String_discrete e.entry_id held c.entries } in
    if held.ephemeral && held.refcount == 0 then remove_locked d held false else d

unfoldable pub release_found : Cache → CacheLease → Option Entry → Cache × Bool
unfolding drop_lease
release_found c lease none = (c, false)
release_found c lease (some e) =
    if not (e.generation == lease.generation) || e.refcount == 0
    then (c, false)
    else (drop_lease c e, true)

-- `release`
unfoldable pub release : Cache → CacheLease → Cache × Bool
unfolding release_found
release c lease = release_found c lease (Dict.get String_discrete lease.entry_id c.entries)

abbrev pub release_after : CacheLease → Outcome String → Outcome String
release_after lease (c, err x) = (c, err x)
release_after lease (c, ok id) = ((release c lease).0, ok id)

-- `commit_session`
unfoldable pub commit_session :
    Cache → CacheLease → ExactTokenCacheKey → List ℕ → CacheScope → ℕ → String → Outcome String
unfolding lease_entry_locked release put
commit_session c lease new_key payload scope now id =
    if not lease.mutable || is_prefix new_key.kind
    then (c, err value_error)
    else elim (lease_entry_locked c lease) [
      | err x ↦ (c, err x)
      | ok e ↦ release_after lease (put c new_key scope payload now id)
    ]

abbrev pub kind_fits : Option CacheKind → Entry → Bool
kind_fits none e = true
kind_fits (some k) e = is_yes (Kind_discrete e.key.kind k)

abbrev pub namespace_fits : Option CacheNamespace → Entry → Bool
namespace_fits none e = true
namespace_fits (some n) e = is_yes (Namespace_discrete e.key.namespace n)

unfoldable pub remove_all : Cache → List Entry → Cache
unfolding remove_locked
remove_all c [] = c
remove_all c (e ∷ es) = remove_all (remove_locked c e true) es

abbrev pub targets : Cache → String → Option CacheKind → Option CacheNamespace → List Entry
targets c tenant_id kind namespace =
    select
      (λ e.
        is_yes (String_discrete e.scope.tenant_id tenant_id)
        && kind_fits kind e
        && namespace_fits namespace e
        && e.refcount == 0)
      (values c.entries)

-- `invalidate`
unfoldable pub invalidate : Cache → String → Option CacheKind → Option CacheNamespace → Cache × ℕ
unfolding remove_all
invalidate c tenant_id kind namespace =
    let found = targets c tenant_id kind namespace in (remove_all c found, length found)

-- `prune`
unfoldable pub prune : Cache → ℕ → Cache × ℕ
unfolding prune_locked
prune c now = let pruned = prune_locked c now in (pruned, length c.entries - length pruned.entries)

-- ===== src/Cache/Entries.antt =====
-- The entries of the cache and how they are dropped: `_Entry`, `_remove_locked`, `_prune_locked` and
-- `_ensure_capacity_locked` of inference_runtime/cache.py. A call that raises may have dropped entries,
-- so a call returns the cache beside its result. The clock's reading is an argument.
use llama.Prelude.{
  ℕ, zero, suc, ◌+◌, ◌-◌, Bool, true, false, ◌&&◌, ◌||◌, List, [], ◌∷◌, String, String_discrete,
  ltb, leb, ◌==◌, if◌then◌else◌, Result, ok, err, select, length, first_min,
}
use llama.Prelude.Dict
use llama.Prelude.Dict.{Dict, values}
use llama.Cache.Scope.{CacheScope, ExactTokenCacheKey, Index_discrete}

pub record Entry : Type 0 where
  pub entry_id : String
  pub generation : ℕ
  pub key : ExactTokenCacheKey
  pub scope : CacheScope
  pub payload : List ℕ
  pub byte_size : ℕ
  pub created_at : ℕ
  pub expires_at : ℕ
  pub last_access : ℕ
  pub refcount : ℕ
  pub ephemeral : Bool

pub record CacheLease : Type 0 where
  pub entry_id : String
  pub generation : ℕ
  pub key : ExactTokenCacheKey
  pub mutable : Bool
  pub copy_on_write : Bool

pub record Cache : Type 0 where
  pub byte_budget : ℕ
  pub max_entries : ℕ
  pub ttl_seconds : ℕ
  pub entries : Dict String Entry
  pub index : Dict (ExactTokenCacheKey × CacheScope) String
  pub bytes_used : ℕ
  pub hits : ℕ
  pub misses : ℕ
  pub denied : ℕ
  pub insertions : ℕ
  pub evictions : ℕ
  pub invalidations : ℕ
  pub cow_clones : ℕ
  pub saved_prefill_tokens : ℕ

-- `ValueError`, `CacheCapacityError`, the `RuntimeError` of a stale lease, the `KeyError` of a missing
-- entry, and the loop's fuel running out (which does not happen).
pub data CacheError : Type 0 where
  value_error capacity_error stale_lease key_error out_of_fuel : CacheError

abbrev pub Outcome : Type 0 → Type 0
Outcome A = Cache × Result CacheError A

abbrev pub Done : Type 0
Done = Unit {0}

-- `_remove_locked`
unfoldable pub remove_locked : Cache → Entry → Bool → Cache
remove_locked c e invalidation = record c {
  entries = Dict.remove String_discrete e.entry_id c.entries;
  index = if e.ephemeral then c.index else Dict.remove Index_discrete (e.key, e.scope) c.index;
  bytes_used = c.bytes_used - e.byte_size;
  invalidations = if invalidation then c.invalidations + 1 else c.invalidations;
}

abbrev pub count_eviction : Cache → Cache
count_eviction c = record c { evictions = c.evictions + 1 }

abbrev pub evict : Cache → Entry → Cache
evict c e = count_eviction (remove_locked c e false)

-- The loop of `_prune_locked`
unfoldable pub evict_all : Cache → List Entry → Cache
evict_all c [] = c
evict_all c (e ∷ es) = evict_all (evict c e) es

-- `_prune_locked`
unfoldable pub prune_locked : Cache → ℕ → Cache
unfolding evict_all
prune_locked c now =
    evict_all c (select (λ e. e.refcount == 0 && leb e.expires_at now) (values c.entries))

-- `(last_access, created_at)` in the order of tuples
abbrev pub older : Entry → Entry → Bool
older a b =
    if a.last_access == b.last_access
    then ltb a.created_at b.created_at
    else ltb a.last_access b.last_access

abbrev pub is_full : Cache → ℕ → Bool
is_full c byte_size =
    ltb c.byte_budget (c.bytes_used + byte_size) || leb c.max_entries (length c.entries)

abbrev pub evictable : Cache → List Entry
evictable c = select (λ e. e.refcount == 0) (values c.entries)

-- The `while` loop of `_ensure_capacity_locked`. A round removes an entry, so one more than the
-- number of entries is fuel enough.
unfoldable pub make_room : ℕ → Cache → ℕ → Outcome Done
make_room zero c byte_size = (c, err out_of_fuel)
make_room (suc fuel) c byte_size = elim (is_full c byte_size) [
  | true ↦ elim (evictable c) [
    | [] ↦ (c, err capacity_error)
    | e ∷ es ↦ make_room fuel (evict c (first_min older e es)) byte_size
  ]
  | false ↦ (c, ok tt)
]

-- `_ensure_capacity_locked`
unfoldable pub ensure_capacity : Cache → ℕ → ℕ → Outcome Done
unfolding prune_locked make_room
ensure_capacity c byte_size now =
    let pruned = prune_locked c now in make_room (suc (length pruned.entries)) pruned byte_size

-- `a` and, unless it raised, `f` from the cache that it left.
infixl 5 ◌then_do◌
abbrev pub ◌then_do◌ : {A : Type 0} → Outcome Done → (Cache → Outcome A) → Outcome A
(c, err x) then_do f = (c, err x)
(c, ok u) then_do f = f c

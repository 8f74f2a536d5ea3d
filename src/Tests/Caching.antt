-- ===== src/Tests/Caching.antt =====
-- A cache that stores an entry and leases it to another agent of its workflow.
use llama.Prelude.{
  Bool, ℕ, false, ◌≡◌, ◌≤◌, List, Option, ok, some, none, [], ◌∷◌, refl, String, String_discrete,
  ℕ_discrete, select, sum_by, length, first_min, Result,
}
use llama.Prelude.Dict
use llama.Prelude.Dict.{values}
use llama.Cache.Scope.{
  CacheKind, prefix, CacheNamespace, CacheScope, CacheVisibility, ExactTokenCacheKey, Key_discrete,
  Index_discrete, allows, visibility_rank,
}
use llama.Cache.Entries.{
  Entry, CacheLease, Cache, Outcome, CacheError, evict_all, prune_locked, make_room,
  ensure_capacity,
}
use llama.Cache.Store.{make_way, insert_entry, put}
use llama.Cache.Leases.{
  lease_in_place, lease_entry, acquire_pruned, acquire, find_lease, lease_entry_locked, read,
  invalidate, prune,
}
use llama.Cache.Capacity.{MadeRoom, ensure_capacity-MadeRoom}
use llama.Cache.Bounds.{IsBounded}
use llama.Cache.History.{
  Calls, Calls-IsBounded, unused, more, puts, acquires, empty_cache, budgets_hold,
  empty_cache-IsBounded,
}
use llama.Cache.Isolation.{read_stable, Grants, acquire-Grants}

abbrev key : ExactTokenCacheKey
key = record {
  kind = prefix;
  namespace = record {
    model_digest = "m";
    template_digest = "t";
    tokenizer_digest = "k";
    adapter_digest = "a";
    context_digest = "c";
  };
  token_ids = 1 ∷ 2 ∷ [];
}

abbrev scope_of : String → CacheScope
scope_of agent = record {
  tenant_id = "tenant";
  workflow_id = "w";
  agent_id = agent;
  visibility = CacheVisibility.workflow;
}

abbrev stored : Cache
stored = (put (empty_cache 100 4 60) key (scope_of "a") (7 ∷ 8 ∷ []) 1 "e1").0

nothing : Dict.get String_discrete "e1" (empty_cache 100 4 60).entries ≡ none
unfolding empty_cache Dict.get
nothing = refl

one_put : Calls (empty_cache 100 4 60) stored
one_put = more unused (puts key (scope_of "a") (7 ∷ 8 ∷ []) 1 "e1" nothing)

budgets_hold_example :
    (stored.bytes_used ≡ sum_by (λ (e : Entry). e.byte_size) (values stored.entries))
    × (stored.bytes_used ≤ stored.byte_budget)
    × (length stored.entries ≤ stored.max_entries)
budgets_hold_example = budgets_hold 100 4 60 one_put

stored-IsBounded : IsBounded stored
stored-IsBounded = Calls-IsBounded one_put (empty_cache-IsBounded 100 4 60)

ensure_capacity-MadeRoom_example : MadeRoom stored 50 (ensure_capacity stored 50 2)
ensure_capacity-MadeRoom_example = ensure_capacity-MadeRoom stored 50 2 stored-IsBounded.accounts

abbrev leased : Outcome (Option CacheLease)
leased = acquire stored key (scope_of "b") false 3 "e2"

abbrev no_lease : CacheLease
no_lease = record {
  entry_id = "";
  generation = 0;
  key = key;
  mutable = false;
  copy_on_write = false;
}

abbrev lease_in : Result CacheError (Option CacheLease) → CacheLease
lease_in (ok (some l)) = l
lease_in _ = no_lease

leasing : acquire stored key (scope_of "b") false 3 "e2" ≡ (leased.0, ok (some (lease_in leased.1)))
unfolding put make_way insert_entry ensure_capacity make_room prune_locked evict_all empty_cache
    acquire acquire_pruned lease_entry lease_in_place allows visibility_rank select first_min
    Key_discrete Index_discrete Dict.get Dict.put String_discrete ℕ_discrete
leasing = refl

acquire-Grants_example :
    Grants (prune_locked stored 3) leased.0 key (scope_of "b") (lease_in leased.1)
acquire-Grants_example =
    acquire-Grants stored leased.0 key (scope_of "b") false 3 "e2" (lease_in leased.1)
      stored-IsBounded leasing

reading : read leased.0 (lease_in leased.1) ≡ ok (7 ∷ 8 ∷ [])
unfolding read lease_entry_locked find_lease put make_way insert_entry ensure_capacity make_room
    prune_locked evict_all empty_cache acquire acquire_pruned lease_entry lease_in_place allows
    visibility_rank select first_min Key_discrete Index_discrete Dict.get Dict.put String_discrete
    ℕ_discrete
reading = refl

unused_id : Dict.get String_discrete "e3" (leased.0).entries ≡ none
unfolding put make_way insert_entry ensure_capacity make_room prune_locked evict_all empty_cache
    acquire acquire_pruned lease_entry lease_in_place allows visibility_rank select first_min
    Key_discrete Index_discrete Dict.get Dict.put String_discrete ℕ_discrete
unused_id = refl

unused_before : Dict.get String_discrete "e2" stored.entries ≡ none
unfolding put make_way insert_entry ensure_capacity make_room prune_locked evict_all empty_cache
    select Dict.get Dict.put Index_discrete String_discrete ℕ_discrete
unused_before = refl

leased-IsBounded : IsBounded leased.0
leased-IsBounded =
    Calls-IsBounded (more one_put (acquires key (scope_of "b") false 3 "e2" unused_before))
      (empty_cache-IsBounded 100 4 60)

read_stable_example :
    ((k : ExactTokenCacheKey) (scope : CacheScope) (bytes : List ℕ)
      → read (put leased.0 k scope bytes 90 "e3").0 (lease_in leased.1) ≡ ok (7 ∷ 8 ∷ []))
    × ((k : ExactTokenCacheKey) (requester : CacheScope) (mutable : Bool)
        → read (acquire leased.0 k requester mutable 90 "e3").0 (lease_in leased.1)
          ≡ ok (7 ∷ 8 ∷ []))
    × ((tenant_id : String) (kind : Option CacheKind) (namespace : Option CacheNamespace)
        → read (invalidate leased.0 tenant_id kind namespace).0 (lease_in leased.1)
          ≡ ok (7 ∷ 8 ∷ []))
    × (read (prune leased.0 90).0 (lease_in leased.1) ≡ ok (7 ∷ 8 ∷ []))
read_stable_example =
    read_stable leased.0 (lease_in leased.1) (7 ∷ 8 ∷ []) "e3" 90 leased-IsBounded unused_id reading

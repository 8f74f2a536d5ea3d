-- ===== src/Cache/Store.antt =====
-- Storing an entry: `put` of inference_runtime/cache.py. The identifier that `uuid4` makes is an
-- argument.
use llama.Prelude.{
  ℕ, ◌+◌, true, false, List, Option, none, some, String, String_discrete, ltb, ◌==◌, if◌then◌else◌,
  ok, err, length,
}
use llama.Prelude.Dict
use llama.Prelude.Dict.{Dict, values}
use llama.Cache.Scope.{CacheScope, ExactTokenCacheKey, Index_discrete}
use llama.Cache.Entries.{
  Entry, Cache, value_error, capacity_error, key_error, Outcome, Done, remove_locked, prune_locked,
  ensure_capacity, ◌then_do◌,
}

-- The first half of `put`: an entry with the same key and scope gives way unless it is leased.
unfoldable pub replace_existing : Cache → Option Entry → Outcome Done
unfolding remove_locked
replace_existing c none = (c, err key_error)
replace_existing c (some existing) =
    if existing.refcount == 0
    then (remove_locked c existing true, ok tt)
    else (c, err capacity_error)

unfoldable pub make_way : Cache → ExactTokenCacheKey → CacheScope → Outcome Done
unfolding replace_existing
make_way c key scope = elim (Dict.get Index_discrete (key, scope) c.index) [
  | none ↦ (c, ok tt)
  | some id ↦ replace_existing c (Dict.get String_discrete id c.entries)
]

abbrev pub new_entry : Cache → ExactTokenCacheKey → CacheScope → List ℕ → ℕ → String → Entry
new_entry c key scope payload now id = record {
  entry_id = id;
  generation = 1;
  key = key;
  scope = scope;
  payload = payload;
  byte_size = length payload;
  created_at = now;
  expires_at = now + c.ttl_seconds;
  last_access = now;
  refcount = 0;
  ephemeral = false;
}

-- The second half of `put`
unfoldable pub insert_entry : Cache → Entry → Cache
insert_entry c e = record c {
  entries = Dict.put String_discrete e.entry_id e c.entries;
  index = Dict.put Index_discrete (e.key, e.scope) e.entry_id c.index;
  bytes_used = c.bytes_used + e.byte_size;
  insertions = c.insertions + 1;
}

-- `put`
unfoldable pub put : Cache → ExactTokenCacheKey → CacheScope → List ℕ → ℕ → String → Outcome String
unfolding make_way ensure_capacity insert_entry
put c key scope payload now id =
    if length payload == 0
    then (c, err value_error)
    else if ltb c.byte_budget (length payload)
    then (c, err capacity_error)
    else make_way (prune_locked c now) key scope
      then_do (λ d. ensure_capacity d (length payload) now)
      then_do (λ d. (insert_entry d (new_entry d key scope payload now id), ok id))

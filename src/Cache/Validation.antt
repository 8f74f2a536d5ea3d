-- ===== src/Cache/Validation.antt =====
-- The validators of scopes, namespaces and keys, and the metrics: inference_runtime/cache.py.
use Prim.Native.String.{slice}
use Prim.Native.Char.{code}
use llama.Prelude.{
  ℕ, Bool, true, not, ◌&&◌, ◌||◌, String, String_discrete, is_yes, leb, ltb, ◌==◌, select, length,
  is_identifier, char_count, Result, ◌>>◌, raise_if,
}
use llama.Prelude.Dict.{values}
use llama.Cache.Scope.{CacheScope, CacheNamespace, ExactTokenCacheKey}
use llama.Cache.Entries.{Cache, CacheError, value_error}

-- `_identifier`
unfoldable pub check_identifier : String → Result CacheError (Unit {0})
unfolding is_identifier
check_identifier value = raise_if (not (is_identifier 256 value)) value_error

-- Whether each character is one of `0123456789abcdef`
unfoldable pub is_lower_hex : String → Bool
is_lower_hex String.[] = true
is_lower_hex (String.◌∷◌ c s) =
    ((leb 0x30 (code c) && leb (code c) 0x39) || (leb 0x61 (code c) && leb (code c) 0x66))
    && is_lower_hex s

-- `_digest`
unfoldable pub check_digest : String → Result CacheError (Unit {0})
unfolding is_lower_hex
check_digest value =
    raise_if
      (not (is_yes (String_discrete (slice value 0 7) "sha256:"))
        || not (char_count value == 71)
        || not (is_lower_hex (slice value 7 71)))
      value_error

-- `CacheScope.__post_init__`
unfoldable pub check_scope : CacheScope → Result CacheError (Unit {0})
unfolding check_identifier
check_scope s = do
  check_identifier s.tenant_id
  check_identifier s.workflow_id
  check_identifier s.agent_id

-- `CacheNamespace.__post_init__`
unfoldable pub check_namespace : CacheNamespace → Result CacheError (Unit {0})
unfolding check_digest
check_namespace n = do
  check_digest n.model_digest
  check_digest n.template_digest
  check_digest n.tokenizer_digest
  check_digest n.adapter_digest
  check_digest n.context_digest

-- `ExactTokenCacheKey.__post_init__`
unfoldable pub check_key : ExactTokenCacheKey → Result CacheError (Unit {0})
check_key k = raise_if (length k.token_ids == 0) value_error

pub record CacheMetrics : Type 0 where
  pub hits : ℕ
  pub misses : ℕ
  pub denied : ℕ
  pub insertions : ℕ
  pub evictions : ℕ
  pub invalidations : ℕ
  pub cow_clones : ℕ
  pub saved_prefill_tokens : ℕ
  pub bytes_used : ℕ
  pub entries : ℕ
  pub leased_entries : ℕ

-- `metrics`
unfoldable pub metrics : Cache → CacheMetrics
metrics c = record {
  hits = c.hits;
  misses = c.misses;
  denied = c.denied;
  insertions = c.insertions;
  evictions = c.evictions;
  invalidations = c.invalidations;
  cow_clones = c.cow_clones;
  saved_prefill_tokens = c.saved_prefill_tokens;
  bytes_used = c.bytes_used;
  entries = length c.entries;
  leased_entries = length (select (λ e. ltb 0 e.refcount) (values c.entries));
}

-- ===== src/Contracts/Outcomes.antt =====
-- What a backend answers to a step, a decode and a release: inference_runtime/contracts.py. Times are
-- whole ticks.
use llama.Prelude.{
  ℕ, ◌+◌, ◌-◌, Bool, true, false, not, ◌&&◌, ◌||◌, List, Option, none, some, String, ltb, ◌==◌,
  length, if◌then◌else◌, err, ◌>>◌, raise_if, char_count,
}
use llama.Contracts.Checks.{Check, bounded_text, optional_positive_int}
use llama.Contracts.Sequences.{SequenceHandle}

pub data PrefillStatus : Type 0 where
  partial ready : PrefillStatus

pub record PrefillOutcome : Type 0 where
  pub handle : SequenceHandle
  pub status : PrefillStatus
  pub processed_tokens : ℕ
  pub remaining_tokens : ℕ

abbrev is_partial : PrefillStatus → Bool
is_partial partial = true
is_partial ready = false

-- `PrefillOutcome.__post_init__`
unfoldable pub check_prefill : PrefillOutcome → Check
check_prefill o =
    if is_partial o.status
    then raise_if (o.processed_tokens == 0 || o.remaining_tokens == 0) "status"
    else raise_if (not (o.remaining_tokens == 0)) "remaining_tokens"

pub data DecodeStatus : Type 0 where
  progressed finished failed : DecodeStatus

pub data FinishReason : Type 0 where
  stop length_reached cancelled : FinishReason

pub data CacheMatch : Type 0 where
  unknown no_match exact prefix session : CacheMatch

pub record SequenceCompletion : Type 0 where
  pub final_text : String
  pub prompt_tokens : ℕ
  pub reasoning_tokens : ℕ
  pub final_tokens : ℕ
  pub sampled_tokens : ℕ
  pub cached_prompt_tokens : ℕ
  pub cache_hit : Bool
  pub first_sample : ℕ
  pub first_final : ℕ
  pub sample_intervals : List ℕ
  pub final_intervals : List ℕ
  pub grammar_engine : String
  pub cache_match : CacheMatch
  pub session_id : Option String
  pub session_parent_generation : Option ℕ
  pub session_generation : Option ℕ
  pub session_copy_on_write : Bool

abbrev is_some {ℓ} : {A : Type ℓ} → Option A → Bool
is_some none = false
is_some (some n) = true

abbrev is_match : CacheMatch → Bool
is_match exact = true
is_match prefix = true
is_match session = true
is_match _ = false

abbrev is_session : CacheMatch → Bool
is_session session = true
is_session _ = false

-- The checks on the session metadata
unfoldable pub check_session_metadata : Option String → SequenceCompletion → Check
unfolding bounded_text optional_positive_int
check_session_metadata none c =
    raise_if
      (is_some c.session_parent_generation
        || is_some c.session_generation
        || c.session_copy_on_write)
      "session_id"
check_session_metadata (some id) c = do
  bounded_text id "session_id" 256
  optional_positive_int c.session_parent_generation "session_parent_generation"
  optional_positive_int c.session_generation "session_generation"
  raise_if
      (c.session_copy_on_write
        && (not (is_some c.session_parent_generation) || not (is_some c.session_generation)))
      "session_copy_on_write"

-- `SequenceCompletion.__post_init__`
unfoldable pub check_completion : SequenceCompletion → Check
unfolding check_session_metadata
check_completion c = do
  raise_if (ltb c.sampled_tokens (c.reasoning_tokens + c.final_tokens)) "sampled_tokens"
  raise_if (c.prompt_tokens + c.sampled_tokens == 0) "sampled_tokens"
  raise_if (ltb c.prompt_tokens c.cached_prompt_tokens) "cached_prompt_tokens"
  raise_if (char_count c.grammar_engine == 0 || ltb 64 (char_count c.grammar_engine))
      "grammar_engine"
  raise_if (is_match c.cache_match && not c.cache_hit) "cache_match"
  raise_if
      (is_session c.cache_match
        && (not (is_some c.session_id) || not (is_some c.session_parent_generation)))
      "cache_match"
  check_session_metadata c.session_id c
  raise_if (if c.cache_hit then c.cached_prompt_tokens == 0 else ltb 0 c.cached_prompt_tokens)
      "cache_hit"
  raise_if (ltb (c.sampled_tokens - 1) (length c.sample_intervals)) "sample_itl_ms"
  raise_if (ltb (c.final_tokens - 1) (length c.final_intervals)) "final_itl_ms"
  raise_if (ltb 0 c.sampled_tokens && c.first_sample == 0 && ltb 0 (length c.sample_intervals))
      "first_sample_ms"
  raise_if (ltb 0 c.final_tokens && c.first_final == 0 && ltb 0 (length c.final_intervals))
      "first_final_ms"

pub record DecodeOutcome : Type 0 where
  pub handle : SequenceHandle
  pub status : DecodeStatus
  pub token_ids : List ℕ
  pub text_delta : String
  pub finish_reason : Option FinishReason
  pub completion : Option SequenceCompletion
  pub error_code : Option String

abbrev check_code : Option String → Check
check_code none = err "error_code"
check_code (some code) = bounded_text code "error_code" 128

abbrev check_status : DecodeStatus → DecodeOutcome → Check
check_status progressed o = do
  raise_if (length o.token_ids == 0) "token_ids"
  raise_if (is_some o.finish_reason) "finish_reason"
  raise_if (is_some o.completion || is_some o.error_code) "status"
check_status finished o = do
  raise_if (not (is_some o.finish_reason)) "finish_reason"
  raise_if (not (is_some o.completion)) "completion"
  raise_if (is_some o.error_code) "error_code"
check_status failed o = do
  raise_if (is_some o.finish_reason || is_some o.completion) "status"
  check_code o.error_code

-- `DecodeOutcome.__post_init__`
unfoldable pub check_decode : DecodeOutcome → Check
unfolding bounded_text
check_decode o = check_status o.status o

pub data ReleaseStatus : Type 0 where
  released already_released stale_handle not_found : ReleaseStatus

pub record ReleaseOutcome : Type 0 where
  pub handle : SequenceHandle
  pub status : ReleaseStatus
  pub released_bytes : ℕ

abbrev is_released : ReleaseStatus → Bool
is_released released = true
is_released _ = false

-- `ReleaseOutcome.__post_init__`
unfoldable pub check_release : ReleaseOutcome → Check
check_release o =
    raise_if (not (is_released o.status) && not (o.released_bytes == 0)) "released_bytes"

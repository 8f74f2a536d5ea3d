-- ===== src/Contracts/Capabilities.antt =====
-- What a backend promises: `BackendCapabilities` of inference_runtime/contracts.py.
use llama.Prelude.{
  ℕ, Bool, true, false, not, ◌&&◌, ◌||◌, List, [], ◌∷◌, Option, none, some, String, String_discrete,
  is_yes, any, ltb, ◌==◌, length, if◌then◌else◌, Result, ok, err, ◌>>=◌, ◌>>◌, raise_if,
}
use llama.Contracts.Checks.{Check, bounded_text, positive_int, optional_positive_int}

pub record BackendCapabilities : Type 0 where
  pub backend : String
  pub models : List String
  pub supports_full_request : Bool
  pub supports_sequence_steps : Bool
  pub supports_streaming : Bool
  pub supports_cancellation : Bool
  pub supports_chunked_prefill : Bool
  pub supports_decode_batching : Bool
  pub supports_continuous_batching : Bool
  pub supports_prefix_cache : Bool
  pub supports_session_cache : Bool
  pub supports_explicit_release : Bool
  pub max_context_tokens : ℕ
  pub max_output_tokens : ℕ
  pub max_concurrent_requests : ℕ
  pub max_concurrent_sequences : Option ℕ
  pub max_prefill_tokens_per_step : Option ℕ
  pub max_decode_tokens_per_step : Option ℕ
  pub max_sequences_per_step : Option ℕ

-- The loop over `models`
unfoldable pub check_models : List String → Check
unfolding bounded_text
check_models [] = ok tt
check_models (m ∷ ms) = do bounded_text m "models" 256; check_models ms

-- `len(set(models)) != len(models)`
unfoldable pub has_duplicates : List String → Bool
has_duplicates [] = false
has_duplicates (m ∷ ms) = any (λ n. is_yes (String_discrete n m)) ms || has_duplicates ms

abbrev is_some : Option ℕ → Bool
is_some none = false
is_some (some n) = true

-- The step limits of a backend that must declare them all.
pub record StepLimits : Type 0 where
  pub sequences : ℕ
  pub prefill : ℕ
  pub decode : ℕ
  pub batch : ℕ

unfoldable pub step_limits : Option ℕ → Option ℕ → Option ℕ → Option ℕ → Result String StepLimits
step_limits (some s) (some p) (some d) (some b) =
    ok (record { sequences = s; prefill = p; decode = d; batch = b })
step_limits _ _ _ _ = err "supports_sequence_steps"

-- The checks of a backend with no sequence steps
unfoldable pub check_without_steps : BackendCapabilities → Check
check_without_steps c = do
  raise_if (c.supports_chunked_prefill || c.supports_decode_batching || c.supports_explicit_release)
      "supports_sequence_steps"
  raise_if
      (is_some c.max_concurrent_sequences
        || is_some c.max_prefill_tokens_per_step
        || is_some c.max_decode_tokens_per_step
        || is_some c.max_sequences_per_step)
      "supports_sequence_steps"

-- The checks of a backend with sequence steps
unfoldable pub check_limits : BackendCapabilities → StepLimits → Check
check_limits c l = do
  raise_if (ltb c.max_context_tokens l.prefill) "max_prefill_tokens_per_step"
  raise_if (ltb c.max_output_tokens l.decode) "max_decode_tokens_per_step"
  raise_if (ltb c.max_concurrent_requests l.sequences) "max_concurrent_sequences"
  raise_if (ltb l.sequences l.batch) "max_sequences_per_step"
  raise_if (c.supports_decode_batching && ltb l.batch 2) "max_sequences_per_step"
  raise_if (not c.supports_decode_batching && not (l.batch == 1)) "max_sequences_per_step"
  raise_if
      (c.supports_continuous_batching
        && not (c.supports_chunked_prefill && c.supports_decode_batching))
      "supports_continuous_batching"
  raise_if (not c.supports_chunked_prefill && ltb l.prefill c.max_context_tokens)
      "max_prefill_tokens_per_step"

unfoldable pub check_with_steps : BackendCapabilities → Check
unfolding step_limits check_limits
check_with_steps c = do
  raise_if (not c.supports_cancellation) "supports_cancellation"
  raise_if (not c.supports_explicit_release) "supports_explicit_release"
  l ←
      step_limits c.max_concurrent_sequences c.max_prefill_tokens_per_step
        c.max_decode_tokens_per_step c.max_sequences_per_step
  check_limits c l

-- `BackendCapabilities.__post_init__`
unfoldable pub check_capabilities : BackendCapabilities → Check
unfolding bounded_text check_models has_duplicates positive_int optional_positive_int
    check_without_steps check_with_steps
check_capabilities c = do
  bounded_text c.backend "backend" 256
  raise_if (length c.models == 0) "models"
  check_models c.models
  raise_if (has_duplicates c.models) "models"
  raise_if (not (c.supports_full_request || c.supports_sequence_steps)) "supports_full_request"
  positive_int c.max_context_tokens "max_context_tokens"
  positive_int c.max_output_tokens "max_output_tokens"
  positive_int c.max_concurrent_requests "max_concurrent_requests"
  optional_positive_int c.max_concurrent_sequences "max_concurrent_sequences"
  raise_if (ltb c.max_context_tokens c.max_output_tokens) "max_output_tokens"
  optional_positive_int c.max_prefill_tokens_per_step "max_prefill_tokens_per_step"
  optional_positive_int c.max_decode_tokens_per_step "max_decode_tokens_per_step"
  optional_positive_int c.max_sequences_per_step "max_sequences_per_step"
  if c.supports_sequence_steps then check_with_steps c else check_without_steps c

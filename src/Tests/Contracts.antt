-- ===== src/Tests/Contracts.antt =====
-- The capabilities of a backend that batches, and a batch for it.
use llama.Prelude.{
  ◌≤◌, ◌<◌, ◌≡◌, refl, true, false, List, [], ◌∷◌, some, none, arith, String, String_discrete,
  ℕ_discrete, any, length, All, is_identifier, has_control, ok,
}
use llama.Governance.Policy.{defaults}
use llama.Scheduler.State.{Scheduler}
use llama.Scheduler.Setup.{create}
use llama.Scheduler.Ready.{IsReady, create-IsReady}
use llama.Contracts.Checks.{bounded_text, positive_int, optional_positive_int}
use llama.Contracts.Capabilities.{
  BackendCapabilities, StepLimits, check_models, has_duplicates, step_limits, check_limits,
  check_with_steps, check_capabilities,
}
use llama.Contracts.Sequences.{
  SequenceHandle, SequenceStep, Handle_discrete, check_batch, check_batch_steps,
}
use llama.Contracts.Agreement.{
  Agrees, ArePositive, check_capabilities-Agrees, Distinct, check_batch-Distinct,
}

abbrev capabilities : BackendCapabilities
capabilities = record {
  backend = "native";
  models = "m" ∷ "n" ∷ [];
  supports_full_request = false;
  supports_sequence_steps = true;
  supports_streaming = true;
  supports_cancellation = true;
  supports_chunked_prefill = true;
  supports_decode_batching = true;
  supports_continuous_batching = true;
  supports_prefix_cache = false;
  supports_session_cache = false;
  supports_explicit_release = true;
  max_context_tokens = 100;
  max_output_tokens = 40;
  max_concurrent_requests = 4;
  max_concurrent_sequences = some 3;
  max_prefill_tokens_per_step = some 16;
  max_decode_tokens_per_step = some 4;
  max_sequences_per_step = some 2;
}

pass : check_capabilities capabilities ≡ ok tt
unfolding check_capabilities bounded_text is_identifier has_control check_models has_duplicates any
    String_discrete positive_int optional_positive_int check_with_steps step_limits check_limits
pass = refl

check_capabilities-Agrees_example :
    (l : StepLimits) × Agrees capabilities l × ArePositive capabilities l × (40 ≤ 100)
check_capabilities-Agrees_example = check_capabilities-Agrees capabilities pass refl

abbrev handle : String → SequenceHandle
handle s = record { backend = "native"; model = "m"; sequence = s; generation = 0 }

abbrev batch : List SequenceStep
batch =
    record { handle = handle "a"; token_budget = 4 }
    ∷ record { handle = handle "b"; token_budget = 3 }
    ∷ []

batch_passes : check_batch batch 2 4 ≡ ok tt
unfolding check_batch positive_int check_batch_steps any Handle_discrete String_discrete ℕ_discrete
batch_passes = refl

check_batch-Distinct_example :
    (0 < length batch)
    × (length batch ≤ 2)
    × All (λ s. s.token_budget ≤ 4) batch
    × Distinct [] batch
check_batch-Distinct_example = check_batch-Distinct batch 2 4 batch_passes

create-IsReady_example :
    (s : Scheduler) × (create capabilities 8 4 2 (defaults 1000) none (some 64) ≡ ok s) × IsReady s
create-IsReady_example =
    create-IsReady capabilities (some 64) 8 4 2 2 (defaults 1000) pass refl refl refl (omega arith)
      (omega arith) (omega arith) (omega arith)

-- ===== src/Scheduler/Setup.antt =====
-- The constructor of `ContinuousBatchScheduler` in inference_runtime/continuous_scheduler.py, with what
-- `require_batch_steppable_backend` of inference_runtime/ports.py tests of the capabilities. A backend
-- is taken to have the methods that the tests with `isinstance` look for.
use llama.Prelude.{
  ℕ, ◌*◌, ◌/◌, min, max, not, Option, none, some, Bool, true, false, ltb, ◌==◌, [], Result, ok, err,
  ◌>>=◌, ◌>>◌, raise_if,
}
use llama.Prelude.Int.{pos}
use llama.Governance.Policy.{RuntimeSchedulingPolicy, Error}
use llama.Governance.Admission.{AdmissionLimits, check_limits}
use llama.Contracts.Capabilities.{BackendCapabilities}
use llama.Scheduler.State.{Scheduler}

-- A `BackendConformanceError` of the ports, or a `ValueError`
pub data SetupError : Type 0 where
  not_conforming invalid : SetupError

abbrev is_below_two : Option ℕ → Bool
is_below_two none = true
is_below_two (some n) = ltb n 2

-- `require_batch_steppable_backend`
unfoldable pub check_backend : BackendCapabilities → Result SetupError (Unit {0})
check_backend c = do
  raise_if (not c.supports_sequence_steps) not_conforming
  raise_if (not c.supports_decode_batching) not_conforming
  raise_if (is_below_two c.max_sequences_per_step) not_conforming

abbrev required : Option ℕ → Result SetupError ℕ
required none = err invalid
required (some n) = ok n

-- `capabilities.max_concurrent_sequences or 1`
abbrev or_one : Option ℕ → ℕ
or_one none = 1
or_one (some n) = n

-- The limits that the constructor derives from the capabilities; `kv_tokens` is what the manifest of
-- the backend says, if it has one.
unfoldable pub default_limits : BackendCapabilities → Option ℕ → ℕ → AdmissionLimits
default_limits c kv_tokens max_pending =
    let sequences = or_one c.max_concurrent_sequences in
    let agent_sequences = max 1 (sequences / 2) in
    let tokens : ℕ = elim kv_tokens [ none ↦ c.max_context_tokens * sequences | some n ↦ n ] in
    record {
      max_pending = max_pending;
      max_sequences = sequences;
      kv_token_budget = tokens;
      max_pending_per_workflow = max_pending;
      max_pending_per_agent = max 1 (max_pending / 2);
      max_sequences_per_workflow = sequences;
      max_sequences_per_agent = agent_sequences;
      max_kv_tokens_per_workflow = tokens;
      max_kv_tokens_per_agent = min tokens (c.max_context_tokens * agent_sequences);
      load_shed_pending_threshold = max 1 (max_pending * 3 / 4);
      load_shed_min_priority = pos 0;
    }

abbrev pub or_zero : Option ℕ → ℕ
or_zero none = 0
or_zero (some n) = n

-- The state that the constructor leaves
abbrev pub fresh_scheduler :
    BackendCapabilities
    → ℕ
    → ℕ
    → ℕ
    → ℕ
    → ℕ
    → ℕ
    → RuntimeSchedulingPolicy
    → AdmissionLimits
    → Scheduler
fresh_scheduler c batch prefill decode tick pending burst policy limits = record {
  config = record {
    tick_token_budget = tick;
    max_pending_requests = pending;
    max_decode_burst = burst;
    max_context_tokens = c.max_context_tokens;
    max_concurrent_sequences = or_zero c.max_concurrent_sequences;
    max_sequences_per_step = batch;
    max_prefill_tokens_per_step = prefill;
    max_decode_tokens_per_step = decode;
  };
  admission = record { limits = limits; policy = policy; reservations = [] };
  selector = record {
    policy = policy;
    workflow_service = [];
    agent_service = [];
    request_service = [];
    workflow_weight = [];
    agent_weight = [];
    consecutive_emergency = 0;
  };
  entries = [];
  queued_ids = [];
  prefill_ids = [];
  decode_ids = [];
  decode_burst = 0;
  stopping = false;
  stopped = false;
  fatal_error = none;
  event_failures = 0;
  published = [];
  next_order = 0;
}

abbrev valid : Result Error (Unit {0}) → Result SetupError (Unit {0})
valid (ok u) = ok u
valid (err x) = err invalid

-- `__init__` without the thread. Limits that a caller passes in have passed their own checks.
unfoldable pub create :
    BackendCapabilities
    → ℕ
    → ℕ
    → ℕ
    → RuntimeSchedulingPolicy
    → Option AdmissionLimits
    → Option ℕ
    → Result SetupError Scheduler
unfolding check_backend default_limits
create c tick pending burst policy limits kv_tokens = do
  check_backend c
  raise_if (tick == 0) invalid
  raise_if (pending == 0) invalid
  raise_if (burst == 0) invalid
  batch ← required c.max_sequences_per_step
  prefill ← required c.max_prefill_tokens_per_step
  decode ← required c.max_decode_tokens_per_step
  raise_if (ltb tick batch) invalid
  elim limits [
    | some l ↦ ok (fresh_scheduler c batch prefill decode tick pending burst policy l)
    | none ↦
        valid (check_limits (default_limits c kv_tokens pending))
        >> ok (
            fresh_scheduler c batch prefill decode tick pending burst policy
              (default_limits c kv_tokens pending))
  ]

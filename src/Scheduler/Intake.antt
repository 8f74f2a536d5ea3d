-- ===== src/Scheduler/Intake.antt =====
-- The calls of a producer: `infer`, `cancel` and the start of `shutdown` in
-- inference_runtime/continuous_scheduler.py. `infer` is two steps, since the caller waits between
-- them.
use llama.Prelude.{
  ℕ, ◌+◌, min, max, Bool, true, false, [], ◌∷◌, ◌++◌, map, Option, none, some, String,
  String_discrete, leb, length, Result, ok, err, ◌>>◌, raise_if, if◌then◌else◌,
}
use llama.Prelude.Dict
use llama.Governance.Policy.{SchedulingMetadata, Code, Error, value_error, rejection}
use llama.Governance.Admission.{Controller, admit}
use llama.Scheduler.State.{
  queued, InferenceRuntimeError, Request, GenerateResult, RequestEntry, Scheduler, is_terminal,
  find, store, live,
}

-- What `infer` raises: an error of the runtime, or a `ValueError` of the admission controller.
pub data Refusal : Type 0 where
  inference : InferenceRuntimeError → Refusal
  invalid : Refusal

-- The text of a code of `AdmissionRejection`
abbrev pub code_name : Code → String
code_name Code.unknown_service_class = "unknown_service_class"
code_name Code.context_overflow = "context_overflow"
code_name Code.workflow_kv_quota = "workflow_kv_quota"
code_name Code.agent_kv_quota = "agent_kv_quota"
code_name Code.duplicate_request = "duplicate_request"
code_name Code.queue_full = "queue_full"
code_name Code.overloaded = "overloaded"
code_name Code.workflow_queue_quota = "workflow_queue_quota"
code_name Code.agent_queue_quota = "agent_queue_quota"
code_name Code.unknown_request = "unknown_request"
code_name Code.state_conflict = "state_conflict"
code_name Code.reservation_underestimated = "reservation_underestimated"

abbrev refuse : String → Bool → Refusal
refuse code retryable = inference (record { code = code; retryable = retryable })

abbrev earliest : ℕ → Option ℕ → ℕ
earliest deadline none = deadline
earliest deadline (some other) = min deadline other

-- `_estimate_reservation`
unfoldable pub estimate_reservation : Scheduler → Request → ℕ
estimate_reservation s r =
    min s.config.max_context_tokens (max 1 (r.prompt_bytes + r.total_tokens + 64))

-- The deadline in the queue
unfoldable pub queue_deadline : Request → SchedulingMetadata → ℕ → ℕ
queue_deadline r m now = earliest (now + r.queue_timeout_ms) m.deadline_monotonic

abbrev pub fresh : Scheduler → Request → SchedulingMetadata → String → ℕ → RequestEntry
fresh s r m attempt_id now = record {
  request = r;
  scheduling = m;
  attempt_id = attempt_id;
  admitted_at = now;
  queue_deadline = queue_deadline r m now;
  order = s.next_order;
  estimated_tokens = estimate_reservation s r;
  state = queued;
  handle = none;
  execution_deadline = none;
  opened_at = none;
  cancel_requested = false;
  result = none;
  error = none;
  terminal_at = none;
  admitted_event_sent = false;
  terminalizing = false;
  resource_release_confirmed = false;
  final_deltas = [];
}

abbrev fatal_or : Option InferenceRuntimeError → Refusal
fatal_or none = refuse "shutdown" true
fatal_or (some x) = inference x

abbrev is_some {ℓ} : {A : Type ℓ} → Option A → Bool
is_some none = false
is_some (some n) = true

abbrev pub enqueue : Scheduler → RequestEntry → Result Error Controller → Result Refusal Scheduler
enqueue s e (err value_error) = err invalid
enqueue s e (err (rejection code retryable)) = err (refuse (code_name code) retryable)
enqueue s e (ok admission) = ok (record s {
  admission = admission;
  next_order = s.next_order + 1;
  entries = Dict.put String_discrete e.scheduling.request_id e s.entries;
  queued_ids = s.queued_ids ++ e.scheduling.request_id ∷ [];
})

-- The guards of `infer`
unfoldable pub check_infer :
    Scheduler → Request → SchedulingMetadata → ℕ → Result Refusal (Unit {0})
unfolding queue_deadline
check_infer s r m now = do
  raise_if (leb (queue_deadline r m now) now) (refuse "deadline_exceeded" true)
  raise_if s.stopped (fatal_or s.fatal_error)
  raise_if s.stopping (refuse "shutdown" true)
  raise_if (is_some (find s m.request_id)) (refuse "duplicate_request" false)
  raise_if (leb s.config.max_pending_requests (length (live s))) (refuse "queue_full" true)

-- `infer` up to the wait
unfoldable pub infer :
    Scheduler → Request → SchedulingMetadata → String → ℕ → Result Refusal Scheduler
unfolding check_infer
infer s r m attempt_id now = do
  check_infer s r m now
  enqueue s (fresh s r m attempt_id now) (admit s.admission m (estimate_reservation s r))

abbrev pub answer :
    Option InferenceRuntimeError
    → Option GenerateResult
    → Result InferenceRuntimeError GenerateResult
answer (some x) result = err x
answer none none = err (record { code = "scheduler_invariant"; retryable = false })
answer none (some result) = ok result

-- `infer` after the wait: while the entry is not terminal, the caller waits on.
unfoldable pub collect :
    Scheduler → String → Scheduler × Option (Result InferenceRuntimeError GenerateResult)
collect s id = elim (find s id) [
  | none ↦ (s, none)
  | some e ↦
      if is_terminal e.state
      then (
        record s { entries = Dict.remove String_discrete id s.entries },
        some (answer e.error e.result),
      )
      else (s, none)
]

abbrev pub request_cancel : RequestEntry → RequestEntry
request_cancel e = if is_terminal e.state then e else record e { cancel_requested = true }

-- `cancel`
unfoldable pub cancel : Scheduler → String → Scheduler × Bool
cancel s id = elim (find s id) [
  | none ↦ (s, false)
  | some e ↦
      if is_terminal e.state
      then (s, false)
      else (store s (record e { cancel_requested = true }), true)
]

-- The first section of `shutdown`
unfoldable pub begin_shutdown : Scheduler → Scheduler
begin_shutdown s = record s {
  stopping = true;
  entries = map (λ e. (e.0, request_cancel e.1)) s.entries;
}

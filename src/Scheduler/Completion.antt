-- ===== src/Scheduler/Completion.antt =====
-- Which requests end and with what: `_process_terminal_boundaries`, `_complete_entry` and `_fail_all` of
-- inference_runtime/continuous_scheduler.py.
use Prim.Native.String.{◌++◌ as append_text}
use llama.Prelude.{
  ℕ, zero, suc, ◌-◌, Bool, true, false, not, List, [], ◌∷◌, Option, none, some, String,
  String_discrete, is_yes, leb, Result, ok, err, if◌then◌else◌,
}
use llama.Prelude.Dict.{values}
use llama.Contracts.Sequences.{SequenceHandle}
use llama.Contracts.Outcomes.{SequenceCompletion, ReleaseOutcome}
use llama.Contracts.Events.{SchedulerEvent}
use llama.Scheduler.State.{
  releasing, InferenceRuntimeError, GenerateResult, RequestEntry, Scheduler, is_terminal, find,
  store, live, BackendFailure,
}
use llama.Scheduler.Ending.{release_and_terminalize}

-- `entry.queue_deadline if entry.handle is None else entry.execution_deadline`
abbrev pub current_deadline : RequestEntry → Option ℕ
current_deadline e = elim e.handle [ none ↦ some e.queue_deadline | some h ↦ e.execution_deadline ]

abbrev pub elapsed : Option ℕ → ℕ → Bool
elapsed none now = false
elapsed (some deadline) now = leb deadline now

abbrev timeout_code : Option SequenceHandle → String
timeout_code none = "queue_timeout"
timeout_code (some h) = "deadline_exceeded"

-- The error that ends an entry that is not terminal, if it has to end
unfoldable pub boundary : Scheduler → ℕ → RequestEntry → Option InferenceRuntimeError
boundary s now e =
    if is_terminal e.state
    then none
    else if s.stopping
    then some (record { code = "shutdown"; retryable = true })
    else if e.cancel_requested
    then some (record { code = "cancelled"; retryable = false })
    else if elapsed (current_deadline e) now
    then some (record { code = timeout_code e.handle; retryable = true })
    else none

abbrev pub or_later :
    RequestEntry
    → Option InferenceRuntimeError
    → Option (RequestEntry × InferenceRuntimeError)
    → Option (RequestEntry × InferenceRuntimeError)
or_later e none rest = rest
or_later e (some x) rest = some (e, x)

-- The loop of `_process_terminal_boundaries`
unfoldable pub first_boundary :
    Scheduler → ℕ → List RequestEntry → Option (RequestEntry × InferenceRuntimeError)
unfolding boundary
first_boundary s now [] = none
first_boundary s now (e ∷ es) = or_later e (boundary s now e) (first_boundary s now es)

-- `"".join(deltas)`
unfoldable pub join : List String → String
join [] = ""
join (d ∷ ds) = append_text d (join ds)

-- `opened_at or now`
abbrev opened_or : ℕ → Option ℕ → ℕ
opened_or now none = now
opened_or now (some zero) = now
opened_or now (some (suc t)) = suc t

abbrev pub result_for : Scheduler → RequestEntry → SequenceCompletion → ℕ → GenerateResult
result_for s e c now = record {
  request_id = e.scheduling.request_id;
  attempt_id = e.attempt_id;
  completion = c;
  queue_ms = opened_or now e.opened_at - e.admitted_at;
  total_ms = now - e.admitted_at;
  context_headroom = s.config.max_context_tokens - c.prompt_tokens - e.request.total_tokens;
}

abbrev failure : String → Bool → Result InferenceRuntimeError GenerateResult
failure code retryable = err (record { code = code; retryable = retryable })

-- What `_complete_entry` ends the request with
unfoldable pub outcome_of :
    Scheduler
    → RequestEntry
    → Option SequenceCompletion
    → ℕ
    → Result InferenceRuntimeError GenerateResult
unfolding join
outcome_of s e none now = failure "protocol_violation" true
outcome_of s e (some c) now =
    if not (is_yes (String_discrete (join e.final_deltas) c.final_text))
    then failure "protocol_violation" true
    else if not (e.request.accepts c.final_text)
    then failure "output_invalid" false
    else ok (result_for s e c now)

module _ (publishes : SchedulerEvent → Bool)
    (reply : SequenceHandle → Result BackendFailure ReleaseOutcome) where
  abbrev pub end_with :
      Scheduler → String → Result InferenceRuntimeError GenerateResult → ℕ → Scheduler
  end_with s id (ok r) now = (release_and_terminalize publishes reply s id (some r) none now).0
  end_with s id (err x) now = (release_and_terminalize publishes reply s id none (some x) now).0

  -- `_complete_entry`
  unfoldable pub complete_entry : Scheduler → String → Option SequenceCompletion → ℕ → Scheduler
  unfolding outcome_of
  complete_entry s id completion now = elim (find s id) [
    | none ↦ s
    | some e ↦ end_with s id (outcome_of s e completion now) now
  ]

  -- `_process_terminal_boundaries`
  unfoldable pub process_terminal_boundaries : Scheduler → ℕ → Scheduler × Bool
  unfolding first_boundary
  process_terminal_boundaries s now = elim (first_boundary s now (values s.entries)) [
    | none ↦ (s, false)
    | some (e, x) ↦ (
      end_with (store s (record e { state = releasing })) e.scheduling.request_id (err x) now,
      true,
    )
  ]

  -- The loop of `_fail_all`
  unfoldable pub fail_entries :
      Scheduler → List RequestEntry → InferenceRuntimeError → ℕ → Scheduler
  fail_entries s [] x now = s
  fail_entries s (e ∷ es) x now =
      fail_entries (end_with s e.scheduling.request_id (err x) now) es x now

  -- `_fail_all`
  unfoldable pub fail_all : Scheduler → InferenceRuntimeError → ℕ → Scheduler
  unfolding fail_entries
  fail_all s x now = fail_entries s (live s) x now

  -- The rest of `shutdown` when the worker was never started
  unfoldable pub stop_unstarted : Scheduler → ℕ → Scheduler
  unfolding fail_all
  stop_unstarted s now = record (fail_all s (record { code = "shutdown"; retryable = true }) now) {
    stopped = true;
  }

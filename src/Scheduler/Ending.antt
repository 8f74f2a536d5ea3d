-- ===== src/Scheduler/Ending.antt =====
-- The end of a request: `_terminalize`, `_release_and_terminalize`, `_complete_entry`,
-- `_process_terminal_boundaries` and `_fail_all` of inference_runtime/continuous_scheduler.py. An entry
-- is given by its request id, since the source shares it with the table.
use llama.Prelude.{
  ℕ, Bool, true, false, not, ◌&&◌, ◌||◌, Option, none, some, String, String_discrete, is_yes, any,
  Result, ok, err, if◌then◌else◌,
}
use llama.Governance.Admission.{release}
use llama.Governance.Selector.{forget}
use llama.Contracts.Sequences.{SequenceHandle}
use llama.Contracts.Outcomes.{ReleaseStatus, ReleaseOutcome}
use llama.Contracts.Events.{SchedulerEvent, SchedulerEventKind}
use llama.Scheduler.State.{
  terminal, InferenceRuntimeError, GenerateResult, RequestEntry, Scheduler, is_terminal, find,
  store, live, prefix_of, BackendFailure, backend_error, publish,
}

abbrev pub is_some {ℓ} : {A : Type ℓ} → Option A → Bool
is_some none = false
is_some (some n) = true

-- `ReleaseStatus.RELEASED` or `ALREADY_RELEASED`
abbrev pub confirms : ReleaseStatus → Bool
confirms ReleaseStatus.released = true
confirms ReleaseStatus.already_released = true
confirms _ = false

-- Exactly one result or error
unfoldable pub exactly_one :
    Option GenerateResult
    → Option InferenceRuntimeError
    → Result InferenceRuntimeError GenerateResult
exactly_one (some r) none = ok r
exactly_one none (some x) = err x
exactly_one _ _ = err (record { code = "scheduler_invariant"; retryable = false })

abbrev result_of : Result InferenceRuntimeError GenerateResult → Option GenerateResult
result_of (ok r) = some r
result_of (err x) = none

abbrev error_of : Result InferenceRuntimeError GenerateResult → Option InferenceRuntimeError
error_of (ok r) = none
error_of (err x) = some x

-- `_admission.release`, once the backend has given the sequence back
abbrev pub settle : Scheduler → RequestEntry → Scheduler
settle s e =
    if e.resource_release_confirmed
    then record s { admission = (release s.admission e.scheduling.request_id).0 }
    else s

abbrev of_workflow : RequestEntry → RequestEntry → Bool
of_workflow e other = is_yes (String_discrete other.scheduling.workflow_id e.scheduling.workflow_id)

abbrev of_agent : RequestEntry → RequestEntry → Bool
of_agent e other =
    of_workflow e other && is_yes (String_discrete other.scheduling.agent_id e.scheduling.agent_id)

-- `_selector.forget`, when the entry is terminal, so that no live entry is the entry itself
unfoldable pub forget_entry : Scheduler → RequestEntry → Scheduler
forget_entry s e = record s {
  selector =
      forget s.selector e.scheduling (not (any (of_agent e) (live s)))
        (not (any (of_workflow e) (live s)));
}

module _ (publishes : SchedulerEvent → Bool) where
  -- The first lines of `_terminalize`
  unfoldable pub announce : Scheduler → RequestEntry → ℕ → Scheduler
  unfolding publish
  announce s e now =
      if e.admitted_event_sent
      then s
      else publish publishes s e SchedulerEventKind.admitted none none none now

  abbrev pub announced : RequestEntry → RequestEntry
  announced e = record e {
    admitted_event_sent = true;
    resource_release_confirmed = not (is_some e.handle) || e.resource_release_confirmed;
  }

  abbrev pub publish_end :
      Scheduler → RequestEntry → Result InferenceRuntimeError GenerateResult → ℕ → Scheduler
  publish_end s e (ok r) now =
      publish publishes s e SchedulerEventKind.request_completed none none none now
  publish_end s e (err x) now =
      publish publishes s e SchedulerEventKind.request_failed none none
        (some (prefix_of 128 x.code)) now

  abbrev pub ended : RequestEntry → Result InferenceRuntimeError GenerateResult → ℕ → RequestEntry
  ended e end now = record e {
    terminalizing = true;
    state = terminal;
    result = result_of end;
    error = error_of end;
    terminal_at = some now;
  }

  -- What `_terminalize` does to an entry that nothing else terminalizes.
  unfoldable pub finish :
      Scheduler → RequestEntry → Result InferenceRuntimeError GenerateResult → ℕ → Scheduler
  unfolding publish forget_entry
  finish s e end now =
      let s1 = publish_end (settle (store s (record e { terminalizing = true })) e) e end now in
      forget_entry (store s1 (ended e end now)) (ended e end now)

  -- `_terminalize`
  unfoldable pub terminalize :
      Scheduler
      → String
      → Option GenerateResult
      → Option InferenceRuntimeError
      → ℕ
      → Scheduler × Bool
  unfolding announce finish exactly_one
  terminalize s id result error now = elim (find s id) [
    | none ↦ (s, false)
    | some e ↦
        let s1 = store (announce s e now) (announced e) in
        if is_terminal e.state || e.terminalizing
        then (s1, false)
        else (finish s1 (announced e) (exactly_one result error) now, true)
  ]

  abbrev pub is_confirmed : Result BackendFailure ReleaseOutcome → Result BackendFailure (Unit {0})
  is_confirmed (err x) = err x
  is_confirmed (ok o) = if confirms o.status then ok tt else err (record { native_code = none })

  -- `_release_and_terminalize` once the backend has answered
  unfoldable pub after_release :
      Scheduler
      → RequestEntry
      → SequenceHandle
      → Result BackendFailure (Unit {0})
      → Option GenerateResult
      → Option InferenceRuntimeError
      → ℕ
      → Scheduler × Bool
  unfolding publish terminalize backend_error
  after_release s e h (ok u) result error now =
      let s1 = store s (record e { resource_release_confirmed = true }) in
      terminalize
        (publish publishes s1 e SchedulerEventKind.sequence_released (some h) none none now)
        e.scheduling.request_id result error now
  after_release s e h (err x) result error now =
      terminalize s e.scheduling.request_id none (some (backend_error "backend_release_failed" x))
        now

  module _ (reply : SequenceHandle → Result BackendFailure ReleaseOutcome) where
    -- `_release_and_terminalize`, where `reply` is what `backend.release` answers or raises.
    unfoldable pub release_and_terminalize :
        Scheduler
        → String
        → Option GenerateResult
        → Option InferenceRuntimeError
        → ℕ
        → Scheduler × Bool
    unfolding after_release terminalize
    release_and_terminalize s id result error now = elim (find s id) [
      | none ↦ (s, false)
      | some e ↦ elim e.handle [
        | none ↦
            terminalize (store s (record e { resource_release_confirmed = true })) id result error
              now
        | some h ↦ after_release s e h (is_confirmed (reply h)) result error now
      ]
    ]

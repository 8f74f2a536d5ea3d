-- ===== src/Scheduler/Opening.antt =====
-- The opening of a sequence: `_open_one` of inference_runtime/continuous_scheduler.py, in the section
-- before `backend.open_sequence` and the one after it, since a producer may cancel in between.
use llama.Prelude.{
  ℕ, ◌+◌, min, Bool, true, false, not, ◌&&◌, ◌||◌, List, [], ◌∷◌, ◌++◌, Option, none, some, String,
  leb, length, select, Result, ok, err, if◌then◌else◌,
}
use llama.Prelude.Dict.{values}
use llama.Governance.Policy.{Error, value_error, rejection}
use llama.Governance.Admission.{Controller, can_activate, activate}
use llama.Governance.Selector.{charge}
use llama.Governance.Selector.Key.{Selector}
use llama.Contracts.Sequences.{SequenceHandle}
use llama.Contracts.Outcomes.{ReleaseOutcome}
use llama.Contracts.Events.{SchedulerEvent, SchedulerEventKind}
use llama.Scheduler.State.{
  queued, opening, prefill, releasing, InferenceRuntimeError, RequestEntry, Scheduler, is_terminal,
  find, store, BackendFailure, backend_error, publish,
}
use llama.Scheduler.Queues.{pop_state}
use llama.Scheduler.Intake.{code_name}
use llama.Scheduler.Ending.{announce, terminalize, release_and_terminalize}

abbrev is_some {ℓ} : {A : Type ℓ} → Option A → Bool
is_some none = false
is_some (some n) = true

-- The entries that hold a sequence
unfoldable pub active_sequences : Scheduler → List RequestEntry
active_sequences s = select (λ e. is_some e.handle && not (is_terminal e.state)) (values s.entries)

-- The code that an exception of the admission controller has
abbrev pub failure_of : Error → BackendFailure
failure_of value_error = record { native_code = none }
failure_of (rejection code retryable) = record { native_code = some (code_name code) }

-- The end of a sequence in the queue of the execution
unfoldable pub execution_deadline : RequestEntry → ℕ → ℕ
execution_deadline e now = elim e.scheduling.deadline_monotonic [
  | none ↦ now + e.request.execution_timeout_ms
  | some deadline ↦ min (now + e.request.execution_timeout_ms) deadline
]

-- A charge, which only refuses to charge nothing
abbrev pub charged : Scheduler → Result Error Selector → Scheduler
charged s (err x) = s
charged s (ok selector) = record s { selector = selector }

module _ (publishes : SchedulerEvent → Bool) where
  abbrev pub opening_from :
      Scheduler → Result Error (Option RequestEntry) → ℕ → Scheduler × Result Error (Option String)
  opening_from s (err x) now = (s, err x)
  opening_from s (ok none) now = (s, ok none)
  opening_from s (ok (some e)) now = (
    store
        (announce publishes (store s (record e { state = opening })) (record e { state = opening })
          now)
        (record e { state = opening; admitted_event_sent = true }),
    ok (some e.scheduling.request_id),
  )

  -- `_open_one` up to `backend.open_sequence`: the request whose sequence is to be opened
  unfoldable pub start_open : Scheduler → ℕ → Scheduler × Result Error (Option String)
  unfolding active_sequences pop_state announce
  start_open s now =
      if leb s.config.max_concurrent_sequences (length (active_sequences s))
      then (s, ok none)
      else let p =
          pop_state s s.queued_ids queued (λ e. can_activate s.admission e.scheduling.request_id)
            now in
        opening_from (record s { selector = p.selector; queued_ids = p.queue }) p.taken now

  module _ (reply : SequenceHandle → Result BackendFailure ReleaseOutcome) where
    -- The sequence is open, but the ledger or the backend refuses its reservation.
    unfoldable pub refuse_open :
        Scheduler → RequestEntry → SequenceHandle → BackendFailure → ℕ → Scheduler
    unfolding publish backend_error release_and_terminalize
    refuse_open s e h x now =
        let e1 = record e { handle = some h; state = releasing } in
        let s1 =
          publish publishes (store s e1) e1 SchedulerEventKind.sequence_opened (some h) none none
            now in
        (release_and_terminalize publishes reply s1 e.scheduling.request_id none
          (some (backend_error "resource_admission_failed" x)) now).0

    abbrev pub opened : RequestEntry → SequenceHandle → ℕ → RequestEntry
    opened e h now = record e {
      handle = some h;
      opened_at = some now;
      execution_deadline = some (execution_deadline e now);
    }

    abbrev pub late_error : RequestEntry → InferenceRuntimeError
    late_error e =
        if e.cancel_requested
        then record { code = "cancelled"; retryable = false }
        else record { code = "deadline_exceeded"; retryable = true }

    -- The deadline or a cancellation came first, so the sequence goes back at once.
    unfoldable pub open_late : Scheduler → RequestEntry → SequenceHandle → ℕ → Scheduler
    unfolding publish release_and_terminalize
    open_late s e h now =
        let e1 = record (opened e h now) { state = releasing } in
        let s1 =
          publish publishes (store s e1) e1 SchedulerEventKind.sequence_opened (some h) none none
            now in
        (release_and_terminalize publishes reply s1 e.scheduling.request_id none
          (some (late_error e)) now).0

    unfoldable pub open_on_time : Scheduler → RequestEntry → SequenceHandle → ℕ → Scheduler
    unfolding publish
    open_on_time s e h now =
        let e1 = record (opened e h now) { state = prefill } in
        publish publishes
          (record (store s e1) { prefill_ids = s.prefill_ids ++ e.scheduling.request_id ∷ [] }) e1
          SchedulerEventKind.sequence_opened (some h) none none now

    -- The sequence is open and its reservation is active.
    unfoldable pub accept_open : Scheduler → RequestEntry → SequenceHandle → ℕ → Scheduler
    unfolding execution_deadline open_late open_on_time
    accept_open s e h now =
        let s1 = charged s (charge s.selector e.scheduling 1) in
        if e.cancel_requested || s.stopping || leb (execution_deadline e now) now
        then open_late s1 e h now
        else open_on_time s1 e h now

    abbrev pub after_activate :
        Scheduler → RequestEntry → SequenceHandle → Result Error Controller → ℕ → Scheduler
    after_activate s e h (err x) now = refuse_open s e h (failure_of x) now
    after_activate s e h (ok admission) now =
        accept_open (record s { admission = admission }) e h now

    abbrev pub after_reservation :
        Scheduler → RequestEntry → SequenceHandle → Result BackendFailure (Option ℕ) → ℕ → Scheduler
    after_reservation s e h (err x) now = refuse_open s e h x now
    after_reservation s e h (ok reserved) now =
        after_activate s e h (activate s.admission e.scheduling.request_id reserved) now

    -- `_open_one` from the answer of `backend.open_sequence` on; `reserved` is what
    -- `backend.reservation_tokens` answers for a handle.
    unfoldable pub after_open :
        Scheduler
        → String
        → Result BackendFailure SequenceHandle
        → (SequenceHandle → Result BackendFailure (Option ℕ))
        → ℕ
        → Scheduler
    unfolding terminalize backend_error refuse_open accept_open
    after_open s id answer reserved now = elim (find s id) [
      | none ↦ s
      | some e ↦ elim answer [
        | err x ↦
            (terminalize publishes s id none (some (backend_error "open_sequence_failed" x)) now).0
        | ok h ↦ after_reservation s e h (reserved h) now
      ]
    ]

-- ===== src/Scheduler/Loop.antt =====
-- The worker: `_run` of inference_runtime/continuous_scheduler.py with
-- `_choose_batch_action`, `_has_immediate_work_locked` and `_next_deadline_wait_locked`.
use llama.Prelude.{
  ℕ, ◌-◌, min, Bool, true, false, not, ◌&&◌, ◌||◌, List, [], ◌∷◌, map, Option, none, some, String,
  ltb, ◌==◌, length, any, Result, ok, err, if◌then◌else◌,
}
use llama.Prelude.Dict.{values}
use llama.Governance.Policy.{Error}
use llama.Governance.Admission.{can_activate}
use llama.Contracts.Sequences.{SequenceHandle, SequenceStep}
use llama.Contracts.Outcomes.{PrefillOutcome, DecodeOutcome, ReleaseOutcome}
use llama.Contracts.Events.{SchedulerEvent}
use llama.Scheduler.State.{
  queued, prefill, decode, InferenceRuntimeError, RequestEntry, Scheduler, is_terminal, find, live,
  BackendFailure,
}
use llama.Scheduler.Queues.{in_state, queue_has_state}
use llama.Scheduler.Completion.{current_deadline, elapsed, process_terminal_boundaries, end_with}
use llama.Scheduler.Opening.{start_open, after_open}
use llama.Scheduler.Batches.{start_prefill, after_prefill}
use llama.Scheduler.Decoding.{start_decode, after_decode}

pub data Action : Type 0 where
  decode_batch prefill_batch : Action

-- The choice of `_choose_batch_action`, given what stands in the queues
unfoldable pub action_for : Scheduler → Bool → Bool → Option Action
action_for s has_decode has_prefill =
    if has_decode && (not has_prefill || ltb s.decode_burst s.config.max_decode_burst)
    then some decode_batch
    else if has_prefill
    then some prefill_batch
    else if has_decode
    then some decode_batch
    else none

-- `_choose_batch_action`: both queues lose their stale fronts.
unfoldable pub choose_batch_action : Scheduler → Scheduler × Option Action
unfolding queue_has_state action_for
choose_batch_action s =
    let d = queue_has_state s decode s.decode_ids in
    let p = queue_has_state s prefill s.prefill_ids in
    (record s { decode_ids = d.0; prefill_ids = p.0 }, action_for s d.1 p.1)

abbrev pub must_look : Scheduler → ℕ → RequestEntry → Bool
must_look s now e =
    not (is_terminal e.state)
    && (s.stopping || e.cancel_requested || elapsed (current_deadline e) now)

abbrev can_open : Scheduler → String → Bool
can_open s id = in_state queued (find s id) && can_activate s.admission id

-- `_has_immediate_work_locked`
unfoldable pub has_immediate_work : Scheduler → ℕ → Scheduler × Bool
unfolding queue_has_state
has_immediate_work s now =
    if any (must_look s now) (values s.entries)
    then (s, true)
    else let p = queue_has_state s prefill s.prefill_ids in
      let d = queue_has_state s decode s.decode_ids in
      if p.1
      then (record s { prefill_ids = p.0 }, true)
      else (record s { prefill_ids = p.0; decode_ids = d.0 }, d.1 || any (can_open s) s.queued_ids)

-- The minimum of the deadlines, if there is one
unfoldable pub least_deadline : List RequestEntry → Option ℕ
least_deadline [] = none
least_deadline (e ∷ es) =
    let rest = least_deadline es in
    elim (current_deadline e) [
      | none ↦ rest
      | some t ↦ elim rest [ none ↦ some t | some u ↦ some (min t u) ]
    ]

-- `_next_deadline_wait_locked`
unfoldable pub next_deadline_wait : Scheduler → ℕ → Option ℕ
unfolding least_deadline
next_deadline_wait s now = elim (least_deadline (live s)) [ none ↦ none | some t ↦ some (t - now) ]

-- Where the worker is: before one of the sections of `_run`, or at a call of the backend, during which
-- it does not hold the lock.
pub data Phase : Type 0 where
  -- Before `_process_terminal_boundaries`, `_open_one`, `_choose_batch_action` and the last section
  looking choosing acting idling : Phase
  opening : String → Phase
  prefilling : List (RequestEntry × SequenceStep) → Phase
  decoding : List RequestEntry → List SequenceStep → Phase
  waiting : Option ℕ → Phase
  -- In the handler of `_run`: before the snapshot of `_fail_all`, and in its loop
  crashing : InferenceRuntimeError → Phase
  failing : InferenceRuntimeError → List RequestEntry → Phase
  -- The end after a shutdown, and the end after an exception
  finished crashed : Phase

-- The backend and the sink of the events, which are not part of the scheduler.
pub record Backend : Type 0 where
  pub publishes : SchedulerEvent → Bool
  pub open_sequence : String → Result BackendFailure SequenceHandle
  pub reservation_tokens : SequenceHandle → Result BackendFailure (Option ℕ)
  pub prefill_batch : List SequenceStep → Result BackendFailure (List PrefillOutcome)
  pub decode_batch : List SequenceStep → Result BackendFailure (List DecodeOutcome)
  pub release : SequenceHandle → Result BackendFailure ReleaseOutcome

abbrev pub wait_unless : Scheduler × Bool → ℕ → Scheduler × Phase
wait_unless (s, true) now = (s, looking)
wait_unless (s, false) now = (s, waiting (next_deadline_wait s now))

-- The first section of the handler of `_run`
unfoldable pub crash : Scheduler → Scheduler × Phase
crash s =
    let x : InferenceRuntimeError = record { code = "scheduler_crashed"; retryable = true } in
    (record s { fatal_error = some x }, crashing x)

-- The last section of a round, when nothing was done in it
unfoldable pub idle : Scheduler → ℕ → Scheduler × Phase
unfolding has_immediate_work next_deadline_wait
idle s now =
    if s.stopping && length (live s) == 0
    then (record s { stopped = true }, finished)
    else wait_unless (has_immediate_work s now) now

abbrev pub then_look : Scheduler × Bool → Scheduler × Phase
then_look (s, true) = (s, looking)
then_look (s, false) = (s, choosing)

abbrev pub then_open : Scheduler × Result Error (Option String) → Scheduler × Phase
then_open (s, err x) = crash s
then_open (s, ok none) = (s, acting)
then_open (s, ok (some id)) = (s, opening id)

abbrev pub then_prefill :
    Scheduler × Result Error (List (RequestEntry × SequenceStep)) → Scheduler × Phase
then_prefill (s, err x) = crash s
then_prefill (s, ok []) = (s, looking)
then_prefill (s, ok (p ∷ ps)) = (s, prefilling (p ∷ ps))

abbrev pub then_decode :
    Scheduler × Result Error (List RequestEntry × List SequenceStep) → Scheduler × Phase
then_decode (s, err x) = crash s
then_decode (s, ok (es, [])) = (s, looking)
then_decode (s, ok (es, st ∷ sts)) = (s, decoding es (st ∷ sts))

abbrev pub then_act : Scheduler × Option Action → ℕ → Scheduler × Phase
then_act (s, none) now = (s, idling)
then_act (s, some decode_batch) now = then_decode (start_decode s now)
then_act (s, some prefill_batch) now = then_prefill (start_prefill s now)

module _ (b : Backend) where
  -- One section of `_run`, at its own reading of the clock. The end of a request, with the backend's
  -- release of its sequence, is part of the section that ends it.
  unfoldable pub advance : Scheduler → Phase → ℕ → Scheduler × Phase
  unfolding process_terminal_boundaries start_open after_open choose_batch_action start_prefill
      after_prefill start_decode after_decode idle crash
  advance s looking now = then_look (process_terminal_boundaries b.publishes b.release s now)
  advance s choosing now = then_open (start_open b.publishes s now)
  advance s (opening id) now =
      (after_open b.publishes b.release s id (b.open_sequence id) b.reservation_tokens now, looking)
  advance s acting now = then_act (choose_batch_action s) now
  advance s (prefilling steps) now =
      let answer = b.prefill_batch (map (λ q. q.1) steps) in
      (after_prefill b.publishes b.release s (map (λ q. q.0) steps) answer now, looking)
  advance s (decoding es steps) now =
      (after_decode b.publishes b.release s es (b.decode_batch steps) now, looking)
  advance s idling now = idle s now
  advance s (waiting t) now = (s, looking)
  advance s (crashing x) now = (s, failing x (live s))
  advance s (failing x []) now = (record s { stopped = true }, crashed)
  advance s (failing x (e ∷ es)) now =
      (end_with b.publishes b.release s e.scheduling.request_id (err x) now, failing x es)
  advance s finished now = (s, finished)
  advance s crashed now = (s, crashed)

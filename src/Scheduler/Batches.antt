-- ===== src/Scheduler/Batches.antt =====
-- One batch of prefill steps: `_run_prefill_batch` of inference_runtime/continuous_scheduler.py, in the
-- section before the backend's call and the one after it.
use llama.Prelude.{
  ℕ, ◌-◌, ◌/◌, min, max, Bool, true, false, List, [], ◌∷◌, ◌++◌, map, Option, none, some, String,
  is_yes, ◌==◌, length, Result, ok, err, if◌then◌else◌,
}
use llama.Governance.Policy.{Error}
use llama.Governance.Selector.{charge}
use llama.Contracts.Sequences.{SequenceHandle, SequenceStep, Handle_discrete}
use llama.Contracts.Outcomes.{PrefillStatus, PrefillOutcome, ReleaseOutcome}
use llama.Contracts.Events.{SchedulerEvent, SchedulerEventKind}
use llama.Scheduler.State.{
  RuntimeRequestState, State_discrete, prefill, prefill_inflight, decode, releasing, RequestEntry,
  Scheduler, find, store, BackendFailure, backend_error, publish,
}
use llama.Scheduler.Queues.{take_state}
use llama.Scheduler.Ending.{release_and_terminalize}
use llama.Scheduler.Completion.{fail_entries}
use llama.Scheduler.Opening.{charged}

-- What the handlers do to the shared entry of an id
abbrev pub amend : Scheduler → String → (RequestEntry → RequestEntry) → Scheduler
amend s id f = elim (find s id) [ none ↦ s | some e ↦ store s (f e) ]

abbrev pub same_handle : Option SequenceHandle → SequenceHandle → Bool
same_handle none h = false
same_handle (some g) h = is_yes (Handle_discrete h g)

abbrev pub set_states : Scheduler → List RequestEntry → RuntimeRequestState → Scheduler
set_states s [] state = s
set_states s (e ∷ es) state =
    set_states (amend s e.scheduling.request_id (λ c. record c { state = state })) es state

-- The loop that gives each candidate its share of the tick. `slots_left` is the number of candidates
-- from here on; a budget below zero and one of zero give the same shares.
unfoldable pub allot : ℕ → ℕ → List RequestEntry → List (RequestEntry × SequenceStep)
allot per_step remaining [] = []
allot per_step remaining (e ∷ es) =
    let budget = min per_step (max 1 (remaining / max 1 (length (e ∷ es)))) in
    elim e.handle [
      | none ↦ allot per_step remaining es
      | some h ↦
          (e, record { handle = h; token_budget = budget }) ∷ allot per_step (remaining - budget) es
    ]

-- What a batch is about to do: the entries and the steps, beside the scheduler.
abbrev pub prefill_from :
    Scheduler
    → Result Error (List RequestEntry)
    → Scheduler × Result Error (List (RequestEntry × SequenceStep))
prefill_from s (err x) = (s, err x)
prefill_from s (ok es) =
    let selected = allot s.config.max_prefill_tokens_per_step s.config.tick_token_budget es in
    (set_states s (map (λ p. p.0) selected) prefill_inflight, ok selected)

-- `_run_prefill_batch` up to `backend.prefill_batch`
unfoldable pub start_prefill :
    Scheduler → ℕ → Scheduler × Result Error (List (RequestEntry × SequenceStep))
unfolding take_state allot
start_prefill s now =
    let t = take_state s.config.max_sequences_per_step s s.prefill_ids prefill now in
    prefill_from (record s { selector = t.selector; prefill_ids = t.queue }) t.taken

-- An answer with another number of outcomes than steps counts as a failure.
unfoldable pub of_length {ℓ} :
    {A : Type ℓ} → ℕ → Result BackendFailure (List A) → Result BackendFailure (List A)
of_length n (err x) = err x
of_length n (ok outcomes) =
    if length outcomes == n then ok outcomes else err (record { native_code = none })

abbrev pub requeue : Scheduler → String → PrefillStatus → Scheduler
requeue s id PrefillStatus.ready = record (amend s id (λ c. record c { state = decode })) {
  decode_ids = s.decode_ids ++ id ∷ [];
}
requeue s id PrefillStatus.partial = record (amend s id (λ c. record c { state = prefill })) {
  prefill_ids = s.prefill_ids ++ id ∷ [];
}

abbrev pub mismatched : RequestEntry → RequestEntry
mismatched e = record e {
  state = releasing;
  error = some (record { code = "protocol_violation"; retryable = true });
}

-- One outcome, under the lock
unfoldable pub settle_prefill : Scheduler → RequestEntry → PrefillOutcome → Scheduler
settle_prefill s e o =
    if same_handle e.handle o.handle
    then requeue s e.scheduling.request_id o.status
    else amend s e.scheduling.request_id mismatched

-- The loop over the entries and the outcomes under the lock
unfoldable pub apply_prefill : Scheduler → List RequestEntry → List PrefillOutcome → Scheduler
unfolding settle_prefill
apply_prefill s (e ∷ es) (o ∷ os) = apply_prefill (settle_prefill s e o) es os
apply_prefill s _ _ = s

module _ (publishes : SchedulerEvent → Bool) where
  -- `_selector.charge` where there is something to charge, and `_publish`
  abbrev pub report : Scheduler → RequestEntry → SchedulerEventKind → ℕ → ℕ → Scheduler
  report s e kind tokens now =
      publish publishes (charged s (charge s.selector e.scheduling tokens)) e kind e.handle
        (some tokens) none now

  -- The loop over the outcomes that match
  unfoldable pub report_prefill :
      Scheduler → List RequestEntry → List PrefillOutcome → ℕ → Scheduler
  unfolding publish
  report_prefill s (e ∷ es) (o ∷ os) now =
      let s1 =
        if same_handle e.handle o.handle
        then report s e SchedulerEventKind.prefill_completed o.processed_tokens now
        else s in
      report_prefill s1 es os now
  report_prefill s _ _ now = s

  module _ (reply : SequenceHandle → Result BackendFailure ReleaseOutcome) where
    abbrev pub release_one : Scheduler → Option RequestEntry → ℕ → Scheduler
    release_one s none now = s
    release_one s (some e) now =
        if is_yes (State_discrete e.state releasing)
        then (release_and_terminalize publishes reply s e.scheduling.request_id none e.error now).0
        else s

    -- The last loop: the entries that a mismatch left in `releasing`
    unfoldable pub release_mismatched : Scheduler → List RequestEntry → ℕ → Scheduler
    unfolding release_and_terminalize
    release_mismatched s [] now = s
    release_mismatched s (e ∷ es) now =
        release_mismatched (release_one s (find s e.scheduling.request_id) now) es now

    abbrev pub prefill_outcomes :
        Scheduler → List RequestEntry → Result BackendFailure (List PrefillOutcome) → ℕ → Scheduler
    prefill_outcomes s es (err x) now =
        fail_entries publishes reply s es (backend_error "prefill_batch_failed" x) now
    prefill_outcomes s es (ok os) now =
        let s1 = record (apply_prefill s es os) { decode_burst = 0 } in
        release_mismatched (report_prefill s1 es os now) es now

    -- `_run_prefill_batch` from the backend's answer on
    unfoldable pub after_prefill :
        Scheduler → List RequestEntry → Result BackendFailure (List PrefillOutcome) → ℕ → Scheduler
    unfolding fail_entries backend_error of_length apply_prefill report_prefill release_mismatched
    after_prefill s es answer now = prefill_outcomes s es (of_length (length es) answer) now

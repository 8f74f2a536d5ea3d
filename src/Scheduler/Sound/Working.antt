-- ===== src/Scheduler/Sound/Working.antt =====
-- The openings and the batches of inference_runtime/continuous_scheduler.py on the table of entries.
use mathlib.Core.Path.{subst}
use llama.Prelude.{
  ℕ, Bool, true, false, Bool-cases, if-rule, [], ◌∷◌, ◌++◌, leb, length, Option, none, some,
  Option-cases, String, Result, ok, err, inl, inr, ◌≡◌, refl, sym, arith,
}
use llama.Governance.Policy.{Error}
use llama.Governance.Admission.{Controller, activate, can_activate}
use llama.Governance.Selector.{charge}
use llama.Governance.Selector.Key.{Selector}
use llama.Scheduler.Queues.{pop_state}
use llama.Contracts.Sequences.{SequenceHandle}
use llama.Contracts.Events.{SchedulerEvent, SchedulerEventKind}
use llama.Contracts.Outcomes.{ReleaseOutcome}
use llama.Scheduler.State.{
  InferenceRuntimeError, backend_error, opening, queued, prefill, releasing, RequestEntry,
  Scheduler, is_terminal, find, BackendFailure, publish, store,
}
use llama.Scheduler.Ending.{release_and_terminalize}
use llama.Scheduler.Opening.{
  after_activate, after_reservation, failure_of, charged, active_sequences, late_error,
  opening_from, start_open, after_open, refuse_open, accept_open, open_late, open_on_time, opened,
}
use llama.Scheduler.Sound.{
  write-IsOpen, get-write, lookup, Sound, write, IsOpen, Continues, continue-Advances,
}
use llama.Scheduler.Sound.Closing.{
  announce-entries, publish-entries, terminalize-Ends, release-Ends, no_result-Fitting,
}
use llama.Scheduler.Sound.Picking.{IsPicked, pop_state-IsPicked}

pub charged-entries :
    (s : Scheduler) (r : Result Error Selector) → (charged s r).entries ≡ s.entries
charged-entries s (err x) = refl
charged-entries s (ok t) = refl

module _ (publishes : SchedulerEvent → Bool) where
  opening_from-Sound :
      (s : Scheduler) (r : Result Error (Option RequestEntry)) (now : ℕ)
      → Sound s.entries
      → ((e : RequestEntry) → r ≡ ok (some e) → IsPicked s queued e)
      → Sound (opening_from publishes s r now).0.entries
        × ((id : String)
            → (opening_from publishes s r now).1 ≡ ok (some id)
            → IsOpen (opening_from publishes s r now).0.entries id)
  opening_from-Sound s (err x) now i f = (i, λ id p. absurd (ground arith))
  opening_from-Sound s (ok none) now i f = (i, λ id p. absurd (ground arith))
  opening_from-Sound s (ok (some e)) now i f =
      let p = f e refl in
      let n : is_terminal e.state ≡ false = rw p.1 refl in
      let e1 = record e { state = opening } in
      let e2 = record e { state = opening; admitted_event_sent = true } in
      let a = continue-Advances e e1 s.entries i p.0 n (record {
        request = refl;
        id = refl;
        result = refl;
        terminalizing = refl;
        still_open = refl;
      }) in
      let b =
        continue-Advances e1 e2 (write e1 s.entries) a.0 (get-write e1 s.entries) refl (record {
          request = refl;
          id = refl;
          result = refl;
          terminalizing = refl;
          still_open = refl;
        }) in
      let q = announce-entries publishes (store s e1) e1 now in
      (
        rw q b.0,
        λ id h.
            let k : e.scheduling.request_id ≡ id = ground arith in
            rw (q, sym k) (write-IsOpen e2 (write e1 s.entries) refl),
      )

  pub start_open-Sound :
      (s : Scheduler) (now : ℕ)
      → Sound s.entries
      → Sound (start_open publishes s now).0.entries
        × ((id : String)
            → (start_open publishes s now).1 ≡ ok (some id)
            → IsOpen (start_open publishes s now).0.entries id)
  unfolding start_open
  start_open-Sound s now i =
      let p =
        pop_state s s.queued_ids queued (λ e. can_activate s.admission e.scheduling.request_id)
          now in
      elim (Bool-cases (leb s.config.max_concurrent_sequences (length (active_sequences s)))) [
        | inl q ↦ rw (start_open, q) (i, λ id h. absurd (ground arith))
        | inr q ↦
            rw (start_open, q)
              (opening_from-Sound (record s { selector = p.selector; queued_ids = p.queue }) p.taken
                now i
                (λ e h.
                  pop_state-IsPicked s queued i s.queued_ids
                    (λ c. can_activate s.admission c.scheduling.request_id) now e h))
      ]

  module _ (reply : SequenceHandle → Result BackendFailure ReleaseOutcome) where
    -- An entry whose opening is published and that ends at once
    ended_opening-Sound :
        (s : Scheduler) (e f : RequestEntry) (h : SequenceHandle) (x : InferenceRuntimeError)
        (now : ℕ)
        → Sound s.entries
        → find s e.scheduling.request_id ≡ some e
        → is_terminal e.state ≡ false
        → Continues e f
        → Sound
            (release_and_terminalize publishes reply
              (publish publishes
                (store s f)
                f
                SchedulerEventKind.sequence_opened
                (some h)
                none
                none
                now)
              e.scheduling.request_id
              none
              (some x)
              now).0.entries
    ended_opening-Sound s e f h x now i p n c =
        let q =
          publish-entries publishes (store s f) f SchedulerEventKind.sequence_opened (some h) none
            none now in
        (release-Ends publishes reply _ e.scheduling.request_id none (some x) now
          (rw q (continue-Advances e f s.entries i p n c).0)
          (no_result-Fitting _ e.scheduling.request_id)).sound

    refuse_open-Sound :
        (s : Scheduler) (e : RequestEntry) (h : SequenceHandle) (x : BackendFailure) (now : ℕ)
        → Sound s.entries
        → find s e.scheduling.request_id ≡ some e
        → is_terminal e.state ≡ false
        → Sound (refuse_open publishes reply s e h x now).entries
    unfolding refuse_open
    refuse_open-Sound s e h x now i p n =
        ended_opening-Sound s e (record e { handle = some h; state = releasing }) h
          (backend_error "resource_admission_failed" x) now i p n
          (record {
            request = refl;
            id = refl;
            result = refl;
            terminalizing = refl;
            still_open = refl;
          })

    open_late-Sound :
        (s : Scheduler) (e : RequestEntry) (h : SequenceHandle) (now : ℕ)
        → Sound s.entries
        → find s e.scheduling.request_id ≡ some e
        → is_terminal e.state ≡ false
        → Sound (open_late publishes reply s e h now).entries
    unfolding open_late
    open_late-Sound s e h now i p n =
        ended_opening-Sound s e (record (opened publishes reply e h now) { state = releasing }) h
          (late_error publishes reply e) now i p n
          (record {
            request = refl;
            id = refl;
            result = refl;
            terminalizing = refl;
            still_open = refl;
          })

    open_on_time-Sound :
        (s : Scheduler) (e : RequestEntry) (h : SequenceHandle) (now : ℕ)
        → Sound s.entries
        → find s e.scheduling.request_id ≡ some e
        → is_terminal e.state ≡ false
        → Sound (open_on_time publishes reply s e h now).entries
    unfolding open_on_time
    open_on_time-Sound s e h now i p n =
        let e1 = record (opened publishes reply e h now) { state = prefill } in
        let a = continue-Advances e e1 s.entries i p n (record {
          request = refl;
          id = refl;
          result = refl;
          terminalizing = refl;
          still_open = refl;
        }) in
        let q =
          publish-entries publishes
            (record (store s e1) { prefill_ids = s.prefill_ids ++ e.scheduling.request_id ∷ [] }) e1
            SchedulerEventKind.sequence_opened (some h) none none now in
        rw q a.0

    accept_open-Sound :
        (s : Scheduler) (e : RequestEntry) (h : SequenceHandle) (now : ℕ)
        → Sound s.entries
        → find s e.scheduling.request_id ≡ some e
        → is_terminal e.state ≡ false
        → Sound (accept_open publishes reply s e h now).entries
    unfolding accept_open
    accept_open-Sound s e h now i p n =
        let s1 = charged s (charge s.selector e.scheduling 1) in
        let q = charged-entries s (charge s.selector e.scheduling 1) in
        let i1 : Sound s1.entries = rw q i in
        let p1 : find s1 e.scheduling.request_id ≡ some e = rw q p in
        if-rule {A = Scheduler} (λ t. Sound t.entries) _ _ _ (open_late-Sound s1 e h now i1 p1 n)
          (open_on_time-Sound s1 e h now i1 p1 n)

    after_activate-Sound :
        (s : Scheduler) (e : RequestEntry) (h : SequenceHandle) (r : Result Error Controller)
        (now : ℕ)
        → Sound s.entries
        → find s e.scheduling.request_id ≡ some e
        → is_terminal e.state ≡ false
        → Sound (after_activate publishes reply s e h r now).entries
    after_activate-Sound s e h (err x) now i p n = refuse_open-Sound s e h (failure_of x) now i p n
    after_activate-Sound s e h (ok admission) now i p n =
        accept_open-Sound (record s { admission = admission }) e h now i p n

    after_reservation-Sound :
        (s : Scheduler) (e : RequestEntry) (h : SequenceHandle)
        (r : Result BackendFailure (Option ℕ)) (now : ℕ)
        → Sound s.entries
        → find s e.scheduling.request_id ≡ some e
        → is_terminal e.state ≡ false
        → Sound (after_reservation publishes reply s e h r now).entries
    after_reservation-Sound s e h (err x) now i p n = refuse_open-Sound s e h x now i p n
    after_reservation-Sound s e h (ok reserved) now i p n =
        after_activate-Sound s e h (activate s.admission e.scheduling.request_id reserved) now i p n

    pub after_open-Sound :
        (s : Scheduler) (id : String) (answer : Result BackendFailure SequenceHandle)
        (reserved : SequenceHandle → Result BackendFailure (Option ℕ)) (now : ℕ)
        → Sound s.entries
        → IsOpen s.entries id
        → Sound (after_open publishes reply s id answer reserved now).entries
    unfolding after_open
    after_open-Sound s id (err x) reserved now i o = elim (Option-cases (find s id)) [
      | inl p ↦ rw (after_open, p) i
      | inr (e, p) ↦
          rw (after_open, p)
            (terminalize-Ends publishes s id none (some (backend_error "open_sequence_failed" x))
              now i (no_result-Fitting s.entries id)).sound
    ]
    after_open-Sound s id (ok h) reserved now i o = elim (Option-cases (find s id)) [
      | inl p ↦ rw (after_open, p) i
      | inr (e, p) ↦
          let own : find s e.scheduling.request_id ≡ some e =
            subst (λ j. find s j ≡ some e) (sym (lookup s.entries id e i p).0) p in
          rw (after_open, p) (after_reservation-Sound s e h (reserved h) now i own (o e p))
    ]

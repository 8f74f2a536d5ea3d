-- ===== src/Scheduler/Ledger.antt =====
-- What the end of a request does to the ledger of reservations:
-- inference_runtime/continuous_scheduler.py with `ResourceAdmissionController`.
use llama.Prelude.{
  ℕ, Bool, true, false, not, ◌||◌, Bool-cases, if-rule, Option, none, some, Option-cases, String,
  Result, ok, err, inl, inr, ◌≡◌, refl, sym, ◌∙◌, ap, arith, if◌then◌else◌,
}
use llama.Governance.Admission.{Controller, release}
use llama.Contracts.Sequences.{SequenceHandle}
use llama.Contracts.Events.{SchedulerEvent, SchedulerEventKind}
use llama.Contracts.Outcomes.{ReleaseOutcome}
use llama.Scheduler.State.{
  InferenceRuntimeError, GenerateResult, RequestEntry, Scheduler, is_terminal, find, BackendFailure,
  publish, backend_error, prefix_of, store,
}
use llama.Scheduler.Ending.{
  is_some, confirms, announce, announced, settle, finish, exactly_one, terminalize, after_release,
  release_and_terminalize, is_confirmed,
}
use llama.Scheduler.Sound.{get-write}
use llama.Scheduler.Sound.Closing.{publish-entries}

-- Whether the backend has given back what the entry held
abbrev pub gives_back :
    (SequenceHandle → Result BackendFailure ReleaseOutcome) → Option SequenceHandle → Bool
gives_back reply none = true
gives_back reply (some h) = elim (reply h) [ err x ↦ false | ok o ↦ confirms o.status ]

-- The ledger without the reservation, or as it was
abbrev pub freed : Bool → Controller → String → Controller
freed b c id = if b then (release c id).0 else c

module _ (publishes : SchedulerEvent → Bool) where
  publish-admission :
      (s : Scheduler) (e : RequestEntry) (kind : SchedulerEventKind) (h : Option SequenceHandle)
      (tokens : Option ℕ) (code : Option String) (now : ℕ)
      → (publish publishes s e kind h tokens code now).admission ≡ s.admission
  unfolding publish
  publish-admission s e kind h tokens code now = ground arith

  announce-admission :
      (s : Scheduler) (e : RequestEntry) (now : ℕ)
      → (announce publishes s e now).admission ≡ s.admission
  unfolding announce
  announce-admission s e now =
      if-rule {A = Scheduler} (λ t. t.admission ≡ s.admission) e.admitted_event_sent s _ refl
        (publish-admission s e SchedulerEventKind.admitted none none none now)

  settle-admission :
      (s : Scheduler) (e : RequestEntry)
      → (settle s e).admission
        ≡ freed e.resource_release_confirmed s.admission e.scheduling.request_id
  settle-admission s e = elim (Bool-cases e.resource_release_confirmed) [
    | inl p ↦ rw p refl
    | inr p ↦ rw p refl
  ]

  finish-admission :
      (s : Scheduler) (e : RequestEntry) (end : Result InferenceRuntimeError GenerateResult)
      (now : ℕ)
      → (finish publishes s e end now).admission
        ≡ freed e.resource_release_confirmed s.admission e.scheduling.request_id
  unfolding finish
  finish-admission s e (ok r) now =
      publish-admission (settle (store s (record e { terminalizing = true })) e) e
        SchedulerEventKind.request_completed none none none now
      ∙ settle-admission (store s (record e { terminalizing = true })) e
  finish-admission s e (err x) now =
      publish-admission (settle (store s (record e { terminalizing = true })) e) e
        SchedulerEventKind.request_failed none none (some (prefix_of 128 x.code)) now
      ∙ settle-admission (store s (record e { terminalizing = true })) e

  terminalize-admission :
      (s : Scheduler) (id : String) (e : RequestEntry) (result : Option GenerateResult)
      (error : Option InferenceRuntimeError) (now : ℕ)
      → find s id ≡ some e
      → (is_terminal e.state || e.terminalizing) ≡ false
      → (terminalize publishes s id result error now).0.admission
        ≡ freed
            (not (is_some e.handle) || e.resource_release_confirmed)
            s.admission
            e.scheduling.request_id
  unfolding terminalize
  terminalize-admission s id e result error now p q =
      rw (terminalize, p, q)
        (finish-admission (store (announce publishes s e now) (announced publishes e))
            (announced publishes e) (exactly_one result error) now
          ∙ ap
              (λ c.
                freed (not (is_some e.handle) || e.resource_release_confirmed) c
                  e.scheduling.request_id)
              (announce-admission s e now))

  abbrev confirmed : RequestEntry → RequestEntry
  confirmed e = record e { resource_release_confirmed = true }

  or-true : (b : Bool) → (b || true) ≡ true
  or-true b = ground arith

  confirmed-admission :
      (s : Scheduler) (e : RequestEntry) (result : Option GenerateResult)
      (error : Option InferenceRuntimeError) (now : ℕ)
      → find s e.scheduling.request_id ≡ some (confirmed e)
      → (is_terminal e.state || e.terminalizing) ≡ false
      → (terminalize publishes s e.scheduling.request_id result error now).0.admission
        ≡ (release s.admission e.scheduling.request_id).0
  confirmed-admission s e result error now p q =
      terminalize-admission s e.scheduling.request_id (confirmed e) result error now p q
      ∙ ap (λ b. freed b s.admission e.scheduling.request_id) (or-true (not (is_some e.handle)))

  after_release-admission :
      (s : Scheduler) (e : RequestEntry) (h : SequenceHandle) (r : Result BackendFailure (Unit {0}))
      (b : Bool) (result : Option GenerateResult) (error : Option InferenceRuntimeError) (now : ℕ)
      → find s e.scheduling.request_id ≡ some e
      → (is_terminal e.state || e.terminalizing) ≡ false
      → e.handle ≡ some h
      → e.resource_release_confirmed ≡ false
      → (elim r [ err x ↦ false | ok u ↦ true ]) ≡ b
      → (after_release publishes s e h r result error now).0.admission
        ≡ freed b s.admission e.scheduling.request_id
  unfolding after_release
  after_release-admission s e h (ok u) b result error now p q held open_yet g =
      let s1 = store s (confirmed e) in
      let there =
        publish-entries publishes s1 e SchedulerEventKind.sequence_released (some h) none none
          now in
      let same =
        publish-admission s1 e SchedulerEventKind.sequence_released (some h) none none now in
      rw (sym g) (
        confirmed-admission _ e result error now (rw there (get-write (confirmed e) s.entries)) q
        ∙ ap (λ c. (release c e.scheduling.request_id).0) same)
  after_release-admission s e h (err x) b result error now p q held open_yet g =
      let off : (not (is_some e.handle) || e.resource_release_confirmed) ≡ false =
        rw (held, open_yet) refl in
      rw (sym g) (
        terminalize-admission s e.scheduling.request_id e none
          (some (backend_error "backend_release_failed" x)) now p q
        ∙ ap (λ f. freed f s.admission e.scheduling.request_id) off)

  module _ (reply : SequenceHandle → Result BackendFailure ReleaseOutcome) where
    reply-confirms :
        (h : SequenceHandle) (r : Result BackendFailure ReleaseOutcome)
        → (elim (is_confirmed publishes r) [ err x ↦ false | ok u ↦ true ])
          ≡ (elim r [ err x ↦ false | ok o ↦ confirms o.status ])
    reply-confirms h (err x) = refl
    reply-confirms h (ok o) = elim (Bool-cases (confirms o.status)) [
      | inl p ↦ rw p refl
      | inr p ↦ rw p refl
    ]

    -- When an open request ends, its reservation leaves the ledger just when nothing is held for it any
    -- more: it never had a sequence, or the backend confirms that the sequence is released. A sequence
    -- whose release fails or is refused keeps its reservation.
    pub release-freed :
        (s : Scheduler) (e : RequestEntry) (result : Option GenerateResult)
        (error : Option InferenceRuntimeError) (now : ℕ)
        → find s e.scheduling.request_id ≡ some e
        → (is_terminal e.state || e.terminalizing) ≡ false
        → e.resource_release_confirmed ≡ false
        → (release_and_terminalize publishes reply s e.scheduling.request_id result error
            now).0.admission
          ≡ freed (gives_back reply e.handle) s.admission e.scheduling.request_id
    unfolding release_and_terminalize
    release-freed s e result error now p q open_yet = elim (Option-cases e.handle) [
      | inl n ↦
          rw (release_and_terminalize, p, n)
            (confirmed-admission (store s (confirmed e)) e result error now
              (get-write (confirmed e) s.entries) q)
      | inr (h, n) ↦
          rw (release_and_terminalize, p, n)
            (after_release-admission s e h _ _ result error now p q n open_yet
              (reply-confirms h (reply h)))
    ]

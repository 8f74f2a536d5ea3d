-- ===== src/Scheduler/Sound/Closing.antt =====
-- `_terminalize` and `_release_and_terminalize` of inference_runtime/continuous_scheduler.py on the
-- table of entries.
use mathlib.Core.Path.{subst}
use llama.Prelude.{
  ℕ, Bool, true, false, ◌||◌, Bool-cases, if-rule, Option, none, some, Option-cases, String,
  String_discrete, Result, ok, err, inl, inr, ◌≡◌, refl, sym, ◌∙◌, ap, arith,
}
use llama.Prelude.Dict
use llama.Contracts.Sequences.{SequenceHandle}
use llama.Contracts.Events.{SchedulerEvent, SchedulerEventKind}
use llama.Contracts.Outcomes.{ReleaseOutcome}
use llama.Scheduler.State.{
  InferenceRuntimeError, GenerateResult, RequestEntry, Scheduler, is_terminal, find, BackendFailure,
  publish, backend_error, prefix_of, store,
}
use llama.Scheduler.Ending.{
  announce, announced, ended, finish, exactly_one, terminalize, after_release,
  release_and_terminalize,
}
use llama.Scheduler.Sound.{
  lookup, Table, IsSound, Sound, write, put-Sound, put-Same, get-write, Ends, write-write,
  write-Ends, none-Ends, Ends-after,
}

-- A result fits the request of an id, if there is one.
abbrev pub Fitting : Table → String → Option GenerateResult → Type 0
Fitting m id result =
    (e : RequestEntry) (r : GenerateResult)
    → Dict.get String_discrete id m ≡ some e
    → result ≡ some r
    → e.request.accepts r.completion.final_text ≡ true

pub no_result-Fitting : (m : Table) (id : String) → Fitting m id none
no_result-Fitting m id e r p q = absurd (ground arith)

module _ (publishes : SchedulerEvent → Bool) where
  pub publish-entries :
      (s : Scheduler) (e : RequestEntry) (kind : SchedulerEventKind) (h : Option SequenceHandle)
      (tokens : Option ℕ) (code : Option String) (now : ℕ)
      → (publish publishes s e kind h tokens code now).entries ≡ s.entries
  unfolding publish
  publish-entries s e kind h tokens code now = ground arith

  pub announce-entries :
      (s : Scheduler) (e : RequestEntry) (now : ℕ)
      → (announce publishes s e now).entries ≡ s.entries
  unfolding announce
  announce-entries s e now =
      if-rule {A = Scheduler} (λ t. t.entries ≡ s.entries) e.admitted_event_sent s _ refl
        (publish-entries s e SchedulerEventKind.admitted none none none now)

  pub finish-entries :
      (s : Scheduler) (e : RequestEntry) (end : Result InferenceRuntimeError GenerateResult)
      (now : ℕ)
      → (finish publishes s e end now).entries ≡ write (ended publishes e end now) s.entries
  unfolding finish
  finish-entries s e (ok r) now =
      ap (write (ended publishes e (ok r) now)) (
        publish-entries _ e SchedulerEventKind.request_completed none none none now
        ∙ if-rule {A = Scheduler}
            (λ t. t.entries ≡ write (record e { terminalizing = true }) s.entries)
            e.resource_release_confirmed _ _ refl refl)
      ∙ write-write (ended publishes e (ok r) now) (record e { terminalizing = true }) s.entries
          refl
  finish-entries s e (err x) now =
      ap (write (ended publishes e (err x) now)) (
        publish-entries _ e SchedulerEventKind.request_failed none none
          (some (prefix_of 128 x.code)) now
        ∙ if-rule {A = Scheduler}
            (λ t. t.entries ≡ write (record e { terminalizing = true }) s.entries)
            e.resource_release_confirmed _ _ refl refl)
      ∙ write-write (ended publishes e (err x) now) (record e { terminalizing = true }) s.entries
          refl

  ended-IsSound :
      (e : RequestEntry) (end : Result InferenceRuntimeError GenerateResult) (now : ℕ)
      → ((r : GenerateResult) → end ≡ ok r → e.request.accepts r.completion.final_text ≡ true)
      → IsSound (ended publishes e end now)
  ended-IsSound e (ok r) now h = record {
    still_open = λ p. ground arith;
    answered = λ p. refl;
    accepted = λ q p. let f : r ≡ q = ground arith in rw (sym f) (h r refl);
  }
  ended-IsSound e (err x) now h = record {
    still_open = λ p. ground arith;
    answered = λ p. refl;
    accepted = λ q p. absurd (ground arith);
  }

  one-Fitting :
      (result : Option GenerateResult) (error : Option InferenceRuntimeError) (r : GenerateResult)
      → exactly_one result error ≡ ok r
      → result ≡ some r
  unfolding exactly_one
  one-Fitting (some q) none r p = ground arith
  one-Fitting (some q) (some x) r p = absurd (ground arith)
  one-Fitting none none r p = absurd (ground arith)
  one-Fitting none (some x) r p = absurd (ground arith)

  announced-IsSound : (e : RequestEntry) → IsSound e → IsSound (announced publishes e)
  announced-IsSound e i = record {
    still_open = i.still_open;
    answered = i.answered;
    accepted = i.accepted;
  }

  -- The two ways through `_terminalize`
  module _ (m : Table) (id : String) (e : RequestEntry) (i : Sound m)
      (p : Dict.get String_discrete id m ≡ some e) where
    repeat-Ends :
        (is_terminal e.state || e.terminalizing) ≡ true
        → Ends id m (write (announced publishes e) m)
    repeat-Ends q =
        let over : is_terminal e.state ≡ true = elim (Bool-cases (is_terminal e.state)) [
          | inl t ↦ t
          | inr f ↦ let g = (lookup m id e i p).1.still_open f in absurd (ground arith)
        ] in
        rw (sym (lookup m id e i p).0)
          (write-Ends (announced publishes e) m (announced-IsSound e (lookup m id e i p).1) i over)

    first-Ends :
        (is_terminal e.state || e.terminalizing) ≡ false
        → (end : Result InferenceRuntimeError GenerateResult) (now : ℕ)
        → ((r : GenerateResult) → end ≡ ok r → e.request.accepts r.completion.final_text ≡ true)
        → Ends id m (
            write
              (ended publishes (announced publishes e) end now)
              (write (announced publishes e) m))
    first-Ends q end now h =
        rw
          (
            sym (lookup m id e i p).0,
            write-write (ended publishes (announced publishes e) end now) (announced publishes e) m
                refl,
          )
          (write-Ends (ended publishes (announced publishes e) end now) m
            (ended-IsSound (announced publishes e) end now h) i refl)

  pub terminalize-Ends :
      (s : Scheduler) (id : String) (result : Option GenerateResult)
      (error : Option InferenceRuntimeError) (now : ℕ)
      → Sound s.entries
      → Fitting s.entries id result
      → Ends id s.entries (terminalize publishes s id result error now).0.entries
  unfolding terminalize
  terminalize-Ends s id result error now i f = elim (Option-cases (find s id)) [
    | inl p ↦ rw (terminalize, p) (none-Ends id s.entries i p)
    | inr (e, p) ↦ elim (Bool-cases (is_terminal e.state || e.terminalizing)) [
      | inl q ↦ rw (terminalize, p, q, announce-entries s e now) (repeat-Ends s.entries id e i p q)
      | inr q ↦
          let end = exactly_one result error in
          rw
            (
              terminalize,
              p,
              q,
              finish-entries (store (announce publishes s e now) (announced publishes e))
                  (announced publishes e) end now,
              announce-entries s e now,
            )
            (first-Ends s.entries id e i p q end now
              (λ r h. f e r p (one-Fitting result error r h)))
    ]
  ]

  abbrev confirmed : RequestEntry → RequestEntry
  confirmed e = record e { resource_release_confirmed = true }

  -- The entry is written once before it ends.
  confirmed-Ends :
      (s : Scheduler) (e : RequestEntry) (m : Table) (result : Option GenerateResult)
      (error : Option InferenceRuntimeError) (now : ℕ)
      → Sound m
      → Dict.get String_discrete e.scheduling.request_id m ≡ some e
      → Fitting m e.scheduling.request_id result
      → s.entries ≡ write (confirmed e) m
      → Ends e.scheduling.request_id m
          (terminalize publishes s e.scheduling.request_id result error now).0.entries
  confirmed-Ends s e m result error now i p f q =
      let k : IsSound (confirmed e) =
        let h = (lookup m e.scheduling.request_id e i p).1 in
        record { still_open = h.still_open; answered = h.answered; accepted = h.accepted } in
      let g : Fitting (write (confirmed e) m) e.scheduling.request_id result = λ c r u v.
        let t : Path (Option RequestEntry) (some (confirmed e)) (some c) =
          sym (get-write (confirmed e) m) ∙ u in
        let w : confirmed e ≡ c = ground arith in rw (sym w) (f e r p v) in
      let x : Sound s.entries = rw q (put-Sound (confirmed e) m k i) in
      let y : Fitting s.entries e.scheduling.request_id result = rw q g in
      Ends-after e.scheduling.request_id m s.entries _ (rw q (put-Same (confirmed e) m))
        (terminalize-Ends s e.scheduling.request_id result error now x y)

  pub after_release-Ends :
      (s : Scheduler) (e : RequestEntry) (h : SequenceHandle) (r : Result BackendFailure (Unit {0}))
      (result : Option GenerateResult) (error : Option InferenceRuntimeError) (now : ℕ)
      → Sound s.entries
      → find s e.scheduling.request_id ≡ some e
      → Fitting s.entries e.scheduling.request_id result
      → Ends e.scheduling.request_id s.entries
          (after_release publishes s e h r result error now).0.entries
  unfolding after_release
  after_release-Ends s e h (ok u) result error now i p f =
      confirmed-Ends _ e s.entries result error now i p f (
        publish-entries (store s (confirmed e)) e SchedulerEventKind.sequence_released (some h) none
          none now)
  after_release-Ends s e h (err x) result error now i p f =
      terminalize-Ends s e.scheduling.request_id none
        (some (backend_error "backend_release_failed" x)) now i
        (no_result-Fitting s.entries e.scheduling.request_id)

  release_own-Ends :
      (reply : SequenceHandle → Result BackendFailure ReleaseOutcome) (s : Scheduler)
      (e : RequestEntry) (result : Option GenerateResult) (error : Option InferenceRuntimeError)
      (now : ℕ)
      → Sound s.entries
      → find s e.scheduling.request_id ≡ some e
      → Fitting s.entries e.scheduling.request_id result
      → Ends e.scheduling.request_id s.entries
          (release_and_terminalize publishes reply s e.scheduling.request_id result error
            now).0.entries
  unfolding release_and_terminalize
  release_own-Ends reply s e result error now i p f = elim (Option-cases e.handle) [
    | inl q ↦
        rw (release_and_terminalize, p, q)
          (confirmed-Ends (store s (confirmed e)) e s.entries result error now i p f refl)
    | inr (h, q) ↦
        rw (release_and_terminalize, p, q) (after_release-Ends s e h _ result error now i p f)
  ]

  -- Whatever the backend answers to the release, the request is over.
  pub release-Ends :
      (reply : SequenceHandle → Result BackendFailure ReleaseOutcome) (s : Scheduler) (id : String)
      (result : Option GenerateResult) (error : Option InferenceRuntimeError) (now : ℕ)
      → Sound s.entries
      → Fitting s.entries id result
      → Ends id s.entries (release_and_terminalize publishes reply s id result error now).0.entries
  unfolding release_and_terminalize
  release-Ends reply s id result error now i f = elim (Option-cases (find s id)) [
    | inl p ↦ rw (release_and_terminalize, p) (none-Ends id s.entries i p)
    | inr (e, p) ↦
        subst
          (λ j.
            find s j ≡ some e
            → Fitting s.entries j result
            → Ends j s.entries
                (release_and_terminalize publishes reply s j result error now).0.entries)
          (lookup s.entries id e i p).0 (release_own-Ends reply s e result error now i) p f
  ]

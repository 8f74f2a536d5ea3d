-- ===== src/Scheduler/Sound/Draining.antt =====
-- The loops of inference_runtime/continuous_scheduler.py that end requests, and what they leave.
use mathlib.Core.Path.{subst}
use llama.Prelude.{
  ℕ, Bool, true, false, not, Bool-cases, List, [], ◌∷◌, Option, none, some, Option-cases, String,
  String_discrete, is_yes, Result, ok, err, inl, inr, ◌≡◌, refl, sym, arith, In, here, there,
  select,
}
use llama.Prelude.Dict
use llama.Prelude.Dict.{Dict, values}
use llama.Contracts.Sequences.{SequenceHandle}
use llama.Contracts.Events.{SchedulerEvent}
use llama.Contracts.Outcomes.{ReleaseOutcome, SequenceCompletion}
use llama.Scheduler.State.{
  releasing, InferenceRuntimeError, GenerateResult, RequestEntry, Scheduler, is_terminal, find,
  live, BackendFailure, store,
}
use llama.Scheduler.Completion.{
  or_later, join, result_for, end_with, outcome_of, complete_entry, boundary, first_boundary,
  process_terminal_boundaries, fail_entries,
}
use llama.Scheduler.Sound.{continued-IsSound, Table, IsSound, Sound, Ends, put-Sound, none-Ends}
use llama.Scheduler.Sound.Closing.{no_result-Fitting, release-Ends}

get-In :
    (id : String) (e : RequestEntry) (m : Table)
    → Dict.get String_discrete id m ≡ some e
    → In e (values m)
unfolding Dict.get
get-In id e [] h = absurd (ground arith)
get-In id e ((j, c) ∷ m) h = elim (String_discrete j id) [
  | yes p ↦ let q : c ≡ e = ground arith in rw q here
  | no p ↦ there (get-In id e m (ground arith))
]

select-In :
    (p : RequestEntry → Bool) (e : RequestEntry) (es : List RequestEntry)
    → In e es
    → p e ≡ true
    → In e (select p es)
unfolding select
select-In p e [] i h = elim i [ ]
select-In p e (c ∷ es) here h = rw (h, select) here
select-In p e (c ∷ es) (there i) h = elim (Bool-cases (p c)) [
  | inl q ↦ rw (q, select) (there (select-In p e es i h))
  | inr q ↦ rw (q, select) (select-In p e es i h)
]

-- An entry that is not over is among the live ones.
pub live-In :
    (s : Scheduler) (id : String) (e : RequestEntry)
    → find s id ≡ some e
    → is_terminal e.state ≡ false
    → In e (live s)
live-In s id e p q =
    select-In (λ c. not (is_terminal c.state)) e _ (get-In id e s.entries p) (rw q refl)

pub nothing_live-Over :
    (s : Scheduler)
    → live s ≡ []
    → (id : String) (e : RequestEntry) → find s id ≡ some e
    → is_terminal e.state ≡ true
nothing_live-Over s h id e p = elim (Bool-cases (is_terminal e.state)) [
  | inl q ↦ q
  | inr q ↦ let i : In e [] = rw (sym h) (live-In s id e p q) in elim i [ ]
]

module _ (publishes : SchedulerEvent → Bool)
    (reply : SequenceHandle → Result BackendFailure ReleaseOutcome) where
  pub end_with-Ends :
      (s : Scheduler) (id : String) (end : Result InferenceRuntimeError GenerateResult) (now : ℕ)
      → Sound s.entries
      → ((e : RequestEntry) (r : GenerateResult)
          → find s id ≡ some e
          → end ≡ ok r
          → e.request.accepts r.completion.final_text ≡ true)
      → Ends id s.entries (end_with publishes reply s id end now).entries
  end_with-Ends s id (ok r) now i f =
      release-Ends publishes reply s id (some r) none now i
        (λ e q p h. let g : r ≡ q = ground arith in rw (sym g) (f e r p refl))
  end_with-Ends s id (err x) now i f =
      release-Ends publishes reply s id none (some x) now i (no_result-Fitting s.entries id)

  pub failed-Ends :
      (s : Scheduler) (id : String) (x : InferenceRuntimeError) (now : ℕ)
      → Sound s.entries
      → Ends id s.entries (end_with publishes reply s id (err x) now).entries
  failed-Ends s id x now i = end_with-Ends s id (err x) now i (λ e r p h. absurd (ground arith))

  outcome_of-Fitting :
      (s : Scheduler) (e : RequestEntry) (c : Option SequenceCompletion) (now : ℕ)
      (r : GenerateResult)
      → outcome_of s e c now ≡ ok r
      → e.request.accepts r.completion.final_text ≡ true
  unfolding outcome_of
  outcome_of-Fitting s e none now r h = absurd (ground arith)
  outcome_of-Fitting s e (some c) now r h =
      elim (Bool-cases (is_yes (String_discrete (join e.final_deltas) c.final_text))) [
        | inr q ↦ absurd (ground arith)
        | inl q ↦ elim (Bool-cases (e.request.accepts c.final_text)) [
          | inr p ↦ absurd (ground arith)
          | inl p ↦ let g : result_for s e c now ≡ r = ground arith in rw (sym g) p
        ]
      ]

  pub complete_entry-Ends :
      (s : Scheduler) (id : String) (c : Option SequenceCompletion) (now : ℕ)
      → Sound s.entries
      → Ends id s.entries (complete_entry publishes reply s id c now).entries
  unfolding complete_entry
  complete_entry-Ends s id c now i = elim (Option-cases (find s id)) [
    | inl p ↦ rw (complete_entry, p) (none-Ends id s.entries i p)
    | inr (e, p) ↦
        rw (complete_entry, p)
          (end_with-Ends s id (outcome_of s e c now) now i (λ d r q h.
            let g : e ≡ d = ground arith in rw (sym g) (outcome_of-Fitting s e c now r h)))
  ]

  pub fail_entries-Sound :
      (s : Scheduler) (es : List RequestEntry) (x : InferenceRuntimeError) (now : ℕ)
      → Sound s.entries
      → Sound (fail_entries publishes reply s es x now).entries
  unfolding fail_entries
  fail_entries-Sound s [] x now i = i
  fail_entries-Sound s (c ∷ es) x now i =
      fail_entries-Sound (end_with publishes reply s c.scheduling.request_id (err x) now) es x now
        (failed-Ends s c.scheduling.request_id x now i).sound

  or_later-case :
      (P : RequestEntry → InferenceRuntimeError → Type 0) (c : RequestEntry)
      (o : Option InferenceRuntimeError) (later : Option (RequestEntry × InferenceRuntimeError))
      (e : RequestEntry) (x : InferenceRuntimeError)
      → ((y : InferenceRuntimeError) → o ≡ some y → P c y)
      → (later ≡ some (e, x) → P e x)
      → or_later c o later ≡ some (e, x)
      → P e x
  or_later-case P c none later e x f g h = g h
  or_later-case P c (some y) later e x f g h =
      let p : Path (RequestEntry × InferenceRuntimeError) (c, y) (e, x) = ground arith in
      subst (λ q. P q.0 q.1) p (f y refl)

  -- The entry that has to end is one of the table that is not over.
  first_boundary-Found :
      (s : Scheduler) (now : ℕ) (m : Table) (e : RequestEntry) (x : InferenceRuntimeError)
      → Sound m
      → first_boundary s now (values m) ≡ some (e, x)
      → IsSound e × (boundary s now e ≡ some x)
  unfolding first_boundary
  first_boundary-Found s now [] e x i h = absurd (ground arith)
  first_boundary-Found s now ((k, c) ∷ m) e x i h =
      or_later-case (λ d y. IsSound d × (boundary s now d ≡ some y)) c (boundary s now c) _ e x
        (λ y q. (i.0.1, q)) (first_boundary-Found s now m e x i.1) h

  boundary-open :
      (s : Scheduler) (now : ℕ) (e : RequestEntry) (x : InferenceRuntimeError)
      → boundary s now e ≡ some x
      → is_terminal e.state ≡ false
  unfolding boundary
  boundary-open s now e x h = elim (Bool-cases (is_terminal e.state)) [
    | inl q ↦ absurd (ground arith)
    | inr q ↦ q
  ]

  pub process-Sound :
      (s : Scheduler) (now : ℕ)
      → Sound s.entries
      → Sound (process_terminal_boundaries publishes reply s now).0.entries
  unfolding process_terminal_boundaries
  process-Sound s now i = elim (Option-cases (first_boundary s now (values s.entries))) [
    | inl p ↦ rw (process_terminal_boundaries, p) i
    | inr ((e, x), p) ↦
        let f = first_boundary-Found s now s.entries e x i p in
        let n = boundary-open s now e x f.1 in
        let k =
          put-Sound (record e { state = releasing }) s.entries
            (continued-IsSound e (record e { state = releasing }) f.0 n
              (record {
                request = refl;
                id = refl;
                result = refl;
                terminalizing = refl;
                still_open = refl;
              }))
            i in
        rw (process_terminal_boundaries, p)
          (failed-Ends (store s (record e { state = releasing })) e.scheduling.request_id x now
            k).sound
  ]

-- ===== src/Scheduler/Sound/Batching.antt =====
-- Whole batches of inference_runtime/continuous_scheduler.py on the table of entries.
use llama.Prelude.{
  ℕ, Bool, false, if-rule, List, [], ◌∷◌, map, length, min, max, suc, ◌+◌, ◌-◌, ◌/◌, Option, none,
  some, Option-cases, String, is_yes, Result, ok, err, inl, inr, ◌≡◌, refl, sym, ◌∙◌, arith, All,
}
use llama.Governance.Policy.{Error}
use llama.Governance.Selector.{charge}
use llama.Contracts.Sequences.{SequenceHandle, SequenceStep}
use llama.Contracts.Events.{SchedulerEvent, SchedulerEventKind}
use llama.Contracts.Outcomes.{ReleaseOutcome, PrefillOutcome, DecodeOutcome, DecodeStatus}
use llama.Scheduler.State.{
  RuntimeRequestState, State_discrete, prefill, prefill_inflight, decode, decode_inflight,
  releasing, RequestEntry, Scheduler, is_terminal, find, BackendFailure, backend_error,
}
use llama.Scheduler.Queues.{take_state}
use llama.Scheduler.Opening.{charged}
use llama.Scheduler.Batches.{
  same_handle, allot, prefill_from, start_prefill, of_length, apply_prefill, report, report_prefill,
  release_one, release_mismatched, prefill_outcomes, after_prefill,
}
use llama.Scheduler.Decoding.{
  decode_from, start_decode, checked, apply_decode, report_decode, end_one, end_decoded,
  decode_error, decode_outcomes, after_decode,
}
use llama.Scheduler.Sound.{Sound, IsOpen}
use llama.Scheduler.Sound.Closing.{publish-entries, release-Ends, no_result-Fitting}
use llama.Scheduler.Sound.Draining.{fail_entries-Sound, complete_entry-Ends}
use llama.Scheduler.Sound.Picking.{IsPicked, AllPicked, take_state-AllPicked}
use llama.Scheduler.Sound.Working.{charged-entries}
use llama.Scheduler.Sound.Stepping.{
  AllOpen, AllOpen-Advances, set_states-Advances, apply_prefill-Advances, apply_decode-Advances,
}

module _ (s : Scheduler) (state : RuntimeRequestState) (n : is_terminal state ≡ false) where
  picked-IsOpen : (e : RequestEntry) → IsPicked s state e → IsOpen s.entries e.scheduling.request_id
  picked-IsOpen e p c q =
      let g : Path (Option RequestEntry) (some e) (some c) = sym p.0 ∙ q in
      let h : e ≡ c = ground arith in rw (sym h, p.1) n

  picked-AllOpen : (es : List RequestEntry) → All (IsPicked s state) es → AllOpen s.entries es
  picked-AllOpen [] a = tt
  picked-AllOpen (e ∷ es) a = (picked-IsOpen e a.0, picked-AllOpen es a.1)

abbrev pub entries_of : List (RequestEntry × SequenceStep) → List RequestEntry
entries_of steps = map (λ p. p.0) steps

allot-All :
    (P : RequestEntry → Type 0) (per_step r : ℕ) (es : List RequestEntry)
    → All P es
    → All P (entries_of (allot per_step r es))
unfolding allot
allot-All P per_step r [] a = tt
allot-All P per_step r (e ∷ es) a = elim (Option-cases e.handle) [
  | inl p ↦ rw p (allot-All P per_step r es a.1)
  | inr (h, p) ↦
      rw p
        (a.0, allot-All P per_step (r - min per_step (max 1 (r / max 1 (suc (length es))))) es a.1)
]

prefill_from-Sound :
    (s : Scheduler) (r : Result Error (List RequestEntry))
    → Sound s.entries
    → AllPicked s prefill r
    → Sound (prefill_from s r).0.entries
      × ((steps : List (RequestEntry × SequenceStep))
          → (prefill_from s r).1 ≡ ok steps
          → AllOpen (prefill_from s r).0.entries (entries_of steps))
prefill_from-Sound s (err x) i a = (i, λ steps h. absurd (ground arith))
prefill_from-Sound s (ok es) i a =
    let selected = allot s.config.max_prefill_tokens_per_step s.config.tick_token_budget es in
    let o = picked-AllOpen s prefill refl (entries_of selected) (
      allot-All (IsPicked s prefill) s.config.max_prefill_tokens_per_step s.config.tick_token_budget
        es a) in
    let v = set_states-Advances s (entries_of selected) prefill_inflight refl i o in
    (
      v.0,
      λ steps h.
          let q : selected ≡ steps = ground arith in
          rw (sym q) (AllOpen-Advances s.entries _ (entries_of selected) v o),
    )

pub start_prefill-Sound :
    (s : Scheduler) (now : ℕ)
    → Sound s.entries
    → Sound (start_prefill s now).0.entries
      × ((steps : List (RequestEntry × SequenceStep))
          → (start_prefill s now).1 ≡ ok steps
          → AllOpen (start_prefill s now).0.entries (entries_of steps))
unfolding start_prefill
start_prefill-Sound s now i =
    let t = take_state s.config.max_sequences_per_step s s.prefill_ids prefill now in
    prefill_from-Sound (record s { selector = t.selector; prefill_ids = t.queue }) t.taken i
      (take_state-AllPicked s.config.max_sequences_per_step s s.prefill_ids prefill now i)

decode_from-Sound :
    (s : Scheduler) (r : Result Error (List RequestEntry))
    → Sound s.entries
    → AllPicked s decode r
    → Sound (decode_from s r).0.entries
      × ((es : List RequestEntry) (steps : List SequenceStep)
          → (decode_from s r).1 ≡ ok (es, steps)
          → AllOpen (decode_from s r).0.entries es)
decode_from-Sound s (err x) i a = (i, λ es steps h. absurd (ground arith))
decode_from-Sound s (ok ds) i a =
    let o = picked-AllOpen s decode refl ds a in
    let v = set_states-Advances s ds decode_inflight refl i o in
    (
      v.0,
      λ es steps h.
          let q : ds ≡ es = ground arith in rw (sym q) (AllOpen-Advances s.entries _ ds v o),
    )

pub start_decode-Sound :
    (s : Scheduler) (now : ℕ)
    → Sound s.entries
    → Sound (start_decode s now).0.entries
      × ((es : List RequestEntry) (steps : List SequenceStep)
          → (start_decode s now).1 ≡ ok (es, steps)
          → AllOpen (start_decode s now).0.entries es)
unfolding start_decode
start_decode-Sound s now i =
    let n = min s.config.max_sequences_per_step s.config.tick_token_budget in
    let t = take_state n s s.decode_ids decode now in
    decode_from-Sound (record s { selector = t.selector; decode_ids = t.queue }) t.taken i
      (take_state-AllPicked n s s.decode_ids decode now i)

module _ (publishes : SchedulerEvent → Bool) where
  report-entries :
      (s : Scheduler) (e : RequestEntry) (kind : SchedulerEventKind) (tokens now : ℕ)
      → (report publishes s e kind tokens now).entries ≡ s.entries
  report-entries s e kind tokens now =
      publish-entries publishes (charged s (charge s.selector e.scheduling tokens)) e kind e.handle
        (some tokens) none now
      ∙ charged-entries s (charge s.selector e.scheduling tokens)

  report_prefill-entries :
      (es : List RequestEntry) (os : List PrefillOutcome) (s : Scheduler) (now : ℕ)
      → (report_prefill publishes s es os now).entries ≡ s.entries
  unfolding report_prefill
  report_prefill-entries [] os s now = refl
  report_prefill-entries (e ∷ es) [] s now = refl
  report_prefill-entries (e ∷ es) (out ∷ os) s now =
      report_prefill-entries es os _ now
      ∙ if-rule {A = Scheduler} (λ t. t.entries ≡ s.entries) (same_handle e.handle out.handle) _ _
          (report-entries s e SchedulerEventKind.prefill_completed out.processed_tokens now) refl

  report_decode-entries :
      (es : List RequestEntry) (os : List DecodeOutcome) (s : Scheduler) (now : ℕ)
      → (report_decode publishes s es os now).entries ≡ s.entries
  unfolding report_decode
  report_decode-entries [] os s now = refl
  report_decode-entries (e ∷ es) [] s now = refl
  report_decode-entries (e ∷ es) (out ∷ os) s now =
      report_decode-entries es os _ now
      ∙ report-entries s e SchedulerEventKind.decode_completed (length (checked e out).token_ids)
          now

  module _ (reply : SequenceHandle → Result BackendFailure ReleaseOutcome) where
    release_one-Sound :
        (s : Scheduler) (o : Option RequestEntry) (now : ℕ)
        → Sound s.entries
        → Sound (release_one publishes reply s o now).entries
    release_one-Sound s none now i = i
    release_one-Sound s (some e) now i =
        if-rule {A = Scheduler} (λ t. Sound t.entries) (is_yes (State_discrete e.state releasing)) _
          _
          (release-Ends publishes reply s e.scheduling.request_id none e.error now i
            (no_result-Fitting s.entries e.scheduling.request_id)).sound
          i

    release_mismatched-Sound :
        (es : List RequestEntry) (s : Scheduler) (now : ℕ)
        → Sound s.entries
        → Sound (release_mismatched publishes reply s es now).entries
    unfolding release_mismatched
    release_mismatched-Sound [] s now i = i
    release_mismatched-Sound (e ∷ es) s now i =
        release_mismatched-Sound es
          (release_one publishes reply s (find s e.scheduling.request_id) now) now
          (release_one-Sound s (find s e.scheduling.request_id) now i)

    prefill_outcomes-Sound :
        (s : Scheduler) (es : List RequestEntry) (r : Result BackendFailure (List PrefillOutcome))
        (now : ℕ)
        → Sound s.entries
        → AllOpen s.entries es
        → Sound (prefill_outcomes publishes reply s es r now).entries
    prefill_outcomes-Sound s es (err x) now i o =
        fail_entries-Sound publishes reply s es (backend_error "prefill_batch_failed" x) now i
    prefill_outcomes-Sound s es (ok os) now i o =
        let s1 = record (apply_prefill s es os) { decode_burst = 0 } in
        let a = apply_prefill-Advances s es os i o in
        release_mismatched-Sound es (report_prefill publishes s1 es os now) now
          (rw (report_prefill-entries es os s1 now) a.0)

    pub after_prefill-Sound :
        (s : Scheduler) (es : List RequestEntry) (r : Result BackendFailure (List PrefillOutcome))
        (now : ℕ)
        → Sound s.entries
        → AllOpen s.entries es
        → Sound (after_prefill publishes reply s es r now).entries
    unfolding after_prefill
    after_prefill-Sound s es r now i o =
        prefill_outcomes-Sound s es (of_length (length es) r) now i o

    end_one-Sound :
        (s : Scheduler) (id : String) (status : DecodeStatus) (out : DecodeOutcome) (now : ℕ)
        → Sound s.entries
        → Sound (end_one publishes reply s id status out now).entries
    end_one-Sound s id DecodeStatus.progressed out now i = i
    end_one-Sound s id DecodeStatus.failed out now i =
        (release-Ends publishes reply s id none (some (decode_error out)) now i
          (no_result-Fitting s.entries id)).sound
    end_one-Sound s id DecodeStatus.finished out now i =
        (complete_entry-Ends publishes reply s id out.completion now i).sound

    end_decoded-Sound :
        (es : List RequestEntry) (os : List DecodeOutcome) (s : Scheduler) (now : ℕ)
        → Sound s.entries
        → Sound (end_decoded publishes reply s es os now).entries
    unfolding end_decoded
    end_decoded-Sound [] os s now i = i
    end_decoded-Sound (e ∷ es) [] s now i = i
    end_decoded-Sound (e ∷ es) (out ∷ os) s now i =
        end_decoded-Sound es os
          (end_one publishes reply s e.scheduling.request_id (checked e out).status (checked e out)
            now)
          now (end_one-Sound s e.scheduling.request_id (checked e out).status (checked e out) now i)

    decode_outcomes-Sound :
        (s : Scheduler) (es : List RequestEntry) (r : Result BackendFailure (List DecodeOutcome))
        (now : ℕ)
        → Sound s.entries
        → AllOpen s.entries es
        → Sound (decode_outcomes publishes reply s es r now).entries
    decode_outcomes-Sound s es (err x) now i o =
        fail_entries-Sound publishes reply s es (backend_error "decode_batch_failed" x) now i
    decode_outcomes-Sound s es (ok os) now i o =
        let applied = apply_decode s es os in
        let s1 = record applied { decode_burst = applied.decode_burst + 1 } in
        let a = apply_decode-Advances s es os i o in
        end_decoded-Sound es os (report_decode publishes s1 es os now) now
          (rw (report_decode-entries es os s1 now) a.0)

    pub after_decode-Sound :
        (s : Scheduler) (es : List RequestEntry) (r : Result BackendFailure (List DecodeOutcome))
        (now : ℕ)
        → Sound s.entries
        → AllOpen s.entries es
        → Sound (after_decode publishes reply s es r now).entries
    unfolding after_decode
    after_decode-Sound s es r now i o = decode_outcomes-Sound s es (of_length (length es) r) now i o

-- ===== src/Scheduler/Sound/Rounds.antt =====
-- One section of the worker of inference_runtime/continuous_scheduler.py on the table of entries.
use llama.Prelude.{
  ℕ, Bool, true, false, ◌&&◌, ◌==◌, Bool-cases, List, [], ◌∷◌, length, any, Option, none, some,
  String, Result, ok, err, inl, inr, ◌≡◌, refl, arith,
}
use llama.Prelude.Dict.{values}
use llama.Governance.Policy.{Error}
use llama.Contracts.Sequences.{SequenceStep}
use llama.Scheduler.State.{prefill, RequestEntry, Scheduler, is_terminal, find, live}
use llama.Scheduler.Queues.{queue_has_state}
use llama.Scheduler.Completion.{process_terminal_boundaries}
use llama.Scheduler.Opening.{start_open}
use llama.Scheduler.Batches.{start_prefill}
use llama.Scheduler.Decoding.{start_decode}
use llama.Scheduler.Loop.{
  Action, decode_batch, prefill_batch, Phase, looking, choosing, acting, idling, opening,
  prefilling, decoding, waiting, crashing, failing, finished, crashed, Backend, choose_batch_action,
  has_immediate_work, must_look, wait_unless, crash, idle, then_look, then_open, then_prefill,
  then_decode, then_act, advance,
}
use llama.Scheduler.Sound.{Sound, IsOpen}
use llama.Scheduler.Sound.Draining.{failed-Ends, nothing_live-Over, process-Sound}
use llama.Scheduler.Sound.Working.{start_open-Sound, after_open-Sound}
use llama.Scheduler.Sound.Stepping.{AllOpen}
use llama.Scheduler.Sound.Batching.{
  entries_of, start_prefill-Sound, start_decode-Sound, after_prefill-Sound, after_decode-Sound,
}

-- Every request is over.
abbrev pub AllOver : Scheduler → Type 0
AllOver s = (id : String) (e : RequestEntry) → find s id ≡ some e → is_terminal e.state ≡ true

-- What holds of the table while the worker is at a phase
abbrev pub Holds : Scheduler → Phase → Type 0
Holds s (opening id) = IsOpen s.entries id
Holds s (prefilling steps) = AllOpen s.entries (entries_of steps)
Holds s (decoding es steps) = AllOpen s.entries es
Holds s finished = (s.stopping ≡ true) × AllOver s
Holds s _ = Unit

abbrev pub IsGood : Scheduler × Phase → Type 0
IsGood t = Sound t.0.entries × Holds t.0 t.1

has_immediate_work-entries :
    (s : Scheduler) (now : ℕ) → (has_immediate_work s now).0.entries ≡ s.entries
unfolding has_immediate_work
has_immediate_work-entries s now = elim (Bool-cases (any (must_look s now) (values s.entries))) [
  | inl p ↦ rw (has_immediate_work, p) refl
  | inr p ↦ elim (Bool-cases (queue_has_state s prefill s.prefill_ids).1) [
    | inl q ↦ rw (has_immediate_work, p, q) refl
    | inr q ↦ rw (has_immediate_work, p, q) refl
  ]
]

wait_unless-IsGood :
    (w : Scheduler × Bool) (now : ℕ) → Sound w.0.entries → IsGood (wait_unless w now)
wait_unless-IsGood (s, true) now i = (i, tt)
wait_unless-IsGood (s, false) now i = (i, tt)

both : (a b : Bool) → a && b ≡ true → (a ≡ true) × (b ≡ true)
both true b h = (refl, h)
both false b h = absurd (ground arith)

no_live : (es : List RequestEntry) → length es == 0 ≡ true → es ≡ []
no_live [] h = refl
no_live (e ∷ es) h = absurd (ground arith)

crash-IsGood : (s : Scheduler) → Sound s.entries → IsGood (crash s)
unfolding crash
crash-IsGood s i = (i, tt)

idle-IsGood : (s : Scheduler) (now : ℕ) → Sound s.entries → IsGood (idle s now)
unfolding idle
idle-IsGood s now i = elim (Bool-cases (s.stopping && length (live s) == 0)) [
  | inl p ↦
      let (stopping, over) = both s.stopping _ p in
      rw (idle, p) (i, (stopping, nothing_live-Over s (no_live (live s) over)))
  | inr p ↦
      rw (idle, p)
        (wait_unless-IsGood (has_immediate_work s now) now
          (rw (has_immediate_work-entries s now) i))
]

then_look-IsGood : (p : Scheduler × Bool) → Sound p.0.entries → IsGood (then_look p)
then_look-IsGood (s, true) i = (i, tt)
then_look-IsGood (s, false) i = (i, tt)

then_open-IsGood :
    (p : Scheduler × Result Error (Option String))
    → Sound p.0.entries
    → ((id : String) → p.1 ≡ ok (some id) → IsOpen p.0.entries id)
    → IsGood (then_open p)
then_open-IsGood (s, err x) i o = crash-IsGood s i
then_open-IsGood (s, ok none) i o = (i, tt)
then_open-IsGood (s, ok (some id)) i o = (i, o id refl)

then_prefill-IsGood :
    (p : Scheduler × Result Error (List (RequestEntry × SequenceStep)))
    → Sound p.0.entries
    → ((steps : List (RequestEntry × SequenceStep))
        → p.1 ≡ ok steps
        → AllOpen p.0.entries (entries_of steps))
    → IsGood (then_prefill p)
then_prefill-IsGood (s, err x) i o = crash-IsGood s i
then_prefill-IsGood (s, ok []) i o = (i, tt)
then_prefill-IsGood (s, ok (st ∷ sts)) i o = (i, o (st ∷ sts) refl)

then_decode-IsGood :
    (p : Scheduler × Result Error (List RequestEntry × List SequenceStep))
    → Sound p.0.entries
    → ((es : List RequestEntry) (steps : List SequenceStep)
        → p.1 ≡ ok (es, steps)
        → AllOpen p.0.entries es)
    → IsGood (then_decode p)
then_decode-IsGood (s, err x) i o = crash-IsGood s i
then_decode-IsGood (s, ok (es, [])) i o = (i, tt)
then_decode-IsGood (s, ok (es, st ∷ sts)) i o = (i, o es (st ∷ sts) refl)

then_act-IsGood :
    (s : Scheduler) (a : Option Action) (now : ℕ) → Sound s.entries → IsGood (then_act (s, a) now)
then_act-IsGood s none now i = (i, tt)
then_act-IsGood s (some decode_batch) now i =
    let k = start_decode-Sound s now i in then_decode-IsGood (start_decode s now) k.0 k.1
then_act-IsGood s (some prefill_batch) now i =
    let k = start_prefill-Sound s now i in then_prefill-IsGood (start_prefill s now) k.0 k.1

choose-IsGood :
    (s : Scheduler) (now : ℕ) → Sound s.entries → IsGood (then_act (choose_batch_action s) now)
unfolding choose_batch_action
choose-IsGood s now i = then_act-IsGood (choose_batch_action s).0 (choose_batch_action s).1 now i

module _ (b : Backend) where
  -- A section of the worker keeps the table sound, and what holds at its phase.
  pub advance-IsGood :
      (s : Scheduler) (p : Phase) (now : ℕ) → IsGood (s, p) → IsGood (advance b s p now)
  unfolding advance
  advance-IsGood s looking now i =
      then_look-IsGood (process_terminal_boundaries b.publishes b.release s now)
        (process-Sound b.publishes b.release s now i.0)
  advance-IsGood s choosing now i =
      let k = start_open-Sound b.publishes s now i.0 in
      then_open-IsGood (start_open b.publishes s now) k.0 k.1
  advance-IsGood s (opening id) now i = (
    after_open-Sound b.publishes b.release s id (b.open_sequence id) b.reservation_tokens now i.0
        i.1,
    tt,
  )
  advance-IsGood s acting now i = choose-IsGood s now i.0
  advance-IsGood s (prefilling steps) now i =
      (after_prefill-Sound b.publishes b.release s (entries_of steps) _ now i.0 i.1, tt)
  advance-IsGood s (decoding es steps) now i =
      (after_decode-Sound b.publishes b.release s es _ now i.0 i.1, tt)
  advance-IsGood s idling now i = idle-IsGood s now i.0
  advance-IsGood s (waiting t) now i = (i.0, tt)
  advance-IsGood s (crashing x) now i = (i.0, tt)
  advance-IsGood s (failing x []) now i = (i.0, tt)
  advance-IsGood s (failing x (e ∷ es)) now i =
      ((failed-Ends b.publishes b.release s e.scheduling.request_id x now i.0).sound, tt)
  advance-IsGood s finished now i = i
  advance-IsGood s crashed now i = i

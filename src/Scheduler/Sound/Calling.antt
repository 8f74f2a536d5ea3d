-- ===== src/Scheduler/Sound/Calling.antt =====
-- What the calls of producers do to the table of inference_runtime/continuous_scheduler.py, wherever its
-- worker is.
use llama.Prelude.{
  ℕ, true, false, Bool-cases, [], ◌∷◌, map, Option, some, Option-cases, String, String_discrete,
  Result, ok, err, ◌>>◌, inl, inr, ◌≡◌, ◌∙◌, List, refl, sym, arith,
}
use llama.Prelude.Dict
use llama.Prelude.Dict.{Dict, remove-All, get-remove, get-put}
use llama.Governance.Policy.{SchedulingMetadata, Error, value_error, rejection}
use llama.Governance.Admission.{Controller, admit}
use llama.Scheduler.State.{Request, RequestEntry, Scheduler, is_terminal, find}
use llama.Scheduler.Intake.{
  check_infer, fresh, estimate_reservation, enqueue, infer, request_cancel, cancel, collect,
  begin_shutdown,
}
use llama.Scheduler.Loop.{Phase, opening, prefilling, decoding, finished}
use llama.Scheduler.Sound.{
  Table, write, IsOpen, put-IsOpen, lookup, IsRow, IsSound, Sound, put-Sound, continued-IsSound,
}
use llama.Scheduler.Sound.Rounds.{AllOver, Holds}
use llama.Scheduler.Sound.Stepping.{AllOpen}
use llama.Scheduler.Sound.Batching.{entries_of}

then-ok :
    {E A : Type 0} (m : Result E (Unit {0})) (k : Result E A) (t : A) → (m >> k) ≡ ok t → k ≡ ok t
then-ok (err x) k t h = absurd (ground arith)
then-ok (ok u) k t h = h

enqueue-Sound :
    (s : Scheduler) (e : RequestEntry) (r : Result Error Controller) (t : Scheduler)
    → IsSound e
    → Sound s.entries
    → enqueue s e r ≡ ok t
    → Sound t.entries
enqueue-Sound s e (err value_error) t k i h = absurd (ground arith)
enqueue-Sound s e (err (rejection code retryable)) t k i h = absurd (ground arith)
enqueue-Sound s e (ok admission) t k i h =
    let q : Dict.put String_discrete e.scheduling.request_id e s.entries ≡ t.entries =
      ground arith in
    rw (sym q) (put-Sound e s.entries k i)

enqueue-opens :
    (s : Scheduler) (e : RequestEntry) (r : Result Error Controller) (t : Scheduler) (id : String)
    → is_terminal e.state ≡ false
    → enqueue s e r ≡ ok t
    → IsOpen s.entries id
    → IsOpen t.entries id
enqueue-opens s e (err value_error) t id k h o = absurd (ground arith)
enqueue-opens s e (err (rejection code retryable)) t id k h o = absurd (ground arith)
enqueue-opens s e (ok admission) t id k h o =
    let q : Dict.put String_discrete e.scheduling.request_id e s.entries ≡ t.entries =
      ground arith in
    rw (sym q) (put-IsOpen e s.entries id k o)

pub infer-Sound :
    (s : Scheduler) (r : Request) (m : SchedulingMetadata) (attempt_id : String) (now : ℕ)
    (t : Scheduler)
    → Sound s.entries
    → infer s r m attempt_id now ≡ ok t
    → Sound t.entries
unfolding infer
infer-Sound s r m attempt_id now t i h =
    enqueue-Sound s (fresh s r m attempt_id now) (admit s.admission m (estimate_reservation s r)) t
      (record {
        still_open = λ p. refl;
        answered = λ p. absurd (ground arith);
        accepted = λ q p. absurd (ground arith);
      })
      i (then-ok (check_infer s r m now) _ t h)

pub cancel-Sound : (s : Scheduler) (id : String) → Sound s.entries → Sound (cancel s id).0.entries
unfolding cancel
cancel-Sound s id i = elim (Option-cases (find s id)) [
  | inl p ↦ rw (cancel, p) i
  | inr (e, p) ↦ elim (Bool-cases (is_terminal e.state)) [
    | inl q ↦ rw (cancel, p, q) i
    | inr q ↦
        let f = record e { cancel_requested = true } in
        rw (cancel, p, q)
          (put-Sound f s.entries
            (continued-IsSound e f (lookup s.entries id e i p).1 q (record {
              request = refl;
              id = refl;
              result = refl;
              terminalizing = refl;
              still_open = q;
            }))
            i)
  ]
]

pub collect-Sound : (s : Scheduler) (id : String) → Sound s.entries → Sound (collect s id).0.entries
unfolding collect
collect-Sound s id i = elim (Option-cases (find s id)) [
  | inl p ↦ rw (collect, p) i
  | inr (e, p) ↦ elim (Bool-cases (is_terminal e.state)) [
    | inl q ↦ rw (collect, p, q) (remove-All String_discrete IsRow id s.entries i)
    | inr q ↦ rw (collect, p, q) i
  ]
]

pub shutdown-Sound :
    (m : Dict String RequestEntry) → Sound m → Sound (map (λ r. (r.0, request_cancel r.1)) m)
shutdown-Sound [] i = tt
shutdown-Sound ((k, e) ∷ m) i = elim (Bool-cases (is_terminal e.state)) [
  | inl q ↦ rw q (i.0, shutdown-Sound m i.1)
  | inr q ↦
      let f = record e { cancel_requested = true } in
      rw q (
        (
          i.0.0,
          continued-IsSound e f i.0.1 q (record {
            request = refl;
            id = refl;
            result = refl;
            terminalizing = refl;
            still_open = q;
          }),
        ),
        shutdown-Sound m i.1,
      )
]

-- A call of a producer
pub data Call : Scheduler → Scheduler → Type 0 where
  infers :
      {s t : Scheduler} (r : Request) (m : SchedulingMetadata) (attempt_id : String) (now : ℕ)
      → infer s r m attempt_id now ≡ ok t
      → Call s t
  cancels : {s : Scheduler} (id : String) → Call s (cancel s id).0
  collects : {s : Scheduler} (id : String) → Call s (collect s id).0
  shuts_down : {s : Scheduler} → Call s (begin_shutdown s)

pub Call-Sound : (s t : Scheduler) → Call s t → Sound s.entries → Sound t.entries
unfolding begin_shutdown
Call-Sound s t (infers r m attempt_id now h) i = infer-Sound s r m attempt_id now t i h
Call-Sound s t (cancels id) i = cancel-Sound s id i
Call-Sound s t (collects id) i = collect-Sound s id i
Call-Sound s t shuts_down i = shutdown-Sound s.entries i

-- Every entry after the call was there before it, with a state that is as terminal.
abbrev Keeps : Table → Table → Type 0
Keeps m n =
    (id : String) (e : RequestEntry)
    → Dict.get String_discrete id n ≡ some e
    → (c : RequestEntry) × (Dict.get String_discrete id m ≡ some c)
      × (is_terminal e.state ≡ is_terminal c.state)

Keeps-refl : (m : Table) → Keeps m m
Keeps-refl m id e p = (e, p, refl)

put-Keeps :
    (e f : RequestEntry) (m : Table) (id : String)
    → f.scheduling.request_id ≡ id
    → Dict.get String_discrete id m ≡ some e
    → is_terminal f.state ≡ is_terminal e.state
    → Keeps m (write f m)
put-Keeps e f m id q p k j c h = elim (String_discrete f.scheduling.request_id j) [
  | yes r ↦
      let g : Path (Option RequestEntry) (some f) (some c) =
        ground (arith, get-put String_discrete f.scheduling.request_id j f m) in
      let same : f ≡ c = ground arith in (e, rw (sym r, q) p, rw (sym same) k)
  | no n ↦ (c, ground (arith, get-put String_discrete f.scheduling.request_id j f m), refl)
]

remove-Keeps : (m : Table) (id : String) → Keeps m (Dict.remove String_discrete id m)
remove-Keeps m id j c h = elim (String_discrete id j) [
  | yes r ↦ absurd (ground (arith, get-remove String_discrete id j m))
  | no n ↦ (c, ground (arith, get-remove String_discrete id j m), refl)
]

request_cancel-terminal :
    (e : RequestEntry) → is_terminal (request_cancel e).state ≡ is_terminal e.state
request_cancel-terminal e = elim (Bool-cases (is_terminal e.state)) [
  | inl q ↦ rw q q
  | inr q ↦ rw q q
]

cancel_all-Keeps : (m : Table) → Keeps m (map (λ r. (r.0, request_cancel r.1)) m)
unfolding Dict.get
cancel_all-Keeps [] id e p = absurd (ground arith)
cancel_all-Keeps ((k, c) ∷ m) id e p = elim (String_discrete k id) [
  | yes q ↦
      let g : request_cancel c ≡ e = ground arith in
      (c, ground arith, rw (sym g) (request_cancel-terminal c))
  | no q ↦ let (d, r, t) = cancel_all-Keeps m id e (ground arith) in (d, ground arith, t)
]

cancel-Keeps :
    (s : Scheduler) (id : String) → Sound s.entries → Keeps s.entries (cancel s id).0.entries
unfolding cancel
cancel-Keeps s id i = elim (Option-cases (find s id)) [
  | inl p ↦ rw (cancel, p) (Keeps-refl s.entries)
  | inr (e, p) ↦ elim (Bool-cases (is_terminal e.state)) [
    | inl q ↦ rw (cancel, p, q) (Keeps-refl s.entries)
    | inr q ↦
        rw (cancel, p, q)
          (put-Keeps e (record e { cancel_requested = true }) s.entries id
            (lookup s.entries id e i p).0 p refl)
  ]
]

collect-Keeps : (s : Scheduler) (id : String) → Keeps s.entries (collect s id).0.entries
unfolding collect
collect-Keeps s id = elim (Option-cases (find s id)) [
  | inl p ↦ rw (collect, p) (Keeps-refl s.entries)
  | inr (e, p) ↦ elim (Bool-cases (is_terminal e.state)) [
    | inl q ↦ rw (collect, p, q) (remove-Keeps s.entries id)
    | inr q ↦ rw (collect, p, q) (Keeps-refl s.entries)
  ]
]

Keeps-IsOpen : (m n : Table) (id : String) → Keeps m n → IsOpen m id → IsOpen n id
Keeps-IsOpen m n id k o e p = let (c, q, t) = k id e p in t ∙ o c q

-- A call of a scheduler that is stopping lets no request in.
infer-refused :
    (s t : Scheduler) (r : Request) (m : SchedulingMetadata) (attempt_id : String) (now : ℕ)
    → s.stopping ≡ true
    → infer s r m attempt_id now ≡ ok t
    → ⊥
unfolding infer check_infer
infer-refused s t r m attempt_id now q h = ground arith

infer-opens :
    (s t : Scheduler) (r : Request) (m : SchedulingMetadata) (attempt_id : String) (now : ℕ)
    (id : String)
    → infer s r m attempt_id now ≡ ok t
    → IsOpen s.entries id
    → IsOpen t.entries id
unfolding infer
infer-opens s t r m attempt_id now id h o =
    enqueue-opens s (fresh s r m attempt_id now) (admit s.admission m (estimate_reservation s r)) t
      id refl (then-ok (check_infer s r m now) _ t h) o

pub Call-opens :
    (s t : Scheduler) (id : String)
    → Call s t
    → Sound s.entries
    → IsOpen s.entries id
    → IsOpen t.entries id
unfolding begin_shutdown
Call-opens s t id (infers r m attempt_id now h) i o = infer-opens s t r m attempt_id now id h o
Call-opens s t id (cancels j) i o = Keeps-IsOpen s.entries _ id (cancel-Keeps s j i) o
Call-opens s t id (collects j) i o = Keeps-IsOpen s.entries _ id (collect-Keeps s j) o
Call-opens s t id shuts_down i o = Keeps-IsOpen s.entries _ id (cancel_all-Keeps s.entries) o

Keeps-AllOver : (s t : Scheduler) → Keeps s.entries t.entries → AllOver s → AllOver t
Keeps-AllOver s t k o id e p = let (c, q, u) = k id e p in u ∙ o id c q

cancel-stopping : (s : Scheduler) (id : String) → (cancel s id).0.stopping ≡ s.stopping
unfolding cancel
cancel-stopping s id = ground arith

collect-stopping : (s : Scheduler) (id : String) → (collect s id).0.stopping ≡ s.stopping
unfolding collect
collect-stopping s id = ground arith

abbrev Stopped : Scheduler → Type 0
Stopped s = (s.stopping ≡ true) × AllOver s

pub Call-Stopped : (s t : Scheduler) → Call s t → Sound s.entries → Stopped s → Stopped t
unfolding begin_shutdown
Call-Stopped s t (infers r m attempt_id now h) i o =
    absurd (infer-refused s t r m attempt_id now o.0 h)
Call-Stopped s t (cancels j) i o =
    (cancel-stopping s j ∙ o.0, Keeps-AllOver s (cancel s j).0 (cancel-Keeps s j i) o.1)
Call-Stopped s t (collects j) i o =
    (collect-stopping s j ∙ o.0, Keeps-AllOver s (collect s j).0 (collect-Keeps s j) o.1)
Call-Stopped s t shuts_down i o =
    (refl, Keeps-AllOver s (begin_shutdown s) (cancel_all-Keeps s.entries) o.1)

AllOpen-Call :
    (s t : Scheduler) (es : List RequestEntry)
    → Call s t
    → Sound s.entries
    → AllOpen s.entries es
    → AllOpen t.entries es
AllOpen-Call s t [] c i o = tt
AllOpen-Call s t (e ∷ es) c i o =
    (Call-opens s t e.scheduling.request_id c i o.0, AllOpen-Call s t es c i o.1)

-- What holds at the phase of the worker holds after a call.
pub Call-Holds : (s t : Scheduler) (p : Phase) → Call s t → Sound s.entries → Holds s p → Holds t p
Call-Holds s t (opening id) c i o = Call-opens s t id c i o
Call-Holds s t (prefilling steps) c i o = AllOpen-Call s t (entries_of steps) c i o
Call-Holds s t (decoding es steps) c i o = AllOpen-Call s t es c i o
Call-Holds s t finished c i o = Call-Stopped s t c i o
Call-Holds s t _ c i o = tt

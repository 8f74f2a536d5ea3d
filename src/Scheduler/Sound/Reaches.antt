-- ===== src/Scheduler/Sound/Reaches.antt =====
-- The states that producers and the worker of inference_runtime/continuous_scheduler.py reach.
use mathlib.Core.Path.{subst}
use llama.Prelude.{
  ℕ, true, Bool-cases, [], ◌∷◌, Option, none, some, String, String_discrete, Result, ok, err, inl,
  inr, ◌≡◌, All, refl, arith,
}
use llama.Prelude.Dict.{Dict, get-remove}
use llama.Scheduler.State.{
  InferenceRuntimeError, GenerateResult, RequestEntry, Scheduler, is_terminal, find,
}
use llama.Scheduler.Intake.{collect, answer}
use llama.Scheduler.Loop.{Phase, looking, finished, Backend, advance}
use llama.Scheduler.Sound.{lookup, has_one, IsSound, Sound}
use llama.Scheduler.Sound.Rounds.{IsGood, advance-IsGood}
use llama.Scheduler.Sound.Calling.{Call, Call-Sound, Call-Holds}

-- What is reached from a scheduler without requests whose worker starts: producers call between any two
-- sections of the worker, also while the backend opens a sequence or works on a batch.
pub data Reaches : Scheduler → Phase → Type 0 where
  starts : {s : Scheduler} → s.entries ≡ [] → Reaches s looking
  calls : {s t : Scheduler} {p : Phase} → Reaches s p → Call s t → Reaches t p
  works :
      {s : Scheduler} {p : Phase} (b : Backend) (now : ℕ)
      → Reaches s p
      → Reaches (advance b s p now).0 (advance b s p now).1

pub Reaches-IsGood : (s : Scheduler) (p : Phase) → Reaches s p → IsGood (s, p)
Reaches-IsGood s p (starts h) = (rw h tt, tt)
Reaches-IsGood t p (calls {s = s} r c) =
    let i = Reaches-IsGood s p r in (Call-Sound s t c i.0, Call-Holds s t p c i.0 i.1)
Reaches-IsGood t q (works {s = s} {p = p} b now r) = advance-IsGood b s p now (Reaches-IsGood s p r)

-- What is told of every entry
pub record IsAnswered (r : String × RequestEntry) : Type 0 where
  pub own_id : r.1.scheduling.request_id ≡ r.0
  pub answered : is_terminal r.1.state ≡ true → has_one r.1.result r.1.error ≡ true
  pub accepted :
      (g : GenerateResult)
      → r.1.result ≡ some g
      → r.1.request.accepts g.completion.final_text ≡ true

Sound-IsAnswered : (m : Dict String RequestEntry) → Sound m → All IsAnswered m
Sound-IsAnswered [] i = tt
Sound-IsAnswered (r ∷ m) i = (
  record { own_id = i.0.0; answered = i.0.1.answered; accepted = i.0.1.accepted },
  Sound-IsAnswered m i.1,
)

-- Before and after every section of the worker, with calls of producers between any two of them and
-- whatever the backends answer, every entry of the table stands under its own id; a request that is over
-- has a result or an error, and not both; and every result has a text that its request's contract accepts.
-- Ending a request, with the backend's release of its sequence, is part of one section.
pub Reaches-Sound : (s : Scheduler) (p : Phase) → Reaches s p → All IsAnswered s.entries
Reaches-Sound s p r = Sound-IsAnswered s.entries (Reaches-IsGood s p r).0

-- What the caller of a request is told, against what its entry says
abbrev pub Answers : RequestEntry → Result InferenceRuntimeError GenerateResult → Type 0
Answers e (ok r) =
    (e.result ≡ some r) × (e.error ≡ none) × (e.request.accepts r.completion.final_text ≡ true)
Answers e (err x) = (e.error ≡ some x) × (e.result ≡ none)

answer-Answers :
    (e : RequestEntry) (result : Option GenerateResult) (error : Option InferenceRuntimeError)
    → e.result ≡ result
    → e.error ≡ error
    → has_one result error ≡ true
    → IsSound e
    → Answers e (answer error result)
answer-Answers e none none p q h i = absurd (ground arith)
answer-Answers e (some r) none p q h i = (p, q, i.accepted r p)
answer-Answers e none (some x) p q h i = (q, p)
answer-Answers e (some r) (some x) p q h i = absurd (ground arith)

over-Answers :
    (s : Scheduler) (id : String) (e : RequestEntry)
    → Sound s.entries
    → find s id ≡ some e
    → is_terminal e.state ≡ true
    → ((collect s id).1 ≡ some (answer e.error e.result)) × Answers e (answer e.error e.result)
unfolding collect
over-Answers s id e i p q =
    let k = (lookup s.entries id e i p).1 in
    (rw (collect, p, q) refl, answer-Answers e e.result e.error refl refl (k.answered q) k)

-- Before and after every section of the worker, what the caller of a request is told is what its entry
-- says: its one error and no result, or its one result and no error, with a text that the request's
-- contract accepts. The request is over then, and it leaves the table.
pub collect-Answers :
    (s : Scheduler) (p : Phase) (id : String) (e : RequestEntry)
    (a : Result InferenceRuntimeError GenerateResult)
    → Reaches s p
    → find s id ≡ some e
    → (collect s id).1 ≡ some a
    → Answers e a × (is_terminal e.state ≡ true) × (find (collect s id).0 id ≡ none)
unfolding collect
collect-Answers s w id e a r p h = elim (Bool-cases (is_terminal e.state)) [
  | inl q ↦
      let k = over-Answers s id e (Reaches-IsGood s w r).0 p q in
      let g : answer e.error e.result ≡ a = ground arith in
      (
        subst (Answers e) g k.1,
        q,
        rw (collect, p, q) (ground (arith, get-remove String_discrete id id s.entries)),
      )
  | inr q ↦ let g : (collect s id).1 ≡ none = rw (collect, p, q) refl in absurd (ground arith)
]

-- Once the worker has finished a shutdown, and whatever producers call then, every request that is in the
-- table is over, and its caller is told its result or its error.
pub finished-Answers :
    (s : Scheduler) (id : String) (e : RequestEntry)
    → Reaches s finished
    → find s id ≡ some e
    → (a : Result InferenceRuntimeError GenerateResult) × ((collect s id).1 ≡ some a) × Answers e a
finished-Answers s id e r p =
    let g = Reaches-IsGood s finished r in
    let v = over-Answers s id e g.0 p (g.1.1 id e p) in (answer e.error e.result, v.0, v.1)

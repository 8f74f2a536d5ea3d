-- ===== src/Worker/Frames/Protocol.antt =====
-- The protocol of the frames of a request, told without the verifier of model_worker/ipc.py.
use llama.Prelude.{
  ℕ, ◌+◌, ◌≡◌, refl, sym, ap, Bool, true, false, not, ◌||◌, Bool-cases, List, [], ◌∷◌, length,
  Option, none, some, Option-cases, String, String_discrete, inl, inr, Result, ok, err,
  Result-cases, ◌>>◌, ◌>>=◌, raise_if, arith, if◌then◌else◌, is_yes,
}
use llama.Run.Payload.{Payload, text, count}
use llama.Worker.Frames.{
  Reply, FrameType, ready, started, phase, final_delta, heartbeat, progress, completed, failed,
  WorkerError, worker_crashed, FrameVerifier, type_of, payload_ok, check_header, verify_started,
  verify_request_frame, verify, verify_all, is_started, is_ready, is_text, is_number,
}

pub data Stage : Type 0 where
  fresh running final closed : Stage

-- What may follow what
pub data Step : Stage → FrameType → Stage → Type 0 where
  starts : Step fresh started running
  reports : Step running progress running
  beats : Step running heartbeat running
  enters : Step running phase final
  final_reports : Step final progress final
  final_beats : Step final heartbeat final
  streams : Step final final_delta final
  completes : Step final completed closed
  fails : Step running failed closed
  final_fails : Step final failed closed

-- The types of frames that lead from a stage to a stage
pub data Word : Stage → List FrameType → Stage → Type 0 where
  over : {s : Stage} → Word s [] s
  follows :
      {s t u : Stage} {k : FrameType} {ks : List FrameType}
      → Step s k t
      → Word t ks u
      → Word s (k ∷ ks) u

abbrev pub stage : FrameVerifier → Stage
stage v = elim v.terminal [
  | true ↦ closed
  | false ↦ elim v.started [
    | false ↦ fresh
    | true ↦ elim v.final_phase [ true ↦ final | false ↦ running ]
  ]
]

-- The frame takes its step, and nothing else changes but the stage.
abbrev Admits : FrameVerifier → FrameType → FrameVerifier → Type 0
Admits v kind w =
    Step (stage v) kind (stage w)
    × (w.started ≡ true)
    × (w.next_sequence ≡ v.next_sequence)
    × (w.request_id ≡ v.request_id)
    × (w.attempt_id ≡ v.attempt_id)

-- The final phase is entered by a request that has started.
abbrev pub IsOrdered : FrameVerifier → Type 0
IsOrdered v = v.started ≡ false → v.final_phase ≡ false

started-Step :
    (v w : FrameVerifier) (kind : FrameType) (valid : Bool)
    → v.terminal ≡ false
    → v.started ≡ true
    → verify_started v kind valid ≡ ok w
    → Admits v kind w
unfolding verify_started
started-Step v w ready valid t s h = absurd (ground arith)
started-Step v w started valid t s h = absurd (ground arith)
started-Step v w kind false t s h = absurd (ground arith)
started-Step v w phase true t s h = elim (Bool-cases v.final_phase) [
  | inl f ↦ absurd (ground arith)
  | inr f ↦
      let g : record v { final_phase = true } ≡ w = ground arith in
      rw (sym g, t, s, f) (enters, refl, refl, refl, refl)
]
started-Step v w final_delta true t s h = elim (Bool-cases v.final_phase) [
  | inl f ↦ let g : v ≡ w = ground arith in rw (sym g, t, s, f) (streams, refl, refl, refl, refl)
  | inr f ↦ absurd (ground arith)
]
started-Step v w progress true t s h =
    let g : v ≡ w = ground arith in
    elim (Bool-cases v.final_phase) [
      | inl f ↦ rw (sym g, t, s, f) (final_reports, refl, refl, refl, refl)
      | inr f ↦ rw (sym g, t, s, f) (reports, refl, refl, refl, refl)
    ]
started-Step v w heartbeat true t s h =
    let g : v ≡ w = ground arith in
    elim (Bool-cases v.final_phase) [
      | inl f ↦ rw (sym g, t, s, f) (final_beats, refl, refl, refl, refl)
      | inr f ↦ rw (sym g, t, s, f) (beats, refl, refl, refl, refl)
    ]
started-Step v w completed true t s h = elim (Bool-cases v.final_phase) [
  | inl f ↦
      let g : record v { terminal = true } ≡ w = ground arith in
      rw (sym g, t, s, f) (completes, refl, refl, refl, refl)
  | inr f ↦ absurd (ground arith)
]
started-Step v w failed true t s h =
    let g : record v { terminal = true } ≡ w = ground arith in
    elim (Bool-cases v.final_phase) [
      | inl f ↦ rw (sym g, t, s, f) (final_fails, refl, refl, refl, refl)
      | inr f ↦ rw (sym g, t, s, f) (fails, refl, refl, refl, refl)
    ]

first_frame :
    (v w : FrameVerifier) (kind : FrameType)
    → v.terminal ≡ false
    → v.started ≡ false
    → v.final_phase ≡ false
    → Path Reply
        (if is_started kind then ok (record v { started = true }) else err worker_crashed)
        (ok w)
    → Admits v kind w
first_frame v w started t s f h =
    let g : record v { started = true } ≡ w = ground arith in
    rw (sym g, t, s, f) (starts, refl, refl, refl, refl)
first_frame v w _ t s f h = absurd (ground arith)

guarded :
    {A : Type 0} (b : Bool) (x : WorkerError) (r : Result WorkerError A) {a : A}
    → Path (Result WorkerError A) (raise_if b x >> r) (ok a)
    → (b ≡ false) × (r ≡ ok a)
guarded true x r h = absurd (ground arith)
guarded false x r h = (refl, h)

chained :
    {A B : Type 0} (r : Result WorkerError A) (f : A → Result WorkerError B) {b : B}
    → (r >>= f) ≡ ok b
    → (a : A) × (r ≡ ok a) × (f a ≡ ok b)
chained (ok a) f h = (a, refl, h)
chained (err x) f h = absurd (ground arith)

-- A frame that is not refused takes the step of its type.
verify_request_frame-Admits :
    (v w : FrameVerifier) (kind : FrameType) (valid : Bool)
    → IsOrdered v
    → verify_request_frame v kind valid ≡ ok w
    → Admits v kind w
unfolding verify_request_frame
verify_request_frame-Admits v w kind valid o h =
    let (r, h1) = guarded (is_ready kind) worker_crashed _ h in
    let (t, h2) = guarded v.terminal worker_crashed _ h1 in
    elim (Bool-cases v.started) [
      | inl s ↦ started-Step v w kind valid t s (ground arith)
      | inr s ↦ first_frame v w kind t s (o s) (ground arith)
    ]

-- The version, the identities and the number that a frame has
abbrev pub Numbered : String → String → ℕ → Payload → Type 0
Numbered request attempt n frame =
    (text "protocol_version" frame ≡ some "model-worker-ipc.v1")
    × (text "request_id" frame ≡ some request)
    × (text "attempt_id" frame ≡ some attempt)
    × (count "sequence" frame ≡ some n)

is_text-says : (s : String) (o : Option String) → is_text s o ≡ true → o ≡ some s
is_text-says s none h = absurd (ground arith)
is_text-says s (some t) h =
    elim (String_discrete t s) as (λ d. is_yes d ≡ true → some t ≡ some s) [
      | yes p ↦ λ q. ap some p
      | no n ↦ λ q. absurd (ground arith)
    ]
      h

is_number-says : (n : ℕ) (o : Option ℕ) → is_number n o ≡ true → o ≡ some n
is_number-says n none h = absurd (ground arith)
is_number-says n (some m) h = ap some (ground arith)

check_header-Numbered :
    (v : FrameVerifier) (frame : Payload)
    → check_header v frame ≡ ok tt
    → Numbered v.request_id v.attempt_id v.next_sequence frame
unfolding check_header
check_header-Numbered v frame h =
    let (p, h1) =
      guarded (not (is_text "model-worker-ipc.v1" (text "protocol_version" frame))) worker_crashed _
        h in
    let (i, h2) =
      guarded
        (not (is_text v.request_id (text "request_id" frame))
          || not (is_text v.attempt_id (text "attempt_id" frame)))
        worker_crashed _ h1 in
    let n =
      elim (Bool-cases (is_number v.next_sequence (count "sequence" frame)))
        as (λ _. is_number v.next_sequence (count "sequence" frame) ≡ true) [
          | inl y ↦ y
          | inr y ↦ absurd (ground arith)
        ] in
    (
      is_text-says _ _ (ground arith),
      is_text-says _ _ (ground arith),
      is_text-says _ _ (ground arith),
      is_number-says _ _ n,
    )

-- What `verify` of a frame that is not refused has found and done.
verify-Admits :
    (v w : FrameVerifier) (frame : Payload)
    → IsOrdered v
    → verify v frame ≡ ok w
    → Numbered v.request_id v.attempt_id v.next_sequence frame
      × ((kind : FrameType) × (type_of frame ≡ some kind)
          × Step (stage v) kind (stage w)
          × (w.started ≡ true)
          × (w.next_sequence ≡ v.next_sequence + 1)
          × (w.request_id ≡ v.request_id)
          × (w.attempt_id ≡ v.attempt_id))
unfolding verify
verify-Admits v w frame o h = elim (Result-cases (check_header v frame)) [
  | inl (x, e) ↦ absurd (ground arith)
  | inr (u, e) ↦ elim (Option-cases (type_of frame)) [
    | inl t ↦ absurd (ground arith)
    | inr (kind, t) ↦ elim (Result-cases (verify_request_frame v kind (payload_ok kind frame))) [
      | inl (x, q) ↦ absurd (ground arith)
      | inr (m, q) ↦
          let (step, begun, n, r, a) = verify_request_frame-Admits v m kind _ o q in
          let g : record m { next_sequence = m.next_sequence + 1 } ≡ w = ground arith in
          rw (sym g)
            (check_header-Numbered v frame e, (kind, t, step, begun, ap (λ i. i + 1) n, r, a))
    ]
  ]
]

module _ (loads : String → Option Payload) where
  -- The texts are frames of a request, numbered from `n`, and have these types.
  pub data Carries (request attempt : String) : ℕ → List String → List FrameType → Type 0 where
    nothing : {n : ℕ} → Carries request attempt n [] []
    carries :
        {n : ℕ} {raw : String} {raws : List String} {frame : Payload} {k : FrameType}
        {ks : List FrameType}
        → loads raw ≡ some frame
        → type_of frame ≡ some k
        → Numbered request attempt n frame
        → Carries request attempt (n + 1) raws ks
        → Carries request attempt n (raw ∷ raws) (k ∷ ks)

  -- When a verifier refuses none of the texts, they are frames of its request and attempt, numbered without a
  -- gap from its next number, their types follow the protocol from its stage to the stage at the end, and its
  -- number has grown by how many they are. Its final phase has to have been entered after the start only.
  pub verify_all-Word :
      (v w : FrameVerifier) (raws : List String)
      → IsOrdered v
      → verify_all loads v raws ≡ ok w
      → (ks : List FrameType) × Carries v.request_id v.attempt_id v.next_sequence raws ks
        × Word (stage v) ks (stage w)
        × (w.next_sequence ≡ v.next_sequence + length raws)
  unfolding verify_all
  verify_all-Word v w [] o h =
      let g : v ≡ w = ground arith in rw (sym g) ([], nothing, over, omega arith)
  verify_all-Word v w (raw ∷ raws) o h = elim (Option-cases (loads raw)) [
    | inl l ↦ absurd (ground arith)
    | inr (frame, l) ↦ elim (Result-cases (verify v frame)) [
      | inl (x, q) ↦ absurd (ground arith)
      | inr (m, q) ↦
          let (numbered, (kind, t, step, begun, n, r, a)) = verify-Admits v m frame o q in
          let (ks, carried, word, n2) =
            verify_all-Word m w raws (λ s. absurd (ground arith)) (ground arith) in
          let rest : Carries v.request_id v.attempt_id (v.next_sequence + 1) raws ks =
            rw (sym r, sym a, sym n) carried in
          (kind ∷ ks, carries l t numbered rest, follows step word, omega arith)
    ]
  ]

-- ===== src/Worker/Frames.antt =====
-- The verifier of the frames that a worker process sends: model_worker/ipc.py. A frame is a JSON object;
-- `loads` of strict_json is an argument, which gives nothing where it raises or the value is no object.
pub mod Protocol
use llama.Prelude.{
  ℕ, ◌+◌, Bool, true, false, not, ◌&&◌, ◌||◌, List, [], ◌∷◌, Option, none, some, String,
  String_discrete, is_yes, ◌==◌, any, Result, ok, err, ◌>>=◌, ◌>>◌, raise_if, if◌then◌else◌,
}
use llama.Run.Payload.{Payload, Value, object, lookup, text, count}

pub data FrameType : Type 0 where
  ready started phase final_delta heartbeat progress completed failed : FrameType

-- A `WorkerError` with the code `worker_crashed`. The set tests on a `type` or `phase` that is a list or an
-- object raise a TypeError, which stands under the same name.
pub data WorkerError : Type 0 where
  worker_crashed : WorkerError

pub record FrameVerifier : Type 0 where
  pub request_id : String
  pub attempt_id : String
  pub next_sequence : ℕ
  pub started : Bool
  pub final_phase : Bool
  pub terminal : Bool

abbrev pub is_text : String → Option String → Bool
is_text s none = false
is_text s (some t) = is_yes (String_discrete t s)

abbrev pub is_number : ℕ → Option ℕ → Bool
is_number n none = false
is_number n (some m) = m == n

abbrev is_some {ℓ} : {A : Type ℓ} → Option A → Bool
is_some none = false
is_some (some a) = true

abbrev is_object : Option Value → Bool
is_object (some (object f)) = true
is_object _ = false

-- The type that a text names
unfoldable pub frame_type : String → Option FrameType
frame_type s =
    if is_yes (String_discrete s "ready")
    then some FrameType.ready
    else if is_yes (String_discrete s "started")
    then some FrameType.started
    else if is_yes (String_discrete s "phase")
    then some FrameType.phase
    else if is_yes (String_discrete s "final_delta")
    then some FrameType.final_delta
    else if is_yes (String_discrete s "heartbeat")
    then some FrameType.heartbeat
    else if is_yes (String_discrete s "progress")
    then some FrameType.progress
    else if is_yes (String_discrete s "completed")
    then some FrameType.completed
    else if is_yes (String_discrete s "failed")
    then some FrameType.failed
    else none

-- `frame.get("type")`, where `FRAME_TYPES` has it
unfoldable pub type_of : Payload → Option FrameType
unfolding text frame_type
type_of frame = elim (text "type" frame) [ none ↦ none | some s ↦ frame_type s ]

abbrev is_delta : Option String → Bool
is_delta none = false
is_delta (some s) = not (is_yes (String_discrete s ""))

-- The payload that a progress, heartbeat, completed or failed frame, or a delta, has to have
unfoldable pub payload_ok : FrameType → Payload → Bool
unfolding text count lookup
payload_ok FrameType.phase frame = is_text "final" (text "phase" frame)
payload_ok FrameType.final_delta frame = is_delta (text "delta" frame)
payload_ok FrameType.progress frame =
    (is_text "prompt_decode" (text "phase" frame)
      || is_text "reasoning" (text "phase" frame)
      || is_text "final" (text "phase" frame))
    && is_some (count "tokens" frame)
payload_ok FrameType.heartbeat frame = is_some (count "sampled_tokens" frame)
payload_ok FrameType.completed frame =
    is_some (text "final_text" frame)
    && is_object (lookup "usage" frame)
    && is_object (lookup "timing" frame)
payload_ok FrameType.failed frame = is_some (text "error" frame) && is_some (text "detail" frame)
payload_ok _ frame = true

abbrev pub Reply : Type 0
Reply = Result WorkerError FrameVerifier

-- `_verify_request_frame` for a request that has started
unfoldable pub verify_started : FrameVerifier → FrameType → Bool → Reply
verify_started v FrameType.ready valid = err worker_crashed
verify_started v FrameType.started valid = err worker_crashed
verify_started v FrameType.phase valid = do
  raise_if (not valid || v.final_phase) worker_crashed
  ok (record v { final_phase = true })
verify_started v FrameType.final_delta valid = do
  raise_if (not v.final_phase || not valid) worker_crashed
  ok v
verify_started v FrameType.progress valid = do raise_if (not valid) worker_crashed; ok v
verify_started v FrameType.heartbeat valid = do raise_if (not valid) worker_crashed; ok v
verify_started v FrameType.completed valid = do
  raise_if (not valid) worker_crashed
  raise_if (not v.final_phase) worker_crashed
  ok (record v { terminal = true })
verify_started v FrameType.failed valid = do
  raise_if (not valid) worker_crashed
  ok (record v { terminal = true })

abbrev pub is_started : FrameType → Bool
is_started FrameType.started = true
is_started _ = false

abbrev pub is_ready : FrameType → Bool
is_ready FrameType.ready = true
is_ready _ = false

-- `_verify_request_frame`
unfoldable pub verify_request_frame : FrameVerifier → FrameType → Bool → Reply
unfolding verify_started
verify_request_frame v kind valid = do
  raise_if (is_ready kind) worker_crashed
  raise_if v.terminal worker_crashed
  if v.started
      then verify_started v kind valid
      else if is_started kind
      then ok (record v { started = true })
      else err worker_crashed

abbrev pub or_crash : {A : Type 0} → Option A → Result WorkerError A
or_crash none = err worker_crashed
or_crash (some a) = ok a

-- The tests of `verify` on the version, the identities and the number of a frame
unfoldable pub check_header : FrameVerifier → Payload → Result WorkerError (Unit {0})
unfolding text count
check_header v frame = do
  raise_if (not (is_text "model-worker-ipc.v1" (text "protocol_version" frame))) worker_crashed
  raise_if
      (not (is_text v.request_id (text "request_id" frame))
        || not (is_text v.attempt_id (text "attempt_id" frame)))
      worker_crashed
  raise_if (not (is_number v.next_sequence (count "sequence" frame))) worker_crashed

-- `verify` of an object
unfoldable pub verify : FrameVerifier → Payload → Reply
unfolding check_header type_of payload_ok verify_request_frame
verify v frame = do
  check_header v frame
  kind ← or_crash (type_of frame)
  w ← verify_request_frame v kind (payload_ok kind frame)
  ok (record w { next_sequence = w.next_sequence + 1 })

module _ (loads : String → Option Payload) where
  -- `verify` of a text
  unfoldable pub verify_text : FrameVerifier → String → Reply
  unfolding verify
  verify_text v raw = do frame ← or_crash (loads raw); verify v frame

  -- The frames of a request, one after the other, as far as a caller goes on
  unfoldable pub verify_all : FrameVerifier → List String → Reply
  unfolding verify_text
  verify_all v [] = ok v
  verify_all v (raw ∷ rest) = do w ← verify_text v raw; verify_all w rest

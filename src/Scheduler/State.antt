-- ===== src/Scheduler/State.antt =====
-- The state of `ContinuousBatchScheduler` in inference_runtime/continuous_scheduler.py. Times are
-- whole milliseconds, and the readings of the clock within one section are one argument.
use llama.Prelude.{
  ℕ, ◌+◌, Bool, true, false, not, ◌&&◌, List, [], ◌∷◌, ◌++◌, Option, none, some, String,
  String_discrete, Result, ok, err, if◌then◌else◌, select, zero, suc,
}
use llama.Prelude.Dict
use llama.Prelude.Dict.{Dict, values}
use llama.Governance.Policy.{SchedulingMetadata}
use llama.Governance.Admission.{Controller}
use llama.Governance.Selector.Key.{Selector, SchedulableEntry}
use llama.Contracts.Sequences.{SequenceHandle}
use llama.Contracts.Outcomes.{SequenceCompletion}
use llama.Contracts.Events.{SchedulerEvent, SchedulerEventKind, check_event}

pub data RuntimeRequestState : Type 0 where
  queued opening prefill prefill_inflight decode decode_inflight releasing terminal :
      RuntimeRequestState

unfoldable pub State_discrete : Discrete RuntimeRequestState
State_discrete = hlevel

pub record InferenceRuntimeError : Type 0 where
  pub code : String
  pub retryable : Bool

-- What the scheduler reads of a `PreflightedRequest`; `accepts` is whether `loads` and
-- `validate_output` pass a final text for the request's contract.
pub record Request : Type 0 where
  pub model_id : String
  pub prompt_bytes : ℕ
  pub total_tokens : ℕ
  pub queue_timeout_ms : ℕ
  pub execution_timeout_ms : ℕ
  pub accepts : String → Bool

-- What a `GenerateResult` says of the request: its numbers are copied from the completion.
pub record GenerateResult : Type 0 where
  pub request_id : String
  pub attempt_id : String
  pub completion : SequenceCompletion
  pub queue_ms : ℕ
  pub total_ms : ℕ
  pub context_headroom : ℕ

-- `_RequestEntry`
pub record RequestEntry : Type 0 where
  pub request : Request
  pub scheduling : SchedulingMetadata
  pub attempt_id : String
  pub admitted_at : ℕ
  pub queue_deadline : ℕ
  pub order : ℕ
  pub estimated_tokens : ℕ
  pub state : RuntimeRequestState
  pub handle : Option SequenceHandle
  pub execution_deadline : Option ℕ
  pub opened_at : Option ℕ
  pub cancel_requested : Bool
  pub result : Option GenerateResult
  pub error : Option InferenceRuntimeError
  pub terminal_at : Option ℕ
  pub admitted_event_sent : Bool
  pub terminalizing : Bool
  pub resource_release_confirmed : Bool
  pub final_deltas : List String

-- The arguments of the constructor and what it reads of the backend's capabilities.
pub record Config : Type 0 where
  pub tick_token_budget : ℕ
  pub max_pending_requests : ℕ
  pub max_decode_burst : ℕ
  pub max_context_tokens : ℕ
  pub max_concurrent_sequences : ℕ
  pub max_sequences_per_step : ℕ
  pub max_prefill_tokens_per_step : ℕ
  pub max_decode_tokens_per_step : ℕ

pub record Scheduler : Type 0 where
  pub config : Config
  pub admission : Controller
  pub selector : Selector
  pub entries : Dict String RequestEntry
  pub queued_ids : List String
  pub prefill_ids : List String
  pub decode_ids : List String
  pub decode_burst : ℕ
  pub stopping : Bool
  pub stopped : Bool
  pub fatal_error : Option InferenceRuntimeError
  pub event_failures : ℕ
  pub published : List SchedulerEvent
  pub next_order : ℕ

abbrev pub is_terminal : RuntimeRequestState → Bool
is_terminal terminal = true
is_terminal _ = false

-- The entry's view for the selector
abbrev pub schedulable : RequestEntry → SchedulableEntry
schedulable e = record { scheduling = e.scheduling; admitted_at = e.admitted_at; order = e.order }

abbrev pub find : Scheduler → String → Option RequestEntry
find s id = Dict.get String_discrete id s.entries

-- An entry is shared with the table, so the table sees what is written to it.
abbrev pub store : Scheduler → RequestEntry → Scheduler
store s e = record s { entries = Dict.put String_discrete e.scheduling.request_id e s.entries }

-- The entries that are not terminal
abbrev pub live : Scheduler → List RequestEntry
live s = select (λ e. not (is_terminal e.state)) (values s.entries)

-- `s[:n]`
abbrev pub prefix_of : ℕ → String → String
prefix_of zero s = ""
prefix_of (suc n) String.[] = ""
prefix_of (suc n) (String.◌∷◌ c s) = String.◌∷◌ c (prefix_of n s)

-- What a backend call raised: the `code` of the exception, if it has one that is not empty.
pub record BackendFailure : Type 0 where
  pub native_code : Option String

abbrev code_or : String → Option String → String
code_or code none = code
code_or code (some native) = native

-- `_backend_error`
unfoldable pub backend_error : String → BackendFailure → InferenceRuntimeError
backend_error code f = record {
  code = prefix_of 128 (code_or code f.native_code);
  retryable = true;
}

abbrev passes : Result String (Unit {0}) → Bool
passes (ok u) = true
passes (err field) = false

module _ (publishes : SchedulerEvent → Bool) where
  -- `_publish`. `publishes` is whether the sink takes the event; the event's own checks count too.
  unfoldable pub publish :
      Scheduler
      → RequestEntry
      → SchedulerEventKind
      → Option SequenceHandle
      → Option ℕ
      → Option String
      → ℕ
      → Scheduler
  publish s e kind handle tokens code now =
      let event : SchedulerEvent = record {
        kind = kind;
        request_id = e.scheduling.request_id;
        at_monotonic = now;
        handle = handle;
        tokens = tokens;
        error_code = code;
      } in
      if passes (check_event event) && publishes event
      then record s { published = s.published ++ event ∷ [] }
      else record s { event_failures = s.event_failures + 1 }

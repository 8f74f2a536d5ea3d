-- ===== src/Tests/Batching.antt =====
-- A request that is queued, opened and shut down.
use mathlib.Core.Path.{subst}
use llama.Prelude.{
  ℕ, ◌≤◌, ◌≡◌, refl, length, sum_by, String_discrete, Option, none, some, List, [], ◌∷◌, true,
  false, any, select, first_min, Result, ok, err, arith, All, is_identifier, has_control,
}
use llama.Prelude.Dict
use llama.Prelude.Int.{pos}
use llama.Governance.Policy.{Error, SchedulingMetadata, defaults, class_policy, find_class}
use llama.Governance.Admission.{AdmissionLimits, admit, pending, release}
use llama.Governance.Selector.Key.{key, key_lt, compare_key, is_emergency, Agent_discrete}
use llama.Governance.Selector.{
  note_weight, note_weights, lane, count_emergency, choose, select_noted, select_next, forget,
}
use llama.Contracts.Sequences.{SequenceHandle, SequenceStep}
use llama.Contracts.Checks.{bounded_text}
use llama.Contracts.Events.{check_event}
use llama.Contracts.Outcomes.{ReleaseStatus, ReleaseOutcome}
use llama.Scheduler.State.{
  RuntimeRequestState, is_terminal, State_discrete, InferenceRuntimeError, GenerateResult, Request,
  RequestEntry, Config, BackendFailure, Scheduler, find, publish,
}
use llama.Scheduler.Queues.{
  valid_ids, candidates, drop_first, pop_state, take_state, queue_has_state,
}
use llama.Scheduler.Intake.{
  Refusal, infer, check_infer, queue_deadline, estimate_reservation, collect, begin_shutdown,
}
use llama.Scheduler.Ending.{
  announce, finish, forget_entry, exactly_one, terminalize, release_and_terminalize,
}
use llama.Scheduler.Completion.{boundary, first_boundary, process_terminal_boundaries}
use llama.Scheduler.Opening.{active_sequences, start_open}
use llama.Scheduler.Batches.{start_prefill, allot}
use llama.Scheduler.Decoding.{start_decode, decode_steps, quantum}
use llama.Scheduler.Loop.{
  Phase, looking, finished, failing, crashed, Backend, choose_batch_action, action_for, idle,
  advance,
}
use llama.Scheduler.Ledger.{freed, gives_back, release-freed}
use llama.Scheduler.Budgets.{budget_of, IsShare, start_prefill-Fits, start_decode-Covered}
use llama.Scheduler.Sound.Calling.{infers, shuts_down}
use llama.Scheduler.Sound.Reaches.{
  Reaches, starts, calls, works, IsAnswered, Answers, Reaches-Sound, collect-Answers,
  finished-Answers,
}

abbrev config : Config
config = record {
  tick_token_budget = 8;
  max_pending_requests = 4;
  max_decode_burst = 2;
  max_context_tokens = 100;
  max_concurrent_sequences = 2;
  max_sequences_per_step = 2;
  max_prefill_tokens_per_step = 6;
  max_decode_tokens_per_step = 4;
}

abbrev limits : AdmissionLimits
limits = record {
  max_pending = 4;
  max_sequences = 2;
  kv_token_budget = 200;
  max_pending_per_workflow = 4;
  max_pending_per_agent = 2;
  max_sequences_per_workflow = 2;
  max_sequences_per_agent = 1;
  max_kv_tokens_per_workflow = 200;
  max_kv_tokens_per_agent = 100;
  load_shed_pending_threshold = 3;
  load_shed_min_priority = pos 0;
}

abbrev unused : Scheduler
unused = record {
  config = config;
  admission = record { limits = limits; policy = defaults 1000; reservations = [] };
  selector = record {
    policy = defaults 1000;
    workflow_service = [];
    agent_service = [];
    request_service = [];
    workflow_weight = [];
    agent_weight = [];
    consecutive_emergency = 0;
  };
  entries = [];
  queued_ids = [];
  prefill_ids = [];
  decode_ids = [];
  decode_burst = 0;
  stopping = false;
  stopped = false;
  fatal_error = none;
  event_failures = 0;
  published = [];
  next_order = 0;
}

abbrev metadata : SchedulingMetadata
metadata = record {
  request_id = "r";
  workflow_id = "w";
  agent_id = "a";
  service_class = "interactive";
  weight = 1;
  deadline_monotonic = none;
  cache_scope = none;
  session_cache = none;
}

abbrev request : Request
request = record {
  model_id = "m";
  prompt_bytes = 10;
  total_tokens = 20;
  queue_timeout_ms = 1000;
  execution_timeout_ms = 1000;
  accepts = λ t. true;
}

abbrev or_unused : Result Refusal Scheduler → Scheduler
or_unused (ok s) = s
or_unused (err x) = unused

abbrev queued_one : Scheduler
queued_one = or_unused (infer unused request metadata "a1" 5)

enqueued : infer unused request metadata "a1" 5 ≡ ok queued_one
unfolding infer check_infer queue_deadline estimate_reservation admit pending class_policy
    find_class defaults select any Dict.get Dict.put String_discrete
enqueued = refl

queued_one-Reaches : Reaches queued_one looking
queued_one-Reaches = calls (starts refl) (infers request metadata "a1" 5 enqueued)

abbrev backend : Backend
backend = record {
  publishes = λ e. true;
  open_sequence = λ id. err (record { native_code = none });
  reservation_tokens = λ h. ok none;
  prefill_batch = λ s. ok [];
  decode_batch = λ s. ok [];
  release = λ h. ok (record { handle = h; status = ReleaseStatus.released; released_bytes = 0 });
}

abbrev ended_one : Scheduler × Phase
ended_one = advance backend (begin_shutdown queued_one) looking 6

ended_one-Reaches : Reaches ended_one.0 ended_one.1
ended_one-Reaches = works backend 6 (calls queued_one-Reaches shuts_down)

Reaches-Sound_example : All IsAnswered ended_one.0.entries
Reaches-Sound_example = Reaches-Sound ended_one.0 ended_one.1 ended_one-Reaches

abbrev shutdown_error : InferenceRuntimeError
shutdown_error = record { code = "shutdown"; retryable = true }

abbrev entry_of : Option RequestEntry → RequestEntry → RequestEntry
entry_of none e = e
entry_of (some c) e = c

abbrev entry : RequestEntry
entry = record {
  request = request;
  scheduling = metadata;
  attempt_id = "a1";
  admitted_at = 5;
  queue_deadline = 1005;
  order = 0;
  estimated_tokens = 94;
  state = RuntimeRequestState.queued;
  handle = none;
  execution_deadline = none;
  opened_at = none;
  cancel_requested = false;
  result = none;
  error = none;
  terminal_at = none;
  admitted_event_sent = false;
  terminalizing = false;
  resource_release_confirmed = false;
  final_deltas = [];
}

abbrev over : RequestEntry
over = record entry {
  state = RuntimeRequestState.terminal;
  cancel_requested = true;
  error = some shutdown_error;
  terminal_at = some 6;
  admitted_event_sent = true;
  terminalizing = true;
  resource_release_confirmed = true;
}

is_over : find ended_one.0 "r" ≡ some over
unfolding infer check_infer queue_deadline estimate_reservation admit pending class_policy
    find_class defaults select any Dict.get Dict.put Dict.remove String_discrete advance
    begin_shutdown process_terminal_boundaries first_boundary boundary release_and_terminalize
    terminalize announce publish check_event bounded_text is_identifier has_control finish
    forget_entry exactly_one release forget
is_over = refl

told : (collect ended_one.0 "r").1 ≡ some (err shutdown_error)
unfolding infer check_infer queue_deadline estimate_reservation admit pending class_policy
    find_class defaults select any Dict.get Dict.put Dict.remove String_discrete advance
    begin_shutdown process_terminal_boundaries first_boundary boundary release_and_terminalize
    terminalize announce publish check_event bounded_text is_identifier has_control finish
    forget_entry exactly_one release forget collect
told = refl

collect-Answers_example :
    Answers over (err shutdown_error)
    × (is_terminal over.state ≡ true)
    × (find (collect ended_one.0 "r").0 "r" ≡ none)
collect-Answers_example =
    collect-Answers ended_one.0 ended_one.1 "r" over (err shutdown_error) ended_one-Reaches is_over
      told

-- The next sections: nothing ends, nothing opens, nothing is chosen, and the worker finishes.
abbrev then_advance : Scheduler × Phase → ℕ → Scheduler × Phase
then_advance s now = advance backend s.0 s.1 now

abbrev finished_one : Scheduler × Phase
finished_one = then_advance (then_advance (then_advance (then_advance ended_one 7) 8) 9) 10

finished_one-Reaches : Reaches finished_one.0 finished_one.1
finished_one-Reaches =
    works backend 10 (works backend 9 (works backend 8 (works backend 7 ended_one-Reaches)))

stops : finished_one.1 ≡ finished
unfolding infer check_infer queue_deadline estimate_reservation admit pending class_policy
    find_class defaults select any Dict.get Dict.put Dict.remove String_discrete advance
    begin_shutdown process_terminal_boundaries first_boundary boundary release_and_terminalize
    terminalize announce publish check_event bounded_text is_identifier has_control finish
    forget_entry exactly_one release forget start_open active_sequences pop_state valid_ids
    candidates select_next choose_batch_action queue_has_state action_for idle State_discrete
stops = refl

still_over : find finished_one.0 "r" ≡ some over
unfolding infer check_infer queue_deadline estimate_reservation admit pending class_policy
    find_class defaults select any Dict.get Dict.put Dict.remove String_discrete advance
    begin_shutdown process_terminal_boundaries first_boundary boundary release_and_terminalize
    terminalize announce publish check_event bounded_text is_identifier has_control finish
    forget_entry exactly_one release forget start_open active_sequences pop_state valid_ids
    candidates select_next choose_batch_action queue_has_state action_for idle State_discrete
still_over = refl

finished-Answers_example :
    (a : Result InferenceRuntimeError GenerateResult) × ((collect finished_one.0 "r").1 ≡ some a)
    × Answers over a
finished-Answers_example =
    finished-Answers finished_one.0 "r" over
      (subst (Reaches finished_one.0) stops finished_one-Reaches) still_over

abbrev handle : SequenceHandle
handle = record { backend = "b"; model = "m"; sequence = "s"; generation = 1 }

abbrev at_prefill : Scheduler
at_prefill = record unused {
  entries = ("r", record entry { state = RuntimeRequestState.prefill; handle = some handle }) ∷ [];
  prefill_ids = "r" ∷ [];
}

abbrev steps_of :
    Result Error (List (RequestEntry × SequenceStep)) → List (RequestEntry × SequenceStep)
steps_of (err x) = []
steps_of (ok st) = st

prefills : (start_prefill at_prefill 9).1 ≡ ok (steps_of (start_prefill at_prefill 9).1)
unfolding start_prefill take_state pop_state valid_ids candidates drop_first select_next
    select_noted note_weights note_weight lane choose count_emergency is_emergency key key_lt
    compare_key class_policy find_class defaults select first_min Agent_discrete Dict.get Dict.put
    String_discrete State_discrete allot
prefills = refl

start_prefill-Fits_example :
    (length (steps_of (start_prefill at_prefill 9).1) ≤ 2)
    × (sum_by budget_of (steps_of (start_prefill at_prefill 9).1) ≤ 8)
    × All (IsShare 6) (steps_of (start_prefill at_prefill 9).1)
start_prefill-Fits_example =
    start_prefill-Fits at_prefill 9 (steps_of (start_prefill at_prefill 9).1) (omega arith)
      (omega arith) prefills

abbrev at_decode : Scheduler
at_decode = record unused {
  entries = ("r", record entry { state = RuntimeRequestState.decode; handle = some handle }) ∷ [];
  decode_ids = "r" ∷ [];
}

abbrev batch_of :
    Result Error (List RequestEntry × List SequenceStep) → List RequestEntry × List SequenceStep
batch_of (err x) = ([], [])
batch_of (ok b) = b

decodes : (start_decode at_decode 9).1 ≡ ok (batch_of (start_decode at_decode 9).1)
unfolding start_decode take_state pop_state valid_ids candidates drop_first select_next select_noted
    note_weights note_weight lane choose count_emergency is_emergency key key_lt compare_key
    class_policy find_class defaults select first_min Agent_discrete Dict.get Dict.put
    String_discrete State_discrete decode_steps quantum
decodes = refl

start_decode-Covered_example :
    (length (batch_of (start_decode at_decode 9).1).1 ≤ 2)
    × (length (batch_of (start_decode at_decode 9).1).1
        ≤ length (batch_of (start_decode at_decode 9).1).0)
    × (sum_by (λ t. t.token_budget) (batch_of (start_decode at_decode 9).1).1 ≤ 8)
start_decode-Covered_example =
    start_decode-Covered at_decode 9 (batch_of (start_decode at_decode 9).1).0
      (batch_of (start_decode at_decode 9).1).1 decodes

-- A backend that does not find the sequence that it is to release
abbrev lost : SequenceHandle → Result BackendFailure ReleaseOutcome
lost h = ok (record { handle = h; status = ReleaseStatus.not_found; released_bytes = 0 })

abbrev at_work : RequestEntry
at_work = record entry { state = RuntimeRequestState.prefill; handle = some handle }

there : find at_prefill "r" ≡ some at_work
unfolding Dict.get String_discrete
there = refl

release-freed_example :
    (release_and_terminalize
      (λ e. true)
      lost
      at_prefill
      "r"
      none
      (some shutdown_error)
      9).0.admission
    ≡ freed (gives_back lost (some handle)) at_prefill.admission "r"
release-freed_example =
    release-freed (λ e. true) lost at_prefill at_work none (some shutdown_error) 9 there refl refl

abbrev crash_error : InferenceRuntimeError
crash_error = record { code = "scheduler_crashed"; retryable = true }

-- A request that came in after the snapshot of `_fail_all` is not ended when the worker stops.
stranded :
    ((advance backend queued_one (failing crash_error []) 7).1 ≡ crashed)
    × ((collect (advance backend queued_one (failing crash_error []) 7).0 "r").1 ≡ none)
unfolding infer check_infer queue_deadline estimate_reservation admit pending class_policy
    find_class defaults select any Dict.get Dict.put String_discrete advance collect
stranded = (refl, refl)

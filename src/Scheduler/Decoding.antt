-- ===== src/Scheduler/Decoding.antt =====
-- One batch of decode steps: `_run_decode_batch` of inference_runtime/continuous_scheduler.py, in the
-- section before the backend's call and the one after it. An entry of the decode queue has a handle.
use llama.Prelude.{
  ℕ, ◌+◌, ◌/◌, min, max, Bool, true, false, List, [], ◌∷◌, ◌++◌, Option, none, some, String,
  String_discrete, is_yes, length, Result, ok, err, if◌then◌else◌,
}
use llama.Governance.Policy.{Error}
use llama.Contracts.Sequences.{SequenceHandle, SequenceStep}
use llama.Contracts.Outcomes.{DecodeStatus, DecodeOutcome, ReleaseOutcome}
use llama.Contracts.Events.{SchedulerEvent, SchedulerEventKind}
use llama.Scheduler.State.{
  decode, decode_inflight, releasing, InferenceRuntimeError, RequestEntry, Scheduler, prefix_of,
  BackendFailure, backend_error,
}
use llama.Scheduler.Queues.{take_state}
use llama.Scheduler.Ending.{release_and_terminalize}
use llama.Scheduler.Completion.{fail_entries, complete_entry}
use llama.Scheduler.Batches.{amend, same_handle, set_states, of_length, report}

-- The tokens that each of `n` sequences may decode
unfoldable pub quantum : Scheduler → ℕ → ℕ
quantum s n = min s.config.max_decode_tokens_per_step (max 1 (s.config.tick_token_budget / max 1 n))

-- The loop that makes the steps
unfoldable pub decode_steps : ℕ → List RequestEntry → List SequenceStep
decode_steps budget [] = []
decode_steps budget (e ∷ es) = elim e.handle [
  | none ↦ decode_steps budget es
  | some h ↦ record { handle = h; token_budget = budget } ∷ decode_steps budget es
]

abbrev pub decode_from :
    Scheduler
    → Result Error (List RequestEntry)
    → Scheduler × Result Error (List RequestEntry × List SequenceStep)
decode_from s (err x) = (s, err x)
decode_from s (ok es) =
    (set_states s es decode_inflight, ok (es, decode_steps (quantum s (length es)) es))

-- `_run_decode_batch` up to `backend.decode_batch`
unfoldable pub start_decode :
    Scheduler → ℕ → Scheduler × Result Error (List RequestEntry × List SequenceStep)
unfolding take_state decode_steps quantum
start_decode s now =
    let t =
      take_state (min s.config.max_sequences_per_step s.config.tick_token_budget) s s.decode_ids
        decode now in
    decode_from (record s { selector = t.selector; decode_ids = t.queue }) t.taken

-- An outcome for another handle is replaced by a failure.
abbrev pub checked : RequestEntry → DecodeOutcome → DecodeOutcome
checked e o = if same_handle e.handle o.handle then o else record o {
  status = DecodeStatus.failed;
  token_ids = [];
  text_delta = "";
  finish_reason = none;
  completion = none;
  error_code = some "protocol_violation";
}

abbrev pub with_delta : String → RequestEntry → RequestEntry
with_delta delta e =
    if is_yes (String_discrete delta "")
    then e
    else record e { final_deltas = e.final_deltas ++ delta ∷ [] }

abbrev pub is_progressed : DecodeStatus → Bool
is_progressed DecodeStatus.progressed = true
is_progressed _ = false

-- One outcome, under the lock
unfoldable pub settle_decode : Scheduler → String → DecodeOutcome → Scheduler
settle_decode s id o =
    if is_progressed o.status
    then record (amend s id (λ c. record (with_delta o.text_delta c) { state = decode })) {
      decode_ids = s.decode_ids ++ id ∷ [];
    }
    else amend s id (λ c. record (with_delta o.text_delta c) { state = releasing })

-- The loop over the entries and the outcomes under the lock
unfoldable pub apply_decode : Scheduler → List RequestEntry → List DecodeOutcome → Scheduler
unfolding settle_decode
apply_decode s (e ∷ es) (o ∷ os) =
    apply_decode (settle_decode s e.scheduling.request_id (checked e o)) es os
apply_decode s _ _ = s

-- `error_code or "decode_failed"`
abbrev code_or : Option String → String
code_or none = "decode_failed"
code_or (some code) = if is_yes (String_discrete code "") then "decode_failed" else code

-- `(error_code or "").startswith("backend_")`
abbrev from_backend : Option String → Bool
from_backend none = false
from_backend (some code) = is_yes (String_discrete (prefix_of 8 code) "backend_")

-- The error of a failed step
unfoldable pub decode_error : DecodeOutcome → InferenceRuntimeError
decode_error o = record { code = code_or o.error_code; retryable = from_backend o.error_code }

module _ (publishes : SchedulerEvent → Bool) where
  -- The loop over the outcomes that charges and publishes
  unfoldable pub report_decode : Scheduler → List RequestEntry → List DecodeOutcome → ℕ → Scheduler
  report_decode s (e ∷ es) (o ∷ os) now =
      report_decode
        (report publishes s e SchedulerEventKind.decode_completed (length (checked e o).token_ids)
          now)
        es os now
  report_decode s _ _ now = s

  module _ (reply : SequenceHandle → Result BackendFailure ReleaseOutcome) where
    abbrev pub end_one : Scheduler → String → DecodeStatus → DecodeOutcome → ℕ → Scheduler
    end_one s id DecodeStatus.progressed o now = s
    end_one s id DecodeStatus.failed o now =
        (release_and_terminalize publishes reply s id none (some (decode_error o)) now).0
    end_one s id DecodeStatus.finished o now = complete_entry publishes reply s id o.completion now

    -- The loop over the terminals
    unfoldable pub end_decoded : Scheduler → List RequestEntry → List DecodeOutcome → ℕ → Scheduler
    unfolding release_and_terminalize complete_entry decode_error
    end_decoded s (e ∷ es) (out ∷ os) now =
        let o = checked e out in
        end_decoded (end_one s e.scheduling.request_id o.status o now) es os now
    end_decoded s _ _ now = s

    abbrev pub decode_outcomes :
        Scheduler → List RequestEntry → Result BackendFailure (List DecodeOutcome) → ℕ → Scheduler
    decode_outcomes s es (err x) now =
        fail_entries publishes reply s es (backend_error "decode_batch_failed" x) now
    decode_outcomes s es (ok os) now =
        let applied = apply_decode s es os in
        let s1 = record applied { decode_burst = applied.decode_burst + 1 } in
        end_decoded (report_decode s1 es os now) es os now

    -- `_run_decode_batch` from the backend's answer on
    unfoldable pub after_decode :
        Scheduler → List RequestEntry → Result BackendFailure (List DecodeOutcome) → ℕ → Scheduler
    unfolding fail_entries backend_error of_length apply_decode report_decode end_decoded
    after_decode s es answer now = decode_outcomes s es (of_length (length es) answer) now

-- ===== src/Tests/Replay.antt =====
-- A run that proposes, dispatches and finishes one tool call.
use llama.Prelude.{
  is_identifier, has_control, ℕ, ◌+◌, false, Bool, List, some, none, ok, err, [], ◌∷◌, refl, ◌≡◌,
  String, String_discrete, any,
}
use llama.Prelude.Dict
use llama.Prelude.Int.{pos}
use llama.Run.Payload.{
  Fields, Payload, str, int, object, null, no_fields, field, lookup, text, count, truthy,
  valid_identifier, find_field, field_count,
}
use llama.Run.Lifecycle.{
  RunLifecycle, ToolLifecycle, run_lifecycle, tool_lifecycle, deciding, waiting_tool, is_terminal,
}
use llama.Run.Lifecycle
use llama.Run.State.{
  Category, EventKind, run_created, run_transition, tool_proposed, tool_transition, budget_consumed,
  dispatch_started, result_recorded, AgentEvent, AgentRunState, set_budget, category_of, member,
}
use llama.Run.Reducer.{
  Step, replay, replay_from, create, check_counts, apply_transition, apply_proposal,
  apply_tool_transition, consume, apply_budget, check_record, apply_kind, apply_record, apply_event,
  needs_proposal, proposed_in,
}
use llama.Run.Reducer.Records.{IsRecorded, replay-IsRecorded}
use llama.Run.Reducer.Terminal.{replay_from-is_terminal}
use llama.Run.Reducer.Budgets.{replay_from-spent, replay-version, spent}

abbrev counts : List String → Fields
counts [] = field "deadline_utc" null no_fields
counts (k ∷ ks) = field k (int (pos 10)) (counts ks)

abbrev pub budgets : Fields
budgets = counts (
    "turns" ∷ "inference_tokens" ∷ "inference_ms" ∷ "tool_calls" ∷ "tool_attempts"
    ∷ "resolver_calls" ∷ "retries" ∷ "result_bytes" ∷ "context_bytes" ∷ [])

abbrev pub event : EventKind → ℕ → Payload → AgentEvent
event k n p = record {
  event_id = "e";
  event_kind = k;
  payload = p;
  occurred_at_utc = "2026-01-01T00:00:00Z";
  event_version = 1;
  sequence = some n;
}

abbrev names : List (String × String) → Payload
names [] = []
names ((k, v) ∷ ps) = (k, str v) ∷ names ps

abbrev events : List AgentEvent
events =
    event run_created 1 (("budgets", object budgets) ∷ [])
    ∷ event run_transition 2 (names (("target", "deciding") ∷ []))
    ∷ event run_transition 3 (names (("target", "waiting_tool") ∷ []))
    ∷ event tool_proposed 4
        (names (("invocation_id", "i") ∷ ("action_id", "a") ∷ ("tool_catalog_digest", "d") ∷ []))
    ∷ event tool_transition 5 (names (("invocation_id", "i") ∷ ("target", "args_ready") ∷ []))
    ∷ event tool_transition 6 (names (("invocation_id", "i") ∷ ("target", "authorized") ∷ []))
    ∷ event dispatch_started 7
        (names (("record_version", "h1.v1") ∷ ("record_id", "r1") ∷ ("invocation_id", "i") ∷ []))
    ∷ event result_recorded 8
        (names (("record_version", "h1.v1") ∷ ("record_id", "r2") ∷ ("invocation_id", "i") ∷ []))
    ∷ event budget_consumed 9
        (("claim_id", str "c") ∷ ("category", str "turns") ∷ ("amount", int (pos 4)) ∷ [])
    ∷ []

abbrev plain : String → Bool
plain name = false

abbrev start : AgentRunState
start = record {
  run_id = "run";
  lifecycle = RunLifecycle.cancelled;
  version = 8;
  budgets = record { remaining = λ k. 10; deadline_utc = null };
  tool_invocations = [];
  action_claims = [];
  budget_claims = [];
  catalog_digests = [];
  h1_records = [];
  dispatched_invocations = [];
  terminal_results = [];
  acceptance_verdict = none;
}

abbrev spending : List AgentEvent
spending =
    event budget_consumed 9
      (("claim_id", str "c") ∷ ("category", str "turns") ∷ ("amount", int (pos 4)) ∷ [])
    ∷ []

abbrev after : AgentRunState
after = record start {
  version = 9;
  budgets = set_budget Category.turns 6 start.budgets;
  budget_claims = "c" ∷ [];
}

spending_replays : replay_from plain start 9 spending ≡ ok after
unfolding replay_from apply_event apply_budget consume set_budget text count lookup truthy
    valid_identifier is_identifier has_control category_of member any Dict.get String_discrete
spending_replays = refl

replay_from-is_terminal_example : after.lifecycle ≡ RunLifecycle.cancelled
replay_from-is_terminal_example =
    replay_from-is_terminal plain start after 9 spending spending_replays refl

replay_from-spent_example :
    after.budgets.remaining Category.turns + spent Category.turns spending ≡ 10
replay_from-spent_example =
    replay_from-spent plain start after 9 spending Category.turns spending_replays

abbrev state_of : Step → AgentRunState
state_of (ok s) = s
state_of (err e) = start

abbrev final : AgentRunState
final = state_of (replay plain "run" events)

events-replay : replay plain "run" events ≡ ok final
unfolding replay create check_counts replay_from apply_event apply_transition apply_proposal
    apply_tool_transition apply_record check_record apply_kind needs_proposal proposed_in
    apply_budget consume set_budget Lifecycle.run_transition Lifecycle.tool_transition run_lifecycle
    tool_lifecycle text count lookup truthy valid_identifier is_identifier has_control find_field
    field_count category_of member any Dict.get Dict.put String_discrete
events-replay = refl

final_result :
    (final.terminal_results ≡ "i" ∷ [])
    × (final.lifecycle ≡ waiting_tool)
    × (final.budgets.remaining Category.turns ≡ 6)
unfolding replay create check_counts replay_from apply_event apply_transition apply_proposal
    apply_tool_transition apply_record check_record apply_kind needs_proposal proposed_in
    apply_budget consume set_budget Lifecycle.run_transition Lifecycle.tool_transition run_lifecycle
    tool_lifecycle text count lookup truthy valid_identifier is_identifier has_control find_field
    field_count category_of member any Dict.get Dict.put String_discrete
final_result = (refl, refl, refl)

replay-IsRecorded_example : IsRecorded final
replay-IsRecorded_example = replay-IsRecorded plain "run" events final events-replay

replay-version_example : final.version ≡ 9
replay-version_example = replay-version plain "run" events final events-replay

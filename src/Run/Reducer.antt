-- ===== src/Run/Reducer.antt =====
-- Replaying an event stream: `replay` of agent_runtime/reducer.py. `has_attribute` tells which names
-- other than its fields are attributes of every Python object, as `hasattr` answers.
pub mod Terminal
pub mod Budgets
pub mod Records
use llama.Prelude.{
  ℕ, suc, ◌-◌, Bool, true, false, not, ◌&&◌, ◌||◌, List, [], ◌∷◌, Option, none, some, String,
  String_discrete, is_yes, ltb, ◌==◌, if◌then◌else◌, Result, ok, err, ◌>>=◌, ◌>>◌, raise_if,
}
use llama.Prelude.Dict
use llama.Run.Payload.{
  Value, object, Payload, Fields, lookup, as_count, as_bool, text, count, truthy, valid_identifier,
  find_field, field_count,
}
use llama.Run.Lifecycle.{RunLifecycle, ToolLifecycle, is_terminal, run_lifecycle, tool_lifecycle}
use llama.Run.Lifecycle
use llama.Run.State.{
  Category, BudgetState, set_budget, category_of, EventKind, run_created, run_transition,
  tool_proposed, tool_transition, budget_consumed, arguments_compiled, authorization_recorded,
  dispatch_started, result_recorded, acceptance_decided, AgentEvent, AgentRunState, member,
  ReplayError, illegal_event_stream, invalid_event_payload, invalid_identifier, type_error,
}

abbrev pub Step : Type 0
Step = Result ReplayError AgentRunState

-- The value, or the error of its absence.
abbrev pub or_raise : {A : Type 0} → Option A → ReplayError → Result ReplayError A
or_raise none e = err e
or_raise (some a) e = ok a

abbrev pub is : Option String → String → Bool
is none s = false
is (some t) s = is_yes (String_discrete t s)

abbrev pub is_some {ℓ} : {A : Type ℓ} → Option A → Bool
is_some none = false
is_some (some a) = true

abbrev all_named : Fields → Bool
all_named raw =
    field_count raw == 10
    && is_some (find_field "turns" raw)
    && is_some (find_field "inference_tokens" raw)
    && is_some (find_field "inference_ms" raw)
    && is_some (find_field "tool_calls" raw)
    && is_some (find_field "tool_attempts" raw)
    && is_some (find_field "resolver_calls" raw)
    && is_some (find_field "retries" raw)
    && is_some (find_field "result_bytes" raw)
    && is_some (find_field "context_bytes" raw)
    && is_some (find_field "deadline_utc" raw)

abbrev name_of : Category → String
name_of Category.turns = "turns"
name_of Category.inference_tokens = "inference_tokens"
name_of Category.inference_ms = "inference_ms"
name_of Category.tool_calls = "tool_calls"
name_of Category.tool_attempts = "tool_attempts"
name_of Category.resolver_calls = "resolver_calls"
name_of Category.retries = "retries"
name_of Category.result_bytes = "result_bytes"
name_of Category.context_bytes = "context_bytes"

abbrev categories : List Category
categories =
    Category.turns ∷ Category.inference_tokens ∷ Category.inference_ms ∷ Category.tool_calls
    ∷ Category.tool_attempts ∷ Category.resolver_calls ∷ Category.retries ∷ Category.result_bytes
    ∷ Category.context_bytes ∷ []

-- The loop over `fields(budgets)`
unfoldable pub check_counts : Fields → List Category → Result ReplayError (Unit {0})
check_counts raw [] = ok tt
check_counts raw (k ∷ ks) = do
  raise_if (not (is_some (as_count (find_field (name_of k) raw)))) illegal_event_stream
  check_counts raw ks

abbrev or_zero : Option ℕ → ℕ
or_zero none = 0
or_zero (some n) = n

abbrev or_null : Option Value → Value
or_null none = Value.null
or_null (some v) = v

abbrev read_budgets : Fields → BudgetState
read_budgets raw = record {
  remaining = λ k. or_zero (as_count (find_field (name_of k) raw));
  deadline_utc = or_null (find_field "deadline_utc" raw);
}

abbrev as_object : Option Value → Option Fields
as_object (some (object fs)) = some fs
as_object _ = none

-- The first `run_created` event
unfoldable pub create : String → ℕ → Payload → Step
unfolding check_counts
create run_id sequence p = do
  raw ← or_raise (as_object (lookup "budgets" p)) invalid_event_payload
  raise_if (not (all_named raw)) invalid_event_payload
  check_counts raw categories
  ok (record {
    run_id = run_id;
    lifecycle = RunLifecycle.ready;
    version = sequence;
    budgets = read_budgets raw;
    tool_invocations = [];
    action_claims = [];
    budget_claims = [];
    catalog_digests = [];
    h1_records = [];
    dispatched_invocations = [];
    terminal_results = [];
    acceptance_verdict = none;
  })

abbrev is_succeeded : RunLifecycle → Bool
is_succeeded RunLifecycle.succeeded = true
is_succeeded _ = false

-- A `run_transition` event
unfoldable pub apply_transition : AgentRunState → ℕ → Payload → Step
unfolding Lifecycle.run_transition
apply_transition s sequence p = do
  name ← or_raise (text "target" p) invalid_event_payload
  target ← or_raise (run_lifecycle name) invalid_event_payload
  raise_if (not (Lifecycle.run_transition s.lifecycle target)) illegal_event_stream
  raise_if (is_succeeded target && not (is (text "authority" p) "acceptance_gate"))
      illegal_event_stream
  ok (record s { lifecycle = target; version = sequence })

abbrev is_waiting_tool : RunLifecycle → Bool
is_waiting_tool RunLifecycle.waiting_tool = true
is_waiting_tool _ = false

-- A `tool_proposed` event
unfoldable pub apply_proposal : AgentRunState → ℕ → Payload → Step
apply_proposal s sequence p = do
  invocation_id ← or_raise (text "invocation_id" p) illegal_event_stream
  action_id ← or_raise (text "action_id" p) illegal_event_stream
  digest ← or_raise (text "tool_catalog_digest" p) illegal_event_stream
  raise_if (not (is_waiting_tool s.lifecycle)) illegal_event_stream
  raise_if (not (valid_identifier invocation_id)) invalid_identifier
  raise_if (not (valid_identifier action_id)) invalid_identifier
  raise_if
      (is_some (Dict.get String_discrete invocation_id s.tool_invocations)
        || member action_id s.action_claims)
      illegal_event_stream
  ok (record s {
    tool_invocations =
        Dict.put String_discrete invocation_id ToolLifecycle.proposed s.tool_invocations;
    action_claims = action_id ∷ s.action_claims;
    catalog_digests = Dict.put String_discrete action_id digest s.catalog_digests;
    version = sequence;
  })

-- A `tool_transition` event
unfoldable pub apply_tool_transition : AgentRunState → ℕ → Payload → Step
unfolding Lifecycle.tool_transition
apply_tool_transition s sequence p = do
  invocation_id ← or_raise (text "invocation_id" p) illegal_event_stream
  current ←
      or_raise (Dict.get String_discrete invocation_id s.tool_invocations) invalid_event_payload
  name ← or_raise (text "target" p) invalid_event_payload
  target ← or_raise (tool_lifecycle name) invalid_event_payload
  raise_if (not (Lifecycle.tool_transition current target)) illegal_event_stream
  ok (record s {
    tool_invocations = Dict.put String_discrete invocation_id target s.tool_invocations;
    version = sequence;
  })

-- The end of a `budget_consumed` event, once the category is known to be an integer field.
unfoldable pub consume : AgentRunState → ℕ → String → Category → ℕ → Bool → Step
consume s sequence claim_id category amount terminalize = do
  raise_if (ltb (s.budgets.remaining category) amount) illegal_event_stream
  raise_if (terminalize && is_terminal s.lifecycle) illegal_event_stream
  ok (record s {
    budgets = set_budget category (s.budgets.remaining category - amount) s.budgets;
    budget_claims = claim_id ∷ s.budget_claims;
    lifecycle = if terminalize then RunLifecycle.budget_exhausted else s.lifecycle;
    version = sequence;
  })

module _ (has_attribute : String → Bool) where
  -- A `budget_consumed` event. An attribute that is no field cannot be compared with the amount.
  unfoldable pub apply_budget : AgentRunState → ℕ → Payload → Step
  unfolding consume
  apply_budget s sequence p = do
    claim_id ← or_raise (text "claim_id" p) illegal_event_stream
    name ← or_raise (text "category" p) illegal_event_stream
    raise_if (member claim_id s.budget_claims) illegal_event_stream
    raise_if
        (not (is_some (category_of name) || is (some name) "deadline_utc" || has_attribute name))
        illegal_event_stream
    raise_if (not (valid_identifier claim_id)) invalid_identifier
    raise_if (is (some name) "deadline_utc") illegal_event_stream
    amount ← or_raise (count "amount" p) illegal_event_stream
    raise_if (amount == 0) illegal_event_stream
    category ← or_raise (category_of name) type_error
    consume s sequence claim_id category amount (truthy "terminalize" p)

-- The kinds of H1 records that name a proposal.
unfoldable pub needs_proposal : EventKind → Bool
needs_proposal arguments_compiled = true
needs_proposal authorization_recorded = true
needs_proposal dispatch_started = true
needs_proposal result_recorded = true
needs_proposal _ = false

unfoldable pub proposed_in : AgentRunState → Option String → Bool
proposed_in s none = false
proposed_in s (some id) = is_some (Dict.get String_discrete id s.tool_invocations)

abbrev is_authorized : Option ToolLifecycle → Bool
is_authorized (some ToolLifecycle.authorized) = true
is_authorized _ = false

-- What the kind of an H1 record adds to the state.
unfoldable pub apply_kind : EventKind → AgentRunState → Option String → Payload → Step
apply_kind dispatch_started s id p = do
  invocation_id ← or_raise id illegal_event_stream
  raise_if (not (is_authorized (Dict.get String_discrete invocation_id s.tool_invocations)))
      illegal_event_stream
  raise_if (member invocation_id s.dispatched_invocations) illegal_event_stream
  ok (record s { dispatched_invocations = invocation_id ∷ s.dispatched_invocations })
apply_kind result_recorded s id p = do
  invocation_id ← or_raise id illegal_event_stream
  raise_if (not (member invocation_id s.dispatched_invocations)) illegal_event_stream
  raise_if (member invocation_id s.terminal_results) illegal_event_stream
  ok (record s { terminal_results = invocation_id ∷ s.terminal_results })
apply_kind acceptance_decided s id p = do
  accepted ← or_raise (as_bool (lookup "accepted" p)) illegal_event_stream
  raise_if (not (is (text "authority" p) "acceptance_gate")) illegal_event_stream
  ok (record s { acceptance_verdict = some accepted })
apply_kind _ s id p = ok s

-- The guards of an H1 record, which return its id.
unfoldable pub check_record : EventKind → AgentRunState → Payload → Result ReplayError String
unfolding needs_proposal proposed_in
check_record kind s p = do
  raise_if (not (is (text "record_version" p) "h1.v1")) illegal_event_stream
  record_id ← or_raise (text "record_id" p) illegal_event_stream
  raise_if (is_some (Dict.get String_discrete record_id s.h1_records)) illegal_event_stream
  raise_if (not (valid_identifier record_id)) invalid_identifier
  raise_if (needs_proposal kind && not (proposed_in s (text "invocation_id" p)))
      illegal_event_stream
  ok record_id

-- An H1 record
unfoldable pub apply_record : EventKind → AgentRunState → ℕ → Payload → Step
unfolding check_record apply_kind
apply_record kind s sequence p = do
  record_id ← check_record kind s p
  t ← apply_kind kind s (text "invocation_id" p) p
  ok (record t {
    h1_records = Dict.put String_discrete record_id p t.h1_records;
    version = sequence;
  })

module _ (has_attribute : String → Bool) where
  -- The chain of `elif` on the kind of an event, for a run that has been created.
  unfoldable pub apply_event : EventKind → AgentRunState → ℕ → Payload → Step
  unfolding apply_transition apply_proposal apply_tool_transition apply_budget apply_record
  apply_event run_created s sequence p = err illegal_event_stream
  apply_event run_transition s sequence p = apply_transition s sequence p
  apply_event tool_proposed s sequence p = apply_proposal s sequence p
  apply_event tool_transition s sequence p = apply_tool_transition s sequence p
  apply_event budget_consumed s sequence p = apply_budget has_attribute s sequence p
  apply_event kind s sequence p = apply_record kind s sequence p

  abbrev is_number : Option ℕ → ℕ → Bool
  is_number none n = false
  is_number (some m) n = m == n

  -- The loop of `replay` from the second event on; `expected` is the next sequence number.
  unfoldable pub replay_from : AgentRunState → ℕ → List AgentEvent → Step
  unfolding apply_event
  replay_from s expected [] = ok s
  replay_from s expected (e ∷ es) = do
    raise_if (not (is_number e.sequence expected)) illegal_event_stream
    t ← apply_event e.event_kind s expected e.payload
    replay_from t (suc expected) es

  abbrev is_creation : EventKind → Bool
  is_creation run_created = true
  is_creation _ = false

  -- `replay`
  unfoldable pub replay : String → List AgentEvent → Step
  unfolding create replay_from
  replay run_id [] = do
    raise_if (not (valid_identifier run_id)) invalid_identifier
    err illegal_event_stream
  replay run_id (e ∷ es) = do
    raise_if (not (valid_identifier run_id)) invalid_identifier
    raise_if (not (is_creation e.event_kind)) illegal_event_stream
    raise_if (not (is_number e.sequence 1)) illegal_event_stream
    s ← create run_id 1 e.payload
    replay_from s 2 es

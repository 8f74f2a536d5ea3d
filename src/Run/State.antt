-- ===== src/Run/State.antt =====
-- The state of a run: `BudgetState` and `AgentRunState` of agent_runtime/reducer.py, and `AgentEvent`
-- of agent_runtime/events.py as far as the reducer reads it.
use llama.Prelude.{ℕ, Bool, List, Option, none, some, String, String_discrete, is_yes, any, ite}
use llama.Prelude.Dict.{Dict}
use llama.Run.Payload.{Value, Payload}
use llama.Run.Lifecycle.{RunLifecycle, ToolLifecycle}

-- The integer fields of `BudgetState`.
pub data Category : Type 0 where
  turns inference_tokens inference_ms tool_calls tool_attempts : Category
  resolver_calls retries result_bytes context_bytes : Category

pub Category-discrete : Discrete Category
Category-discrete = hlevel

pub record BudgetState : Type 0 where
  pub remaining : Category → ℕ
  pub deadline_utc : Value

-- `setattr(budgets, category, n)`
unfoldable pub set_budget : Category → ℕ → BudgetState → BudgetState
unfolding Category-discrete
set_budget k n b = record b { remaining = λ j. ite (Category-discrete k j) n (b.remaining j) }

abbrev named : String → String → Category → Option Category → Option Category
named s name k rest = ite (String_discrete s name) (some k) rest

-- The integer field of a name.
unfoldable pub category_of : String → Option Category
category_of s = named s "turns" turns (
    named s "inference_tokens" inference_tokens (
      named s "inference_ms" inference_ms (
        named s "tool_calls" tool_calls (
          named s "tool_attempts" tool_attempts (
            named s "resolver_calls" resolver_calls (
              named s "retries" retries (
                named s "result_bytes" result_bytes
                  (named s "context_bytes" context_bytes none))))))))

-- The kinds of `KNOWN_EVENT_KINDS`.
pub data EventKind : Type 0 where
  run_created run_transition tool_proposed tool_transition budget_consumed : EventKind
  decision_recorded inference_completed arguments_compiled authorization_recorded : EventKind
  dispatch_started result_recorded flow_decided acceptance_decided : EventKind

pub record AgentEvent : Type 0 where
  pub event_id : String
  pub event_kind : EventKind
  pub payload : Payload
  pub occurred_at_utc : String
  pub event_version : ℕ
  pub sequence : Option ℕ

pub record AgentRunState : Type 0 where
  pub run_id : String
  pub lifecycle : RunLifecycle
  pub version : ℕ
  pub budgets : BudgetState
  pub tool_invocations : Dict String ToolLifecycle
  pub action_claims : List String
  pub budget_claims : List String
  pub catalog_digests : Dict String String
  pub h1_records : Dict String Payload
  pub dispatched_invocations : List String
  pub terminal_results : List String
  pub acceptance_verdict : Option Bool

-- `x in s`
unfoldable pub member : String → List String → Bool
member x s = any (λ y. is_yes (String_discrete y x)) s

-- `IntegrityViolation` with either of its codes, the `ContractError` of an identifier, and the
-- `TypeError` that a comparison raises.
pub data ReplayError : Type 0 where
  illegal_event_stream invalid_event_payload invalid_identifier type_error : ReplayError

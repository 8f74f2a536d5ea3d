-- ===== src/Run/Gates.antt =====
-- The deterministic gates around a tool call: agent_runtime/permissions.py, agent_runtime/acceptance.py
-- and agent_runtime/flow.py.
use llama.Prelude.{
  ℕ, leb, Bool, true, false, not, List, Option, none, some, String, String_discrete, is_yes,
  if◌then◌else◌, ◌≡◌, arith,
}
use llama.Prelude.Dict
use llama.Prelude.Dict.{Dict}
use llama.Run.Lifecycle.{
  RunLifecycle, ToolLifecycle, observing, deciding, paused, verifying, synthesizing, is_terminal,
  run_transition,
}
use llama.Run.State.{member}

pub data EffectClass : Type 0 where
  read_only idempotent_mutation non_idempotent_mutation : EffectClass

pub data AuthorizationDecision : Type 0 where
  allow deny require_approval : AuthorizationDecision

-- What the gate reads of a `CompiledToolCall`.
pub record CompiledToolCall : Type 0 where
  pub tool_id : String
  pub effect_class : EffectClass

-- `PermissionContext`, without the role and the tenant, which the gate does not read.
pub record PermissionContext : Type 0 where
  pub allowed_tools : List String
  pub catalog_digest : String
  pub expected_catalog_digest : String
  pub deadline_utc : Option String
  pub tainted : Bool

abbrev is_read_only : EffectClass → Bool
is_read_only read_only = true
is_read_only _ = false

-- `parse` is `datetime.fromisoformat` of a text with its `Z` replaced, as ticks of UTC; `none` where it, or
-- the comparison with a time that has a zone, raises.
module _ (parse : String → Option ℕ) where
  -- Whether the deadline, if there is one, has passed
  unfoldable pub is_late : Option String → ℕ → Option Bool
  is_late none now = some false
  is_late (some deadline_utc) now = elim (parse deadline_utc) [
    | none ↦ none
    | some deadline ↦ some (leb deadline now)
  ]

  -- The tests of `authorize` after the deadline's
  unfoldable pub authorize_in_time : CompiledToolCall → PermissionContext → AuthorizationDecision
  authorize_in_time call context =
      if context.tainted
      then deny
      else if not (member call.tool_id context.allowed_tools)
      then deny
      else if not (is_read_only call.effect_class)
      then require_approval
      else allow

  -- `DeterministicPermissionGate.authorize`, without the reason; `none` where the deadline's text raises.
  unfoldable pub authorize : CompiledToolCall → PermissionContext → ℕ → Option AuthorizationDecision
  unfolding is_late authorize_in_time
  authorize call context now =
      if not (is_yes (String_discrete context.catalog_digest context.expected_catalog_digest))
      then some deny
      else elim (is_late context.deadline_utc now) [
        | none ↦ none
        | some late ↦ some (if late then deny else authorize_in_time call context)
      ]

-- What the gates read of a `ToolResultEnvelope`.
pub record ToolResultEnvelope : Type 0 where
  pub tool_id : String
  pub status : ToolLifecycle
  pub data_hash : Option String

abbrev matches : Option String → String → Bool
matches none value = true
matches (some wanted) value = is_yes (String_discrete wanted value)

abbrev hash_accepted : Option String → String → Dict String String → Option String → Bool
hash_accepted none tool_id criteria required = false
hash_accepted (some hash) tool_id criteria required =
    if not (matches required hash)
    then false
    else matches (Dict.get String_discrete "tool_id" criteria) tool_id

abbrev is_succeeded : ToolLifecycle → Bool
is_succeeded ToolLifecycle.succeeded = true
is_succeeded _ = false

-- `DeterministicAcceptanceGate.evaluate`, without the reason
unfoldable pub evaluate : ToolResultEnvelope → Dict String String → Bool
evaluate result criteria =
    if not (is_succeeded result.status)
    then false
    else hash_accepted result.data_hash result.tool_id criteria
        (Dict.get String_discrete "data_hash" criteria)

pub data FlowPolicy : Type 0 where
  direct_return_safe synthesize_no_tools replan_with_observation verify_then_replan : FlowPolicy
  pause_for_approval persist_and_stop handoff : FlowPolicy

abbrev decided : Bool → FlowPolicy × RunLifecycle
decided true = (verify_then_replan, verifying)
decided false = (synthesize_no_tools, synthesizing)

-- `CodeOwnedFlowController.decide`
unfoldable pub decide : ToolResultEnvelope → Bool → FlowPolicy × RunLifecycle
decide result verify = elim result.status [
  | ToolLifecycle.unknown_outcome ↦ (handoff, paused)
  | ToolLifecycle.failed ↦ (replan_with_observation, deciding)
  | _ ↦ decided verify
]

-- What the flow controller decides after an observation is a transition that the reducer accepts from
-- `observing`, and it never ends the run.
pub decide-run_transition :
    (result : ToolResultEnvelope) (verify : Bool)
    → (run_transition observing (decide result verify).1 ≡ true)
      × (is_terminal (decide result verify).1 ≡ false)
unfolding decide run_transition
decide-run_transition result verify = (ground arith, ground arith)

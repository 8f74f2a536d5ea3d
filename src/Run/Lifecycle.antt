-- ===== src/Run/Lifecycle.antt =====
-- The lifecycles of runs and tool invocations and their transition tables: agent_runtime/contracts.py,
-- `RUN_TERMINAL`, `RUN_TRANSITIONS` and `TOOL_TRANSITIONS` of agent_runtime/reducer.py.
use llama.Prelude.{Bool, true, false, Option, none, some, String, String_discrete, ite}

pub data RunLifecycle : Type 0 where
  ready deciding waiting_tool observing synthesizing verifying succeeded blocked : RunLifecycle
  failed waiting_user paused cancelled timed_out budget_exhausted : RunLifecycle

pub data ToolLifecycle : Type 0 where
  proposed args_ready needs_resolution authorized waiting_approval denied : ToolLifecycle
  dispatched succeeded partial failed unknown_outcome : ToolLifecycle

-- `RUN_TERMINAL`
abbrev pub is_terminal : RunLifecycle → Bool
is_terminal RunLifecycle.succeeded = true
is_terminal blocked = true
is_terminal RunLifecycle.failed = true
is_terminal cancelled = true
is_terminal timed_out = true
is_terminal budget_exhausted = true
is_terminal _ = false

-- The states that most rows of `RUN_TRANSITIONS` hold.
abbrev stops : RunLifecycle → Bool
stops RunLifecycle.failed = true
stops cancelled = true
stops timed_out = true
stops budget_exhausted = true
stops _ = false

abbrev halts : RunLifecycle → Bool
halts cancelled = true
halts timed_out = true
halts _ = false

-- `target in RUN_TRANSITIONS.get(current, set())`
unfoldable pub run_transition : RunLifecycle → RunLifecycle → Bool
run_transition ready deciding = true
run_transition ready t = halts t
run_transition deciding waiting_tool = true
run_transition deciding waiting_user = true
run_transition deciding paused = true
run_transition deciding blocked = true
run_transition deciding t = stops t
run_transition waiting_tool observing = true
run_transition waiting_tool paused = true
run_transition waiting_tool t = stops t
run_transition observing deciding = true
run_transition observing synthesizing = true
run_transition observing verifying = true
run_transition observing paused = true
run_transition observing blocked = true
run_transition observing t = stops t
run_transition synthesizing deciding = true
run_transition synthesizing RunLifecycle.succeeded = true
run_transition synthesizing blocked = true
run_transition synthesizing t = stops t
run_transition verifying deciding = true
run_transition verifying RunLifecycle.succeeded = true
run_transition verifying blocked = true
run_transition verifying t = stops t
run_transition waiting_user deciding = true
run_transition waiting_user t = halts t
run_transition paused deciding = true
run_transition paused t = halts t
run_transition _ t = false

-- `target in TOOL_TRANSITIONS.get(current, set())`
unfoldable pub tool_transition : ToolLifecycle → ToolLifecycle → Bool
tool_transition proposed args_ready = true
tool_transition proposed needs_resolution = true
tool_transition needs_resolution args_ready = true
tool_transition needs_resolution ToolLifecycle.failed = true
tool_transition args_ready authorized = true
tool_transition args_ready waiting_approval = true
tool_transition args_ready denied = true
tool_transition waiting_approval authorized = true
tool_transition waiting_approval denied = true
tool_transition authorized dispatched = true
tool_transition dispatched ToolLifecycle.succeeded = true
tool_transition dispatched partial = true
tool_transition dispatched ToolLifecycle.failed = true
tool_transition dispatched unknown_outcome = true
tool_transition _ _ = false

abbrev named {ℓ} : {A : Type ℓ} → String → String → A → Option A → Option A
named s name a rest = ite (String_discrete s name) (some a) rest

-- `AgentRunLifecycle(value)`
unfoldable pub run_lifecycle : String → Option RunLifecycle
run_lifecycle s = named s "ready" ready (
    named s "deciding" deciding (
      named s "waiting_tool" waiting_tool (
        named s "observing" observing (
          named s "synthesizing" synthesizing (
            named s "verifying" verifying (
              named s "succeeded" RunLifecycle.succeeded (
                named s "blocked" blocked (
                  named s "failed" RunLifecycle.failed (
                    named s "waiting_user" waiting_user (
                      named s "paused" paused (
                        named s "cancelled" cancelled (
                          named s "timed_out" timed_out
                            (named s "budget_exhausted" budget_exhausted none)))))))))))))

-- `ToolInvocationLifecycle(value)`
unfoldable pub tool_lifecycle : String → Option ToolLifecycle
tool_lifecycle s = named s "proposed" proposed (
    named s "args_ready" args_ready (
      named s "needs_resolution" needs_resolution (
        named s "authorized" authorized (
          named s "waiting_approval" waiting_approval (
            named s "denied" denied (
              named s "dispatched" dispatched (
                named s "succeeded" ToolLifecycle.succeeded (
                  named s "partial" partial (
                    named s "failed" ToolLifecycle.failed
                      (named s "unknown_outcome" unknown_outcome none))))))))))

-- ===== src/Tests/Gates.antt =====
-- A read-only call that is allowed, and a failed tool.
use llama.Prelude.{
  ℕ, Option, some, String, true, false, none, [], ◌∷◌, ◌≡◌, refl, String_discrete, any,
}
use llama.Run.Lifecycle.{ToolLifecycle, observing, is_terminal, run_transition}
use llama.Run.State.{member}
use llama.Run.Gates.{
  CompiledToolCall, PermissionContext, ToolResultEnvelope, read_only, allow, authorize, deny,
  is_late, authorize_in_time, decide, decide-run_transition,
}

abbrev call : CompiledToolCall
call = record { tool_id = "search"; effect_class = read_only }

abbrev context : PermissionContext
context = record {
  allowed_tools = "search" ∷ [];
  catalog_digest = "d";
  expected_catalog_digest = "d";
  deadline_utc = some "9";
  tainted = false;
}

-- Deadlines are the text "9" or no time at all.
abbrev parse : String → Option ℕ
parse s = elim (String_discrete s "9") [ yes p ↦ some 9 | no p ↦ none ]

allowed : authorize parse call context 8 ≡ some allow
unfolding authorize is_late authorize_in_time member any String_discrete
allowed = refl

late : authorize parse call context 9 ≡ some deny
unfolding authorize is_late authorize_in_time member any String_discrete
late = refl

unreadable : authorize parse call (record context { deadline_utc = some "soon" }) 8 ≡ none
unfolding authorize is_late authorize_in_time member any String_discrete
unreadable = refl

abbrev broken : ToolResultEnvelope
broken = record { tool_id = "search"; status = ToolLifecycle.failed; data_hash = none }

decide-run_transition_example :
    (run_transition observing (decide broken true).1 ≡ true)
    × (is_terminal (decide broken true).1 ≡ false)
decide-run_transition_example = decide-run_transition broken true

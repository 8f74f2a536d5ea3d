-- ===== src/Tests/Admission.antt =====
-- Admission of two requests of one agent.
use llama.Prelude.{
  true, false, ◌≡◌, ◌≤◌, ok, some, none, [], ◌∷◌, refl, String, String_discrete, select, sum_by,
}
use llama.Prelude.Dict
use llama.Prelude.Int.{pos}
use llama.Governance.Policy.{SchedulingMetadata, defaults, class_policy, find_class}
use llama.Governance.Admission.{
  AdmissionLimits, Controller, check_limits, admit, pending, active, can_activate, fits, activate,
  activate_item, release,
}
use llama.Governance.Admission.Scopes.{
  global, sequence_limit, sequence_share, kv_limit, kv_share, pending_limit, pending_share,
}
use llama.Governance.Admission.Bounds.{booked}
use llama.Governance.Admission.Quotas.{Calls, none_yet, next, admits, activates, quotas_hold}
use llama.Governance.Admission.Lifecycle.{admit-can_activate, release-admit}

abbrev limits : AdmissionLimits
limits = record {
  max_pending = 8;
  max_sequences = 2;
  kv_token_budget = 100;
  max_pending_per_workflow = 4;
  max_pending_per_agent = 2;
  max_sequences_per_workflow = 2;
  max_sequences_per_agent = 1;
  max_kv_tokens_per_workflow = 80;
  max_kv_tokens_per_agent = 60;
  load_shed_pending_threshold = 6;
  load_shed_min_priority = pos 4;
}

abbrev request : String → SchedulingMetadata
request id = record {
  request_id = id;
  workflow_id = "w";
  agent_id = "a";
  service_class = "interactive";
  weight = 1;
  deadline_monotonic = none;
  cache_scope = none;
  session_cache = none;
}

abbrev empty : Controller
empty = record { limits = limits; policy = defaults 1000; reservations = [] }

abbrev waiting : Controller
waiting = record empty {
  reservations =
      ("r", record { scheduling = request "r"; estimated_tokens = 40; reserved_tokens = none })
      ∷ [];
}

abbrev started : Controller
started = record empty {
  reservations =
      ("r", record { scheduling = request "r"; estimated_tokens = 40; reserved_tokens = some 40 })
      ∷ [];
}

admitted : admit empty (request "r") 40 ≡ ok waiting
unfolding admit pending select class_policy find_class defaults Dict.get Dict.put String_discrete
admitted = refl

may_start : can_activate waiting "r" ≡ true
unfolding can_activate active fits select sum_by Dict.get String_discrete
may_start = refl

activated : activate waiting "r" none ≡ ok started
unfolding activate activate_item Dict.get Dict.put String_discrete
activated = refl

two-Calls : Calls empty started
two-Calls =
    next (next none_yet (admits (request "r") 40 admitted)) (activates "r" none may_start activated)

quotas_hold_example :
    (booked (sequence_share global) started ≤ sequence_limit started.limits global)
    × (booked (kv_share global) started ≤ kv_limit started.limits global)
    × (booked (pending_share global) started ≤ pending_limit started.limits global)
quotas_hold_example = quotas_hold refl two-Calls global

valid_limits : check_limits limits ≡ ok tt
unfolding check_limits
valid_limits = refl

none_active : active empty ≡ []
unfolding active select
none_active = refl

admit-can_activate_example :
    (can_activate waiting "r" ≡ true) × ((e : Controller) × (activate waiting "r" none ≡ ok e))
admit-can_activate_example =
    admit-can_activate empty waiting (request "r") 40 valid_limits none_active admitted

release-admit_example : (release waiting "r" ≡ (empty, true)) × (release empty "r" ≡ (empty, false))
release-admit_example = release-admit empty waiting (request "r") 40 admitted

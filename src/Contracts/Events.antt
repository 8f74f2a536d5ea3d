-- ===== src/Contracts/Events.antt =====
-- Scheduler events and the scheduling metadata of a request: inference_runtime/contracts.py.
use llama.Prelude.{
  ℕ, Bool, true, false, not, ◌&&◌, Option, none, some, String, String_discrete, is_yes, ltb, ok,
  err, ◌>>◌, raise_if,
}
use llama.Cache.Scope.{CacheScope, CacheVisibility, private}
use llama.Contracts.Checks.{Check, bounded_text, positive_int}
use llama.Contracts.Sequences.{SequenceHandle, SessionCacheControl}
use llama.Governance.Policy.{SchedulingMetadata}

pub data SchedulerEventKind : Type 0 where
  admitted sequence_opened prefill_completed decode_completed : SchedulerEventKind
  sequence_released request_completed request_failed : SchedulerEventKind

pub record SchedulerEvent : Type 0 where
  pub kind : SchedulerEventKind
  pub request_id : String
  pub at_monotonic : ℕ
  pub handle : Option SequenceHandle
  pub tokens : Option ℕ
  pub error_code : Option String

-- `kind in _SEQUENCE_EVENT_KINDS`
abbrev pub of_sequence : SchedulerEventKind → Bool
of_sequence sequence_opened = true
of_sequence prefill_completed = true
of_sequence decode_completed = true
of_sequence sequence_released = true
of_sequence _ = false

-- `kind in _TOKEN_EVENT_KINDS`
abbrev pub of_tokens : SchedulerEventKind → Bool
of_tokens prefill_completed = true
of_tokens decode_completed = true
of_tokens _ = false

abbrev pub of_failure : SchedulerEventKind → Bool
of_failure request_failed = true
of_failure _ = false

abbrev is_some {ℓ} : {A : Type ℓ} → Option A → Bool
is_some none = false
is_some (some n) = true

abbrev check_code : Bool → Option String → Check
check_code true none = err "error_code"
check_code true (some code) = bounded_text code "error_code" 128
check_code false code = raise_if (is_some code) "error_code"

-- `SchedulerEvent.__post_init__`
unfoldable pub check_event : SchedulerEvent → Check
unfolding bounded_text
check_event e = do
  bounded_text e.request_id "request_id" 256
  raise_if (of_sequence e.kind && not (is_some e.handle)) "handle"
  raise_if (of_tokens e.kind && not (is_some e.tokens)) "tokens"
  raise_if (not (of_tokens e.kind) && is_some e.tokens) "tokens"
  check_code (of_failure e.kind) e.error_code

abbrev check_scope : SchedulingMetadata → Option CacheScope → Check
check_scope m none = ok tt
check_scope m (some scope) = do
  raise_if (not (is_yes (String_discrete scope.workflow_id m.workflow_id))) "cache_scope"
  raise_if (not (is_yes (String_discrete scope.agent_id m.agent_id))) "cache_scope"

abbrev is_private : CacheVisibility → Bool
is_private private = true
is_private _ = false

abbrev check_session_scope : Option SessionCacheControl → Option CacheScope → Check
check_session_scope none scope = ok tt
check_session_scope (some session) none = err "session_cache"
check_session_scope (some session) (some scope) =
    raise_if (not (is_private scope.visibility)) "session_cache"

-- `SchedulingMetadata.__post_init__`
unfoldable pub check_scheduling : SchedulingMetadata → Check
unfolding bounded_text positive_int
check_scheduling m = do
  bounded_text m.request_id "request_id" 256
  bounded_text m.workflow_id "workflow_id" 256
  bounded_text m.agent_id "agent_id" 256
  bounded_text m.service_class "service_class" 64
  positive_int m.weight "weight"
  raise_if (ltb 1000000 m.weight) "weight"
  check_scope m m.cache_scope
  check_session_scope m.session_cache m.cache_scope

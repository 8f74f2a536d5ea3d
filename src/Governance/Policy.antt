-- ===== src/Governance/Policy.antt =====
-- The scheduling metadata of a request, the service classes and the scheduling policy:
-- `SchedulingMetadata` of inference_runtime/contracts.py, `ServiceClassPolicy` and
-- `RuntimeSchedulingPolicy` of inference_runtime/governance.py. A time is a whole number of ticks.
use Prim.Native.String.{len}
use llama.Prelude.{
  ℕ, ◌+◌, Bool, true, false, ◌||◌, List, [], ◌∷◌, Option, String, String_discrete, is_yes, ltb,
  ◌==◌, Result, ok, err, ◌>>◌, raise_if, any, length, select, ite,
}
use llama.Cache.Scope.{CacheScope}
use llama.Contracts.Sequences.{SessionCacheControl}
use llama.Prelude.Int.{ℤ, pos, negsuc}

pub record SchedulingMetadata : Type 0 where
  pub request_id : String
  pub workflow_id : String
  pub agent_id : String
  pub service_class : String
  pub weight : ℕ
  pub deadline_monotonic : Option ℕ
  pub cache_scope : Option CacheScope
  pub session_cache : Option SessionCacheControl

pub record ServiceClassPolicy : Type 0 where
  pub name : String
  pub priority : ℤ
  pub emergency : Bool

pub record RuntimeSchedulingPolicy : Type 0 where
  pub service_classes : List ServiceClassPolicy
  pub aging_interval_seconds : ℕ
  pub deadline_urgency_window_seconds : ℕ
  pub deadline_priority_boost : ℕ
  pub emergency_burst_cap : ℕ

-- The codes of `AdmissionRejection`.
pub data Code : Type 0 where
  unknown_service_class context_overflow workflow_kv_quota agent_kv_quota duplicate_request : Code
  queue_full overloaded workflow_queue_quota agent_queue_quota : Code
  unknown_request state_conflict reservation_underestimated : Code

-- A `ValueError`, or an `AdmissionRejection` with its code and whether it may be retried.
pub data Error : Type 0 where
  value_error : Error
  rejection : Code → Bool → Error

abbrev magnitude : ℤ → ℕ
magnitude (pos n) = n
magnitude (negsuc n) = n + 1

-- `ServiceClassPolicy.__post_init__`
unfoldable pub check_class : ServiceClassPolicy → Result Error (Unit {0})
check_class p = do
  raise_if (len p.name == 0 || ltb 64 (len p.name)) value_error
  raise_if (ltb 1000000 (magnitude p.priority)) value_error

-- The loop of `RuntimeSchedulingPolicy.__post_init__` over the classes, with the names seen so far.
unfoldable pub check_names : List String → List ServiceClassPolicy → Result Error (Unit {0})
check_names names [] = ok tt
check_names names (item ∷ rest) = do
  raise_if (any (λ n. is_yes (String_discrete n item.name)) names) value_error
  check_names (item.name ∷ names) rest

-- `RuntimeSchedulingPolicy.__post_init__`
unfoldable pub check_policy : RuntimeSchedulingPolicy → Result Error (Unit {0})
unfolding check_names
check_policy p = do
  raise_if (length p.service_classes == 0) value_error
  check_names [] p.service_classes
  raise_if (ltb 1 (length (select (λ c. c.emergency) p.service_classes))) value_error
  raise_if (p.aging_interval_seconds == 0) value_error
  raise_if (p.deadline_urgency_window_seconds == 0) value_error
  raise_if (p.emergency_burst_cap == 0) value_error

-- The loop of `class_policy`
unfoldable pub find_class : List ServiceClassPolicy → String → Result Error ServiceClassPolicy
find_class [] name = err (rejection unknown_service_class false)
find_class (item ∷ rest) name =
    ite (String_discrete item.name name) (ok item) (find_class rest name)

-- `RuntimeSchedulingPolicy.class_policy`
unfoldable pub class_policy : RuntimeSchedulingPolicy → String → Result Error ServiceClassPolicy
unfolding find_class
class_policy p name = find_class p.service_classes name

-- `RuntimeSchedulingPolicy.defaults`, at `second` ticks a second.
unfoldable pub defaults : ℕ → RuntimeSchedulingPolicy
defaults second = record {
  service_classes =
      record { name = "emergency"; priority = pos 16; emergency = true }
      ∷ record { name = "interactive-critical"; priority = pos 8; emergency = false }
      ∷ record { name = "interactive"; priority = pos 4; emergency = false }
      ∷ record { name = "throughput"; priority = pos 2; emergency = false }
      ∷ record { name = "background"; priority = pos 0; emergency = false }
      ∷ record { name = "batch"; priority = negsuc 1; emergency = false }
      ∷ [];
  aging_interval_seconds = second;
  deadline_urgency_window_seconds = second + second;
  deadline_priority_boost = 8;
  emergency_burst_cap = 4;
}

-- ===== src/Governance/Admission.antt =====
-- The ledger of queued and active requests: `ResourceAdmissionController` of
-- inference_runtime/governance.py. Each method runs under the controller's lock, so it is a function
-- from one ledger to the next.

pub mod Scopes
pub mod Bounds
pub mod Quotas
pub mod Lifecycle
use llama.Prelude.{
  ℕ, ◌+◌, Bool, true, false, ◌&&◌, not, List, Option, none, some, String, String_discrete, is_yes,
  ltb, leb, ◌==◌, if◌then◌else◌, Result, ok, err, ◌>>=◌, ◌>>◌, raise_if, select, sum_by, length,
}
use llama.Prelude.Dict
use llama.Prelude.Dict.{Dict, values}
use llama.Prelude.Int.{ℤ, ltb_ℤ}
use llama.Governance.Policy.{
  SchedulingMetadata, RuntimeSchedulingPolicy, class_policy, Error, value_error, rejection,
  context_overflow, workflow_kv_quota, agent_kv_quota, duplicate_request, queue_full, overloaded,
  workflow_queue_quota, agent_queue_quota, unknown_request, state_conflict,
  reservation_underestimated,
}

pub record AdmissionLimits : Type 0 where
  pub max_pending : ℕ
  pub max_sequences : ℕ
  pub kv_token_budget : ℕ
  pub max_pending_per_workflow : ℕ
  pub max_pending_per_agent : ℕ
  pub max_sequences_per_workflow : ℕ
  pub max_sequences_per_agent : ℕ
  pub max_kv_tokens_per_workflow : ℕ
  pub max_kv_tokens_per_agent : ℕ
  pub load_shed_pending_threshold : ℕ
  pub load_shed_min_priority : ℤ

-- `AdmissionLimits.__post_init__`
unfoldable pub check_limits : AdmissionLimits → Result Error (Unit {0})
check_limits l = do
  raise_if (l.max_pending == 0) value_error
  raise_if (l.max_sequences == 0) value_error
  raise_if (l.kv_token_budget == 0) value_error
  raise_if (l.max_pending_per_workflow == 0) value_error
  raise_if (l.max_pending_per_agent == 0) value_error
  raise_if (l.max_sequences_per_workflow == 0) value_error
  raise_if (l.max_sequences_per_agent == 0) value_error
  raise_if (l.max_kv_tokens_per_workflow == 0) value_error
  raise_if (l.max_kv_tokens_per_agent == 0) value_error
  raise_if (l.load_shed_pending_threshold == 0) value_error
  raise_if (ltb l.max_sequences l.max_sequences_per_workflow) value_error
  raise_if (ltb l.max_sequences_per_workflow l.max_sequences_per_agent) value_error
  raise_if (ltb l.kv_token_budget l.max_kv_tokens_per_workflow) value_error
  raise_if (ltb l.max_kv_tokens_per_workflow l.max_kv_tokens_per_agent) value_error
  raise_if (ltb l.max_pending l.load_shed_pending_threshold) value_error

-- `_Reservation`: active when tokens are reserved, pending otherwise.
pub record Reservation : Type 0 where
  pub scheduling : SchedulingMetadata
  pub estimated_tokens : ℕ
  pub reserved_tokens : Option ℕ

pub record Controller : Type 0 where
  pub limits : AdmissionLimits
  pub policy : RuntimeSchedulingPolicy
  pub reservations : Dict String Reservation

-- `item.reserved_tokens is not None`
abbrev pub is_active : Reservation → Bool
is_active r = elim r.reserved_tokens [ none ↦ false | some n ↦ true ]

-- `item.reserved_tokens or 0`
abbrev pub tokens : Reservation → ℕ
tokens r = elim r.reserved_tokens [ none ↦ 0 | some n ↦ n ]

-- `_pending_locked`
unfoldable pub pending : Controller → List Reservation
pending c = select (λ r. not (is_active r)) (values c.reservations)

-- `_active_locked`
unfoldable pub active : Controller → List Reservation
active c = select (λ r. is_active r) (values c.reservations)

abbrev pub same_workflow : SchedulingMetadata → Reservation → Bool
same_workflow s r = is_yes (String_discrete r.scheduling.workflow_id s.workflow_id)

abbrev pub same_agent : SchedulingMetadata → Reservation → Bool
same_agent s r = is_yes (String_discrete r.scheduling.agent_id s.agent_id)

abbrev is_some {ℓ} : {A : Type ℓ} → Option A → Bool
is_some none = false
is_some (some a) = true

-- `ResourceAdmissionController.admit`
unfoldable pub admit : Controller → SchedulingMetadata → ℕ → Result Error Controller
unfolding pending
admit c s estimated_tokens = do
  raise_if (estimated_tokens == 0) value_error
  raise_if (ltb l.kv_token_budget estimated_tokens) (rejection context_overflow false)
  raise_if (ltb l.max_kv_tokens_per_workflow estimated_tokens) (rejection workflow_kv_quota false)
  raise_if (ltb l.max_kv_tokens_per_agent estimated_tokens) (rejection agent_kv_quota false)
  policy ← class_policy c.policy s.service_class
  raise_if (is_some (Dict.get String_discrete s.request_id c.reservations))
      (rejection duplicate_request false)
  let waiting = pending c
  raise_if (leb l.max_pending (length waiting)) (rejection queue_full true)
  raise_if
      (leb l.load_shed_pending_threshold (length waiting)
        && ltb_ℤ policy.priority l.load_shed_min_priority
        && not policy.emergency)
      (rejection overloaded true)
  raise_if (leb l.max_pending_per_workflow (length (select (same_workflow s) waiting)))
      (rejection workflow_queue_quota true)
  raise_if
      (leb l.max_pending_per_agent
        (length (select (λ r. same_workflow s r && same_agent s r) waiting)))
      (rejection agent_queue_quota true)
  ok (record c {
    reservations =
        Dict.put String_discrete s.request_id
          (record { scheduling = s; estimated_tokens = estimated_tokens; reserved_tokens = none })
          c.reservations;
  })
  where
    open c use {limits as l}

-- The tests of `can_activate` on the reservations that are active, for a pending item.
unfoldable pub fits : AdmissionLimits → List Reservation → Reservation → Bool
fits l running item =
    let workflow_active = select (same_workflow item.scheduling) running in
    let agent_active = select (same_agent item.scheduling) workflow_active in
    if leb l.max_sequences (length running)
    then false
    else if leb l.max_sequences_per_workflow (length workflow_active)
    then false
    else if leb l.max_sequences_per_agent (length agent_active)
    then false
    else leb (sum_by tokens running + item.estimated_tokens) l.kv_token_budget
      && leb (sum_by tokens workflow_active + item.estimated_tokens) l.max_kv_tokens_per_workflow
      && leb (sum_by tokens agent_active + item.estimated_tokens) l.max_kv_tokens_per_agent

-- `ResourceAdmissionController.can_activate`
unfoldable pub can_activate : Controller → String → Bool
unfolding active fits
can_activate c request_id = elim (Dict.get String_discrete request_id c.reservations) [
  | none ↦ false
  | some item ↦ if is_active item then false else fits c.limits (active c) item
]

abbrev or_else : ℕ → Option ℕ → ℕ
or_else n none = n
or_else n (some m) = m

-- The body of `activate` for a registered item. `reserved_tokens` is what the backend reports.
unfoldable pub activate_item :
    Controller → String → Reservation → Option ℕ → Result Error Controller
activate_item c request_id item reserved_tokens = do
  raise_if (is_active item) (rejection state_conflict false)
  let actual = or_else item.estimated_tokens reserved_tokens
  raise_if (actual == 0) value_error
  raise_if (ltb item.estimated_tokens actual) (rejection reservation_underestimated false)
  ok (record c {
    reservations =
        Dict.put String_discrete request_id (record item { reserved_tokens = some actual })
          c.reservations;
  })

-- `ResourceAdmissionController.activate`
unfoldable pub activate : Controller → String → Option ℕ → Result Error Controller
unfolding activate_item
activate c request_id reserved_tokens = elim (Dict.get String_discrete request_id c.reservations) [
  | none ↦ err (rejection unknown_request false)
  | some item ↦ activate_item c request_id item reserved_tokens
]

-- `ResourceAdmissionController.release`
unfoldable pub release : Controller → String → Controller × Bool
release c request_id = (
  record c { reservations = Dict.remove String_discrete request_id c.reservations },
  is_some (Dict.get String_discrete request_id c.reservations),
)

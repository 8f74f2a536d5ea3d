-- ===== src/Governance/Admission/Bounds.antt =====
-- The quotas of every scope hold after any sequence of calls.
use llama.Prelude.{
  ℕ, ◌+◌, ◌≤◌, ◌<◌, ◌≡◌, inl, inr, true, false, ◌&&◌, Option, none, some, String, String_discrete,
  select, sum_by, length, arith, ok, Option-cases,
}
use llama.Prelude.Dict
use llama.Prelude.Dict.{
  values, Distinct, get-put, get-remove, put-Distinct, remove-Distinct, sum_by-put_new,
  sum_by-put_old, sum_by-remove-le,
}
use llama.Governance.Policy.{SchedulingMetadata}
use llama.Governance.Admission.{
  Reservation, Controller, is_active, same_workflow, same_agent, fits, pending, active, admit,
  activate, activate_item,
}
use llama.Governance.Admission.Scopes.{
  Scope, in_scope, sequence_limit, kv_limit, pending_limit, sequence_share, kv_share, pending_share,
  running_global, running_workflow, running_agent, tokens_global, tokens_workflow, tokens_agent,
  waiting_global, waiting_workflow, waiting_agent, Scope-cases,
}

abbrev pub booked : (Reservation → ℕ) → Controller → ℕ
booked f c = sum_by f (values c.reservations)

-- What `fits` checked, in each scope of the item.
abbrev pub Room : Controller → Reservation → Scope → Type 0
Room c item sc =
    (booked (sequence_share sc) c < sequence_limit c.limits sc)
    × (booked (kv_share sc) c + item.estimated_tokens ≤ kv_limit c.limits sc)

pub fits-Room :
    (c : Controller) (item : Reservation)
    → fits c.limits (active c) item ≡ true
    → (sc : Scope) → in_scope sc item.scheduling ≡ true
    → Room c item sc
unfolding fits active
fits-Room c item h =
    let rs = values c.reservations in
    let s = item.scheduling in
    Scope-cases (Room c item) s (ground (arith, running_global rs s, tokens_global rs s))
      (ground (arith, running_workflow rs s, tokens_workflow rs s))
      (ground (arith, running_agent rs s, tokens_agent rs s))

abbrev pub new_reservation : SchedulingMetadata → ℕ → Reservation
new_reservation s n = record { scheduling = s; estimated_tokens = n; reserved_tokens = none }

-- What a request that was admitted has passed.
pub record Admitted (c d : Controller) (s : SchedulingMetadata) (n : ℕ) : Type 0 where
  pub fresh : Dict.get String_discrete s.request_id c.reservations ≡ none
  pub positive : 0 < n
  pub within_global : n ≤ c.limits.kv_token_budget
  pub within_workflow : n ≤ c.limits.max_kv_tokens_per_workflow
  pub within_agent : n ≤ c.limits.max_kv_tokens_per_agent
  pub room_global : length (pending c) < c.limits.max_pending
  pub room_workflow :
      length (select (same_workflow s) (pending c)) < c.limits.max_pending_per_workflow
  pub room_agent :
      length (select (λ r. same_workflow s r && same_agent s r) (pending c))
      < c.limits.max_pending_per_agent
  pub result : d ≡ record c {
    reservations = Dict.put String_discrete s.request_id (new_reservation s n) c.reservations;
  }

pub admit-Admitted :
    (c d : Controller) (s : SchedulingMetadata) (n : ℕ) → admit c s n ≡ ok d → Admitted c d s n
unfolding admit
admit-Admitted c d s n h = ground arith

pub Admitted-room :
    (c d : Controller) (s : SchedulingMetadata) (n : ℕ)
    → Admitted c d s n
    → (sc : Scope) → in_scope sc s ≡ true
    → booked (pending_share sc) c < pending_limit c.limits sc
unfolding pending
Admitted-room c d s n a =
    let rs = values c.reservations in
    Scope-cases (λ sc. booked (pending_share sc) c < pending_limit c.limits sc) s
      (omega (arith, waiting_global rs s, a.room_global))
      (omega (arith, waiting_workflow rs s, a.room_workflow))
      (omega (arith, waiting_agent rs s, a.room_agent))

-- What an activated request was, and what it became.
pub record Activated (c d : Controller) (k : String) (item : Reservation) : Type 0 where
  pub actual : ℕ
  pub found : Dict.get String_discrete k c.reservations ≡ some item
  pub waiting_before : is_active item ≡ false
  pub positive : 0 < actual
  pub within_estimate : actual ≤ item.estimated_tokens
  pub result : d ≡ record c {
    reservations =
        Dict.put String_discrete k (record item { reserved_tokens = some actual }) c.reservations;
  }

activate_item-Activated :
    (c d : Controller) (k : String) (item : Reservation) (n : Option ℕ)
    → Dict.get String_discrete k c.reservations ≡ some item
    → activate_item c k item n ≡ ok d
    → Activated c d k item
unfolding activate_item
activate_item-Activated c d k item none g h = record {
  actual = item.estimated_tokens;
  found = g;
  waiting_before = ground arith;
  positive = ground arith;
  within_estimate = ground arith;
  result = ground arith;
}
activate_item-Activated c d k item (some n) g h = record {
  actual = n;
  found = g;
  waiting_before = ground arith;
  positive = ground arith;
  within_estimate = ground arith;
  result = ground arith;
}

pub activate-Activated :
    (c d : Controller) (k : String) (n : Option ℕ)
    → activate c k n ≡ ok d
    → (item : Reservation) × Activated c d k item
unfolding activate
activate-Activated c d k n h = elim (Option-cases (Dict.get String_discrete k c.reservations)) [
  | inl e ↦ absurd (ground arith)
  | inr (item, e) ↦ (item, activate_item-Activated c d k item n e (ground arith))
]

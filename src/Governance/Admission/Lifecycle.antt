-- ===== src/Governance/Admission/Lifecycle.antt =====
-- From admission through activation to release.
use llama.Prelude.{
  ℕ, ◌≤◌, ◌≡◌, refl, ◌∙◌, true, false, [], none, some, String_discrete, select, sum_by, arith, ok,
}
use llama.Prelude.Dict
use llama.Prelude.Dict.{values, get-put, remove-put, remove_absent, select-put_new}
use llama.Governance.Policy.{SchedulingMetadata}
use llama.Governance.Admission.{
  AdmissionLimits, Reservation, Controller, fits, check_limits, active, admit, can_activate,
  activate, activate_item, release,
}
use llama.Governance.Admission.Bounds.{new_reservation, Admitted, admit-Admitted}

found_after :
    (c d : Controller) (s : SchedulingMetadata) (n : ℕ)
    → Admitted c d s n
    → Dict.get String_discrete s.request_id d.reservations ≡ some (new_reservation s n)
found_after c d s n a = rw a.result (
    get-put String_discrete s.request_id s.request_id (new_reservation s n) c.reservations
    ∙ ground arith)

same_active :
    (c d : Controller) (s : SchedulingMetadata) (n : ℕ) → Admitted c d s n → active d ≡ active c
unfolding active
same_active c d s n a = rw a.result (
    select-put_new String_discrete _ s.request_id (new_reservation s n) c.reservations a.fresh refl)

-- With nothing running, the tests come down to the limits themselves.
fits_idle :
    (l : AdmissionLimits) (item : Reservation)
    → check_limits l ≡ ok tt
    → item.estimated_tokens ≤ l.kv_token_budget
    → item.estimated_tokens ≤ l.max_kv_tokens_per_workflow
    → item.estimated_tokens ≤ l.max_kv_tokens_per_agent
    → fits l [] item ≡ true
unfolding fits check_limits select sum_by
fits_idle l item valid g w a = ground arith

can_activate_idle :
    (c d : Controller) (s : SchedulingMetadata) (n : ℕ)
    → check_limits c.limits ≡ ok tt
    → active c ≡ []
    → Admitted c d s n
    → can_activate d s.request_id ≡ true
unfolding can_activate
can_activate_idle c d s n valid idle a =
    let limits : d.limits ≡ c.limits = rw a.result refl in
    rw (can_activate, found_after c d s n a)
      (rw (same_active c d s n a, idle, limits)
        (fits_idle c.limits (new_reservation s n) valid a.within_global a.within_workflow
          a.within_agent))

started : Controller → SchedulingMetadata → ℕ → Controller
started d s n = record d {
  reservations =
      Dict.put String_discrete s.request_id
        (record { scheduling = s; estimated_tokens = n; reserved_tokens = some n }) d.reservations;
}

activate_default :
    (c d : Controller) (s : SchedulingMetadata) (n : ℕ)
    → Admitted c d s n
    → activate d s.request_id none ≡ ok (started d s n)
unfolding activate activate_item started
activate_default c d s n a =
    let found = found_after c d s n a in let some_tokens = a.positive in ground arith

-- A request that `admit` lets in can be started whenever nothing runs: no request waits that the
-- limits could never serve. Valid limits are taken, and a backend that reports no reservation.
pub admit-can_activate :
    (c d : Controller) (s : SchedulingMetadata) (n : ℕ)
    → check_limits c.limits ≡ ok tt
    → active c ≡ []
    → admit c s n ≡ ok d
    → (can_activate d s.request_id ≡ true)
      × ((e : Controller) × (activate d s.request_id none ≡ ok e))
admit-can_activate c d s n valid idle h =
    let a = admit-Admitted c d s n h in
    (can_activate_idle c d s n valid idle a, (started d s n, activate_default c d s n a))

-- A release right after an admission puts the ledger back as it was and reports that it held the
-- request; before the admission a release of that request changes nothing and reports that it did
-- not.
pub release-admit :
    (c d : Controller) (s : SchedulingMetadata) (n : ℕ)
    → admit c s n ≡ ok d
    → (release d s.request_id ≡ (c, true)) × (release c s.request_id ≡ (c, false))
unfolding release
release-admit c d s n h =
    let a = admit-Admitted c d s n h in
    let fresh = a.fresh in
    let result = a.result in
    ground (
      arith,
      found_after c d s n a,
      remove-put String_discrete s.request_id (new_reservation s n) c.reservations fresh,
      remove_absent String_discrete s.request_id c.reservations fresh,
    )

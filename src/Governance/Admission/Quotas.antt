-- ===== src/Governance/Admission/Quotas.antt =====
-- The quotas of every scope over the life of a ledger.
use llama.Prelude.{
  ℕ, ◌≤◌, ◌≡◌, inl, inr, true, false, [], Option, some, String, String_discrete, sum_by, arith, ok,
  Bool-cases,
}
use llama.Prelude.Dict
use llama.Prelude.Dict.{
  Dict, values, Distinct, get-put, get-remove, put-Distinct, remove-Distinct, sum_by-put_new,
  sum_by-put_old, sum_by-remove-le,
}
use llama.Governance.Policy.{SchedulingMetadata}
use llama.Governance.Admission.{
  Reservation, Controller, is_active, admit, can_activate, activate, release,
}
use llama.Governance.Admission.Scopes.{
  Scope, in_scope, sequence_limit, kv_limit, pending_limit, sequence_share, kv_share, pending_share,
}
use llama.Governance.Admission.Bounds.{
  booked, Room, fits-Room, new_reservation, admit-Admitted, Admitted-room, activate-Activated,
}

pub record IsWithin (c : Controller) : Type 0 where
  pub sequences : (sc : Scope) → booked (sequence_share sc) c ≤ sequence_limit c.limits sc
  pub tokens : (sc : Scope) → booked (kv_share sc) c ≤ kv_limit c.limits sc
  pub queue : (sc : Scope) → booked (pending_share sc) c ≤ pending_limit c.limits sc

admit-IsWithin :
    (c d : Controller) (s : SchedulingMetadata) (n : ℕ)
    → admit c s n ≡ ok d
    → IsWithin c
    → IsWithin d
unfolding sequence_share kv_share pending_share
admit-IsWithin c d s n h w =
    let a = admit-Admitted c d s n h in
    let r = new_reservation s n in
    let added = λ (f : Reservation → ℕ).
      sum_by-put_new String_discrete f s.request_id r c.reservations a.fresh in
    rw a.result (record {
      sequences = λ sc. omega (arith, added (sequence_share sc), w.sequences sc);
      tokens = λ sc. ground (arith, added (kv_share sc), w.tokens sc);
      queue =
          λ sc. ground (arith, added (pending_share sc), w.queue sc, Admitted-room c d s n a sc);
    })

-- A pending request that passed the tests finds room in each of its scopes.
pub can_activate-Room :
    (c : Controller) (k : String) (item : Reservation)
    → can_activate c k ≡ true
    → Dict.get String_discrete k c.reservations ≡ some item
    → (is_active item ≡ false)
      × ((sc : Scope) → in_scope sc item.scheduling ≡ true → Room c item sc)
unfolding can_activate
can_activate-Room c k item h g = (
  ground arith,
  fits-Room c item
      (elim (Bool-cases (is_active item)) [ inl e ↦ ground arith | inr e ↦ ground arith ]),
)

activate-IsWithin :
    (c d : Controller) (k : String) (n : Option ℕ)
    → can_activate c k ≡ true
    → activate c k n ≡ ok d
    → IsWithin c
    → IsWithin d
unfolding sequence_share kv_share pending_share
activate-IsWithin c d k n able h w =
    let (item, a) = activate-Activated c d k n h in
    let r : Reservation = record item { reserved_tokens = some a.actual } in
    let changed =
      λ (f : Reservation → ℕ). sum_by-put_old String_discrete f k r item c.reservations a.found in
    let room = (can_activate-Room c k item able a.found).1 in
    rw a.result (record {
      sequences = λ sc. ground (arith, changed (sequence_share sc), w.sequences sc, room sc);
      tokens = λ sc. ground (arith, changed (kv_share sc), w.tokens sc, room sc);
      queue = λ sc. ground (arith, changed (pending_share sc), w.queue sc);
    })

release-IsWithin : (c : Controller) (k : String) → IsWithin c → IsWithin (release c k).0
unfolding release
release-IsWithin c k w =
    let fewer = λ (f : Reservation → ℕ). sum_by-remove-le String_discrete f k c.reservations in
    record {
      sequences = λ sc. omega (arith, fewer (sequence_share sc), w.sequences sc);
      tokens = λ sc. omega (arith, fewer (kv_share sc), w.tokens sc);
      queue = λ sc. omega (arith, fewer (pending_share sc), w.queue sc);
    }

-- The calls of the scheduler: it activates only what `can_activate` has let through, in one thread.
pub data Call (c d : Controller) : Type 0 where
  admits : (s : SchedulingMetadata) (n : ℕ) → admit c s n ≡ ok d → Call c d
  activates :
      (k : String) (n : Option ℕ) → can_activate c k ≡ true → activate c k n ≡ ok d → Call c d
  releases : (k : String) → d ≡ (release c k).0 → Call c d

pub data Calls (c : Controller) : Controller → Type 0 where
  none_yet : Calls c c
  next : {d e : Controller} → Calls c d → Call d e → Calls c e

Call-IsWithin : {c d : Controller} → Call c d → IsWithin c → IsWithin d
Call-IsWithin {c} {d} (admits s n h) w = admit-IsWithin c d s n h w
Call-IsWithin {c} {d} (activates k n able h) w = activate-IsWithin c d k n able h w
Call-IsWithin {c} (releases k e) w = rw e (release-IsWithin c k w)

empty-IsWithin : (c : Controller) → c.reservations ≡ [] → IsWithin c
unfolding sum_by
empty-IsWithin c e = record {
  sequences = λ sc. rw e (omega arith);
  tokens = λ sc. rw e (omega arith);
  queue = λ sc. rw e (omega arith);
}

Calls-IsWithin : {c d : Controller} → Calls c d → IsWithin c → IsWithin d
Calls-IsWithin none_yet w = w
Calls-IsWithin (next calls call) w = Call-IsWithin call (Calls-IsWithin calls w)

-- After any calls that start from an empty ledger, in the whole runtime, in every workflow and for
-- every agent, the active sequences, their reserved tokens and the queued requests are each at
-- most the scope's limit. An `activate` is taken to follow a `can_activate` that answered yes.
pub quotas_hold :
    {c d : Controller}
    → c.reservations ≡ []
    → Calls c d
    → (sc : Scope)
    → (booked (sequence_share sc) d ≤ sequence_limit d.limits sc)
      × (booked (kv_share sc) d ≤ kv_limit d.limits sc)
      × (booked (pending_share sc) d ≤ pending_limit d.limits sc)
quotas_hold {c} e calls sc =
    let w = Calls-IsWithin calls (empty-IsWithin c e) in (w.sequences sc, w.tokens sc, w.queue sc)

-- ===== src/Governance/Selector/Bursts.antt =====
-- How many emergency requests are served in a row while normal work waits.
use llama.Prelude.{
  ℕ, zero, suc, ◌+◌, ◌≤◌, ◌<◌, ◌≡◌, refl, ap, ◌∙◌, Bool, true, false, List, some, arith, ok, All,
  In,
}
use llama.Governance.Policy.{SchedulingMetadata, RuntimeSchedulingPolicy}
use llama.Governance.Selector.Key.{SchedulableEntry, Selector, is_emergency}
use llama.Governance.Selector.Weights.{HasWeights, Weighted}
use llama.Governance.Selector.Lanes.{served_emergency}
use llama.Governance.Selector.{select_next, charge, forget}

-- `Burst s n t`: from `s` to `t`, `n` selections were made, each of an emergency request while a
-- request of another class was offered. What is served is charged, and may be forgotten.
pub data Burst (s : Selector) : ℕ → Selector → Type 0 where
  idle : Burst s zero s
  serves :
      {n : ℕ} {t u : Selector} (es : List SchedulableEntry) (now : ℕ) (e x : SchedulableEntry)
      → HasWeights t
      → All Weighted es
      → select_next t es now ≡ (u, ok (some e))
      → is_emergency t.policy e ≡ true
      → In x es
      → is_emergency t.policy x ≡ false
      → Burst s n t
      → Burst s (suc n) u
  charges :
      {n : ℕ} {t u : Selector} (m : SchedulingMetadata) (tokens : ℕ)
      → charge t m tokens ≡ ok u
      → Burst s n t
      → Burst s n u
  forgets :
      {n : ℕ} {t u : Selector} (m : SchedulingMetadata) (drop_agent drop_workflow : Bool)
      → u ≡ forget t m drop_agent drop_workflow
      → Burst s n t
      → Burst s n u

record Progress (s : Selector) (n : ℕ) (t : Selector) : Type 0 where
  policy : t.policy ≡ s.policy
  count : t.consecutive_emergency ≡ s.consecutive_emergency + n
  capped : 0 < n → t.consecutive_emergency ≤ s.policy.emergency_burst_cap

charge-same :
    (t u : Selector) (m : SchedulingMetadata) (tokens : ℕ)
    → charge t m tokens ≡ ok u
    → (u.policy ≡ t.policy) × (u.consecutive_emergency ≡ t.consecutive_emergency)
unfolding charge
charge-same t u m tokens h = ground arith

Burst-Progress : {s t : Selector} {n : ℕ} → Burst s n t → Progress s n t
unfolding forget
Burst-Progress idle = record {
  policy = refl;
  count = omega arith;
  capped = λ h. absurd (omega arith);
}
Burst-Progress (serves {t = t} {u = u} es now e x w g h em i normal b) =
    let p = Burst-Progress b in
    let v = served_emergency t es now u e x w g h em i normal in
    let policy = p.policy in
    let cap : t.policy.emergency_burst_cap ≡ _ =
      ap (λ (q : RuntimeSchedulingPolicy). q.emergency_burst_cap) policy in
    record {
      policy = v.0 ∙ policy;
      count = omega (arith, v.1, p.count);
      capped = λ h. omega (arith, v.1, v.2, cap);
    }
Burst-Progress (charges {t = t} {u = u} m tokens h b) =
    let p = Burst-Progress b in
    let v = charge-same t u m tokens h in
    record {
      policy = v.0 ∙ p.policy;
      count = omega (arith, v.1, p.count);
      capped = λ h. omega (arith, v.1, p.capped h);
    }
Burst-Progress (forgets {t = t} {u = u} m da dw e b) =
    let p = Burst-Progress b in
    rw e (record { policy = p.policy; count = p.count; capped = p.capped })

-- While normal work waits, at most `emergency_burst_cap` emergency requests are served in a row, and
-- those that were already counted before come off that number.
pub Burst-le-cap :
    {s t : Selector} {n : ℕ}
    → Burst s n t
    → 0 < n
    → s.consecutive_emergency + n ≤ s.policy.emergency_burst_cap
Burst-le-cap b h = let p = Burst-Progress b in omega (arith, p.count, p.capped h)

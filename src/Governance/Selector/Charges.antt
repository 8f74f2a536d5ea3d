-- ===== src/Governance/Selector/Charges.antt =====
-- What is charged counts against the request, its agent and its workflow.
use llama.Prelude.{ℕ, ◌+◌, ◌<◌, ◌≡◌, refl, true, String_discrete, arith, ok}
use llama.Prelude.Dict
use llama.Prelude.Dict.{get-put}
use llama.Governance.Selector.Key.{
  SchedulableEntry, Selector, or_zero, key, key_lt, compare_key, Key,
}
use llama.Governance.Selector.Weights.{HasWeights, Weighted, key-IsPositive}
use llama.Governance.Selector.Order.{mul-lt}
use llama.Governance.Selector.{charge}

-- A larger debt at workflow level and the same priority make a later key.
key_lt_of_debt :
    (a b : Key)
    → a.effective_priority ≡ b.effective_priority
    → a.workflow_debt.below ≡ b.workflow_debt.below
    → 0 < b.workflow_debt.below
    → a.workflow_debt.above < b.workflow_debt.above
    → key_lt a b ≡ true
unfolding key_lt compare_key
key_lt_of_debt a b p q h l =
    ground (arith, mul-lt a.workflow_debt.above b.workflow_debt.above b.workflow_debt.below h l)

module _ (s t : Selector) (e : SchedulableEntry) (tokens : ℕ)
    (h : charge s e.scheduling tokens ≡ ok t) where
  charge_keeps : (t.policy ≡ s.policy) × (t.workflow_weight ≡ s.workflow_weight) × (0 < tokens)
  unfolding charge
  charge_keeps = ground arith

  charge_adds :
      or_zero (Dict.get String_discrete e.scheduling.workflow_id t.workflow_service)
      ≡ or_zero (Dict.get String_discrete e.scheduling.workflow_id s.workflow_service) + tokens
  unfolding charge
  charge_adds =
      let w = e.scheduling.workflow_id in
      let old = or_zero (Dict.get String_discrete w s.workflow_service) in
      ground (arith, get-put String_discrete w w (old + tokens) s.workflow_service)

-- A request that was charged stands behind where it stood: at the same moment its key is larger
-- than it was. The charge is positive, as are the weights.
pub charge-key_lt :
    (s t : Selector) (e : SchedulableEntry) (tokens now : ℕ)
    → HasWeights s
    → Weighted e
    → charge s e.scheduling tokens ≡ ok t
    → key_lt (key s now e) (key t now e) ≡ true
unfolding charge key
charge-key_lt s t e tokens now w g h =
    let kept = charge_keeps s t e tokens h in
    let policy : t.policy ≡ s.policy = kept.0 in
    let weights : t.workflow_weight ≡ s.workflow_weight = kept.1 in
    let added = charge_adds s t e tokens h in
    let below : (key s now e).workflow_debt.below ≡ (key t now e).workflow_debt.below =
      rw weights refl in
    let pos = (key-IsPositive s now e w g).workflow_below in
    key_lt_of_debt (key s now e) (key t now e) (rw policy refl) below (rw (← below) pos)
      (omega (arith, added, kept.2))

-- ===== src/Governance/Selector/Weights.antt =====
-- The recorded weights stay positive, so the debts are proper fractions.
use llama.Prelude.{
  ℕ, ◌<◌, ◌≡◌, refl, List, [], ◌∷◌, Option, none, some, String, String_discrete, arith, All, max,
  Result-cases, inl, inr,
}
use llama.Prelude.Dict
use llama.Prelude.Dict.{get-put}
use llama.Governance.Policy.{SchedulingMetadata, class_policy}
use llama.Governance.Selector.Key.{
  SchedulableEntry, Selector, Agent_discrete, agent_of, weight_or, key,
}
use llama.Governance.Selector.Order.{IsPositive}
use llama.Governance.Selector.{note_weight, note_weights}

pub record HasWeights (s : Selector) : Type 0 where
  pub workflows : (w : String) → 0 < weight_or 1 (Dict.get String_discrete w s.workflow_weight)
  pub agents : (a : String × String) → 0 < weight_or 1 (Dict.get Agent_discrete a s.agent_weight)

weight_or_pos : (o : Option ℕ) (n : ℕ) → 0 < n → 0 < weight_or 1 o → 0 < weight_or n o
weight_or_pos none n h k = h
weight_or_pos (some m) n h k = k

note_weight-HasWeights :
    (s : Selector) (m : SchedulingMetadata)
    → 0 < m.weight
    → HasWeights s
    → HasWeights (note_weight s m)
unfolding note_weight
note_weight-HasWeights s m h w = record {
  workflows = λ v. ground (
    arith,
    w.workflows v,
    get-put String_discrete m.workflow_id v
        (max (weight_or 1 (Dict.get String_discrete m.workflow_id s.workflow_weight)) m.weight)
        s.workflow_weight,
  );
  agents = λ a. ground (
    arith,
    w.agents a,
    get-put Agent_discrete (agent_of m) a
        (max (weight_or 1 (Dict.get Agent_discrete (agent_of m) s.agent_weight)) m.weight)
        s.agent_weight,
  );
}

abbrev pub Kept : Selector → Selector → Type 0
Kept s t =
    HasWeights t × (t.policy ≡ s.policy) × (t.consecutive_emergency ≡ s.consecutive_emergency)

-- Every weight is positive, as `SchedulingMetadata` checks.
abbrev pub Weighted : SchedulableEntry → Type 0
Weighted e = 0 < e.scheduling.weight

pub note_weights-HasWeights :
    (s : Selector) (es : List SchedulableEntry)
    → All Weighted es
    → HasWeights s
    → Kept s (note_weights s es).0
unfolding note_weights note_weight
note_weights-HasWeights s [] g w = (w, refl, refl)
note_weights-HasWeights s (e ∷ es) g w =
    elim (Result-cases (class_policy s.policy e.scheduling.service_class)) [
      | inl (x, q) ↦ rw (q, note_weights) (w, refl, refl)
      | inr (c, q) ↦
          rw (q, note_weights)
            (note_weights-HasWeights (note_weight s e.scheduling) es g.1
              (note_weight-HasWeights s e.scheduling g.0 w))
    ]

pub key-IsPositive :
    (s : Selector) (now : ℕ) (e : SchedulableEntry)
    → HasWeights s
    → Weighted e
    → IsPositive (key s now e)
unfolding key
key-IsPositive s now e w h = record {
  workflow_below =
      weight_or_pos (Dict.get String_discrete e.scheduling.workflow_id s.workflow_weight) _ h
        (w.workflows e.scheduling.workflow_id);
  agent_below =
      weight_or_pos (Dict.get Agent_discrete (agent_of e.scheduling) s.agent_weight) _ h
        (w.agents (agent_of e.scheduling));
  request_below = h;
}

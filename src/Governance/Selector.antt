-- ===== src/Governance/Selector.antt =====
-- Which request is served next: `HierarchicalFairSelector` of inference_runtime/governance.py. A
-- call that raises may have changed the weights, so a call returns the state beside its result.
pub mod Key
pub mod Order
pub mod Weights
pub mod Lanes
pub mod Bursts
pub mod Charges
use llama.Prelude.{
  first_min, ℕ, suc, ◌+◌, ◌<◌, Bool, true, false, ◌&&◌, ◌||◌, not, List, [], ◌∷◌, Option, none,
  some, String, String_discrete, ltb, ◌==◌, if◌then◌else◌, Result, ok, err, select, length, max,
}
use llama.Prelude.Dict
use llama.Prelude.Dict.{Dict}
use llama.Governance.Policy.{
  SchedulingMetadata, ServiceClassPolicy, RuntimeSchedulingPolicy, class_policy, Error, value_error,
}
use Key.{SchedulableEntry, Selector, Agent_discrete, agent_of, or_zero, key, key_lt, is_emergency}

-- The body of the loop of `select`: the weight of a scope is the largest that was seen in it.
unfoldable pub note_weight : Selector → SchedulingMetadata → Selector
note_weight s m = record s {
  workflow_weight =
      Dict.put String_discrete m.workflow_id
        (max (Key.weight_or 1 (Dict.get String_discrete m.workflow_id s.workflow_weight)) m.weight)
        s.workflow_weight;
  agent_weight =
      Dict.put Agent_discrete (agent_of m)
        (max (Key.weight_or 1 (Dict.get Agent_discrete (agent_of m) s.agent_weight)) m.weight)
        s.agent_weight;
}

-- The loop of `select`
unfoldable pub note_weights : Selector → List SchedulableEntry → Selector × Result Error (Unit {0})
unfolding note_weight
note_weights s [] = (s, ok tt)
note_weights s (e ∷ rest) =
    let later = note_weights (note_weight s e.scheduling) rest in
    elim (class_policy s.policy e.scheduling.service_class) [ err x ↦ (s, err x) | ok c ↦ later ]

-- The entries of the lane that is served.
unfoldable pub lane : Selector → List SchedulableEntry → List SchedulableEntry
lane s candidates =
    let emergency = select (λ e. is_emergency s.policy e) candidates in
    let normal = select (λ e. not (is_emergency s.policy e)) candidates in
    if not (length emergency == 0)
      && (length normal == 0 || ltb s.consecutive_emergency s.policy.emergency_burst_cap)
    then emergency
    else if not (length normal == 0)
    then normal
    else candidates

-- The counter of emergency requests served in a row.
unfoldable pub count_emergency : Selector → SchedulableEntry → Selector
count_emergency s e = record s {
  consecutive_emergency = if is_emergency s.policy e then s.consecutive_emergency + 1 else 0;
}

-- `select` after its loop
unfoldable pub choose :
    Selector → ℕ → List SchedulableEntry → Selector × Result Error (Option SchedulableEntry)
unfolding count_emergency
choose s now [] = (s, err value_error)
choose s now (e ∷ rest) =
    let chosen = first_min (λ a b. key_lt (key s now a) (key s now b)) e rest in
    (count_emergency s chosen, ok (some chosen))

unfoldable pub select_noted :
    Selector × Result Error (Unit {0})
    → ℕ
    → List SchedulableEntry
    → Selector × Result Error (Option SchedulableEntry)
unfolding choose lane
select_noted (s, err x) now entries = (s, err x)
select_noted (s, ok u) now entries = choose s now (lane s entries)

-- `HierarchicalFairSelector.select`
unfoldable pub select_next :
    Selector → List SchedulableEntry → ℕ → Selector × Result Error (Option SchedulableEntry)
unfolding note_weights select_noted
select_next s [] now = (s, ok none)
select_next s (e ∷ rest) now = select_noted (note_weights s (e ∷ rest)) now (e ∷ rest)

-- `Counter[k] += n`
abbrev add_to : {K : Type 0} → Discrete K → K → ℕ → Dict K ℕ → Dict K ℕ
add_to dec k n d = Dict.put dec k (or_zero (Dict.get dec k d) + n) d

-- `HierarchicalFairSelector.charge`
unfoldable pub charge : Selector → SchedulingMetadata → ℕ → Result Error Selector
charge s m tokens =
    if tokens == 0
    then err value_error
    else ok (record s {
      workflow_service = add_to String_discrete m.workflow_id tokens s.workflow_service;
      agent_service = add_to Agent_discrete (agent_of m) tokens s.agent_service;
      request_service = add_to String_discrete m.request_id tokens s.request_service;
    })

-- `HierarchicalFairSelector.forget`
unfoldable pub forget : Selector → SchedulingMetadata → Bool → Bool → Selector
forget s m drop_agent drop_workflow = record s {
  request_service = Dict.remove String_discrete m.request_id s.request_service;
  agent_service =
      if drop_agent
      then Dict.remove Agent_discrete (agent_of m) s.agent_service
      else s.agent_service;
  agent_weight =
      if drop_agent then Dict.remove Agent_discrete (agent_of m) s.agent_weight else s.agent_weight;
  workflow_service =
      if drop_workflow
      then Dict.remove String_discrete m.workflow_id s.workflow_service
      else s.workflow_service;
  workflow_weight =
      if drop_workflow
      then Dict.remove String_discrete m.workflow_id s.workflow_weight
      else s.workflow_weight;
}

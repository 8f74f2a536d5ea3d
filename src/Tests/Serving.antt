-- ===== src/Tests/Serving.antt =====
-- Serving an emergency request before an interactive one.
use llama.Prelude.{
  ℕ, true, false, ◌≡◌, ◌≤◌, ◌+◌, All, In, here, ok, err, some, none, [], ◌∷◌, refl, arith, List,
  String, String_discrete, select, first_min, Result,
}
use llama.Prelude.Dict
use llama.Governance.Policy.{defaults, class_policy, find_class, Error}
use llama.Governance.Selector.Key.{
  SchedulableEntry, Selector, key, key_lt, compare_key, is_emergency, Agent_discrete,
}
use llama.Governance.Selector.{
  note_weight, note_weights, lane, count_emergency, choose, select_noted, select_next, charge,
}
use llama.Governance.Selector.Weights.{HasWeights, Weighted}
use llama.Governance.Selector.Lanes.{select_next-minimal}
use llama.Governance.Selector.Bursts.{Burst, idle, serves, Burst-le-cap}
use llama.Governance.Selector.Charges.{charge-key_lt}

abbrev entry : String → String → ℕ → SchedulableEntry
entry id service order = record {
  scheduling = record {
    request_id = id;
    workflow_id = "w";
    agent_id = "a";
    service_class = service;
    weight = 1;
    deadline_monotonic = none;
    cache_scope = none;
    session_cache = none;
  };
  admitted_at = 0;
  order = order;
}

abbrev normal : SchedulableEntry
normal = entry "n" "interactive" 0

abbrev urgent : SchedulableEntry
urgent = entry "u" "emergency" 1

abbrev fresh : Selector
fresh = record {
  policy = defaults 1000;
  workflow_service = [];
  agent_service = [];
  request_service = [];
  workflow_weight = [];
  agent_weight = [];
  consecutive_emergency = 0;
}

abbrev offered : List SchedulableEntry
offered = normal ∷ urgent ∷ []

serving : select_next fresh offered 5 ≡ ((select_next fresh offered 5).0, ok (some urgent))
unfolding select_next select_noted note_weights note_weight lane choose count_emergency is_emergency
    key key_lt compare_key class_policy find_class defaults select first_min Agent_discrete Dict.get
    Dict.put String_discrete
serving = refl

fresh-HasWeights : HasWeights fresh
unfolding Dict.get
fresh-HasWeights = record { workflows = λ w. omega arith; agents = λ a. omega arith }

offered-Weighted : All Weighted offered
offered-Weighted = (omega arith, (omega arith, tt))

abbrev noted : Selector
noted = (note_weights fresh offered).0

select_next-minimal_example :
    In urgent offered
    × In urgent (lane noted offered)
    × All (λ x. key_lt (key noted 5 x) (key noted 5 urgent) ≡ false) (lane noted offered)
select_next-minimal_example =
    select_next-minimal fresh offered 5 (select_next fresh offered 5).0 urgent fresh-HasWeights
      offered-Weighted serving

is_urgent : is_emergency fresh.policy urgent ≡ true
unfolding is_emergency class_policy find_class defaults String_discrete
is_urgent = refl

is_normal : is_emergency fresh.policy normal ≡ false
unfolding is_emergency class_policy find_class defaults String_discrete
is_normal = refl

one_served : Burst fresh 1 (select_next fresh offered 5).0
one_served =
    serves offered 5 urgent normal fresh-HasWeights offered-Weighted serving is_urgent here
      is_normal idle

Burst-le-cap_example : 0 + 1 ≤ (defaults 1000).emergency_burst_cap
Burst-le-cap_example = Burst-le-cap one_served (omega arith)

abbrev state_of : Result Error Selector → Selector
state_of (ok s) = s
state_of (err e) = fresh

charged : charge fresh normal.scheduling 7 ≡ ok (state_of (charge fresh normal.scheduling 7))
unfolding charge
charged = refl

charge-key_lt_example :
    key_lt (key fresh 5 normal) (key (state_of (charge fresh normal.scheduling 7)) 5 normal) ≡ true
charge-key_lt_example =
    charge-key_lt fresh (state_of (charge fresh normal.scheduling 7)) normal 7 5 fresh-HasWeights
      (omega arith) charged

-- ===== src/Governance/Selector/Key.antt =====
-- The order in which requests of one lane are served: `_key` and `_is_emergency`.
use Prim.Native.Nat.{compare, Ordering}
use llama.Prelude.{
  ◌≡◌, ℕ, ◌+◌, ◌-◌, ◌*◌, ◌/◌, Bool, true, false, Option, none, some, String, String_discrete, leb,
  if◌then◌else◌, Result, ok, err,
}
use llama.Prelude.Dict
use llama.Prelude.Dict.{Dict}
use llama.Prelude.Int.{ℤ, pos, pos_part, neg_part, ◌+ℤ◌}
use llama.Governance.Policy.{
  SchedulingMetadata, ServiceClassPolicy, RuntimeSchedulingPolicy, class_policy, Error,
}

pub record SchedulableEntry : Type 0 where
  pub scheduling : SchedulingMetadata
  pub admitted_at : ℕ
  pub order : ℕ

pub record Selector : Type 0 where
  pub policy : RuntimeSchedulingPolicy
  pub workflow_service : Dict String ℕ
  pub agent_service : Dict (String × String) ℕ
  pub request_service : Dict String ℕ
  pub workflow_weight : Dict String ℕ
  pub agent_weight : Dict (String × String) ℕ
  pub consecutive_emergency : ℕ

pair_dec :
    {a b c d : String} → Dec (a ≡ c) → Dec (b ≡ d) → Dec (Path (String × String) (a, b) (c, d))
pair_dec (yes p) (yes q) = yes (λ i. (p i, q i))
pair_dec (yes p) (no q) = no (λ e. q (λ i. (e i).1))
pair_dec (no p) q = no (λ e. p (λ i. (e i).0))

unfoldable pub Agent_discrete : Discrete (String × String)
unfolding pair_dec
Agent_discrete a b = pair_dec (String_discrete a.0 b.0) (String_discrete a.1 b.1)

abbrev pub agent_of : SchedulingMetadata → String × String
agent_of m = (m.workflow_id, m.agent_id)

-- `d.get(k, default)`
abbrev pub weight_or : ℕ → Option ℕ → ℕ
weight_or n none = n
weight_or n (some m) = m

-- A `Counter` reads 0 at a key that it does not hold.
abbrev pub or_zero : Option ℕ → ℕ
or_zero = weight_or 0

-- `Fraction(above, below)`, compared by value.
pub record Fraction : Type 0 where
  pub above : ℕ
  pub below : ℕ

pub record Key : Type 0 where
  pub effective_priority : ℤ
  pub workflow_debt : Fraction
  pub agent_debt : Fraction
  pub request_debt : Fraction
  pub deadline : Option ℕ
  pub order : ℕ

-- `_is_emergency`. It is called for entries whose class the loop of `select` has found.
unfoldable pub is_emergency : RuntimeSchedulingPolicy → SchedulableEntry → Bool
is_emergency p e = elim (class_policy p e.scheduling.service_class) [
  | err x ↦ false
  | ok c ↦ c.emergency
]

abbrev class_priority : Result Error ServiceClassPolicy → ℤ
class_priority (err x) = pos 0
class_priority (ok c) = c.priority

-- `deadline - now <= window`, where `deadline - now` may be negative
unfoldable pub deadline_boost : RuntimeSchedulingPolicy → Option ℕ → ℕ → ℕ
deadline_boost p none now = 0
deadline_boost p (some deadline) now =
    if leb deadline (now + p.deadline_urgency_window_seconds) then p.deadline_priority_boost else 0

-- `HierarchicalFairSelector._key`
unfoldable pub key : Selector → ℕ → SchedulableEntry → Key
unfolding deadline_boost
key s now e =
    let m = e.scheduling in
    let aging = (now - e.admitted_at) / s.policy.aging_interval_seconds in
    record {
      effective_priority =
          class_priority (class_policy s.policy m.service_class)
          +ℤ pos aging
          +ℤ pos (deadline_boost s.policy m.deadline_monotonic now);
      workflow_debt = record {
        above = or_zero (Dict.get String_discrete m.workflow_id s.workflow_service);
        below = weight_or m.weight (Dict.get String_discrete m.workflow_id s.workflow_weight);
      };
      agent_debt = record {
        above = or_zero (Dict.get Agent_discrete (agent_of m) s.agent_service);
        below = weight_or m.weight (Dict.get Agent_discrete (agent_of m) s.agent_weight);
      };
      request_debt = record {
        above = or_zero (Dict.get String_discrete m.request_id s.request_service);
        below = m.weight;
      };
      deadline = m.deadline_monotonic;
      order = e.order;
    }

-- Higher priorities stand first: the key holds the negated priority.
abbrev pub compare_priority : ℤ → ℤ → Ordering
compare_priority a b = compare (pos_part b + neg_part a) (pos_part a + neg_part b)

abbrev pub compare_fraction : Fraction → Fraction → Ordering
compare_fraction a b = compare (a.above * b.below) (b.above * a.below)

-- No deadline is `math.inf`.
abbrev pub compare_deadline : Option ℕ → Option ℕ → Ordering
compare_deadline none none = Ordering.eq
compare_deadline none (some b) = Ordering.gt
compare_deadline (some a) none = Ordering.lt
compare_deadline (some a) (some b) = compare a b

-- The first components that differ decide, as for tuples.
abbrev pub or_else : Ordering → Ordering → Ordering
or_else Ordering.lt o = Ordering.lt
or_else Ordering.eq o = o
or_else Ordering.gt o = Ordering.gt

abbrev pub is_lt : Ordering → Bool
is_lt Ordering.lt = true
is_lt Ordering.eq = false
is_lt Ordering.gt = false

unfoldable pub compare_key : Key → Key → Ordering
compare_key a b = or_else (compare_priority a.effective_priority b.effective_priority) (
    or_else (compare_fraction a.workflow_debt b.workflow_debt) (
      or_else (compare_fraction a.agent_debt b.agent_debt) (
        or_else (compare_fraction a.request_debt b.request_debt)
          (or_else (compare_deadline a.deadline b.deadline) (compare a.order b.order)))))

-- `a < b` for the tuples
unfoldable pub key_lt : Key → Key → Bool
unfolding compare_key
key_lt a b = is_lt (compare_key a b)

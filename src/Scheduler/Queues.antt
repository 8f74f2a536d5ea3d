-- ===== src/Scheduler/Queues.antt =====
-- The queues of request ids: `_pop_state_locked`, `_take_state_locked` and `_queue_has_state_locked` of
-- inference_runtime/continuous_scheduler.py.
use llama.Prelude.{
  ℕ, zero, suc, Bool, true, false, ◌&&◌, List, [], ◌∷◌, map, Option, none, some, String,
  String_discrete, is_yes, Result, ok, err, if◌then◌else◌,
}
use llama.Governance.Policy.{Error}
use llama.Governance.Selector.{select_next}
use llama.Governance.Selector.Key.{Selector, SchedulableEntry}
use llama.Scheduler.State.{
  RuntimeRequestState, State_discrete, RequestEntry, Scheduler, find, schedulable,
}

abbrev pub in_state : RuntimeRequestState → Option RequestEntry → Bool
in_state state none = false
in_state state (some e) = is_yes (State_discrete e.state state)

-- The ids of the queue whose entry has the state
unfoldable pub valid_ids : Scheduler → RuntimeRequestState → List String → List String
valid_ids s state [] = []
valid_ids s state (id ∷ ids) =
    let rest = valid_ids s state ids in if in_state state (find s id) then id ∷ rest else rest

abbrev pub consider :
    RuntimeRequestState
    → (RequestEntry → Bool)
    → Option RequestEntry
    → List RequestEntry
    → List RequestEntry
consider state predicate none rest = rest
consider state predicate (some e) rest =
    if is_yes (State_discrete e.state state) && predicate e then e ∷ rest else rest

-- Their entries, as far as the predicate lets them through
unfoldable pub candidates :
    Scheduler → RuntimeRequestState → (RequestEntry → Bool) → List String → List RequestEntry
candidates s state predicate [] = []
candidates s state predicate (id ∷ ids) =
    consider state predicate (find s id) (candidates s state predicate ids)

-- `queue.remove(id)`
unfoldable pub drop_first : String → List String → List String
drop_first id [] = []
drop_first id (j ∷ ids) = if is_yes (String_discrete j id) then ids else j ∷ drop_first id ids

-- What a pop leaves of the selector and the queue, and the entry it took.
pub record Popped : Type 0 where
  pub selector : Selector
  pub queue : List String
  pub taken : Result Error (Option RequestEntry)

abbrev pub taken_from :
    Scheduler → List String → Selector × Result Error (Option SchedulableEntry) → Popped
taken_from s ids (sel, err x) = record { selector = sel; queue = ids; taken = err x }
taken_from s ids (sel, ok none) = record { selector = sel; queue = ids; taken = ok none }
taken_from s ids (sel, ok (some e)) = record {
  selector = sel;
  queue = drop_first e.scheduling.request_id ids;
  taken = ok (find s e.scheduling.request_id);
}

-- `_pop_state_locked`
unfoldable pub pop_state :
    Scheduler → List String → RuntimeRequestState → (RequestEntry → Bool) → ℕ → Popped
unfolding valid_ids candidates drop_first
pop_state s queue state predicate now =
    taken_from s (valid_ids s state queue)
      (select_next s.selector (map schedulable (candidates s state predicate queue)) now)

pub record TakenAll : Type 0 where
  pub selector : Selector
  pub queue : List String
  pub taken : Result Error (List RequestEntry)

abbrev pub add_taken : RequestEntry → TakenAll → TakenAll
add_taken e t = record t { taken = elim t.taken [ err x ↦ err x | ok es ↦ ok (e ∷ es) ] }

-- The loop of `_take_state_locked`, with the number of entries that may still be taken
unfoldable pub take_state : ℕ → Scheduler → List String → RuntimeRequestState → ℕ → TakenAll
unfolding pop_state
take_state zero s queue state now = record { selector = s.selector; queue = queue; taken = ok [] }
take_state (suc limit) s queue state now =
    let p = pop_state s queue state (λ e. true) now in
    elim p.taken [
      | err x ↦ record { selector = p.selector; queue = p.queue; taken = err x }
      | ok none ↦ record { selector = p.selector; queue = p.queue; taken = ok [] }
      | ok (some e) ↦
          add_taken e (take_state limit (record s { selector = p.selector }) p.queue state now)
    ]

-- `_queue_has_state_locked`: the queue without its stale front, and whether anything is left
unfoldable pub queue_has_state : Scheduler → RuntimeRequestState → List String → List String × Bool
queue_has_state s state [] = ([], false)
queue_has_state s state (id ∷ ids) =
    let rest = queue_has_state s state ids in
    if in_state state (find s id) then (id ∷ ids, true) else rest

-- ===== src/Run/Reducer/Records.antt =====
-- Which invocations a replayed run has dispatched and has results of: agent_runtime/reducer.py.
use mathlib.Core.Path.{subst}
use llama.Prelude.{
  ℕ, suc, Bool, true, false, not, ◌&&◌, ◌||◌, List, [], ◌∷◌, String, String_discrete, ok,
  Option-cases, Result-cases, chain-ok, inl, inr, sym, ap, ◌∙◌, ◌≡◌, refl, arith, any, is_yes,
}
use llama.Prelude.Dict
use llama.Prelude.Dict.{get-put}
use llama.Run.Payload.{Payload, text}
use llama.Run.Lifecycle.{ToolLifecycle, tool_lifecycle}
use llama.Run.State.{
  Category, EventKind, run_created, run_transition, tool_proposed, tool_transition, budget_consumed,
  dispatch_started, result_recorded, AgentEvent, AgentRunState, member,
}
use llama.Run.Reducer.{
  apply_transition, apply_proposal, apply_tool_transition, consume, apply_budget, apply_kind,
  apply_record, check_record, apply_event, create, replay_from, replay, is_some, needs_proposal,
  proposed_in,
}

-- No text stands twice in the list.
abbrev pub Once : List String → Type 0
Once [] = Unit
Once (x ∷ xs) = (member x xs ≡ false) × Once xs

abbrev pub is_proposed : AgentRunState → String → Bool
is_proposed s id = is_some (Dict.get String_discrete id s.tool_invocations)

-- Each result is of a dispatched invocation and each dispatched invocation was proposed, both at
-- most once.
pub record IsRecorded (s : AgentRunState) : Type 0 where
  pub results_dispatched :
      (id : String)
      → member id s.terminal_results ≡ true
      → member id s.dispatched_invocations ≡ true
  pub dispatched_proposed :
      (id : String) → member id s.dispatched_invocations ≡ true → is_proposed s id ≡ true
  pub results_once : Once s.terminal_results
  pub dispatched_once : Once s.dispatched_invocations

member-cons :
    (x y : String) (ys : List String)
    → member x (y ∷ ys) ≡ is_yes (String_discrete y x) || member x ys
unfolding member any
member-cons x y ys = ground arith

member-nil : (x : String) → member x [] ≡ false
unfolding member any
member-nil x = refl

-- Only the proposals matter, and they only grow.
grow :
    (s t : AgentRunState)
    → IsRecorded s
    → t.terminal_results ≡ s.terminal_results
    → t.dispatched_invocations ≡ s.dispatched_invocations
    → ((id : String) → is_proposed s id ≡ true → is_proposed t id ≡ true)
    → IsRecorded t
grow s t i p q g = record {
  results_dispatched =
      λ id h. ap (member id) q ∙ i.results_dispatched id (ap (member id) (sym p) ∙ h);
  dispatched_proposed = λ id h. g id (i.dispatched_proposed id (ap (member id) (sym q) ∙ h));
  results_once = rw p i.results_once;
  dispatched_once = rw q i.dispatched_once;
}

put-proposed :
    (s : AgentRunState) (j id : String) (x : ToolLifecycle)
    → is_proposed s id ≡ true
    → is_some (Dict.get String_discrete id (Dict.put String_discrete j x s.tool_invocations)) ≡ true
put-proposed s j id x h = ground (arith, get-put String_discrete j id x s.tool_invocations)

consume-IsRecorded :
    (s t : AgentRunState) (n : ℕ) (c : String) (k : Category) (m : ℕ) (b : Bool)
    → consume s n c k m b ≡ ok t
    → IsRecorded s
    → IsRecorded t
unfolding consume
consume-IsRecorded s t n c k m b h i =
    grow s t i (ground arith) (ground arith) (λ id g. ground arith)

apply_transition-IsRecorded :
    (s t : AgentRunState) (n : ℕ) (p : Payload)
    → apply_transition s n p ≡ ok t
    → IsRecorded s
    → IsRecorded t
unfolding apply_transition
apply_transition-IsRecorded s t n p h i =
    grow s t i (ground arith) (ground arith) (λ id g. ground arith)

apply_proposal-IsRecorded :
    (s t : AgentRunState) (n : ℕ) (p : Payload)
    → apply_proposal s n p ≡ ok t
    → IsRecorded s
    → IsRecorded t
unfolding apply_proposal
apply_proposal-IsRecorded s t n p h i = grow s t i (ground arith) (ground arith) (λ id g.
    elim (Option-cases (text "invocation_id" p)) [
      | inl e ↦ ground arith
      | inr (j, e) ↦ ground (arith, put-proposed s j id ToolLifecycle.proposed)
    ])

apply_tool_transition-IsRecorded :
    (s t : AgentRunState) (n : ℕ) (p : Payload)
    → apply_tool_transition s n p ≡ ok t
    → IsRecorded s
    → IsRecorded t
unfolding apply_tool_transition
apply_tool_transition-IsRecorded s t n p h i = grow s t i (ground arith) (ground arith) (λ id g.
    elim (Option-cases (text "invocation_id" p)) [
      | inl e ↦ ground arith
      | inr (j, e) ↦ elim (Option-cases (text "target" p)) [
        | inl f ↦ ground arith
        | inr (name, f) ↦ elim (Option-cases (tool_lifecycle name)) [
          | inl a ↦ ground arith
          | inr (x, a) ↦ ground (arith, put-proposed s j id x)
        ]
      ]
    ])

apply_kind-IsRecorded :
    (k : EventKind) (s t : AgentRunState) (p : Payload)
    → (needs_proposal k && not (proposed_in s (text "invocation_id" p))) ≡ false
    → apply_kind k s (text "invocation_id" p) p ≡ ok t
    → IsRecorded s
    → IsRecorded t
unfolding apply_kind needs_proposal proposed_in
apply_kind-IsRecorded dispatch_started s t p g h i = record {
  results_dispatched = λ id r. elim (Option-cases (text "invocation_id" p)) [
    | inl e ↦ ground arith
    | inr (j, e) ↦
        ground (arith, i.results_dispatched id, member-cons id j s.dispatched_invocations)
  ];
  dispatched_proposed = λ id r. elim (Option-cases (text "invocation_id" p)) [
    | inl e ↦ ground arith
    | inr (j, e) ↦
        ground (arith, i.dispatched_proposed id, member-cons id j s.dispatched_invocations)
  ];
  results_once = ground (arith, i.results_once);
  dispatched_once = ground (arith, i.dispatched_once);
}
apply_kind-IsRecorded result_recorded s t p g h i = record {
  results_dispatched = λ id r. elim (Option-cases (text "invocation_id" p)) [
    | inl e ↦ ground arith
    | inr (j, e) ↦ ground (arith, i.results_dispatched id, member-cons id j s.terminal_results)
  ];
  dispatched_proposed = λ id r. ground (arith, i.dispatched_proposed id);
  results_once = ground (arith, i.results_once);
  dispatched_once = ground (arith, i.dispatched_once);
}
apply_kind-IsRecorded k s t p g h i =
    grow s t i (ground arith) (ground arith) (λ id g. ground arith)

check_record-proposed :
    (k : EventKind) (s : AgentRunState) (p : Payload) (id : String)
    → check_record k s p ≡ ok id
    → (needs_proposal k && not (proposed_in s (text "invocation_id" p))) ≡ false
unfolding check_record
check_record-proposed k s p id h = ground arith

apply_record-IsRecorded :
    (k : EventKind) (s t : AgentRunState) (n : ℕ) (p : Payload)
    → apply_record k s n p ≡ ok t
    → IsRecorded s
    → IsRecorded t
unfolding apply_record
apply_record-IsRecorded k s t n p h i =
    let (id, u, g, q, same) =
      chain-ok (check_record k s p) (apply_kind k s (text "invocation_id" p) p)
        (λ i u. record u { h1_records = Dict.put String_discrete i p u.h1_records; version = n })
        h in
    let j = apply_kind-IsRecorded k s u p (check_record-proposed k s p id g) q i in
    subst IsRecorded (sym same) (record {
      results_dispatched = j.results_dispatched;
      dispatched_proposed = j.dispatched_proposed;
      results_once = j.results_once;
      dispatched_once = j.dispatched_once;
    })

module _ (has_attribute : String → Bool) where
  apply_budget-IsRecorded :
      (s t : AgentRunState) (n : ℕ) (p : Payload)
      → apply_budget has_attribute s n p ≡ ok t
      → IsRecorded s
      → IsRecorded t
  unfolding apply_budget consume
  apply_budget-IsRecorded s t n p h i =
      grow s t i (ground arith) (ground arith) (λ id g. ground arith)

  apply_event-IsRecorded :
      (k : EventKind) (s t : AgentRunState) (n : ℕ) (p : Payload)
      → apply_event has_attribute k s n p ≡ ok t
      → IsRecorded s
      → IsRecorded t
  unfolding apply_event
  apply_event-IsRecorded run_transition s t n p h = apply_transition-IsRecorded s t n p h
  apply_event-IsRecorded tool_proposed s t n p h = apply_proposal-IsRecorded s t n p h
  apply_event-IsRecorded tool_transition s t n p h = apply_tool_transition-IsRecorded s t n p h
  apply_event-IsRecorded budget_consumed s t n p h = apply_budget-IsRecorded s t n p h
  apply_event-IsRecorded run_created s t n p h = absurd (ground arith)
  apply_event-IsRecorded k s t n p h = apply_record-IsRecorded k s t n p h

  replay_from-IsRecorded :
      (s t : AgentRunState) (n : ℕ) (es : List AgentEvent)
      → replay_from has_attribute s n es ≡ ok t
      → IsRecorded s
      → IsRecorded t
  unfolding replay_from
  replay_from-IsRecorded s t n [] h i = subst IsRecorded (ground arith) i
  replay_from-IsRecorded s t n (e ∷ es) h i =
      elim (Result-cases (apply_event has_attribute e.event_kind s n e.payload)) [
        | inl (x, p) ↦ absurd (ground arith)
        | inr (u, p) ↦
            replay_from-IsRecorded u t (suc n) es (ground arith)
              (apply_event-IsRecorded e.event_kind s u n e.payload p i)
      ]

  create-IsRecorded :
      (r : String) (n : ℕ) (p : Payload) (t : AgentRunState) → create r n p ≡ ok t → IsRecorded t
  unfolding create
  create-IsRecorded r n p t h = record {
    results_dispatched = λ id g. ground (arith, member-nil id);
    dispatched_proposed = λ id g. ground (arith, member-nil id);
    results_once = ground arith;
    dispatched_once = ground arith;
  }

  -- In every run that replay accepts, a result is recorded only for an invocation that was
  -- dispatched, an invocation is dispatched only after it was proposed, and each at most once.
  pub replay-IsRecorded :
      (r : String) (es : List AgentEvent) (t : AgentRunState)
      → replay has_attribute r es ≡ ok t
      → IsRecorded t
  unfolding replay
  replay-IsRecorded r [] t h = absurd (ground arith)
  replay-IsRecorded r (e ∷ es) t h = elim (Result-cases (create r 1 e.payload)) [
    | inl (x, p) ↦ absurd (ground arith)
    | inr (s, p) ↦
        replay_from-IsRecorded s t 2 es (ground arith) (create-IsRecorded r 1 e.payload s p)
  ]

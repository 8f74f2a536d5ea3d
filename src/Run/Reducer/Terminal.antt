-- ===== src/Run/Reducer/Terminal.antt =====
-- The lifecycle of a replayed run: agent_runtime/reducer.py.
use llama.Prelude.{
  ℕ, suc, Bool, true, false, List, [], ◌∷◌, Option, String, ok, chain-ok, String_discrete,
  Result-cases, inl, inr, ap, ◌∙◌, ◌≡◌, arith,
}
use llama.Prelude.Dict
use llama.Run.Payload.{Payload, text}
use llama.Run.Lifecycle.{RunLifecycle, is_terminal}
use llama.Run.Lifecycle
use llama.Run.State.{
  Category, EventKind, run_created, run_transition, tool_proposed, tool_transition, budget_consumed,
  AgentEvent, AgentRunState,
}
use llama.Run.Reducer.{
  apply_transition, apply_proposal, apply_tool_transition, consume, apply_budget, apply_kind,
  apply_record, check_record, apply_event, replay_from,
}

-- No row of the table starts in a terminal lifecycle.
pub run_transition-is_terminal :
    (a b : RunLifecycle) → is_terminal a ≡ true → Lifecycle.run_transition a b ≡ false
unfolding Lifecycle.run_transition
run_transition-is_terminal a b p = ground arith

abbrev pub Advances : AgentRunState → AgentRunState → Type 0
Advances s t = is_terminal s.lifecycle ≡ true → t.lifecycle ≡ s.lifecycle

consume-Advances :
    (s t : AgentRunState) (n : ℕ) (c : String) (k : Category) (m : ℕ) (b : Bool)
    → consume s n c k m b ≡ ok t
    → Advances s t
unfolding consume
consume-Advances s t n c k m b h l = ground arith

apply_transition-Advances :
    (s t : AgentRunState) (n : ℕ) (p : Payload) → apply_transition s n p ≡ ok t → Advances s t
unfolding apply_transition
apply_transition-Advances s t n p h l = ground (arith, run_transition-is_terminal s.lifecycle)

apply_proposal-Advances :
    (s t : AgentRunState) (n : ℕ) (p : Payload) → apply_proposal s n p ≡ ok t → Advances s t
unfolding apply_proposal
apply_proposal-Advances s t n p h l = ground arith

apply_tool_transition-Advances :
    (s t : AgentRunState) (n : ℕ) (p : Payload) → apply_tool_transition s n p ≡ ok t → Advances s t
unfolding apply_tool_transition
apply_tool_transition-Advances s t n p h l = ground arith

apply_kind-lifecycle :
    (k : EventKind) (s t : AgentRunState) (o : Option String) (p : Payload)
    → apply_kind k s o p ≡ ok t
    → t.lifecycle ≡ s.lifecycle
unfolding apply_kind
apply_kind-lifecycle k s t o p h = ground arith

apply_record-lifecycle :
    (k : EventKind) (s t : AgentRunState) (n : ℕ) (p : Payload)
    → apply_record k s n p ≡ ok t
    → t.lifecycle ≡ s.lifecycle
unfolding apply_record
apply_record-lifecycle k s t n p h =
    let (id, u, _, q, same) =
      chain-ok (check_record k s p) (apply_kind k s (text "invocation_id" p) p)
        (λ i u. record u { h1_records = Dict.put String_discrete i p u.h1_records; version = n })
        h in
    ap (λ v. v.lifecycle) same ∙ apply_kind-lifecycle k s u (text "invocation_id" p) p q

module _ (has_attribute : String → Bool) where
  apply_budget-Advances :
      (s t : AgentRunState) (n : ℕ) (p : Payload)
      → apply_budget has_attribute s n p ≡ ok t
      → Advances s t
  unfolding apply_budget
  apply_budget-Advances s t n p h l = ground (arith, consume-Advances s t)

  pub apply_event-Advances :
      (k : EventKind) (s t : AgentRunState) (n : ℕ) (p : Payload)
      → apply_event has_attribute k s n p ≡ ok t
      → Advances s t
  unfolding apply_event
  apply_event-Advances run_transition s t n p h = apply_transition-Advances s t n p h
  apply_event-Advances tool_proposed s t n p h = apply_proposal-Advances s t n p h
  apply_event-Advances tool_transition s t n p h = apply_tool_transition-Advances s t n p h
  apply_event-Advances budget_consumed s t n p h = apply_budget-Advances s t n p h
  apply_event-Advances run_created s t n p h = absurd (ground arith)
  apply_event-Advances k s t n p h = λ l. apply_record-lifecycle k s t n p h

  -- Once the lifecycle of a run is terminal, no further events that replay accepts change it.
  pub replay_from-is_terminal :
      (s t : AgentRunState) (n : ℕ) (es : List AgentEvent)
      → replay_from has_attribute s n es ≡ ok t
      → is_terminal s.lifecycle ≡ true
      → t.lifecycle ≡ s.lifecycle
  unfolding replay_from
  replay_from-is_terminal s t n [] h l = ground arith
  replay_from-is_terminal s t n (e ∷ es) h l =
      elim (Result-cases (apply_event has_attribute e.event_kind s n e.payload)) [
        | inl (x, p) ↦ absurd (ground arith)
        | inr (u, p) ↦
            let q = apply_event-Advances e.event_kind s u n e.payload p l in
            replay_from-is_terminal u t (suc n) es (ground arith) (ap is_terminal q ∙ l) ∙ q
      ]

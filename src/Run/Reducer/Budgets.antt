-- ===== src/Run/Reducer/Budgets.antt =====
-- The budgets and the version of a replayed run: agent_runtime/reducer.py.
use llama.Prelude.{
  ℕ, suc, ◌+◌, Bool, List, [], ◌∷◌, Option, none, some, String, ok, Result-cases, Option-cases,
  chain-ok, inl, inr, ap, ◌∙◌, ◌≡◌, arith, ite, sum_by, length, String_discrete,
}
use llama.Prelude.Dict
use llama.Run.Payload.{Payload, text, count, truthy}
use llama.Run.State.{
  Category, Category-discrete, EventKind, run_created, run_transition, tool_proposed,
  tool_transition, budget_consumed, AgentEvent, AgentRunState, set_budget, category_of,
}
use llama.Run.Reducer.{
  apply_transition, apply_proposal, apply_tool_transition, consume, apply_budget, apply_kind,
  apply_record, check_record, apply_event, replay_from, create, replay,
}

abbrev charge_of : Option String → Option ℕ → Category → ℕ
charge_of (some name) (some n) k = elim (category_of name) [
  | none ↦ 0
  | some j ↦ ite (Category-discrete j k) n 0
]
charge_of _ _ k = 0

-- What an event of a payload takes from the budget of a category.
pub charge : Category → EventKind → Payload → ℕ
charge k budget_consumed p = charge_of (text "category" p) (count "amount" p) k
charge k _ p = 0

-- What the events take from it together.
pub spent : Category → List AgentEvent → ℕ
spent k es = sum_by (λ e. charge k e.event_kind e.payload) es

consume-remaining :
    (s t : AgentRunState) (n : ℕ) (c : String) (j k : Category) (m : ℕ) (b : Bool)
    → consume s n c j m b ≡ ok t
    → t.budgets.remaining k + ite (Category-discrete j k) m 0 ≡ s.budgets.remaining k
unfolding consume set_budget
consume-remaining s t n c j k m b h = elim (Category-discrete j k) [
  | yes p ↦ ground arith
  | no p ↦ ground arith
]

consume-version :
    (s t : AgentRunState) (n : ℕ) (c : String) (j : Category) (m : ℕ) (b : Bool)
    → consume s n c j m b ≡ ok t
    → t.version ≡ n
unfolding consume
consume-version s t n c j m b h = ground arith

charge_of-some :
    (o : Option String) (a : Option ℕ) (name : String) (m : ℕ) (j k : Category)
    → o ≡ some name
    → a ≡ some m
    → category_of name ≡ some j
    → charge_of o a k ≡ ite (Category-discrete j k) m 0
charge_of-some o a name m j k p q r = ground arith

kept :
    (s t : AgentRunState) (n : ℕ) (j : Category)
    → (t.budgets ≡ s.budgets) × (t.version ≡ n)
    → (t.budgets.remaining j + 0 ≡ s.budgets.remaining j) × (t.version ≡ n)
kept s t n j (p, q) = (omega (arith, ap (λ b. b.remaining j) p), q)

apply_kind-remaining :
    (k : EventKind) (s t : AgentRunState) (o : Option String) (p : Payload)
    → apply_kind k s o p ≡ ok t
    → (t.budgets ≡ s.budgets)
unfolding apply_kind
apply_kind-remaining k s t o p h = ground arith

apply_record-budgets :
    (k : EventKind) (s t : AgentRunState) (n : ℕ) (p : Payload)
    → apply_record k s n p ≡ ok t
    → (t.budgets ≡ s.budgets) × (t.version ≡ n)
unfolding apply_record
apply_record-budgets k s t n p h =
    let (id, u, _, q, same) =
      chain-ok (check_record k s p) (apply_kind k s (text "invocation_id" p) p)
        (λ i u. record u { h1_records = Dict.put String_discrete i p u.h1_records; version = n })
        h in
    (
      ap (λ v. v.budgets) same ∙ apply_kind-remaining k s u (text "invocation_id" p) p q,
      ap (λ v. v.version) same,
    )

apply_transition-budgets :
    (s t : AgentRunState) (n : ℕ) (p : Payload)
    → apply_transition s n p ≡ ok t
    → (t.budgets ≡ s.budgets) × (t.version ≡ n)
unfolding apply_transition
apply_transition-budgets s t n p h = (ground arith, ground arith)

apply_proposal-budgets :
    (s t : AgentRunState) (n : ℕ) (p : Payload)
    → apply_proposal s n p ≡ ok t
    → (t.budgets ≡ s.budgets) × (t.version ≡ n)
unfolding apply_proposal
apply_proposal-budgets s t n p h = (ground arith, ground arith)

apply_tool_transition-budgets :
    (s t : AgentRunState) (n : ℕ) (p : Payload)
    → apply_tool_transition s n p ≡ ok t
    → (t.budgets ≡ s.budgets) × (t.version ≡ n)
unfolding apply_tool_transition
apply_tool_transition-budgets s t n p h = (ground arith, ground arith)

module _ (has_attribute : String → Bool) where
  -- What an accepted budget event has passed to `consume`.
  apply_budget-consume :
      (s t : AgentRunState) (n : ℕ) (p : Payload)
      → apply_budget has_attribute s n p ≡ ok t
      → (c : String) × (name : String) × (j : Category) × (m : ℕ) × (text "category" p ≡ some name)
        × (count "amount" p ≡ some m)
        × (category_of name ≡ some j)
        × (consume s n c j m (truthy "terminalize" p) ≡ ok t)
  unfolding apply_budget
  apply_budget-consume s t n p h = elim (Option-cases (text "category" p)) [
    | inl e ↦ absurd (ground arith)
    | inr (name, e) ↦ elim (Option-cases (count "amount" p)) [
      | inl f ↦ absurd (ground arith)
      | inr (m, f) ↦ elim (Option-cases (category_of name)) [
        | inl g ↦ absurd (ground arith)
        | inr (j, g) ↦ elim (Option-cases (text "claim_id" p)) [
          | inl a ↦ absurd (ground arith)
          | inr (c, a) ↦ (c, name, j, m, e, f, g, ground arith)
        ]
      ]
    ]
  ]

  apply_event-charge :
      (k : EventKind) (s t : AgentRunState) (n : ℕ) (p : Payload) (j : Category)
      → apply_event has_attribute k s n p ≡ ok t
      → (t.budgets.remaining j + charge j k p ≡ s.budgets.remaining j) × (t.version ≡ n)
  unfolding apply_event charge
  apply_event-charge run_created s t n p j h = absurd (ground arith)
  apply_event-charge run_transition s t n p j h = kept s t n j (apply_transition-budgets s t n p h)
  apply_event-charge tool_proposed s t n p j h = kept s t n j (apply_proposal-budgets s t n p h)
  apply_event-charge tool_transition s t n p j h =
      kept s t n j (apply_tool_transition-budgets s t n p h)
  apply_event-charge budget_consumed s t n p j h =
      let (c, name, k, m, e, f, g, q) = apply_budget-consume s t n p h in
      let r = consume-remaining s t n c k j m (truthy "terminalize" p) q in
      (
        ap (λ x. t.budgets.remaining j + x)
              (charge_of-some (text "category" p) (count "amount" p) name m k j e f g)
            ∙ r,
        consume-version s t n c k m (truthy "terminalize" p) q,
      )
  apply_event-charge k s t n p j h = kept s t n j (apply_record-budgets k s t n p h)

  -- Over the events that replay accepts, what remains of each budget and what the events spent add
  -- up to what there was before, so no budget is overdrawn.
  pub replay_from-spent :
      (s t : AgentRunState) (n : ℕ) (es : List AgentEvent) (k : Category)
      → replay_from has_attribute s n es ≡ ok t
      → t.budgets.remaining k + spent k es ≡ s.budgets.remaining k
  unfolding replay_from spent sum_by
  replay_from-spent s t n [] k h = ground arith
  replay_from-spent s t n (e ∷ es) k h =
      elim (Result-cases (apply_event has_attribute e.event_kind s n e.payload)) [
        | inl (x, p) ↦ absurd (ground arith)
        | inr (u, p) ↦
            let rest = replay_from-spent u t (suc n) es k (ground arith) in
            let step = (apply_event-charge e.event_kind s u n e.payload k p).0 in
            omega (arith, rest, step)
      ]

  replay_from-version :
      (s t : AgentRunState) (n : ℕ) (es : List AgentEvent)
      → suc s.version ≡ n
      → replay_from has_attribute s n es ≡ ok t
      → t.version ≡ s.version + length es
  unfolding replay_from
  replay_from-version s t n [] v h = ground arith
  replay_from-version s t n (e ∷ es) v h =
      elim (Result-cases (apply_event has_attribute e.event_kind s n e.payload)) [
        | inl (x, p) ↦ absurd (ground arith)
        | inr (u, p) ↦
            let step = (apply_event-charge e.event_kind s u n e.payload Category.turns p).1 in
            let rest = replay_from-version u t (suc n) es (ap suc step) (ground arith) in
            omega (arith, rest, step, v)
      ]

  create-version :
      (r : String) (n : ℕ) (p : Payload) (t : AgentRunState) → create r n p ≡ ok t → t.version ≡ n
  unfolding create
  create-version r n p t h = ground arith

  -- The version of a run that replay accepts is the number of its events.
  pub replay-version :
      (r : String) (es : List AgentEvent) (t : AgentRunState)
      → replay has_attribute r es ≡ ok t
      → t.version ≡ length es
  unfolding replay
  replay-version r [] t h = absurd (ground arith)
  replay-version r (e ∷ es) t h = elim (Result-cases (create r 1 e.payload)) [
    | inl (x, p) ↦ absurd (ground arith)
    | inr (s, p) ↦
        let v = create-version r 1 e.payload s p in
        let rest = replay_from-version s t 2 es (ap suc v) (ground arith) in omega (arith, v, rest)
  ]

-- ===== src/Scheduler/Budgets.antt =====
-- The token budgets of the batches of inference_runtime/continuous_scheduler.py.
use native.Mathlib.Nat.{mul-div-le, le-div_iff_mul-le}
use llama.Prelude.{
  ℕ, zero, suc, ◌+◌, ◌-◌, ◌*◌, ◌/◌, ◌≤◌, min, max, List, [], ◌∷◌, none, some, Option-cases, inl,
  inr, ◌≡◌, sym, length, sum_by, arith, All, Result, ok, err, Result-cases, String, true,
}
use llama.Governance.Policy.{Error}
use llama.Contracts.Sequences.{SequenceStep}
use llama.Scheduler.State.{RuntimeRequestState, RequestEntry, Scheduler}
use llama.Scheduler.Queues.{take_state, pop_state}
use llama.Scheduler.Batches.{allot, start_prefill, prefill_from}
use llama.Scheduler.Decoding.{decode_steps, quantum, start_decode, decode_from}

mul-ge : (n q : ℕ) → 1 ≤ q → n ≤ n * q
mul-ge n q h = grind arith

mul-le : (n a b : ℕ) → a ≤ b → n * a ≤ n * b
mul-le n a b h = grind arith

-- An equal share of what remains leaves at least one token for each other entry.
share-le : (n r : ℕ) → suc n ≤ r → (max 1 (r / suc n) ≤ r) × (n ≤ r - max 1 (r / suc n))
share-le n r h =
    let a : 1 ≤ r / suc n =
      (le-div_iff_mul-le {k = suc n} {x = 1} {y = r} (omega arith)).1 (omega arith) in
    let b = mul-div-le r (suc n) in
    let c = mul-ge n (r / suc n) a in
    let d : suc n * (r / suc n) ≡ n * (r / suc n) + r / suc n = grind arith in
    (omega arith, omega arith)

share-min-le :
    (per n r : ℕ)
    → suc n ≤ r
    → (min per (max 1 (r / max 1 (suc n))) ≤ r) × (n ≤ r - min per (max 1 (r / max 1 (suc n))))
share-min-le per n r h =
    let e : max 1 (suc n) ≡ suc n = omega arith in
    let i = share-le n r h in rw e (omega arith, omega arith)

abbrev pub budget_of : RequestEntry × SequenceStep → ℕ
budget_of p = p.1.token_budget

pub allot-le :
    (per_step r : ℕ) (es : List RequestEntry)
    → length es ≤ r
    → (sum_by budget_of (allot per_step r es) ≤ r) × (length (allot per_step r es) ≤ length es)
unfolding allot sum_by
allot-le per_step r [] h = (omega arith, omega arith)
allot-le per_step r (e ∷ es) h =
    let s = share-min-le per_step (length es) r h in
    elim (Option-cases e.handle) [
      | inl p ↦ let i = allot-le per_step r es (omega arith) in rw p (i.0, omega (arith, i.1))
      | inr (g, p) ↦
          let i =
            allot-le per_step (r - min per_step (max 1 (r / max 1 (suc (length es))))) es s.1 in
          rw p (omega (arith, i.0, s.0), omega (arith, i.1))
    ]

abbrev pub IsShare : ℕ → RequestEntry × SequenceStep → Type 0
IsShare per_step p = (1 ≤ budget_of p) × (budget_of p ≤ per_step)

pub allot-All :
    (per_step r : ℕ) (es : List RequestEntry)
    → 1 ≤ per_step
    → All (IsShare per_step) (allot per_step r es)
unfolding allot
allot-All per_step r [] h = tt
allot-All per_step r (e ∷ es) h = elim (Option-cases e.handle) [
  | inl p ↦ rw p (allot-All per_step r es h)
  | inr (g, p) ↦ rw p (
    (omega arith, omega arith),
    allot-All per_step (r - min per_step (max 1 (r / max 1 (suc (length es))))) es h,
  )
]

abbrev pub Short : ℕ → Result Error (List RequestEntry) → Type 0
Short n (err x) = Unit
Short n (ok es) = length es ≤ n

add_taken-Short :
    (n : ℕ) (e : RequestEntry) (r : Result Error (List RequestEntry))
    → Short n r
    → Short (suc n) (elim r [ err x ↦ err x | ok es ↦ ok (e ∷ es) ])
add_taken-Short n e (err x) h = tt
add_taken-Short n e (ok es) h = omega arith

pub take_state-Short :
    (n : ℕ) (s : Scheduler) (queue : List String) (state : RuntimeRequestState) (now : ℕ)
    → Short n (take_state n s queue state now).taken
unfolding take_state
take_state-Short zero s queue state now = omega arith
take_state-Short (suc n) s queue state now =
    let p = pop_state s queue state (λ e. true) now in
    elim (Result-cases p.taken) [
      | inl (x, q) ↦ rw (q, Short) tt
      | inr (none, q) ↦ rw (q, Short) (omega arith)
      | inr (some e, q) ↦
          rw (q, Short)
            (add_taken-Short n e _
              (take_state-Short n (record s { selector = p.selector }) p.queue state now))
    ]

module _ (s : Scheduler) (steps : List (RequestEntry × SequenceStep)) where
  abbrev Fits : Type 0
  Fits =
      (length steps ≤ s.config.max_sequences_per_step)
      × (sum_by budget_of steps ≤ s.config.tick_token_budget)
      × All (IsShare s.config.max_prefill_tokens_per_step) steps

  prefill_from-Fits :
      (r : Result Error (List RequestEntry))
      → s.config.max_sequences_per_step ≤ s.config.tick_token_budget
      → 1 ≤ s.config.max_prefill_tokens_per_step
      → Short s.config.max_sequences_per_step r
      → (prefill_from s r).1 ≡ ok steps
      → Fits
  prefill_from-Fits (err x) h k l q = absurd (ground arith)
  prefill_from-Fits (ok es) h k l q =
      let e : allot s.config.max_prefill_tokens_per_step s.config.tick_token_budget es ≡ steps =
        ground arith in
      let i =
        allot-le s.config.max_prefill_tokens_per_step s.config.tick_token_budget es (omega arith) in
      rw (sym e) (
        omega (arith, i.1),
        i.0,
        allot-All s.config.max_prefill_tokens_per_step s.config.tick_token_budget es k,
      )

-- The batch of prefill steps that a tick sends fits the limits of the backend and the budget of the
-- tick, when the budget covers one token for each sequence of a step: at most `max_sequences_per_step`
-- steps, each of at least one token and at most `max_prefill_tokens_per_step`, and no more tokens
-- together than `tick_token_budget`.
pub start_prefill-Fits :
    (s : Scheduler) (now : ℕ) (steps : List (RequestEntry × SequenceStep))
    → s.config.max_sequences_per_step ≤ s.config.tick_token_budget
    → 1 ≤ s.config.max_prefill_tokens_per_step
    → (start_prefill s now).1 ≡ ok steps
    → (length steps ≤ s.config.max_sequences_per_step)
      × (sum_by budget_of steps ≤ s.config.tick_token_budget)
      × All (IsShare s.config.max_prefill_tokens_per_step) steps
unfolding start_prefill
start_prefill-Fits s now steps h k q =
    let t =
      take_state s.config.max_sequences_per_step s s.prefill_ids RuntimeRequestState.prefill now in
    prefill_from-Fits (record s { selector = t.selector; prefill_ids = t.queue }) steps t.taken h k
      (take_state-Short s.config.max_sequences_per_step s s.prefill_ids RuntimeRequestState.prefill
        now)
      q

-- The same for decode steps, which have one budget for all
decode_steps-le :
    (budget : ℕ) (es : List RequestEntry)
    → sum_by (λ t. t.token_budget) (decode_steps budget es) ≤ length es * budget
unfolding decode_steps sum_by
decode_steps-le budget [] = omega arith
decode_steps-le budget (e ∷ es) = elim (Option-cases e.handle) [
  | inl p ↦ let i = decode_steps-le budget es in rw p (grind arith)
  | inr (g, p) ↦ let i = decode_steps-le budget es in rw p (grind arith)
]

quantum-le :
    (s : Scheduler) (n : ℕ)
    → n ≤ s.config.tick_token_budget
    → n * quantum s n ≤ s.config.tick_token_budget
unfolding quantum
quantum-le s zero h = omega arith
quantum-le s (suc n) h =
    let r = s.config.tick_token_budget in
    let e : max 1 (suc n) ≡ suc n = omega arith in
    let a : 1 ≤ r / suc n =
      (le-div_iff_mul-le {k = suc n} {x = 1} {y = r} (omega arith)).1 (omega arith) in
    let f : max 1 (r / suc n) ≡ r / suc n = omega arith in
    let m =
      mul-le (suc n) (min s.config.max_decode_tokens_per_step (r / suc n)) (r / suc n)
        (omega arith) in
    let b = mul-div-le r (suc n) in rw (e, f) (omega (arith, m, b))

length-decode_steps-le :
    (budget : ℕ) (es : List RequestEntry) → length (decode_steps budget es) ≤ length es
unfolding decode_steps
length-decode_steps-le budget [] = omega arith
length-decode_steps-le budget (e ∷ es) = elim (Option-cases e.handle) [
  | inl p ↦ let i = length-decode_steps-le budget es in rw p (omega (arith, i))
  | inr (g, p) ↦ let i = length-decode_steps-le budget es in rw p (omega (arith, i))
]

module _ (s : Scheduler) (es : List RequestEntry) (steps : List SequenceStep) where
  abbrev Covered : Type 0
  Covered =
      (length steps ≤ s.config.max_sequences_per_step)
      × (length steps ≤ length es)
      × (sum_by (λ t. t.token_budget) steps ≤ s.config.tick_token_budget)

  decode_from-Covered :
      (r : Result Error (List RequestEntry))
      → Short (min s.config.max_sequences_per_step s.config.tick_token_budget) r
      → (decode_from s r).1 ≡ ok (es, steps)
      → Covered
  decode_from-Covered (err x) l q = absurd (ground arith)
  decode_from-Covered (ok ds) l q =
      let d : ds ≡ es = ground arith in
      let e : decode_steps (quantum s (length ds)) ds ≡ steps = ground arith in
      let i = length-decode_steps-le (quantum s (length ds)) ds in
      let j = decode_steps-le (quantum s (length ds)) ds in
      let k = quantum-le s (length ds) (omega arith) in
      rw (sym e, sym d) (omega (arith, i, l), i, omega (arith, j, k))

-- The batch of decode steps that a tick sends has at most `max_sequences_per_step` steps, at most one
-- for each entry taken, and no more tokens together than `tick_token_budget`.
pub start_decode-Covered :
    (s : Scheduler) (now : ℕ) (es : List RequestEntry) (steps : List SequenceStep)
    → (start_decode s now).1 ≡ ok (es, steps)
    → (length steps ≤ s.config.max_sequences_per_step)
      × (length steps ≤ length es)
      × (sum_by (λ t. t.token_budget) steps ≤ s.config.tick_token_budget)
unfolding start_decode
start_decode-Covered s now es steps q =
    let n = min s.config.max_sequences_per_step s.config.tick_token_budget in
    let t = take_state n s s.decode_ids RuntimeRequestState.decode now in
    decode_from-Covered (record s { selector = t.selector; decode_ids = t.queue }) es steps t.taken
      (take_state-Short n s s.decode_ids RuntimeRequestState.decode now) q

-- ===== src/Scheduler/Ready.antt =====
-- A scheduler that its constructor makes: inference_runtime/continuous_scheduler.py.
use native.Mathlib.Nat.{div-le_self, div-le_of_le-mul}
use llama.Prelude.{
  false, ltb, ◌==◌, ℕ, ◌*◌, ◌/◌, ◌≤◌, ◌≡◌, refl, max, true, [], Option, some, none, ok, arith,
}
use llama.Governance.Policy.{RuntimeSchedulingPolicy}
use llama.Governance.Admission.{AdmissionLimits, check_limits}
use llama.Contracts.Capabilities.{BackendCapabilities, check_capabilities}
use llama.Contracts.Agreement.{check_capabilities-Agrees, step_limits-some}
use llama.Scheduler.State.{Scheduler}
use llama.Scheduler.Setup.{default_limits, create, check_backend, fresh_scheduler}

-- Limits that fit each other
record Fit (l : AdmissionLimits) : Type 0 where
  pending : 1 ≤ l.max_pending
  tokens : 1 ≤ l.kv_token_budget
  workflow_pending : 1 ≤ l.max_pending_per_workflow
  agent_pending : 1 ≤ l.max_pending_per_agent
  agent_sequences : 1 ≤ l.max_sequences_per_agent
  agent_tokens : 1 ≤ l.max_kv_tokens_per_agent
  threshold : 1 ≤ l.load_shed_pending_threshold
  sequences_below : l.max_sequences_per_workflow ≤ l.max_sequences
  agent_below : l.max_sequences_per_agent ≤ l.max_sequences_per_workflow
  tokens_below : l.max_kv_tokens_per_workflow ≤ l.kv_token_budget
  agent_tokens_below : l.max_kv_tokens_per_agent ≤ l.max_kv_tokens_per_workflow
  threshold_below : l.load_shed_pending_threshold ≤ l.max_pending

Fit-check_limits : (l : AdmissionLimits) → Fit l → check_limits l ≡ ok tt
unfolding check_limits
Fit-check_limits l f =
    let a = f.pending in
    let b = f.tokens in
    let c = f.workflow_pending in
    let d = f.agent_pending in
    let e = f.agent_sequences in
    let g = f.agent_tokens in
    let h = f.threshold in
    let i = f.sequences_below in
    let j = f.agent_below in
    let k = f.tokens_below in
    let m = f.agent_tokens_below in let n = f.threshold_below in ground arith

mul_pos : (a b : ℕ) → 1 ≤ a → 1 ≤ b → 1 ≤ a * b
mul_pos a b h k = grind arith

mul_mono : (a b c : ℕ) → b ≤ c → a * b ≤ a * c
mul_mono a b c h = grind arith

-- What a manifest says of the tokens of the cache, if there is one
abbrev pub IsPositive : Option ℕ → Type 0
IsPositive none = Unit
IsPositive (some n) = 1 ≤ n

-- What the constructor derives for a backend with at least one sequence and a context
default_limits-Fit :
    (c : BackendCapabilities) (kv_tokens : Option ℕ) (n pending : ℕ)
    → IsPositive kv_tokens
    → 1 ≤ pending
    → 1 ≤ c.max_context_tokens
    → 1 ≤ n
    → c.max_concurrent_sequences ≡ some n
    → Fit (default_limits c kv_tokens pending)
unfolding default_limits
default_limits-Fit c none n pending v p q r h =
    let half = div-le_self n 2 in
    let few = div-le_of_le-mul 4 {m = pending * 3} {n = pending} (omega arith) in
    let whole = mul_pos c.max_context_tokens n q r in
    let part = mul_pos c.max_context_tokens (max 1 (n / 2)) q (omega arith) in
    let below = mul_mono c.max_context_tokens (max 1 (n / 2)) n (omega arith) in
    rw h (record {
      pending = p;
      tokens = whole;
      workflow_pending = p;
      agent_pending = omega arith;
      agent_sequences = omega arith;
      agent_tokens = omega arith;
      threshold = omega arith;
      sequences_below = omega arith;
      agent_below = omega arith;
      tokens_below = omega arith;
      agent_tokens_below = omega arith;
      threshold_below = omega arith;
    })
default_limits-Fit c (some tokens) n pending v p q r h =
    let half = div-le_self n 2 in
    let few = div-le_of_le-mul 4 {m = pending * 3} {n = pending} (omega arith) in
    let whole = v in
    let part = mul_pos c.max_context_tokens (max 1 (n / 2)) q (omega arith) in
    rw h (record {
      pending = p;
      tokens = whole;
      workflow_pending = p;
      agent_pending = omega arith;
      agent_sequences = omega arith;
      agent_tokens = omega arith;
      threshold = omega arith;
      sequences_below = omega arith;
      agent_below = omega arith;
      tokens_below = omega arith;
      agent_tokens_below = omega arith;
      threshold_below = omega arith;
    })

create-fresh :
    (c : BackendCapabilities) (kv_tokens : Option ℕ) (tick pending burst b p d : ℕ)
    (policy : RuntimeSchedulingPolicy)
    → c.supports_sequence_steps ≡ true
    → c.supports_decode_batching ≡ true
    → c.max_sequences_per_step ≡ some b
    → c.max_prefill_tokens_per_step ≡ some p
    → c.max_decode_tokens_per_step ≡ some d
    → ltb b 2 ≡ false
    → (tick == 0) ≡ false
    → (pending == 0) ≡ false
    → (burst == 0) ≡ false
    → ltb tick b ≡ false
    → check_limits (default_limits c kv_tokens pending) ≡ ok tt
    → create c tick pending burst policy none kv_tokens
      ≡ ok (fresh_scheduler c b p d tick pending burst policy (default_limits c kv_tokens pending))
unfolding create check_backend
create-fresh c kv_tokens tick pending burst b p d policy steps batching sb sp sd two t q r covers
      limits =
    rw (create, check_backend, steps, batching, sb, sp, sd, two, t, q, r, covers, limits) refl

-- What the handlers count on
pub record IsReady (s : Scheduler) : Type 0 where
  pub empty : s.entries ≡ []
  pub batches : s.config.max_sequences_per_step ≤ s.config.tick_token_budget
  pub prefills : 1 ≤ s.config.max_prefill_tokens_per_step
  pub decodes : 1 ≤ s.config.max_decode_tokens_per_step
  pub opens : 1 ≤ s.config.max_concurrent_sequences

-- For a backend that batches and whose capabilities pass their checks, whose manifest, if it has one,
-- gives the cache at least one token, with a tick that has a token for every sequence of a step, and a
-- queue and a burst that are not zero, the constructor returns: the limits that it derives pass their own
-- checks. The scheduler has no request, one of its ticks covers a step, and it may open a sequence.
pub create-IsReady :
    (c : BackendCapabilities) (kv_tokens : Option ℕ) (tick pending burst batch : ℕ)
    (policy : RuntimeSchedulingPolicy)
    → check_capabilities c ≡ ok tt
    → c.supports_sequence_steps ≡ true
    → c.supports_decode_batching ≡ true
    → c.max_sequences_per_step ≡ some batch
    → batch ≤ tick
    → 1 ≤ pending
    → 1 ≤ burst
    → IsPositive kv_tokens
    → (s : Scheduler) × (create c tick pending burst policy none kv_tokens ≡ ok s) × IsReady s
create-IsReady c kv_tokens tick pending burst batch policy valid steps batching declared covers
      some_pending some_burst some_tokens =
    let agreed = check_capabilities-Agrees c valid steps in
    let l = agreed.0 in
    let d = step_limits-some _ _ _ _ l agreed.1.declared in
    let many = agreed.1.many batching in
    let same : l.batch ≡ batch = let e = d.3 in ground arith in
    let fit =
      default_limits-Fit c kv_tokens l.sequences pending some_tokens some_pending agreed.2.context
        agreed.2.sequences d.0 in
    let passes = Fit-check_limits (default_limits c kv_tokens pending) fit in
    let s =
      fresh_scheduler c l.batch l.prefill l.decode tick pending burst policy
        (default_limits c kv_tokens pending) in
    (
      s,
      create-fresh c kv_tokens tick pending burst l.batch l.prefill l.decode policy steps batching
          d.3 d.1 d.2 (ground arith) (ground arith) (ground arith) (ground arith) (ground arith)
          passes,
      record {
        empty = refl;
        batches = omega arith;
        prefills = agreed.2.prefill;
        decodes = agreed.2.decode;
        opens = rw d.0 agreed.2.sequences;
      },
    )

-- ===== src/Governance/Admission/Scopes.antt =====
-- The whole runtime, a workflow and an agent as scopes, each with its quotas, and what the
-- comprehensions of `can_activate` and `admit` count in each of them.
use llama.Prelude.{
  ℕ, ◌≡◌, ◌∙◌, Bool, true, ◌&&◌, not, List, String, String_discrete, is_yes, if◌then◌else◌, select,
  sum_by, length, sum_by-select, length-select, sum_by-cong, arith,
}
use llama.Governance.Policy.{SchedulingMetadata}
use llama.Governance.Admission.{
  AdmissionLimits, Reservation, is_active, tokens, same_workflow, same_agent,
}

pub data Scope : Type 0 where
  global : Scope
  workflow : String → Scope
  agent : String → String → Scope

abbrev pub in_scope : Scope → SchedulingMetadata → Bool
in_scope global s = true
in_scope (workflow w) s = is_yes (String_discrete s.workflow_id w)
in_scope (agent w a) s =
    is_yes (String_discrete s.workflow_id w) && is_yes (String_discrete s.agent_id a)

abbrev pub sequence_limit : AdmissionLimits → Scope → ℕ
sequence_limit l global = l.max_sequences
sequence_limit l (workflow w) = l.max_sequences_per_workflow
sequence_limit l (agent w a) = l.max_sequences_per_agent

abbrev pub kv_limit : AdmissionLimits → Scope → ℕ
kv_limit l global = l.kv_token_budget
kv_limit l (workflow w) = l.max_kv_tokens_per_workflow
kv_limit l (agent w a) = l.max_kv_tokens_per_agent

abbrev pub pending_limit : AdmissionLimits → Scope → ℕ
pending_limit l global = l.max_pending
pending_limit l (workflow w) = l.max_pending_per_workflow
pending_limit l (agent w a) = l.max_pending_per_agent

-- What one reservation adds to the sequences, the tokens and the queue of a scope.
unfoldable pub sequence_share : Scope → Reservation → ℕ
sequence_share sc r = if is_active r && in_scope sc r.scheduling then 1 else 0

unfoldable pub kv_share : Scope → Reservation → ℕ
kv_share sc r = if in_scope sc r.scheduling then tokens r else 0

unfoldable pub pending_share : Scope → Reservation → ℕ
pending_share sc r = if not (is_active r) && in_scope sc r.scheduling then 1 else 0

abbrev pub scope_of : SchedulingMetadata → Scope
scope_of s = agent s.workflow_id s.agent_id

abbrev pub running : List Reservation → List Reservation
running rs = select (λ r. is_active r) rs

abbrev pub waiting : List Reservation → List Reservation
waiting rs = select (λ r. not (is_active r)) rs

module _ (rs : List Reservation) (s : SchedulingMetadata) where
  pub running_global : length (running rs) ≡ sum_by (sequence_share global) rs
  unfolding sequence_share
  running_global = length-select _ rs ∙ sum_by-cong _ _ rs (λ r. ground arith)

  pub running_workflow :
      length (select (same_workflow s) (running rs))
      ≡ sum_by (sequence_share (workflow s.workflow_id)) rs
  unfolding sequence_share
  running_workflow =
      length-select _ (running rs) ∙ sum_by-select _ _ rs ∙ sum_by-cong _ _ rs (λ r. ground arith)

  pub running_agent :
      length (select (same_agent s) (select (same_workflow s) (running rs)))
      ≡ sum_by (sequence_share (scope_of s)) rs
  unfolding sequence_share
  running_agent =
      length-select _ (select (same_workflow s) (running rs))
      ∙ sum_by-select _ _ (running rs)
      ∙ sum_by-select _ _ rs
      ∙ sum_by-cong _ _ rs (λ r. ground arith)

  pub tokens_global : sum_by tokens (running rs) ≡ sum_by (kv_share global) rs
  unfolding kv_share
  tokens_global = sum_by-select _ _ rs ∙ sum_by-cong _ _ rs (λ r. ground arith)

  pub tokens_workflow :
      sum_by tokens (select (same_workflow s) (running rs))
      ≡ sum_by (kv_share (workflow s.workflow_id)) rs
  unfolding kv_share
  tokens_workflow =
      sum_by-select _ _ (running rs) ∙ sum_by-select _ _ rs ∙ sum_by-cong _ _ rs (λ r. ground arith)

  pub tokens_agent :
      sum_by tokens (select (same_agent s) (select (same_workflow s) (running rs)))
      ≡ sum_by (kv_share (scope_of s)) rs
  unfolding kv_share
  tokens_agent =
      sum_by-select _ _ (select (same_workflow s) (running rs))
      ∙ sum_by-select _ _ (running rs)
      ∙ sum_by-select _ _ rs
      ∙ sum_by-cong _ _ rs (λ r. ground arith)

  pub waiting_global : length (waiting rs) ≡ sum_by (pending_share global) rs
  unfolding pending_share
  waiting_global = length-select _ rs ∙ sum_by-cong _ _ rs (λ r. ground arith)

  pub waiting_workflow :
      length (select (same_workflow s) (waiting rs))
      ≡ sum_by (pending_share (workflow s.workflow_id)) rs
  unfolding pending_share
  waiting_workflow =
      length-select _ (waiting rs) ∙ sum_by-select _ _ rs ∙ sum_by-cong _ _ rs (λ r. ground arith)

  pub waiting_agent :
      length (select (λ r. same_workflow s r && same_agent s r) (waiting rs))
      ≡ sum_by (pending_share (scope_of s)) rs
  unfolding pending_share
  waiting_agent =
      length-select _ (waiting rs) ∙ sum_by-select _ _ rs ∙ sum_by-cong _ _ rs (λ r. ground arith)

-- A scope that holds a request is one of its three.
pub Scope-cases {ℓ} :
    (P : Scope → Type ℓ) (s : SchedulingMetadata)
    → P global
    → P (workflow s.workflow_id)
    → P (scope_of s)
    → (sc : Scope) → in_scope sc s ≡ true
    → P sc
Scope-cases P s g w a global h = g
Scope-cases P s g w a (workflow v) h = let e : s.workflow_id ≡ v = ground arith in rw e at w
Scope-cases P s g w a (agent v b) h =
    let e : s.workflow_id ≡ v = ground arith in
    let f : s.agent_id ≡ b = ground arith in rw (e, f) at a

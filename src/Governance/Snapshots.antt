-- ===== src/Governance/Snapshots.antt =====
-- What the admission controller reports: `ResourceAdmissionController.snapshot` of
-- inference_runtime/governance.py. The pairs of a `Counter` are not sorted.
use llama.Prelude.{
  ℕ, ◌+◌, List, [], ◌∷◌, Option, none, some, String, String_discrete, sum_by, length,
}
use llama.Prelude.Dict
use llama.Prelude.Dict.{Dict, values}
use llama.Governance.Admission.{Controller, pending, active, tokens}
use llama.Governance.Selector.Key.{Agent_discrete, agent_of}

pub record AdmissionSnapshot : Type 0 where
  pub pending_requests : ℕ
  pub active_sequences : ℕ
  pub reserved_kv_tokens : ℕ
  pub pending_by_workflow : Dict String ℕ
  pub active_by_workflow : Dict String ℕ
  pub active_by_agent : Dict (String × String) ℕ

abbrev or_zero : Option ℕ → ℕ
or_zero none = 0
or_zero (some n) = n

-- `Counter(f(x) for x in xs)`
unfoldable pub count_by : {A K : Type 0} → Discrete K → (A → K) → List A → Dict K ℕ
count_by dec f [] = []
count_by dec f (x ∷ xs) =
    let rest = count_by dec f xs in Dict.put dec (f x) (or_zero (Dict.get dec (f x) rest) + 1) rest

-- `ResourceAdmissionController.snapshot`
unfoldable pub admission_snapshot : Controller → AdmissionSnapshot
unfolding pending active count_by
admission_snapshot c = record {
  pending_requests = length (pending c);
  active_sequences = length (active c);
  reserved_kv_tokens = sum_by tokens (active c);
  pending_by_workflow = count_by String_discrete (λ r. r.scheduling.workflow_id) (pending c);
  active_by_workflow = count_by String_discrete (λ r. r.scheduling.workflow_id) (active c);
  active_by_agent = count_by Agent_discrete (λ r. agent_of r.scheduling) (active c);
}

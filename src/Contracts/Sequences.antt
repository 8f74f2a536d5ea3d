-- ===== src/Contracts/Sequences.antt =====
-- Sequence handles, steps and session snapshots: inference_runtime/contracts.py.
use llama.Prelude.{
  ℕ, Bool, List, [], ◌∷◌, Option, String, String_discrete, ℕ_discrete, is_yes, any, ltb, ◌==◌,
  length, ok, ◌>>◌, raise_if,
}
use llama.Contracts.Checks.{Check, bounded_text, positive_int, optional_positive_int}

pub record SequenceHandle : Type 0 where
  pub backend : String
  pub model : String
  pub sequence : String
  pub generation : ℕ

unfoldable pub Handle_discrete : Discrete SequenceHandle
unfolding String_discrete ℕ_discrete
Handle_discrete = hlevel (String_discrete, ℕ_discrete)

-- `SequenceHandle.__post_init__`
unfoldable pub check_handle : SequenceHandle → Check
unfolding bounded_text
check_handle h = do
  bounded_text h.backend "backend" 256
  bounded_text h.model "model" 256
  bounded_text h.sequence "sequence" 256

pub record SessionCacheControl : Type 0 where
  pub session_id : String
  pub parent_generation : Option ℕ
  pub commit : Bool

-- `SessionCacheControl.__post_init__`
unfoldable pub check_session : SessionCacheControl → Check
unfolding bounded_text optional_positive_int
check_session s = do
  bounded_text s.session_id "session_id" 256
  optional_positive_int s.parent_generation "parent_generation"

pub record SequenceStep : Type 0 where
  pub handle : SequenceHandle
  pub token_budget : ℕ

-- `SequenceStep.__post_init__`
unfoldable pub check_step : SequenceStep → Check
unfolding positive_int
check_step s = positive_int s.token_budget "token_budget"

-- The loop of `validate_sequence_batch`
unfoldable pub check_batch_steps : ℕ → List SequenceHandle → List SequenceStep → Check
check_batch_steps max_tokens handles [] = ok tt
check_batch_steps max_tokens handles (s ∷ steps) = do
  raise_if (any (λ h. is_yes (Handle_discrete h s.handle)) handles) "steps"
  raise_if (ltb max_tokens s.token_budget) "token_budget"
  check_batch_steps max_tokens (s.handle ∷ handles) steps

-- `validate_sequence_batch`
unfoldable pub check_batch : List SequenceStep → ℕ → ℕ → Check
unfolding positive_int check_batch_steps
check_batch steps max_sequences max_tokens = do
  raise_if (length steps == 0) "steps"
  positive_int max_sequences "max_sequences"
  positive_int max_tokens "max_tokens_per_step"
  raise_if (ltb max_sequences (length steps)) "steps"
  check_batch_steps max_tokens [] steps

-- ===== src/Worker/Context.antt =====
-- The budget of a context and the decoding of a prompt in batches: model_worker/context.py. A token is a
-- number. The arguments are not negative, so the test of preflight_context for that is left out.
pub mod Ingestion
use llama.Prelude.{
  ℕ, zero, suc, ◌+◌, ◌-◌, Bool, List, [], ◌∷◌, length, take, drop, Option, none, some, ◌==◌, ltb,
  Result, ok, err, ◌>>◌, ◌>>=◌, raise_if, if◌then◌else◌,
}

-- The errors of this file: a `WorkerError` by its code, and the `ValueError`
pub data ContextError : Type 0 where
  context_overflow cancelled value_error : ContextError

-- `preflight_context`
unfoldable pub preflight_context : ℕ → ℕ → ℕ → ℕ → Result ContextError ℕ
preflight_context prompt reserved n_ctx margin = do
  raise_if (ltb n_ctx (prompt + reserved + margin)) context_overflow
  ok (n_ctx - (prompt + reserved + margin))

-- The loop of `prompt_chunks` over the rest of the tokens; their number is enough fuel.
unfoldable pub slices : ℕ → ℕ → List ℕ → List (List ℕ)
slices zero n tokens = []
slices (suc k) n [] = []
slices (suc k) n (t ∷ tokens) = take n (t ∷ tokens) ∷ slices k n (drop n (t ∷ tokens))

-- `prompt_chunks`, which raises when its first chunk is asked for
unfoldable pub prompt_chunks : List ℕ → ℕ → Result ContextError (List (List ℕ))
unfolding slices
prompt_chunks tokens n_batch = do
  raise_if (n_batch == 0) value_error
  ok (slices (length tokens) n_batch tokens)

-- How a call of `decode_prompt` ends: it returns, it raises, or `decode` raises.
pub data Ending (E : Type 0) : Type 0 where
  returned : Ending E
  raised : ContextError → Ending E
  decode_raised : E → Ending E

-- The chunks whose `decode` returned, and the end of the call
pub record Ingested (E : Type 0) : Type 0 where
  pub decoded : List (List ℕ)
  pub ending : Ending E

abbrev pub after : {E : Type 0} → List ℕ → Ingested E → Option E → Ingested E
after chunk rest none = record rest { decoded = chunk ∷ rest.decoded }
after chunk rest (some e) = record { decoded = []; ending = decode_raised e }

-- `decode` and `should_stop` are arguments: what their calls answer, by the number of the call.
module _ {E : Type 0} (decode : ℕ → List ℕ → Option E) (should_stop : ℕ → Bool) where
  -- The loop of `decode_prompt`, from call `i`
  unfoldable pub ingest : ℕ → List (List ℕ) → Ingested E
  ingest i [] = record { decoded = []; ending = returned }
  ingest i (chunk ∷ chunks) =
      let rest = ingest (suc i) chunks in
      if should_stop i
      then record { decoded = []; ending = raised cancelled }
      else after chunk rest (decode i chunk)

  abbrev ingest_all : Result ContextError (List (List ℕ)) → Ingested E
  ingest_all (err x) = record { decoded = []; ending = raised x }
  ingest_all (ok chunks) = ingest 0 chunks

  -- `decode_prompt`
  unfoldable pub decode_prompt : List ℕ → ℕ → Ingested E
  unfolding prompt_chunks ingest
  decode_prompt tokens n_batch = ingest_all (prompt_chunks tokens n_batch)

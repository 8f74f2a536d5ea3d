-- ===== src/Tests/Prompts.antt =====
-- A prompt of five tokens in batches of two, cancelled before the second batch.
use llama.Prelude.{
  ℕ, ◌+◌, ◌≡◌, ◌↔◌, refl, String, Bool, List, [], ◌∷◌, Option, none, ◌==◌, ok, arith,
}
use llama.Worker.Context.{
  ContextError, Ending, slices, prompt_chunks, preflight_context, ingest, decode_prompt,
}
use llama.Worker.Context.Ingestion.{Reads, preflight_context-Fits, decode_prompt-Reads}

abbrev prompt : List ℕ
prompt = 1 ∷ 2 ∷ 3 ∷ 4 ∷ 5 ∷ []

abbrev decode : ℕ → List ℕ → Option String
decode i chunk = none

abbrev should_stop : ℕ → Bool
should_stop i = i == 1

decode_prompt-cancelled :
    decode_prompt decode should_stop prompt 2
    ≡ record { decoded = (1 ∷ 2 ∷ []) ∷ []; ending = Ending.raised ContextError.cancelled }
unfolding decode_prompt prompt_chunks slices ingest
decode_prompt-cancelled = refl

decode_prompt-Reads_example :
    Reads decode should_stop 2 0 prompt (decode_prompt decode should_stop prompt 2)
decode_prompt-Reads_example = decode_prompt-Reads decode should_stop prompt 2 (omega arith)

preflight_context-Fits_example :
    (preflight_context 3000 1000 4096 8 ≡ ok 88) ↔ (3000 + 1000 + 8 + 88 ≡ 4096)
preflight_context-Fits_example = preflight_context-Fits 3000 1000 4096 8 88

-- ===== src/Contracts/Agreement.antt =====
-- What the validators of inference_runtime/contracts.py let through.
use llama.Prelude.{
  Option, none, some, ℕ, ◌≤◌, ◌<◌, ◌≡◌, ◌≢◌, refl, sym, ap, Bool, true, false, ◌||◌, ◌&&◌, not,
  List, [], ◌∷◌, length, any, ltb, ◌==◌, inl, inr, ok, err, ◌>>◌, raise_if, Result-cases, is_yes,
  String, arith, All, if◌then◌else◌,
}
use llama.Contracts.Checks.{Check, bounded_text, positive_int, optional_positive_int}
use llama.Contracts.Capabilities.{
  BackendCapabilities, StepLimits, step_limits, check_limits, check_with_steps, check_without_steps,
  check_models, has_duplicates, check_capabilities,
}
use llama.Contracts.Sequences.{
  SequenceHandle, SequenceStep, Handle_discrete, check_batch, check_batch_steps,
}

and-then : (m k : Check) → (m >> k) ≡ ok tt → (m ≡ ok tt) × (k ≡ ok tt)
and-then (ok u) k h = (refl, h)
and-then (err x) k h = absurd (ground arith)

passes : (b : Bool) (x : String) → Path Check (raise_if b x) (ok tt) → b ≡ false
passes true x h = absurd (ground arith)
passes false x h = refl

-- The limits of the steps lie within those of the requests.
pub record Agrees (c : BackendCapabilities) (l : StepLimits) : Type 0 where
  pub declared :
      step_limits c.max_concurrent_sequences c.max_prefill_tokens_per_step
        c.max_decode_tokens_per_step c.max_sequences_per_step
      ≡ ok l
  pub prefill : l.prefill ≤ c.max_context_tokens
  pub decode : l.decode ≤ c.max_output_tokens
  pub sequences : l.sequences ≤ c.max_concurrent_requests
  pub batch : l.batch ≤ l.sequences
  pub many : c.supports_decode_batching ≡ true → 2 ≤ l.batch
  pub single : c.supports_decode_batching ≡ false → l.batch ≡ 1
  pub whole : c.supports_chunked_prefill ≡ false → l.prefill ≡ c.max_context_tokens

check_limits-Agrees :
    (c : BackendCapabilities) (l : StepLimits)
    → step_limits c.max_concurrent_sequences c.max_prefill_tokens_per_step
        c.max_decode_tokens_per_step c.max_sequences_per_step
      ≡ ok l
    → check_limits c l ≡ ok tt
    → Agrees c l
unfolding check_limits
check_limits-Agrees c l d h =
    let prefill_ok = and-then (raise_if (ltb c.max_context_tokens l.prefill) _) _ h in
    let decode_ok = and-then (raise_if (ltb c.max_output_tokens l.decode) _) _ prefill_ok.1 in
    let sequences_ok =
      and-then (raise_if (ltb c.max_concurrent_requests l.sequences) _) _ decode_ok.1 in
    let batch_ok = and-then (raise_if (ltb l.sequences l.batch) _) _ sequences_ok.1 in
    let many_ok =
      and-then (raise_if (c.supports_decode_batching && ltb l.batch 2) _) _ batch_ok.1 in
    let single_ok =
      and-then (raise_if (not c.supports_decode_batching && not (l.batch == 1)) _) _ many_ok.1 in
    let continuous_ok =
      and-then
        (raise_if
          (c.supports_continuous_batching
            && not (c.supports_chunked_prefill && c.supports_decode_batching))
          _)
        _ single_ok.1 in
    let p0 = passes _ _ prefill_ok.0 in
    let p1 = passes _ _ decode_ok.0 in
    let p2 = passes _ _ sequences_ok.0 in
    let p3 = passes _ _ batch_ok.0 in
    let p4 = passes _ _ many_ok.0 in
    let p5 = passes _ _ single_ok.0 in
    let p6 = passes _ _ continuous_ok.1 in
    record {
      declared = d;
      prefill = ground arith;
      decode = ground arith;
      sequences = ground arith;
      batch = ground arith;
      many = λ q. ground arith;
      single = λ q. ground arith;
      whole = λ q. ground arith;
    }

check_with_steps-Agrees :
    (c : BackendCapabilities) → check_with_steps c ≡ ok tt → (l : StepLimits) × Agrees c l
unfolding check_with_steps
check_with_steps-Agrees c h =
    let cancels = and-then (raise_if (not c.supports_cancellation) _) _ h in
    let releases = and-then (raise_if (not c.supports_explicit_release) _) _ cancels.1 in
    elim (Result-cases (
      step_limits c.max_concurrent_sequences c.max_prefill_tokens_per_step
        c.max_decode_tokens_per_step c.max_sequences_per_step)) [
          | inl (x, q) ↦ let k = releases.1 in absurd (ground arith)
          | inr (l, q) ↦ let k = releases.1 in (l, check_limits-Agrees c l q (ground arith))
        ]

last : (m k : Check) → (m >> k) ≡ ok tt → k ≡ ok tt
last m k h = (and-then m k h).1

-- What the declared limits are
pub step_limits-some :
    (s p d b : Option ℕ) (l : StepLimits)
    → step_limits s p d b ≡ ok l
    → (s ≡ some l.sequences) × (p ≡ some l.prefill) × (d ≡ some l.decode) × (b ≡ some l.batch)
unfolding step_limits
step_limits-some none p d b l h = absurd (ground arith)
step_limits-some (some s) none d b l h = absurd (ground arith)
step_limits-some (some s) (some p) none b l h = absurd (ground arith)
step_limits-some (some s) (some p) (some d) none l h = absurd (ground arith)
step_limits-some (some s) (some p) (some d) (some b) l h =
    let e : Path StepLimits (record { sequences = s; prefill = p; decode = d; batch = b }) l =
      ground arith in
    rw (sym e) (refl, refl, refl, refl)

positive : (n : ℕ) (field : String) → positive_int n field ≡ ok tt → 1 ≤ n
unfolding positive_int
positive n field h = let p = passes (n == 0) field h in ground arith

declared_positive :
    (o : Option ℕ) (n : ℕ) (field : String)
    → o ≡ some n
    → optional_positive_int o field ≡ ok tt
    → 1 ≤ n
unfolding optional_positive_int
declared_positive none n field p h = absurd (ground arith)
declared_positive (some m) n field p h =
    let e : m ≡ n = ground arith in rw (sym e) (positive m field h)

-- No limit is zero.
pub record ArePositive (c : BackendCapabilities) (l : StepLimits) : Type 0 where
  pub context : 1 ≤ c.max_context_tokens
  pub output : 1 ≤ c.max_output_tokens
  pub sequences : 1 ≤ l.sequences
  pub prefill : 1 ≤ l.prefill
  pub decode : 1 ≤ l.decode
  pub batch : 1 ≤ l.batch

-- A backend with sequence steps whose capabilities pass their checks declares all four step limits, no
-- limit is zero, and they agree: a step prefills at most a context and decodes at most an output, which
-- is no more than a context; a step has at most as many sequences as may be open, and those are no more
-- than the concurrent requests; a backend that batches steps two sequences or more, another exactly
-- one; and without chunks a step can prefill the whole context.
pub check_capabilities-Agrees :
    (c : BackendCapabilities)
    → check_capabilities c ≡ ok tt
    → c.supports_sequence_steps ≡ true
    → (l : StepLimits) × Agrees c l × ArePositive c l × (c.max_output_tokens ≤ c.max_context_tokens)
unfolding check_capabilities
check_capabilities-Agrees c h steps =
    let named = last (bounded_text c.backend "backend" 256) _ h in
    let some_models = last (raise_if (length c.models == 0) "models") _ named in
    let models = last (check_models c.models) _ some_models in
    let distinct = last (raise_if (has_duplicates c.models) "models") _ models in
    let served =
      last
        (raise_if (not (c.supports_full_request || c.supports_sequence_steps))
          "supports_full_request")
        _ distinct in
    let context = and-then (positive_int c.max_context_tokens "max_context_tokens") _ served in
    let output = and-then (positive_int c.max_output_tokens "max_output_tokens") _ context.1 in
    let requests =
      last (positive_int c.max_concurrent_requests "max_concurrent_requests") _ output.1 in
    let sequences =
      and-then (optional_positive_int c.max_concurrent_sequences "max_concurrent_sequences") _
        requests in
    let within =
      and-then (raise_if (ltb c.max_context_tokens c.max_output_tokens) "max_output_tokens") _
        sequences.1 in
    let prefill =
      and-then (optional_positive_int c.max_prefill_tokens_per_step "max_prefill_tokens_per_step") _
        within.1 in
    let decode =
      and-then (optional_positive_int c.max_decode_tokens_per_step "max_decode_tokens_per_step") _
        prefill.1 in
    let batch =
      and-then (optional_positive_int c.max_sequences_per_step "max_sequences_per_step") _
        decode.1 in
    let stepped : check_with_steps c ≡ ok tt =
      rw (sym (ap (λ b. if b then check_with_steps c else check_without_steps c) steps)) batch.1 in
    let agreed = check_with_steps-Agrees c stepped in
    let l = agreed.0 in
    let d = step_limits-some _ _ _ _ l agreed.1.declared in
    let p = passes _ _ within.0 in
    (
      l,
      agreed.1,
      record {
        context = positive c.max_context_tokens "max_context_tokens" context.0;
        output = positive c.max_output_tokens "max_output_tokens" output.0;
        sequences =
            declared_positive c.max_concurrent_sequences l.sequences "max_concurrent_sequences" d.0
              sequences.0;
        prefill =
            declared_positive c.max_prefill_tokens_per_step l.prefill "max_prefill_tokens_per_step"
              d.1 prefill.0;
        decode =
            declared_positive c.max_decode_tokens_per_step l.decode "max_decode_tokens_per_step" d.2
              decode.0;
        batch =
            declared_positive c.max_sequences_per_step l.batch "max_sequences_per_step" d.3 batch.0;
      },
      ground arith,
    )

abbrev pub Fresh : SequenceHandle → List SequenceHandle → Type 0
Fresh h hs = All (λ g. g ≢ h) hs

-- No handle stands among those before it.
abbrev pub Distinct : List SequenceHandle → List SequenceStep → Type 0
Distinct seen [] = Unit
Distinct seen (s ∷ steps) = Fresh s.handle seen × Distinct (s.handle ∷ seen) steps

not_first :
    {g h : SequenceHandle} (d : Dec (g ≡ h)) (rest : Bool)
    → (if is_yes d then true else rest) ≡ false
    → (g ≢ h) × (rest ≡ false)
not_first (yes q) rest p = absurd (ground arith)
not_first (no q) rest p = (q, p)

none_equal :
    (h : SequenceHandle) (hs : List SequenceHandle)
    → any (λ g. is_yes (Handle_discrete g h)) hs ≡ false
    → Fresh h hs
unfolding any
none_equal h [] p = tt
none_equal h (g ∷ hs) p = let r = not_first (Handle_discrete g h) _ p in (r.0, none_equal h hs r.1)

check_batch_steps-Distinct :
    (max_tokens : ℕ) (seen : List SequenceHandle) (steps : List SequenceStep)
    → check_batch_steps max_tokens seen steps ≡ ok tt
    → Distinct seen steps × All (λ s. s.token_budget ≤ max_tokens) steps
unfolding check_batch_steps
check_batch_steps-Distinct max_tokens seen [] h = (tt, tt)
check_batch_steps-Distinct max_tokens seen (s ∷ steps) h =
    let fresh =
      and-then (raise_if (any (λ g. is_yes (Handle_discrete g s.handle)) seen) "steps") _ h in
    let small = and-then (raise_if (ltb max_tokens s.token_budget) "token_budget") _ fresh.1 in
    let p = passes _ _ fresh.0 in
    let q = passes _ _ small.0 in
    let rest = check_batch_steps-Distinct max_tokens (s.handle ∷ seen) steps small.1 in
    ((none_equal s.handle seen p, rest.0), (ground arith, rest.1))

-- A batch that passes has at least one step and at most `max_sequences`, no step has more than
-- `max_tokens` tokens, and no sequence stands in it twice.
pub check_batch-Distinct :
    (steps : List SequenceStep) (max_sequences max_tokens : ℕ)
    → check_batch steps max_sequences max_tokens ≡ ok tt
    → (0 < length steps)
      × (length steps ≤ max_sequences)
      × All (λ s. s.token_budget ≤ max_tokens) steps
      × Distinct [] steps
unfolding check_batch
check_batch-Distinct steps max_sequences max_tokens h =
    let filled = and-then (raise_if (length steps == 0) "steps") _ h in
    let sequences = last (positive_int max_sequences "max_sequences") _ filled.1 in
    let tokens = last (positive_int max_tokens "max_tokens_per_step") _ sequences in
    let few = and-then (raise_if (ltb max_sequences (length steps)) "steps") _ tokens in
    let p = passes _ _ filled.0 in
    let q = passes _ _ few.0 in
    let r = check_batch_steps-Distinct max_tokens [] steps few.1 in
    (ground arith, ground arith, r.1, r.0)

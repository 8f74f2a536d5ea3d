-- ===== src/Worker/Context/Ingestion.antt =====
-- What the functions of model_worker/context.py do to a prompt.
use llama.Prelude.{
  ℕ, zero, suc, ◌+◌, ◌-◌, ◌*◌, ◌≤◌, ◌<◌, ◌≡◌, ◌≢◌, ◌∙◌, ◌↔◌, refl, sym, ap, Bool, true, false, List,
  [], ◌∷◌, ◌++◌, length, take, drop, All, Option, Option-cases, Bool-cases, inl, inr, ◌==◌, ltb, ok,
  arith,
}
use llama.Worker.Context.{
  cancelled, preflight_context, slices, prompt_chunks, Ending, returned, raised, decode_raised,
  Ingested, ingest, decode_prompt,
}

-- The context takes a prompt exactly when it has room for the prompt, the reserve and the margin, and the
-- headroom is what is then left.
pub preflight_context-Fits :
    (prompt reserved n_ctx margin headroom : ℕ)
    → (preflight_context prompt reserved n_ctx margin ≡ ok headroom)
      ↔ (prompt + reserved + margin + headroom ≡ n_ctx)
unfolding preflight_context
preflight_context-Fits p r n m h = elim (Bool-cases (ltb n (p + r + m))) [
  | inl e ↦ (λ q. absurd (ground arith), λ q. absurd (ground arith))
  | inr e ↦ (λ q. ground arith, λ q. ground arith)
]

abbrev pub join : List (List ℕ) → List ℕ
join [] = []
join (xs ∷ xss) = xs ++ join xss

take-none : (n : ℕ) → Path (List ℕ) (take n []) []
take-none zero = refl
take-none (suc n) = refl

take-add : (a b : ℕ) (xs : List ℕ) → take (a + b) xs ≡ take a xs ++ take b (drop a xs)
take-add zero b xs = ap (λ i. take i xs) (omega arith)
take-add (suc a) b [] = take-none (suc a + b) ∙ sym (take-none b)
take-add (suc a) b (x ∷ xs) =
    let e : suc a + b ≡ suc (a + b) = omega arith in
    ap (λ i. take i (x ∷ xs)) e ∙ ap (λ ys. x ∷ ys) (take-add a b xs)

take-drop : (n : ℕ) (xs : List ℕ) → take n xs ++ drop n xs ≡ xs
take-drop zero xs = refl
take-drop (suc n) [] = refl
take-drop (suc n) (x ∷ xs) = ap (λ ys. x ∷ ys) (take-drop n xs)

-- One more chunk
next_chunk : (a n : ℕ) → suc a * n ≡ n + a * n
next_chunk a n = grind arith

no_chunk : (n : ℕ) → 0 * n ≡ 0
no_chunk n = omega arith

take-all : (n : ℕ) (xs : List ℕ) → length xs ≤ n → take n xs ≡ xs
take-all zero [] h = refl
take-all (suc n) [] h = refl
take-all zero (x ∷ xs) h = absurd (omega arith)
take-all (suc n) (x ∷ xs) h = rw (take-all n xs (omega arith)) refl

length-take : (n : ℕ) (xs : List ℕ) → length (take n xs) ≤ n
length-take zero xs = omega arith
length-take (suc n) [] = omega arith
length-take (suc n) (x ∷ xs) = omega (arith, length-take n xs)

length-drop : (n : ℕ) (xs : List ℕ) → length (drop n xs) ≡ length xs - n
length-drop zero xs = omega arith
length-drop (suc n) [] = omega arith
length-drop (suc n) (x ∷ xs) = omega (arith, length-drop n xs)

module _ {E : Type 0} (decode : ℕ → List ℕ → Option E) (should_stop : ℕ → Bool) where
  -- What was decoded, from call `i` of the loop, of a prompt that is cut into chunks of `n`
  pub record Reads (n i : ℕ) (tokens : List ℕ) (d : Ingested E) : Type 0 where
    -- The tokens decoded are the first ones, in their order: so many whole chunks, or all.
    pub first : join d.decoded ≡ take (length d.decoded * n) tokens
    pub sized : All (λ c. (0 < length c) × (length c ≤ n)) d.decoded
    -- A call that returns has decoded the prompt, and one that does not has left a token.
    pub whole : d.ending ≡ returned → join d.decoded ≡ tokens
    pub partial : d.ending ≢ returned → length d.decoded * n < length tokens
    -- It was cancelled as soon as it was told to stop.
    pub asked : (j : ℕ) → j < length d.decoded → should_stop (i + j) ≡ false
    pub stopped : d.ending ≡ raised cancelled → should_stop (i + length d.decoded) ≡ true

  nothing_left : (n i : ℕ) → Reads n i [] (record { decoded = []; ending = returned })
  nothing_left n i = record {
    first = sym (ap (λ j. take j []) (no_chunk n));
    sized = tt;
    whole = λ e. refl;
    partial = λ e. absurd (e refl);
    asked = λ j h. absurd (omega arith);
    stopped = λ e. absurd (ground arith);
  }

  stops :
      (n i : ℕ) (t : ℕ) (tokens : List ℕ) (end : Ending E)
      → end ≢ returned
      → (end ≡ raised cancelled → should_stop i ≡ true)
      → Reads n i (t ∷ tokens) (record { decoded = []; ending = end })
  stops n i t tokens end r c = record {
    first = sym (ap (λ j. take j (t ∷ tokens)) (no_chunk n));
    sized = tt;
    whole = λ e. absurd (r e);
    partial = λ e. omega arith;
    asked = λ j h. absurd (omega arith);
    stopped = λ e. ap should_stop (omega arith) ∙ c e;
  }

  asked_before :
      (i n : ℕ)
      → should_stop i ≡ false
      → ((j : ℕ) → j < n → should_stop (suc i + j) ≡ false)
      → (j : ℕ) → j < suc n
      → should_stop (i + j) ≡ false
  asked_before i n s h zero l = ap should_stop (omega arith) ∙ s
  asked_before i n s h (suc j) l = ap should_stop (omega arith) ∙ h j (omega arith)

  goes_on :
      (m i : ℕ) (t : ℕ) (tokens : List ℕ) (d : Ingested E)
      → should_stop i ≡ false
      → Reads (suc m) (suc i) (drop (suc m) (t ∷ tokens)) d
      → Reads (suc m) i (t ∷ tokens) (record d { decoded = take (suc m) (t ∷ tokens) ∷ d.decoded })
  goes_on m i t tokens d s r = record {
    first =
        ap (λ ys. take (suc m) (t ∷ tokens) ++ ys) r.first
        ∙ sym (take-add (suc m) (length d.decoded * suc m) (t ∷ tokens))
        ∙ sym (ap (λ j. take j (t ∷ tokens)) (next_chunk (length d.decoded) (suc m)));
    sized = ((omega arith, omega (arith, length-take m tokens)), r.sized);
    whole = λ e.
        ap (λ ys. take (suc m) (t ∷ tokens) ++ ys) (r.whole e) ∙ take-drop (suc m) (t ∷ tokens);
    partial = λ e.
        omega (arith, r.partial e, next_chunk (length d.decoded) (suc m), length-drop m tokens);
    asked = asked_before i (length d.decoded) s r.asked;
    stopped = λ e. ap should_stop (omega arith) ∙ r.stopped e;
  }

  ingest-Reads :
      (k m i : ℕ) (tokens : List ℕ)
      → length tokens ≤ k
      → Reads (suc m) i tokens (ingest decode should_stop i (slices k (suc m) tokens))
  unfolding ingest slices
  ingest-Reads zero m i [] h = nothing_left (suc m) i
  ingest-Reads (suc k) m i [] h = nothing_left (suc m) i
  ingest-Reads zero m i (t ∷ tokens) h = absurd (omega arith)
  ingest-Reads (suc k) m i (t ∷ tokens) h = elim (Bool-cases (should_stop i)) [
    | inl s ↦
        rw (s) (stops (suc m) i t tokens (raised cancelled) (λ e. absurd (ground arith)) (λ e. s))
    | inr s ↦ elim (Option-cases (decode i (take (suc m) (t ∷ tokens)))) [
      | inr (x, e) ↦
          rw (s, e)
            (stops (suc m) i t tokens (decode_raised x) (λ q. absurd (ground arith))
              (λ q. absurd (ground arith)))
      | inl e ↦
          rw (s, e)
            (goes_on m i t tokens _ s
              (ingest-Reads k m (suc i) (drop m tokens) (omega (arith, length-drop m tokens))))
    ]
  ]

  -- With a positive batch, decode_prompt decodes the first tokens of the prompt in their order, in chunks that
  -- are not empty and not longer than a batch: it returns when it has decoded all of them, and otherwise it has
  -- decoded a number of full batches with tokens left; no call of should_stop before the last said to stop, and
  -- it is cancelled only when the next one does.
  pub decode_prompt-Reads :
      (tokens : List ℕ) (n : ℕ)
      → 0 < n
      → Reads n 0 tokens (decode_prompt decode should_stop tokens n)
  unfolding decode_prompt prompt_chunks
  decode_prompt-Reads tokens zero h = absurd (omega arith)
  decode_prompt-Reads tokens (suc m) h =
      let e : (suc m == 0) ≡ false = ground arith in
      rw (e) (ingest-Reads (length tokens) m 0 tokens (omega arith))

-- ===== src/Worker/Sparing.antt =====
-- Which requests pruning leaves: `prune_terminal` of model_worker/request_registry.py.
use llama.Prelude.{
  ℕ, zero, suc, ◌+◌, ◌≤◌, Bool, false, ◌&&◌, List, [], ◌∷◌, none, some, String, String_discrete,
  Option-cases, length, take, ◌≡◌, ◌≢◌, refl, sym, ◌∙◌, arith, inl, inr, All, if-rule,
}
use llama.Prelude.Dict
use llama.Prelude.Dict.{Dict, Distinct, get-remove}
use llama.Worker.Requests.{is_terminal, RequestRecord, RequestRegistry}
use llama.Worker.Pruning.{
  Candidate, candidates, terminal_at, expired, delete, prune_at, sort, insert, before,
}
use llama.Worker.History.{lookup, prune_at-length}

-- No candidate has the id.
abbrev Spares : String → List Candidate → Type 0
Spares id cs = All (λ c. c.1 ≢ id) cs

insert-Spares :
    (id : String) (c : Candidate) (cs : List Candidate)
    → c.1 ≢ id
    → Spares id cs
    → Spares id (insert c cs)
insert-Spares id c [] n h = (n, tt)
insert-Spares id c (d ∷ ds) n h =
    if-rule (Spares id) (before c d) _ _ (n, h) (h.0, insert-Spares id c ds n h.1)

sort-Spares : (id : String) (cs : List Candidate) → Spares id cs → Spares id (sort cs)
unfolding sort
sort-Spares id [] h = tt
sort-Spares id (c ∷ cs) h = insert-Spares id c (sort cs) h.0 (sort-Spares id cs h.1)

take-Spares : (id : String) (n : ℕ) (cs : List Candidate) → Spares id cs → Spares id (take n cs)
take-Spares id zero cs h = tt
take-Spares id (suc n) [] h = tt
take-Spares id (suc n) (c ∷ cs) h = (h.0, take-Spares id n cs h.1)

module _ {A : Type 0} where
  -- A request that ended at least `ttl` ago
  abbrev pub is_expired : ℕ → ℕ → RequestRecord A → Bool
  is_expired ttl now x = is_terminal x.lifecycle && expired ttl now (terminal_at x)

  absent-Spares :
      (id : String) (ttl now : ℕ) (m : Dict String (RequestRecord A))
      → Dict.get String_discrete id m ≡ none
      → Spares id (candidates ttl now m)
  unfolding candidates Dict.get
  absent-Spares id ttl now [] h = tt
  absent-Spares id ttl now ((k, y) ∷ m) h = elim (String_discrete k id) [
    | yes q ↦ absurd (ground arith)
    | no q ↦
        let rest = absent-Spares id ttl now m (ground arith) in
        if-rule (Spares id) (is_expired ttl now y) _ _ (q, rest) rest
  ]

  candidates-Spares :
      (id : String) (x : RequestRecord A) (ttl now : ℕ) (m : Dict String (RequestRecord A))
      → Distinct String_discrete m
      → Dict.get String_discrete id m ≡ some x
      → is_expired ttl now x ≡ false
      → Spares id (candidates ttl now m)
  unfolding candidates Dict.get
  candidates-Spares id x ttl now [] d h e = absurd (ground arith)
  candidates-Spares id x ttl now ((k, y) ∷ m) d h e = elim (String_discrete k id) [
    | yes q ↦
        let same : y ≡ x = ground arith in
        let out : is_expired ttl now y ≡ false = rw same e in
        rw out (absent-Spares id ttl now m (rw (sym q) d.0))
    | no q ↦
        let rest = candidates-Spares id x ttl now m d.1 (ground arith) e in
        if-rule (Spares id) (is_expired ttl now y) _ _ (q, rest) rest
  ]

  delete-Spares :
      (id : String) (cs : List Candidate) (m : Dict String (RequestRecord A))
      → Spares id cs
      → Dict.get String_discrete id (delete cs m).0 ≡ Dict.get String_discrete id m
  unfolding delete
  delete-Spares id [] m h = refl
  delete-Spares id ((at, k) ∷ cs) m h = elim (Option-cases (Dict.get String_discrete k m)) [
    | inl p ↦ rw (p, delete) (delete-Spares id cs m h.1)
    | inr (x, p) ↦
        let n = h.0 in
        let same : Dict.get String_discrete id (Dict.remove String_discrete k m)
            ≡ Dict.get String_discrete id m =
          ground (arith, get-remove String_discrete k id m) in
        rw (p, delete) (delete-Spares id cs (Dict.remove String_discrete k m) h.1 ∙ same)
  ]

  -- Where the ids of a table are distinct, pruning removes at most `max_records` requests, all of them
  -- terminal for at least the time to live: a request that is live, or ended later, stays as it is, and
  -- the removed and the remaining requests are as many as it scanned.
  pub prune_at-Spares :
      (r : RequestRegistry A) (ttl n now : ℕ)
      → Distinct String_discrete r.records
      → let st = (prune_at r ttl n now).1 in
        ((id : String) (x : RequestRecord A)
          → lookup id r ≡ some x
          → is_expired ttl now x ≡ false
          → lookup id (prune_at r ttl n now).0 ≡ some x)
        × (st.removed_records ≤ n)
        × (length ((prune_at r ttl n now).0.records) + st.removed_records ≡ length r.records)
  unfolding prune_at
  prune_at-Spares r ttl n now d =
      let (a, b, c) = prune_at-length r ttl n now d in
      (
        λ id x h e.
            delete-Spares id (take n (sort (candidates ttl now r.records))) r.records (
              take-Spares id n _
                (sort-Spares id _ (candidates-Spares id x ttl now r.records d h e)))
            ∙ h,
        b,
        omega (arith, a, c),
      )

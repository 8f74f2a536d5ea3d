-- ===== src/Worker/History.antt =====
-- What calls of the request registry leave as it was: model_worker/request_registry.py.
use llama.Prelude.{
  ℕ, zero, suc, ◌+◌, ◌≤◌, Bool, true, false, List, [], ◌∷◌, Option, none, some, String,
  String_discrete, Option-cases, length, take, ok, ◌≡◌, ◌≢◌, refl, ap, ◌∙◌, arith, inl, inr, ◌⊎◌,
}
use llama.Prelude.Dict
use llama.Prelude.Dict.{Dict, Distinct, get-put, get-remove, remove_absent, remove-Distinct}
use llama.Worker.Requests.{
  Lifecycle, is_terminal, allowed, cancelled, RequestRecord, RequestRegistry, add_terminal_observer,
  remove_terminal_observer, create, transition_locked, notify_terminal, transition_stored,
  transition, compare_and_transition, cancel, store,
}
use llama.Worker.Pruning.{Candidate, candidates, delete, prune_at, sort}

length-take : (n : ℕ) (cs : List Candidate) → length (take n cs) ≤ n
length-take zero cs = omega arith
length-take (suc n) [] = omega arith
length-take (suc n) (c ∷ cs) = omega (arith, length-take n cs)

module _ {A : Type 0} where
  abbrev pub lookup : String → RequestRegistry A → Option (RequestRecord A)
  lookup id r = Dict.get String_discrete id r.records

  -- A terminal record is not changed, and the call says so.
  transition_locked-terminal :
      (x : RequestRecord A) (t : Lifecycle) (v e : Option A) (now : Option ℕ)
      → is_terminal x.lifecycle ≡ true
      → transition_locked x t v e now ≡ (x, ok false)
  unfolding transition_locked
  transition_locked-terminal x t v e now h = ground arith

  -- A record's lifecycle stays or takes a step of the table.
  transition_locked-allowed :
      (x : RequestRecord A) (t : Lifecycle) (v e : Option A) (now : Option ℕ)
      → ((transition_locked x t v e now).0.lifecycle ≡ x.lifecycle)
        ⊎ (allowed x.lifecycle (transition_locked x t v e now).0.lifecycle ≡ true)
  unfolding transition_locked
  transition_locked-allowed x t v e now = ground arith

  module _ (fails : String → Bool) where
    notify_terminal-records :
        (r : RequestRegistry A) (t : Lifecycle) (res : _)
        → (notify_terminal fails r t res).records ≡ r.records
    unfolding notify_terminal
    notify_terminal-records r t res = ground arith

    transition_stored-stable :
        (r : RequestRegistry A) (j id : String) (x y : RequestRecord A) (t : Lifecycle)
        (v e : Option A) (now : Option ℕ)
        → lookup j r ≡ some x
        → lookup id r ≡ some y
        → is_terminal y.lifecycle ≡ true
        → lookup id (transition_stored fails r j x t v e now).0 ≡ some y
    unfolding transition_stored
    transition_stored-stable r j id x y t v e now g h l =
        let done = transition_locked x t v e now in
        ap (Dict.get String_discrete id) (notify_terminal-records (store r j done.0) t done.1)
        ∙ ground (
          arith,
          get-put String_discrete j id done.0 r.records,
          transition_locked-terminal x t v e now,
        )

    transition-stable :
        (r : RequestRegistry A) (j id : String) (y : RequestRecord A) (t : Lifecycle)
        (v e : Option A) (now : Option ℕ)
        → lookup id r ≡ some y
        → is_terminal y.lifecycle ≡ true
        → lookup id (transition fails r j t v e now).0 ≡ some y
    unfolding transition
    transition-stable r j id y t v e now h l = elim (Option-cases (lookup j r)) [
      | inl p ↦ rw (p, transition) h
      | inr (x, p) ↦ rw (p, transition) (transition_stored-stable r j id x y t v e now p h l)
    ]

    compare_and_transition-stable :
        (r : RequestRegistry A) (j id : String) (y : RequestRecord A) (f t : Lifecycle) (b : Bool)
        (v e : Option A) (now : Option ℕ)
        → lookup id r ≡ some y
        → is_terminal y.lifecycle ≡ true
        → lookup id (compare_and_transition fails r j f t b v e now).0 ≡ some y
    unfolding compare_and_transition
    compare_and_transition-stable r j id y f t b v e now h l = elim (Option-cases (lookup j r)) [
      | inl p ↦ rw (p, compare_and_transition) h
      | inr (x, p) ↦ let q = transition_stored-stable r j id x y t v e now p h l in ground arith
    ]

    transition_stored-other :
        (r : RequestRegistry A) (j id : String) (x : RequestRecord A) (t : Lifecycle)
        (v e : Option A) (now : Option ℕ)
        → j ≢ id
        → lookup id (transition_stored fails r j x t v e now).0 ≡ lookup id r
    unfolding transition_stored
    transition_stored-other r j id x t v e now n =
        let done = transition_locked x t v e now in
        ap (Dict.get String_discrete id) (notify_terminal-records (store r j done.0) t done.1)
        ∙ ground (arith, get-put String_discrete j id done.0 r.records)

    cancel-stable :
        (r : RequestRegistry A) (j id : String) (y : RequestRecord A) (w : A) (now : Option ℕ)
        → lookup id r ≡ some y
        → is_terminal y.lifecycle ≡ true
        → lookup id (cancel fails r j w now).0 ≡ some y
    unfolding cancel
    cancel-stable r j id y w now h l = elim (Option-cases (lookup j r)) [
      | inl p ↦ rw (p, cancel) h
      | inr (x, p) ↦
          let z : RequestRecord A = record x { cancel_event = true } in
          elim (String_discrete j id) [
            | yes q ↦ ground arith
            | no q ↦
                let other = transition_stored-other r j id z cancelled none (some w) now q in
                ground (arith, other, get-put String_discrete j id z r.records)
          ]
    ]

  length-remove_found :
      (k : String) (x : RequestRecord A) (m : Dict String (RequestRecord A))
      → Distinct String_discrete m
      → Dict.get String_discrete k m ≡ some x
      → suc (length (Dict.remove String_discrete k m)) ≡ length m
  unfolding Dict.get Dict.remove
  length-remove_found k x [] d h = absurd (ground arith)
  length-remove_found k x ((i, u) ∷ m) d h =
      ground (arith, length-remove_found k x m d.1, remove_absent String_discrete k m)

  delete-length :
      (cs : List Candidate) (m : Dict String (RequestRecord A))
      → Distinct String_discrete m
      → (length ((delete cs m).0) + (delete cs m).1 ≡ length m) × ((delete cs m).1 ≤ length cs)
  unfolding delete
  delete-length [] m d = (omega arith, omega arith)
  delete-length ((at, id) ∷ cs) m d = elim (Option-cases (Dict.get String_discrete id m)) [
    | inl p ↦ let (a, b) = delete-length cs m d in rw (p, delete) (a, omega (arith, b))
    | inr (x, p) ↦
        let n = Dict.remove String_discrete id m in
        let (a, b) = delete-length cs n (remove-Distinct String_discrete id m d) in
        rw (p, delete) (omega (arith, a, length-remove_found id x m d p), omega (arith, b))
  ]

  -- Where the ids of a table are distinct, pruning removes at most `max_records` records, and the
  -- removed and the remaining ones are those it scanned.
  pub prune_at-length :
      (r : RequestRegistry A) (ttl n now : ℕ)
      → Distinct String_discrete r.records
      → let st = (prune_at r ttl n now).1 in
        (st.remaining_records + st.removed_records ≡ st.scanned_records)
        × (st.removed_records ≤ n)
        × (length ((prune_at r ttl n now).0.records) ≡ st.remaining_records)
  unfolding prune_at
  prune_at-length r ttl n now d =
      let cs = take n (sort (candidates ttl now r.records)) in
      let (a, b) = delete-length cs r.records d in
      (a, omega (arith, b, length-take n (sort (candidates ttl now r.records))), refl)

  module _ (fails : String → Bool) (id : String) where
    -- A call of the registry, by any thread. `uuid4` does not return the id again.
    pub data Call (r : RequestRegistry A) : RequestRegistry A → Type 0 where
      observes : (o : String) → Call r (add_terminal_observer r o).0
      stops_observing : (o : String) → Call r (remove_terminal_observer r o).0
      creates :
          (k a : String) (q : A) (m n : ℕ) (now : Option ℕ)
          → k ≢ id
          → Call r (create r k a q m n now).0
      moves :
          (k : String) (t : Lifecycle) (v e : Option A) (now : Option ℕ)
          → Call r (transition fails r k t v e now).0
      compares :
          (k : String) (f t : Lifecycle) (b : Bool) (v e : Option A) (now : Option ℕ)
          → Call r (compare_and_transition fails r k f t b v e now).0
      cancels : (k : String) (w : A) (now : Option ℕ) → Call r (cancel fails r k w now).0

    pub data Calls (r : RequestRegistry A) : RequestRegistry A → Type 0 where
      done : Calls r r
      next : {s t : RequestRegistry A} → Calls r s → Call s t → Calls r t

    create-other :
        (r : RequestRegistry A) (k a : String) (q : A) (m n : ℕ) (now : Option ℕ)
        → k ≢ id
        → lookup id (create r k a q m n now).0 ≡ lookup id r
    unfolding create
    create-other r k a q m n none ne = refl
    create-other r k a q m n (some now) ne = get-put String_discrete k id _ r.records ∙ ground arith

    observers-records :
        (r : RequestRegistry A) (o : String)
        → ((add_terminal_observer r o).0.records ≡ r.records)
          × ((remove_terminal_observer r o).0.records ≡ r.records)
    unfolding add_terminal_observer remove_terminal_observer
    observers-records r o = (ground arith, ground arith)

    Call-stable :
        {r s : RequestRegistry A} (y : RequestRecord A)
        → Call r s
        → lookup id r ≡ some y
        → is_terminal y.lifecycle ≡ true
        → lookup id s ≡ some y
    Call-stable {r} y (observes o) h l =
        ap (Dict.get String_discrete id) ((observers-records r o).0) ∙ h
    Call-stable {r} y (stops_observing o) h l =
        ap (Dict.get String_discrete id) ((observers-records r o).1) ∙ h
    Call-stable {r} y (creates k a q m n now ne) h l = create-other r k a q m n now ne ∙ h
    Call-stable {r} y (moves k t v e now) h l = transition-stable fails r k id y t v e now h l
    Call-stable {r} y (compares k f t b v e now) h l =
        compare_and_transition-stable fails r k id y f t b v e now h l
    Call-stable {r} y (cancels k w now) h l = cancel-stable fails r k id y w now h l

    -- A record that is terminal stays as it is, result, error and times included, over every sequence
    -- of calls that create, move, cancel and observe requests.
    pub Calls-stable :
        {r s : RequestRegistry A} (y : RequestRecord A)
        → Calls r s
        → lookup id r ≡ some y
        → is_terminal y.lifecycle ≡ true
        → lookup id s ≡ some y
    Calls-stable y done h l = h
    Calls-stable y (next cs c) h l = Call-stable y c (Calls-stable y cs h l) l

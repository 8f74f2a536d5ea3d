-- ===== src/Scheduler/Sound/Picking.antt =====
-- The entries that the queues of inference_runtime/continuous_scheduler.py give out.
use mathlib.Core.Path.{subst}
use llama.Prelude.{
  ℕ, zero, suc, Bool, true, ◌&&◌, Bool-cases, List, [], ◌∷◌, map, Option, none, some, String,
  is_yes, Result, ok, err, Result-cases, inl, inr, ◌⊎◌, ◌≡◌, refl, sym, arith, All, All-In, In,
  here, there,
}
use llama.Governance.Policy.{Error}
use llama.Governance.Selector.{select_next}
use llama.Governance.Selector.Key.{Selector, SchedulableEntry}
use llama.Governance.Selector.Lanes.{select_next-In}
use llama.Scheduler.State.{
  RuntimeRequestState, State_discrete, RequestEntry, Scheduler, find, schedulable,
}
use llama.Scheduler.Queues.{consider, candidates, taken_from, valid_ids, pop_state, take_state}
use llama.Scheduler.Sound.{Sound, lookup}

-- The entry stands in the table, in the state that was asked for.
abbrev pub IsPicked : Scheduler → RuntimeRequestState → RequestEntry → Type 0
IsPicked s state e = (find s e.scheduling.request_id ≡ some e) × (e.state ≡ state)

state-test :
    (a b : RuntimeRequestState) (c : Bool) → is_yes (State_discrete a b) && c ≡ true → a ≡ b
state-test a b c h = elim (State_discrete a b) [ yes q ↦ q | no q ↦ absurd (ground arith) ]

In-cases {ℓ} : {A : Type ℓ} {x y : A} {ys : List A} → In x (y ∷ ys) → (y ≡ x) ⊎ In x ys
In-cases here = inl refl
In-cases (there i) = inr i

module _ (s : Scheduler) (state : RuntimeRequestState) (i : Sound s.entries) where
  consider-All :
      (predicate : RequestEntry → Bool) (id : String) (o : Option RequestEntry)
      (rest : List RequestEntry)
      → find s id ≡ o
      → All (IsPicked s state) rest
      → All (IsPicked s state) (consider state predicate o rest)
  consider-All predicate id none rest p a = a
  consider-All predicate id (some e) rest p a =
      elim (Bool-cases (is_yes (State_discrete e.state state) && predicate e)) [
        | inl t ↦
            let own = (lookup s.entries id e i p).0 in
            rw t (
              (
                subst (λ j. find s j ≡ some e) (sym own) p,
                state-test e.state state (predicate e) t,
              ),
              a,
            )
        | inr t ↦ rw t a
      ]

  candidates-All :
      (predicate : RequestEntry → Bool) (ids : List String)
      → All (IsPicked s state) (candidates s state predicate ids)
  unfolding candidates
  candidates-All predicate [] = tt
  candidates-All predicate (id ∷ ids) =
      consider-All predicate id (find s id) (candidates s state predicate ids) refl
        (candidates-All predicate ids)

  In-map :
      (x : SchedulableEntry) (es : List RequestEntry)
      → In x (map schedulable es)
      → (e : RequestEntry) × In e es × (schedulable e ≡ x)
  In-map x [] h = elim h [ ]
  In-map x (e ∷ es) h = elim (In-cases h) [
    | inl p ↦ (e, here, p)
    | inr k ↦ let r = In-map x es k in (r.0, there r.1, r.2)
  ]

  taken_from-IsPicked :
      (ids : List String) (es : List RequestEntry)
      (o : Selector × Result Error (Option SchedulableEntry)) (e : RequestEntry)
      → All (IsPicked s state) es
      → ((t : Selector) (x : SchedulableEntry) → o ≡ (t, ok (some x)) → In x (map schedulable es))
      → (taken_from s ids o).taken ≡ ok (some e)
      → IsPicked s state e
  taken_from-IsPicked ids es (t, err x) e a f h = absurd (ground arith)
  taken_from-IsPicked ids es (t, ok none) e a f h = absurd (ground arith)
  taken_from-IsPicked ids es (t, ok (some x)) e a f h =
      let m = In-map x es (f t x refl) in
      let k = All-In (IsPicked s state) m.0 es a m.1 in
      let p : find s x.scheduling.request_id ≡ some m.0 =
        subst (λ y. find s y.scheduling.request_id ≡ some m.0) m.2 k.0 in
      let q : m.0 ≡ e = ground arith in subst (IsPicked s state) q k

  pub pop_state-IsPicked :
      (queue : List String) (predicate : RequestEntry → Bool) (now : ℕ) (e : RequestEntry)
      → (pop_state s queue state predicate now).taken ≡ ok (some e)
      → IsPicked s state e
  unfolding pop_state
  pop_state-IsPicked queue predicate now e h =
      let es = candidates s state predicate queue in
      taken_from-IsPicked (valid_ids s state queue) es
        (select_next s.selector (map schedulable es) now) e (candidates-All predicate queue)
        (λ t x p. select_next-In s.selector (map schedulable es) now t x p) h

abbrev pub AllPicked : Scheduler → RuntimeRequestState → Result Error (List RequestEntry) → Type 0
AllPicked s state (err x) = Unit
AllPicked s state (ok es) = All (IsPicked s state) es

add-AllPicked :
    (s : Scheduler) (state : RuntimeRequestState) (e : RequestEntry)
    (r : Result Error (List RequestEntry))
    → IsPicked s state e
    → AllPicked s state r
    → AllPicked s state (elim r [ err x ↦ err x | ok es ↦ ok (e ∷ es) ])
add-AllPicked s state e (err x) p a = tt
add-AllPicked s state e (ok es) p a = (p, a)

pub take_state-AllPicked :
    (n : ℕ) (s : Scheduler) (queue : List String) (state : RuntimeRequestState) (now : ℕ)
    → Sound s.entries
    → AllPicked s state (take_state n s queue state now).taken
unfolding take_state
take_state-AllPicked zero s queue state now i = tt
take_state-AllPicked (suc n) s queue state now i =
    let p = pop_state s queue state (λ e. true) now in
    elim (Result-cases p.taken) [
      | inl (x, q) ↦ rw (q, AllPicked) tt
      | inr (none, q) ↦ rw (q, AllPicked) tt
      | inr (some e, q) ↦
          rw (q, AllPicked)
            (add-AllPicked s state e _ (pop_state-IsPicked s state i queue (λ c. true) now e q)
              (take_state-AllPicked n (record s { selector = p.selector }) p.queue state now i))
    ]

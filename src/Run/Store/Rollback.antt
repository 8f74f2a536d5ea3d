-- ===== src/Run/Store/Rollback.antt =====
-- Appends that raise, and any sequence of appends: agent_runtime/event_store.py.
use mathlib.Core.List.{append-nil, append_assoc}
use llama.Prelude.{
  ℕ, suc, ◌≡◌, refl, none, some, any, ◌∷◌, Option-cases, sym, ap, ◌∙◌, ◌⊎◌, inl, inr, List, [],
  ◌++◌, String, String_discrete, length, ◌==◌, Result, ok, err, Result-cases, Bool-cases, arith,
  All, ite,
}
use llama.Run.Payload.{valid_identifier}
use llama.Run.State.{AgentEvent, type_error}
use llama.Run.Store.{
  Codec, Row, Store, StoreError, rejected, rows_for, transact, append_rows, append, insert_all,
  conflicts, check_stream, begin, rollback, duplicate_claim,
}
use llama.Run.Store.Rows.{ReadsBack, IsEvent}
use llama.Run.Store.Refinement.{Log, extend, Represents, append-Appended}

pair_eq : {A B : Type 0} {p : A × B} {b : B} → p.1 ≡ b → p ≡ (p.0, b)
pair_eq {A} {B} {p} q = λ i. (p.0, q i)

-- What an append that raised has left: the store as it was, or, for the `TypeError` of the reducer
-- that no handler catches, the store with its rows as they were and the transaction still open.
abbrev pub RolledBack : Store → Store → StoreError → Type 0
RolledBack s t e = (t ≡ s) ⊎ ((e ≡ rejected type_error) × (t ≡ record s { backup = some s.rows }))

module _ (codec : Codec) where
  insert_all-caught :
      (rows rs : List Row) (e : StoreError)
      → (insert_all codec rows rs).1 ≡ err e
      → e ≡ duplicate_claim
  unfolding insert_all
  insert_all-caught rows [] e h = absurd (ground arith)
  insert_all-caught rows (r ∷ rs) e h = elim (Bool-cases (any (conflicts codec r) rows)) [
    | inl c ↦ ground arith
    | inr c ↦ insert_all-caught (rows ++ r ∷ []) rs e (ground arith)
  ]

  -- The `TypeError` comes before the INSERT.
  transact-escapes :
      (s : Store) (run_id : String) (version : ℕ) (es : List AgentEvent) (rows : List Row)
      → (transact codec s run_id version es rows).1 ≡ err (rejected type_error)
      → (transact codec s run_id version es rows).0 ≡ s.rows
  unfolding transact
  transact-escapes s run_id version es rows h =
      elim (Result-cases (check_stream codec s run_id version es)) [
        | inl (x, c) ↦ rw (transact, c) refl
        | inr (u, c) ↦
            let d = insert_all-caught s.rows rows (rejected type_error) (ground arith) in
            absurd (ground arith)
      ]

  settle_error :
      (s t : Store) (run_id : String) (version : ℕ) (es : List AgentEvent) (rows : List Row)
      (e : StoreError)
      → s.backup ≡ none
      → append_rows codec s run_id version es (ok rows) ≡ (t, err e)
      → RolledBack s t e
  unfolding append_rows begin rollback
  settle_error s t run_id version es rows e free h =
      elim (Result-cases (transact codec (begin s) run_id version es rows).1) [
        | inl (rejected type_error, q) ↦
            let same = transact-escapes (begin s) run_id version es rows q in
            inr (ground arith, ground arith)
        | inl (x, q) ↦ inl (ground arith)
        | inr (u, q) ↦ absurd (ground arith)
      ]

  append_rows-RolledBack :
      (s t : Store) (run_id : String) (version : ℕ) (es : List AgentEvent)
      (p : Result StoreError (List Row)) (e : StoreError)
      → append_rows codec s run_id version es p ≡ (t, err e)
      → RolledBack s t e
  append_rows-RolledBack s t run_id version es (err x) e h =
      inl (unfold append_rows in ground arith)
  append_rows-RolledBack s t run_id version es (ok rows) e h = elim (Option-cases s.backup) [
    | inr (b, busy) ↦ inl (unfold append_rows in ground arith)
    | inl free ↦ settle_error s t run_id version es rows e free h
  ]

  pub append-RolledBack :
      (s t : Store) (run_id : String) (version : ℕ) (es : List AgentEvent) (e : StoreError)
      → append codec s run_id version es ≡ (t, err e)
      → RolledBack s t e
  unfolding append
  append-RolledBack s t run_id version es e h = elim (Bool-cases (valid_identifier run_id)) [
    | inr bad ↦ inl (ground arith)
    | inl v ↦ elim (Bool-cases (length es == 0)) [
      | inl none_given ↦ inl (ground arith)
      | inr some_given ↦
          append_rows-RolledBack s t run_id version es (rows_for codec run_id (suc version) es) e
            (ground arith)
    ]
  ]

  -- Appends of any callers to any runs, whether they return or raise.
  pub data Appends (s : Store) : Store → Type 0 where
    no_append : Appends s s
    and_append :
        {t : Store} (run_id : String) (version : ℕ) (es : List AgentEvent)
        → Appends s t
        → All (IsEvent codec) es
        → Appends s (append codec t run_id version es).0

  -- A later log has all events of an earlier one, in the same places.
  abbrev pub Extends : Log → Log → Type 0
  Extends log later =
      (run_id : String) → (more : List AgentEvent) × (later run_id ≡ log run_id ++ more)

  Extends-extend :
      (log later : Log) (run_id : String) (more : List AgentEvent)
      → Extends log later
      → Extends log (extend later run_id more)
  Extends-extend log later run_id more x other =
      let (old, e) = x other in
      elim (String_discrete run_id other)
        as (λ d.
          (m : List AgentEvent) × (ite d (later run_id ++ more) (later other) ≡ log other ++ m)) [
            | yes p ↦ (
              old ++ more,
              ap (λ o. later o ++ more) p
                  ∙ ap (λ l. l ++ more) e
                  ∙ append_assoc (log other) old more,
            )
            | no n ↦ (old, e)
          ]

  RolledBack-rows : (s t : Store) (e : StoreError) → RolledBack s t e → t.rows ≡ s.rows
  RolledBack-rows s t e (inl p) = ap (λ (u : Store). u.rows) p
  RolledBack-rows s t e (inr (x, p)) = ap (λ (u : Store). u.rows) p

  -- The event log only grows: after any appends, of which some may have raised, the store stands for
  -- a log that extends the one before it.
  pub Appends-Represents :
      {s t : Store} (log : Log)
      → ReadsBack codec
      → Represents codec s.rows log
      → Appends s t
      → (later : Log) × Represents codec t.rows later × Extends log later
  Appends-Represents log back r no_append = (log, r, λ run_id. ([], sym (append-nil (log run_id))))
  Appends-Represents {s} log back r (and_append {t} run_id version es before valid) =
      let (later, kept, more) = Appends-Represents log back r before in
      let after = (append codec t run_id version es).0 in
      elim (Result-cases (append codec t run_id version es).1) [
        | inl (e, q) ↦
            let same =
              RolledBack-rows t after e
                (append-RolledBack t after run_id version es e (pair_eq q)) in
            (later, rw same kept, more)
        | inr (n, q) ↦
            let d =
              append-Appended codec t after later run_id version n es back valid kept (pair_eq q) in
            (
              extend later run_id d.events,
              d.represents,
              Extends-extend log later run_id d.events more,
            )
      ]

-- ===== src/Run/Store/Refinement.antt =====
-- The store as an append-only log: what `append` and `load` promise, whatever the rows look like.
use llama.Prelude.{
  ℕ, suc, ◌+◌, ◌≡◌, ◌≢◌, sym, ap, inl, inr, true, List, ◌++◌, String, String_discrete, length, ok,
  none, Option-cases, Result-cases, Bool-cases, arith, All, ite,
}
use mathlib.Core.Path.{subst}
use mathlib.Core.List.{append-nil}
use llama.Run.Payload.{valid_identifier}
use llama.Run.State.{AgentEvent, AgentRunState}
use llama.Run.Reducer.{replay}
use llama.Run.Store.{
  Codec, Row, Store, rows_of, last_sequence, numbered, rows_for, read_rows, load, transact,
  check_stream, begin, commit, append_rows, append,
}
use llama.Run.Store.Rows.{
  IsNumbered, IsNumbered-append, ordered-IsNumbered, last_sequence-length, rows_of-append,
  insert_all-append, Prepared, rows_for-Prepared, Prepared-IsNumbered, Prepared-own, Prepared-other,
  Prepared-read, read_rows-append, read_rows-length, ReadsBack, IsEvent, Stored,
}

-- The abstract view: the events of each run, in order.
abbrev pub Log : Type 0
Log = String → List AgentEvent

abbrev pub extend : Log → String → List AgentEvent → Log
extend log run_id more other = ite (String_discrete run_id other) (log run_id ++ more) (log other)

module _ (codec : Codec) where
  -- The table stands for a log: every run's rows are numbered from one and read back as its events.
  pub record Represents (rows : List Row) (log : Log) : Type 0 where
    pub counted : (run_id : String) → IsNumbered 1 (rows_of run_id rows)
    pub reads : (run_id : String) → read_rows codec 1 (rows_of run_id rows) ≡ ok (log run_id)

  -- `load` returns the events of the log.
  pub load-Represents :
      (s : Store) (log : Log) (run_id : String)
      → Represents s.rows log
      → valid_identifier run_id ≡ true
      → load codec s run_id ≡ ok (log run_id)
  unfolding load
  load-Represents s log run_id r v =
      let same = ordered-IsNumbered 1 (rows_of run_id s.rows) (r.counted run_id) in
      let reads = r.reads run_id in rw (v, same) reads

  pub record Transacted (rows : List Row) (log : Log) (run_id : String) (version : ℕ)
      (es : List AgentEvent) (new out : List Row) : Type 0 where
    pub at_version : version ≡ length (log run_id)
    pub state : AgentRunState
    pub replays :
        replay codec.has_attribute run_id (log run_id ++ numbered (suc version) es) ≡ ok state
    pub result : out ≡ rows ++ new

  transact-Transacted :
      (s : Store) (log : Log) (run_id : String) (version : ℕ) (es : List AgentEvent)
      (new : List Row)
      → Represents s.rows log
      → valid_identifier run_id ≡ true
      → (transact codec s run_id version es new).1 ≡ ok tt
      → Transacted s.rows log run_id version es new (transact codec s run_id version es new).0
  unfolding transact check_stream
  transact-Transacted s log run_id version es new r v h =
      let loaded = load-Represents s log run_id r v in
      let last = last_sequence-length (rows_of run_id s.rows) (r.counted run_id) in
      let many = read_rows-length codec 1 (rows_of run_id s.rows) (log run_id) (r.reads run_id) in
      elim (Result-cases (check_stream codec s run_id version es)) [
        | inl (x, c) ↦ absurd (ground arith)
        | inr (u, c) ↦
            let at : last_sequence (rows_of run_id s.rows) ≡ version = ground arith in
            elim (Result-cases
              (replay codec.has_attribute run_id (log run_id ++ numbered (suc version) es))) [
                | inl (x, q) ↦ absurd (ground arith)
                | inr (st, q) ↦ record {
                  at_version = omega (arith, at, last, many);
                  state = st;
                  replays = q;
                  result = rw (transact, c) (insert_all-append codec s.rows new (ground arith));
                }
              ]
      ]

  abbrev Stands : String → List Row → List AgentEvent → Type 0
  Stands run_id rs es = IsNumbered 1 rs × (read_rows codec 1 rs ≡ ok es)

  Stands-own :
      (run_id : String) (rs new : List Row) (old es fs : List AgentEvent) (version : ℕ)
      → Stands run_id rs old
      → Prepared codec run_id (suc version) es new
      → version ≡ length old
      → read_rows codec (suc version) new ≡ ok fs
      → Stands run_id (rs ++ new) (old ++ fs)
  Stands-own run_id rs new old es fs version s p v read =
      let many = read_rows-length codec 1 rs old s.1 in
      let at : suc version ≡ 1 + length rs = omega (arith, v, many) in
      (
        IsNumbered-append 1 rs new s.0 (rw at at (Prepared-IsNumbered codec p)),
        read_rows-append codec 1 rs new old fs s.1 (rw (← at) read),
      )

  Stands-other :
      (run_id other : String) (rs new : List Row) (es fs : List AgentEvent) (n : ℕ)
      → run_id ≢ other
      → Prepared codec run_id n fs new
      → Stands other rs es
      → Stands other (rs ++ rows_of other new) es
  Stands-other run_id other rs new es fs n ne p s =
      let none_new = Prepared-other codec other (λ e. ne (sym e)) p in
      rw (none_new, append-nil rs) s

  Transacted-Stands :
      (rows : List Row) (log : Log) (run_id : String) (version : ℕ) (es fs : List AgentEvent)
      (new : List Row) (other : String)
      → Represents rows log
      → Prepared codec run_id (suc version) es new
      → version ≡ length (log run_id)
      → read_rows codec (suc version) new ≡ ok fs
      → Stands other (rows_of other (rows ++ new)) (extend log run_id fs other)
  Transacted-Stands rows log run_id version es fs new other r p v read =
      let split = rows_of-append other rows new in
      elim (String_discrete run_id other)
        as (λ d.
          Stands other (rows_of other (rows ++ new)) (ite d (log run_id ++ fs) (log other))) [
            | yes e ↦
                let own = Prepared-own codec p in
                let before : Stands run_id (rows_of run_id rows) (log run_id) =
                  (r.counted run_id, r.reads run_id) in
                let after =
                  Stands-own run_id (rows_of run_id rows) new (log run_id) es fs version before p v
                    read in
                let here : Stands run_id (rows_of run_id (rows ++ new)) (log run_id ++ fs) =
                  rw (rows_of-append run_id rows new, own) after in
                subst (λ o. Stands o (rows_of o (rows ++ new)) (log run_id ++ fs)) e here
            | no ne ↦
                let before : Stands other (rows_of other rows) (log other) =
                  (r.counted other, r.reads other) in
                rw split (
                  Stands-other run_id other (rows_of other rows) new (log other) es (suc version) ne
                    p before)
          ]

  Transacted-Represents :
      (rows : List Row) (log : Log) (run_id : String) (version : ℕ) (es fs : List AgentEvent)
      (new out : List Row)
      → Represents rows log
      → Prepared codec run_id (suc version) es new
      → version ≡ length (log run_id)
      → read_rows codec (suc version) new ≡ ok fs
      → out ≡ rows ++ new
      → Represents out (extend log run_id fs)
  Transacted-Represents rows log run_id version es fs new out r p v read same =
      let stands =
        λ (other : String). Transacted-Stands rows log run_id version es fs new other r p v read in
      subst (λ o. Represents o (extend log run_id fs)) (sym same)
        (record { counted = λ o. (stands o).0; reads = λ o. (stands o).1 })

  -- What an append that returned has done.
  pub record Appended (s t : Store) (log : Log) (run_id : String) (version : ℕ)
      (es : List AgentEvent) (next : ℕ) : Type 0 where
    pub at_version : version ≡ length (log run_id)
    pub next_version : next ≡ length (log run_id) + length es
    pub state : AgentRunState
    pub replays :
        replay codec.has_attribute run_id (log run_id ++ numbered (suc version) es) ≡ ok state
    -- The events as they are read from then on
    pub events : List AgentEvent
    pub stored : Stored codec (suc version) es events
    pub represents : Represents t.rows (extend log run_id events)
    pub closed : t.backup ≡ none

  append_rows-Appended :
      (s t : Store) (log : Log) (run_id : String) (version next : ℕ) (es : List AgentEvent)
      (new : List Row)
      → ReadsBack codec
      → All (IsEvent codec) es
      → Represents s.rows log
      → valid_identifier run_id ≡ true
      → rows_for codec run_id (suc version) es ≡ ok new
      → append_rows codec s run_id version es (ok new) ≡ (t, ok next)
      → Appended s t log run_id version es next
  unfolding append_rows begin commit
  append_rows-Appended s t log run_id version next es new back valid r v p h =
      elim (Option-cases s.backup) [
        | inr (b, busy) ↦ absurd (ground arith)
        | inl free ↦ elim (Result-cases (transact codec (begin s) run_id version es new).1) [
          | inl (x, q) ↦ absurd (ground arith)
          | inr (u, q) ↦
              let out = (transact codec (begin s) run_id version es new).0 in
              let d = transact-Transacted (begin s) log run_id version es new r v q in
              let same : t ≡ record { rows = out; backup = none } = ground arith in
              let count : next ≡ version + length es = ground arith in
              let at = d.at_version in
              let prepared = rows_for-Prepared codec run_id (suc version) es new p in
              let (fs, read, st) = Prepared-read codec back valid (omega arith) prepared in
              let kept =
                Transacted-Represents s.rows log run_id version es fs new out r prepared at read
                  d.result in
              record {
                at_version = at;
                next_version = omega (arith, at, count);
                state = d.state;
                replays = d.replays;
                events = fs;
                stored = st;
                represents = rw (ap (λ (u : Store). u.rows) same) kept;
                closed = ap (λ (u : Store). u.backup) same;
              }
        ]
      ]

  -- `append` refines the extension of the log: when it returns, the caller's version was the number of
  -- events of the run, the reducer accepts the events of the run with the new ones after them, numbered
  -- from the next version, the new events are read back after the old ones with these numbers, with
  -- payloads of the same canonical text, no other run has changed, and the returned version counts the
  -- events. Events are taken as their constructor lets them through, and the JSON library to read what it
  -- wrote as a payload that it writes in the same way.
  pub append-Appended :
      (s t : Store) (log : Log) (run_id : String) (version next : ℕ) (es : List AgentEvent)
      → ReadsBack codec
      → All (IsEvent codec) es
      → Represents s.rows log
      → append codec s run_id version es ≡ (t, ok next)
      → Appended s t log run_id version es next
  unfolding append append_rows
  append-Appended s t log run_id version next es back valid r h =
      elim (Bool-cases (valid_identifier run_id)) [
        | inr bad ↦ absurd (ground arith)
        | inl v ↦ elim (Result-cases (rows_for codec run_id (suc version) es)) [
          | inl (x, p) ↦ absurd (ground arith)
          | inr (new, p) ↦
              append_rows-Appended s t log run_id version next es new back valid r v p
                (ground arith)
        ]
      ]

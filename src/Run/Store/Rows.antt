-- ===== src/Run/Store/Rows.antt =====
-- The rows of one run: numbered from one without gaps, and what reading them gives.
use mathlib.Core.Path.{subst}
use mathlib.Core.List.{append-nil, append_assoc}
use llama.Prelude.{
  ℕ, suc, ◌+◌, ◌≤◌, ◌≡◌, ◌≢◌, refl, sym, ap, ◌∙◌, inl, inr, true, List, [], ◌∷◌, ◌++◌, none, some,
  is_yes, String_discrete, ◌==◌, String, select, any, length, max, ok, Result-cases, Option-cases,
  Bool-cases, arith, All,
}
use llama.Run.State.{AgentEvent}
use llama.Run.Payload.{Payload}
use llama.Run.Store.{
  same_text, Codec, Row, rows_of, last_sequence, ordered, insert_row, row_of, rows_for, read_row,
  read_rows, insert_all, conflicts, valid_event, canonical_json, parse_payload,
}

-- Each row has the next number.
abbrev pub IsNumbered : ℕ → List Row → Type 0
IsNumbered n [] = Unit
IsNumbered n (r ∷ rs) = (r.sequence ≡ n) × IsNumbered (suc n) rs

pub IsNumbered-append :
    (n : ℕ) (xs ys : List Row)
    → IsNumbered n xs
    → IsNumbered (n + length xs) ys
    → IsNumbered n (xs ++ ys)
IsNumbered-append n [] ys h k = let e : n + 0 ≡ n = omega arith in rw e at k
IsNumbered-append n (x ∷ xs) ys h k =
    let e : n + suc (length xs) ≡ suc n + length xs = omega arith in
    (h.0, IsNumbered-append (suc n) xs ys h.1 (rw e at k))

insert_row-first :
    (n : ℕ) (r : Row) (rs : List Row)
    → r.sequence ≡ n
    → IsNumbered (suc n) rs
    → insert_row r rs ≡ r ∷ rs
insert_row-first n r [] e h = refl
insert_row-first n r (x ∷ xs) e h = ground arith

-- Numbered rows are in order already.
pub ordered-IsNumbered : (n : ℕ) (rs : List Row) → IsNumbered n rs → ordered rs ≡ rs
unfolding ordered
ordered-IsNumbered n [] h = refl
ordered-IsNumbered n (r ∷ rs) h =
    ap (insert_row r) (ordered-IsNumbered (suc n) rs h.1) ∙ insert_row-first n r rs h.0 h.1

last_sequence-max :
    (m : ℕ) (rs : List Row) → IsNumbered (suc m) rs → max m (last_sequence rs) ≡ m + length rs
unfolding last_sequence
last_sequence-max m [] h = ground arith
last_sequence-max m (r ∷ rs) h = ground (arith, last_sequence-max (suc m) rs)

-- The largest number of a run is the number of its rows.
pub last_sequence-length : (rs : List Row) → IsNumbered 1 rs → last_sequence rs ≡ length rs
last_sequence-length rs h = ground (arith, last_sequence-max 0 rs)

pub rows_of-append :
    (run_id : String) (xs ys : List Row)
    → rows_of run_id (xs ++ ys) ≡ rows_of run_id xs ++ rows_of run_id ys
unfolding select
rows_of-append run_id [] ys = refl
rows_of-append run_id (x ∷ xs) ys = ground (arith, rows_of-append run_id xs ys)

module _ (codec : Codec) where
  pub insert_all-append :
      (rows rs : List Row)
      → (insert_all codec rows rs).1 ≡ ok tt
      → (insert_all codec rows rs).0 ≡ rows ++ rs
  unfolding insert_all
  insert_all-append rows [] h = sym (append-nil rows)
  insert_all-append rows (r ∷ rs) h = elim (Bool-cases (any (conflicts codec r) rows)) [
    | inl c ↦ absurd (ground arith)
    | inr c ↦
        rw (insert_all, c)
          (insert_all-append (rows ++ r ∷ []) rs (ground arith) ∙ append_assoc rows (r ∷ []) rs)
  ]

  -- The rows that `append` prepares for events, one by one.
  pub data Prepared (run_id : String) : ℕ → List AgentEvent → List Row → Type 0 where
    no_more : {n : ℕ} → Prepared run_id n [] []
    one_more :
        {n : ℕ} {es : List AgentEvent} {rs : List Row} (e : AgentEvent) (json : String)
        → canonical_json codec e.payload ≡ some json
        → Prepared run_id (suc n) es rs
        → Prepared run_id n (e ∷ es) (row_of codec run_id n e json ∷ rs)

  pub rows_for-Prepared :
      (run_id : String) (n : ℕ) (es : List AgentEvent) (rs : List Row)
      → rows_for codec run_id n es ≡ ok rs
      → Prepared run_id n es rs
  unfolding rows_for
  rows_for-Prepared run_id n [] rs h = subst (Prepared run_id n []) (ground arith) no_more
  rows_for-Prepared run_id n (e ∷ es) rs h = elim (Option-cases (canonical_json codec e.payload)) [
    | inl c ↦ absurd (ground arith)
    | inr (json, c) ↦ elim (Result-cases (rows_for codec run_id (suc n) es)) [
      | inl (x, d) ↦ absurd (ground arith)
      | inr (rest, d) ↦
          let same : row_of codec run_id n e json ∷ rest ≡ rs = ground arith in
          subst (Prepared run_id n (e ∷ es)) same
            (one_more e json c (rows_for-Prepared run_id (suc n) es rest d))
    ]
  ]

  pub Prepared-IsNumbered :
      {run_id : String} {n : ℕ} {es : List AgentEvent} {rs : List Row}
      → Prepared run_id n es rs
      → IsNumbered n rs
  Prepared-IsNumbered no_more = tt
  Prepared-IsNumbered (one_more e json c p) = (refl, Prepared-IsNumbered p)

  -- They belong to the run.
  pub Prepared-own :
      {run_id : String} {n : ℕ} {es : List AgentEvent} {rs : List Row}
      → Prepared run_id n es rs
      → rows_of run_id rs ≡ rs
  unfolding select
  Prepared-own no_more = refl
  Prepared-own (one_more e json c p) = ground (arith, Prepared-own p)

  pub Prepared-other :
      {run_id : String} {n : ℕ} {es : List AgentEvent} {rs : List Row} (other : String)
      → other ≢ run_id
      → Prepared run_id n es rs
      → rows_of other rs ≡ []
  unfolding select
  Prepared-other other ne no_more = refl
  Prepared-other other ne (one_more e json c p) = ground (arith, Prepared-other other ne p)

  pub Prepared-length :
      {run_id : String} {n : ℕ} {es : List AgentEvent} {rs : List Row}
      → Prepared run_id n es rs
      → length rs ≡ length es
  Prepared-length no_more = refl
  Prepared-length (one_more e json c p) = omega (arith, Prepared-length p)

  -- Reading a list of rows is reading its parts.
  pub read_rows-append :
      (n : ℕ) (xs ys : List Row) (es fs : List AgentEvent)
      → read_rows codec n xs ≡ ok es
      → read_rows codec (n + length xs) ys ≡ ok fs
      → read_rows codec n (xs ++ ys) ≡ ok (es ++ fs)
  unfolding read_rows
  read_rows-append n [] ys es fs h k =
      let e : n + 0 ≡ n = omega arith in
      let none_read : es ≡ [] = ground arith in rw none_read (rw e at k)
  read_rows-append n (x ∷ xs) ys es fs h k = elim (Result-cases (read_row codec x)) [
    | inl (y, d) ↦ absurd (ground arith)
    | inr (e, d) ↦ elim (Result-cases (read_rows codec (suc n) xs)) [
      | inl (y, q) ↦ absurd (ground arith)
      | inr (rest, q) ↦
          let c : n + suc (length xs) ≡ suc n + length xs = omega arith in
          let tail = read_rows-append (suc n) xs ys rest fs q (rw c at k) in
          let same : es ≡ e ∷ rest = ground arith in ground (arith, tail)
    ]
  ]

  pub read_rows-length :
      (n : ℕ) (xs : List Row) (es : List AgentEvent)
      → read_rows codec n xs ≡ ok es
      → length es ≡ length xs
  unfolding read_rows
  read_rows-length n [] es h = ground arith
  read_rows-length n (x ∷ xs) es h = elim (Result-cases (read_row codec x)) [
    | inl (y, d) ↦ absurd (ground arith)
    | inr (e, d) ↦ elim (Result-cases (read_rows codec (suc n) xs)) [
      | inl (y, q) ↦ absurd (ground arith)
      | inr (rest, q) ↦ let ih = read_rows-length (suc n) xs rest q in ground arith
    ]
  ]

  -- What the JSON library documents: a text that it wrote, it reads; and what it then has, which is the
  -- payload with its keys in another order, it writes as the same text.
  abbrev pub ReadsBack : Type 0
  ReadsBack =
      (p : Payload) (s : String)
      → codec.dumps p ≡ some s
      → (q : Payload) × (codec.loads s ≡ some q) × (codec.dumps q ≡ some s)

  -- An event as its constructor lets it through, whatever number it is given.
  abbrev pub IsEvent : AgentEvent → Type 0
  IsEvent e = (valid_event codec (record e { sequence = none }) ≡ true) × (e.event_version ≡ 1)

  -- Events that were given numbers from `n`, and what is read of them: the payload may have its keys in
  -- another order, but has the same canonical text.
  pub data Stored : ℕ → List AgentEvent → List AgentEvent → Type 0 where
    none_stored : {n : ℕ} → Stored n [] []
    one_stored :
        {n : ℕ} {es fs : List AgentEvent} (e : AgentEvent) (q : Payload)
        → canonical_json codec q ≡ canonical_json codec e.payload
        → Stored (suc n) es fs
        → Stored n (e ∷ es) (record e { payload = q; sequence = some n } ∷ fs)

  same_text_refl : (s : String) → same_text s s ≡ true
  same_text_refl s = elim (String_discrete s s) as (λ d. is_yes d ≡ true) [
    | yes p ↦ refl
    | no n ↦ absurd (n refl)
  ]

  parse_payload-written :
      (p q : Payload) (s : String)
      → codec.loads s ≡ some q
      → codec.dumps q ≡ some s
      → parse_payload codec s ≡ some q
  unfolding parse_payload canonical_json
  parse_payload-written p q s l d = let t = same_text_refl s in ground arith

  read_row-row_of :
      (run_id : String) (n : ℕ) (e : AgentEvent) (json : String)
      → ReadsBack
      → IsEvent e
      → 1 ≤ n
      → canonical_json codec e.payload ≡ some json
      → (q : Payload) × (canonical_json codec q ≡ some json)
        × (read_row codec (row_of codec run_id n e json)
            ≡ ok (record e { payload = q; sequence = some n }))
  unfolding read_row valid_event canonical_json
  read_row-row_of run_id n e json back valid pos c =
      let (q, l, d) = back e.payload json c in
      let p = parse_payload-written e.payload q json l d in
      let t = same_text_refl (codec.digest json) in
      let v = valid.0 in let w = valid.1 in (q, d, ground arith)

  -- What `append` prepares reads back as the events with their numbers.
  pub Prepared-read :
      {run_id : String} {n : ℕ} {es : List AgentEvent} {rs : List Row}
      → ReadsBack
      → All IsEvent es
      → 1 ≤ n
      → Prepared run_id n es rs
      → (fs : List AgentEvent) × (read_rows codec n rs ≡ ok fs) × Stored n es fs
  unfolding read_rows
  Prepared-read back v pos no_more = ([], refl, none_stored)
  Prepared-read {run_id} {n} back v pos (one_more e json c p) =
      let (fs, ih, st) = Prepared-read back v.1 (omega arith) p in
      let (q, d, r) = read_row-row_of run_id n e json back v.0 pos c in
      let same : n == n ≡ true = ground arith in (_, ground arith, one_stored e q (d ∙ sym c) st)

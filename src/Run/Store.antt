-- ===== src/Run/Store.antt =====
-- The durable event streams: agent_runtime/event_store.py, with the validation of `AgentEvent` in
-- agent_runtime/events.py. The table is a list of rows in the order of insertion. The JSON library,
-- SHA-256, `datetime` and SQLite's `json_extract` are arguments. A row's kind is taken to be one of
-- `KNOWN_EVENT_KINDS`.
pub mod Rows
pub mod Refinement
pub mod Rollback
use llama.Prelude.{
  ℕ, suc, ◌+◌, Bool, true, false, not, ◌&&◌, ◌||◌, List, [], ◌∷◌, ◌++◌, Option, none, some, String,
  String_discrete, is_yes, select, any, length, map, leb, ◌==◌, max, if◌then◌else◌, Result, ok, err,
  ◌>>=◌, ◌>>◌, raise_if,
}
use llama.Run.Payload.{Payload, text, valid_identifier}
use llama.Run.State.{
  EventKind, tool_proposed, tool_transition, budget_consumed, authorization_recorded, AgentEvent,
  ReplayError, type_error,
}
use llama.Run.Reducer.{replay, Step}

-- What the libraries answer: `json.dumps` with its sorted keys (`none` where it raises), `json.loads` with
-- the hooks that raise on a repeated key and on a constant (`none` where it raises or the value is no
-- object), `payload_digest`, whether a text is a timestamp in UTC, the key that the last unique index
-- extracts from a payload's text, and the names that `hasattr` finds.
pub record Codec : Type 0 where
  pub dumps : Payload → Option String
  pub loads : String → Option Payload
  pub digest : String → String
  pub is_utc : String → Bool
  pub idempotency_key : String → Option String
  pub has_attribute : String → Bool

-- A row of `agent_run_events`
pub record Row : Type 0 where
  pub run_id : String
  pub sequence : ℕ
  pub event_id : String
  pub event_version : ℕ
  pub event_kind : EventKind
  pub occurred_at_utc : String
  pub payload_json : String
  pub payload_sha256 : String
  pub action_id : Option String
  pub invocation_id : Option String
  pub budget_claim_id : Option String

-- The rows that the connection sees, and inside a transaction those that ROLLBACK puts back.
pub record Store : Type 0 where
  pub rows : List Row
  pub backup : Option (List Row)

pub data StoreError : Type 0 where
  value_error invalid_identifier invalid_event version_conflict duplicate_claim : StoreError
  event_gap hash_mismatch unknown_event_version invalid_persisted_event operational_error :
      StoreError
  rejected : ReplayError → StoreError

abbrev or_raise : {A : Type 0} → Option A → StoreError → Result StoreError A
or_raise none e = err e
or_raise (some a) e = ok a

abbrev pub same_text : String → String → Bool
same_text s t = is_yes (String_discrete s t)

abbrev shares : Option String → Option String → Bool
shares (some s) (some t) = same_text s t
shares _ _ = false

-- `WHERE run_id=?`
abbrev pub rows_of : String → List Row → List Row
rows_of run_id rows = select (λ r. same_text r.run_id run_id) rows

-- `COALESCE(MAX(sequence),0)`
unfoldable pub last_sequence : List Row → ℕ
last_sequence [] = 0
last_sequence (r ∷ rs) = max r.sequence (last_sequence rs)

-- `ORDER BY sequence`
abbrev pub insert_row : Row → List Row → List Row
insert_row r [] = r ∷ []
insert_row r (x ∷ xs) =
    let rest = insert_row r xs in if leb r.sequence x.sequence then r ∷ x ∷ xs else x ∷ rest

unfoldable pub ordered : List Row → List Row
ordered [] = []
ordered (r ∷ rs) = insert_row r (ordered rs)

-- `replace(event, sequence=...)` for each event
unfoldable pub numbered : ℕ → List AgentEvent → List AgentEvent
numbered n [] = []
numbered n (e ∷ es) = record e { sequence = some n } ∷ numbered (suc n) es

abbrev pub is_proposal : EventKind → Bool
is_proposal tool_proposed = true
is_proposal _ = false

abbrev names_invocation : EventKind → Bool
names_invocation tool_proposed = true
names_invocation tool_transition = true
names_invocation _ = false

abbrev is_claim : EventKind → Bool
is_claim budget_consumed = true
is_claim _ = false

abbrev is_authorization : EventKind → Bool
is_authorization authorization_recorded = true
is_authorization _ = false

abbrev when : {A : Type 0} → Bool → Option A → Option A
when true o = o
when false o = none

-- `BEGIN IMMEDIATE`, outside a transaction
unfoldable pub begin : Store → Store
begin s = record s { backup = some s.rows }

-- `COMMIT`
unfoldable pub commit : Store → Store
commit s = record s { backup = none }

-- `ROLLBACK`
unfoldable pub rollback : Store → Store
rollback s = elim s.backup [ none ↦ s | some rows ↦ record { rows = rows; backup = none } ]

module _ (codec : Codec) where
  open codec use {dumps, loads, digest, is_utc, idempotency_key, has_attribute}

  -- `canonical_json`; a payload has no number that is not finite
  unfoldable pub canonical_json : Payload → Option String
  canonical_json p = dumps p

  abbrev if_canonical : Payload → Option String → String → Option Payload
  if_canonical p none s = none
  if_canonical p (some t) s = if same_text t s then some p else none

  -- `parse_canonical_payload`
  unfoldable pub parse_payload : String → Option Payload
  unfolding canonical_json
  parse_payload s = elim (loads s) [ none ↦ none | some p ↦ if_canonical p (canonical_json p) s ]

  -- `AgentEvent.__post_init__`, for a kind that is known
  unfoldable pub valid_event : AgentEvent → Bool
  unfolding canonical_json
  valid_event e =
      valid_identifier e.event_id
      && e.event_version == 1
      && elim e.sequence [ none ↦ true | some n ↦ leb 1 n ]
      && is_utc e.occurred_at_utc
      && elim (canonical_json e.payload) [ none ↦ false | some s ↦ true ]

  abbrev pub row_of : String → ℕ → AgentEvent → String → Row
  row_of run_id n e json = record {
    run_id = run_id;
    sequence = n;
    event_id = e.event_id;
    event_version = e.event_version;
    event_kind = e.event_kind;
    occurred_at_utc = e.occurred_at_utc;
    payload_json = json;
    payload_sha256 = digest json;
    action_id = when (is_proposal e.event_kind) (text "action_id" e.payload);
    invocation_id = when (names_invocation e.event_kind) (text "invocation_id" e.payload);
    budget_claim_id = when (is_claim e.event_kind) (text "claim_id" e.payload);
  }

  -- The rows that `append` prepares
  unfoldable pub rows_for : String → ℕ → List AgentEvent → Result StoreError (List Row)
  unfolding canonical_json
  rows_for run_id n [] = ok []
  rows_for run_id n (e ∷ es) = do
    json ← or_raise (canonical_json e.payload) invalid_event
    rest ← rows_for run_id (suc n) es
    ok (row_of run_id n e json ∷ rest)

  -- The event that a row holds, as the body of the loop of `load` rebuilds it
  unfoldable pub read_row : Row → Result StoreError AgentEvent
  unfolding valid_event parse_payload
  read_row r = do
    raise_if (not (same_text (digest r.payload_json) r.payload_sha256)) hash_mismatch
    raise_if (not (r.event_version == 1)) unknown_event_version
    payload ← or_raise (parse_payload r.payload_json) invalid_persisted_event
    let e : AgentEvent = record {
      event_id = r.event_id;
      event_kind = r.event_kind;
      payload = payload;
      occurred_at_utc = r.occurred_at_utc;
      event_version = r.event_version;
      sequence = some r.sequence;
    }
    raise_if (not (valid_event e)) invalid_persisted_event
    ok e

  -- The loop of `load`
  unfoldable pub read_rows : ℕ → List Row → Result StoreError (List AgentEvent)
  unfolding read_row
  read_rows expected [] = ok []
  read_rows expected (r ∷ rs) = do
    raise_if (not (r.sequence == expected)) event_gap
    e ← read_row r
    es ← read_rows (suc expected) rs
    ok (e ∷ es)

  -- `load`
  unfoldable pub load : Store → String → Result StoreError (List AgentEvent)
  unfolding ordered read_rows
  load s run_id = do
    raise_if (not (valid_identifier run_id)) invalid_identifier
    read_rows 1 (ordered (rows_of run_id s.rows))

  abbrev key_of : Row → Option String
  key_of r = when (is_authorization r.event_kind) (idempotency_key r.payload_json)

  -- Whether a row may not stand beside another: the primary key and the unique indexes
  unfoldable pub conflicts : Row → Row → Bool
  conflicts r x =
      (same_text r.run_id x.run_id && r.sequence == x.sequence)
      || same_text r.event_id x.event_id
      || shares r.action_id x.action_id
      || (is_proposal r.event_kind
          && is_proposal x.event_kind
          && shares r.invocation_id x.invocation_id)
      || shares r.budget_claim_id x.budget_claim_id
      || shares (key_of r) (key_of x)

  -- `executemany("INSERT ...")`: a row that conflicts raises, and those before it have been inserted.
  unfoldable pub insert_all : List Row → List Row → List Row × Result StoreError (Unit {0})
  unfolding conflicts
  insert_all rows [] = (rows, ok tt)
  insert_all rows (r ∷ rs) =
      let rest = insert_all (rows ++ r ∷ []) rs in
      if any (conflicts r) rows then (rows, err duplicate_claim) else rest

  -- The reducer's errors, as `append` meets them
  abbrev from_replay : Step → Result StoreError (Unit {0})
  from_replay (ok t) = ok tt
  from_replay (err e) = err (rejected e)

  -- The statements from `BEGIN` up to the INSERT
  unfoldable pub check_stream : Store → String → ℕ → List AgentEvent → Result StoreError (Unit {0})
  unfolding load
  check_stream s run_id expected_version events = do
    raise_if (not (last_sequence (rows_of run_id s.rows) == expected_version)) version_conflict
    existing ← load s run_id
    from_replay (replay has_attribute run_id (existing ++ numbered (suc expected_version) events))

  abbrev pub then_insert :
      Store → List Row → Result StoreError (Unit {0}) → List Row × Result StoreError (Unit {0})
  then_insert s rows (err e) = (s.rows, err e)
  then_insert s rows (ok u) = insert_all s.rows rows

  -- The statements between `BEGIN` and `COMMIT`: the rows that the connection then sees
  unfoldable pub transact :
      Store → String → ℕ → List AgentEvent → List Row → List Row × Result StoreError (Unit {0})
  unfolding check_stream insert_all
  transact s run_id expected_version events rows =
      then_insert s rows (check_stream s run_id expected_version events)

  -- The handlers: every error rolls back but the `TypeError` of the reducer, which no clause catches.
  abbrev pub escapes : StoreError → Bool
  escapes (rejected type_error) = true
  escapes _ = false

  abbrev pub settle : Store → ℕ → Result StoreError (Unit {0}) → Store × Result StoreError ℕ
  settle s version (ok u) = (commit s, ok version)
  settle s version (err e) = (if escapes e then s else rollback s, err e)

  abbrev pub run_transaction :
      Store → String → ℕ → List AgentEvent → List Row → Store × Result StoreError ℕ
  run_transaction s run_id expected_version events rows =
      let done = transact s run_id expected_version events rows in
      settle (record s { rows = done.0 }) (expected_version + length events) done.1

  -- `append` once its arguments have passed
  unfoldable pub append_rows :
      Store
      → String
      → ℕ
      → List AgentEvent
      → Result StoreError (List Row)
      → Store × Result StoreError ℕ
  unfolding transact begin commit rollback
  append_rows s run_id expected_version events (err e) = (s, err e)
  append_rows s run_id expected_version events (ok rows) = elim s.backup [
    | some b ↦ (s, err operational_error)
    | none ↦ run_transaction (begin s) run_id expected_version events rows
  ]

  -- `append`
  unfoldable pub append : Store → String → ℕ → List AgentEvent → Store × Result StoreError ℕ
  unfolding rows_for append_rows
  append s run_id expected_version events =
      if not (valid_identifier run_id)
      then (s, err invalid_identifier)
      else if length events == 0
      then (s, err value_error)
      else append_rows s run_id expected_version events
          (rows_for run_id (suc expected_version) events)

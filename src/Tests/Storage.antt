-- ===== src/Tests/Storage.antt =====
-- A store that takes the first event of a run, and one whose transaction was left open.
use mathlib.Core.Path.{subst}
use llama.Prelude.{
  is_identifier, has_control, ◌≡◌, refl, String, String_discrete, ℕ_discrete, Option, none, some,
  List, [], ◌∷◌, true, false, any, select, ok, arith, All,
}
use llama.Prelude.Dict
use llama.Prelude.Int.{ℤ}
use llama.Run.Payload.{
  Payload, object, null, lookup, text, count, truthy, valid_identifier, find_field, field_count,
}
use llama.Run.State.{run_created, AgentEvent}
use llama.Run.Reducer.{replay, replay_from, create, check_counts, apply_event}
use llama.Run.Store.{
  row_of, Codec, Store, canonical_json, check_stream, begin, commit, rollback, last_sequence,
  ordered, numbered, valid_event, rows_for, read_row, read_rows, load, conflicts, insert_all,
  transact, append_rows, append,
}
use llama.Run.Store.Rows.{ReadsBack, IsEvent}
use llama.Run.Store.Refinement.{Log, Represents, Appended, append-Appended}
use llama.Run.Store.Rollback.{no_append, and_append, Extends, Appends-Represents}
use llama.Tests.Replay.{event, budgets}

ℤ_discrete : Discrete ℤ
unfolding ℕ_discrete
ℤ_discrete = hlevel ℕ_discrete

Payload_discrete : Discrete Payload
unfolding ℤ_discrete
Payload_discrete = hlevel (String_discrete, ℕ_discrete, ℤ_discrete)

-- A payload, and the same with its keys in order
abbrev created : Payload
created = ("note", null) ∷ ("budgets", object budgets) ∷ []

abbrev sorted : Payload
sorted = ("budgets", object budgets) ∷ ("note", null) ∷ []

abbrev dumps : Payload → Option String
dumps p = elim (Payload_discrete p created) [
  | yes q ↦ some "created"
  | no q ↦ elim (Payload_discrete p sorted) [ yes r ↦ some "created" | no r ↦ none ]
]

-- A codec that knows the payload in both orders, and writes and reads it with its keys in order
abbrev codec : Codec
codec = record {
  dumps = dumps;
  loads = λ s. elim (String_discrete s "created") [ yes q ↦ some sorted | no q ↦ none ];
  digest = λ s. s;
  is_utc = λ s. true;
  idempotency_key = λ s. none;
  has_attribute = λ s. false;
}

knows : dumps created ≡ some "created"
knows =
    elim (Payload_discrete created created)
      as (λ d.
        Path (Option String)
          (elim d [
            | yes q ↦ some "created"
            | no q ↦ elim (Payload_discrete created sorted) [ yes r ↦ some "created" | no r ↦ none ]
          ])
          (some "created")) [ yes q ↦ refl | no q ↦ absurd (q refl) ]

knows_sorted : dumps sorted ≡ some "created"
knows_sorted =
    elim (Payload_discrete sorted created)
      as (λ d.
        Path (Option String)
          (elim d [
            | yes q ↦ some "created"
            | no q ↦ elim (Payload_discrete sorted sorted) [ yes r ↦ some "created" | no r ↦ none ]
          ])
          (some "created")) [
            | yes q ↦ refl
            | no q ↦
                elim (Payload_discrete sorted sorted)
                  as (λ d.
                    Path (Option String) (elim d [ yes r ↦ some "created" | no r ↦ none ])
                      (some "created")) [ yes r ↦ refl | no r ↦ absurd (r refl) ]
          ]

one_text : (p : Payload) (s : String) → dumps p ≡ some s → "created" ≡ s
one_text p s h = elim (Payload_discrete p created) [
  | yes q ↦ ground arith
  | no q ↦ elim (Payload_discrete p sorted) [ yes r ↦ ground arith | no r ↦ absurd (ground arith) ]
]

reads_back : ReadsBack codec
unfolding String_discrete
reads_back p s h =
    subst (λ t. (q : Payload) × (codec.loads t ≡ some q) × (dumps q ≡ some t)) (one_text p s h)
      (sorted, refl, knows_sorted)

abbrev first : List AgentEvent
first = event run_created 1 created ∷ []

abbrev empty : Store
empty = record { rows = []; backup = none }

abbrev no_events : Log
no_events run_id = []

abbrev after : Store
after = record {
  rows = row_of codec "run" 1 (event run_created 1 created) "created" ∷ [];
  backup = none;
}

appended : append codec empty "run" 0 first ≡ (after, ok 1)
unfolding append append_rows rows_for transact check_stream begin commit rollback load read_rows
    read_row ordered last_sequence numbered valid_event canonical_json insert_all conflicts replay
    replay_from create check_counts apply_event text count lookup truthy valid_identifier
    is_identifier has_control find_field field_count any select Dict.get String_discrete
appended = rw knows refl

none_stored : Represents codec empty.rows no_events
unfolding select read_rows
none_stored = record { counted = λ run_id. tt; reads = λ run_id. refl }

first-IsEvent : All (IsEvent codec) first
unfolding valid_event canonical_json valid_identifier is_identifier has_control
first-IsEvent = ((rw knows refl, refl), tt)

append-Appended_example : Appended codec empty after no_events "run" 0 first 1
append-Appended_example =
    append-Appended codec empty after no_events "run" 0 1 first reads_back first-IsEvent none_stored
      appended

Appends-Represents_example :
    (later : Log) × Represents codec (append codec empty "run" 0 first).0.rows later
    × Extends codec no_events later
Appends-Represents_example =
    Appends-Represents codec no_events reads_back none_stored
      (and_append "run" 0 first no_append first-IsEvent)
